-- ===== src/Graph/Where/Meaning.antt =====
-- What a filter means, without its loops.
use tx_indexer.Base.{◌≡◌, ◌↔◌, ◌⊎◌, inl, inr, refl, Bool, true, false, if◌then◌else◌, arith}
use tx_indexer.Graph.Where.{
  Where, Wheres, plain, negated, nil, cons, eval, eval_all, eval_or, eval_any,
}

both_iff :
    {P Q : Type 0} (b c : Bool)
    → (b ≡ true) ↔ P
    → (c ≡ true) ↔ Q
    → ((if b then c else false) ≡ true) ↔ (P × Q)
both_iff true c p q = (λ h. (p.0 refl, q.0 h), λ h. q.1 h.1)
both_iff false c p q = (λ h. absurd (ground arith), λ h. absurd (let e = p.1 h.0 in ground arith))

pub either_iff :
    {P Q : Type 0} (b c : Bool)
    → (b ≡ true) ↔ P
    → (c ≡ true) ↔ Q
    → ((if b then true else c) ≡ true) ↔ (P ⊎ Q)
either_iff true c p q = (λ h. inl (p.0 refl), λ h. refl)
either_iff false c p q = (
  λ h. inr (q.0 h),
  λ h. elim h [ inl x ↦ absurd (let e = p.1 x in ground arith) | inr y ↦ q.1 y ],
)

unless_iff :
    {P Q : Type 0} (b c : Bool)
    → (b ≡ true) ↔ P
    → (c ≡ true) ↔ Q
    → ((if b then false else c) ≡ true) ↔ ((¬ P) × Q)
unless_iff true c p q = (λ h. absurd (ground arith), λ h. absurd (h.0 (p.0 refl)))
unless_iff false c p q = (λ h. ((λ x. absurd (let e = p.1 x in ground arith)), q.0 h), λ h. q.1 h.1)

same_iff : (b : Bool) → (b ≡ true) ↔ (b ≡ true)
same_iff b = (λ h. h, λ h. h)

module _ {F A : Type 0} (fields_match : F → A → Bool) where
  mutual
    -- Every filter of the conjunction, one of the disjunction unless it is empty, not the negation,
    -- and the fields.
    pub Holds : Where F → A → Type 0
    Holds (plain conj disj fields) a =
        HoldAll conj a × HoldsOr disj a × (fields_match fields a ≡ true)
    Holds (negated conj disj inverse fields) a =
        HoldAll conj a × HoldsOr disj a × (¬ Holds inverse a) × (fields_match fields a ≡ true)

    pub HoldAll : Wheres F → A → Type 0
    HoldAll nil a = Unit
    HoldAll (cons w ws) a = Holds w a × HoldAll ws a

    pub HoldsOr : Wheres F → A → Type 0
    HoldsOr nil a = Unit
    HoldsOr (cons w ws) a = Holds w a ⊎ HoldsAny ws a

    pub HoldsAny : Wheres F → A → Type 0
    HoldsAny nil a = ⊥
    HoldsAny (cons w ws) a = Holds w a ⊎ HoldsAny ws a

  mutual
    unfolding eval eval_all eval_or eval_any Holds HoldAll HoldsOr HoldsAny

    frame_iff : (w : Where F) (a : A) → (eval fields_match w a ≡ true) ↔ Holds w a
    frame_iff (plain conj disj fields) a =
        let (to, from) =
          both_iff (eval_all fields_match conj a)
            (if eval_or fields_match disj a then fields_match fields a else false) (conj_iff conj a)
            (both_iff (eval_or fields_match disj a) (fields_match fields a) (or_iff disj a)
              (same_iff (fields_match fields a))) in
        ((λ h. let r = to h in (r.0, r.1.0, r.1.1)), (λ h. from (h.0, (h.1, h.2))))
    frame_iff (negated conj disj inverse fields) a =
        let (to, from) =
          both_iff (eval_all fields_match conj a)
            (if eval_or fields_match disj a
              then if eval fields_match inverse a then false else fields_match fields a
              else false)
            (conj_iff conj a)
            (both_iff (eval_or fields_match disj a)
              (if eval fields_match inverse a then false else fields_match fields a) (or_iff disj a)
              (unless_iff (eval fields_match inverse a) (fields_match fields a)
                (frame_iff inverse a) (same_iff (fields_match fields a)))) in
        (
          (λ h. let r = to h in (r.0, r.1.0, r.1.1.0, r.1.1.1)),
          (λ h. from (h.0, (h.1, (h.2, h.3)))),
        )

    conj_iff : (ws : Wheres F) (a : A) → (eval_all fields_match ws a ≡ true) ↔ HoldAll ws a
    conj_iff nil a = ((λ h. tt), (λ h. refl))
    conj_iff (cons w ws) a =
        both_iff (eval fields_match w a) (eval_all fields_match ws a) (frame_iff w a)
          (conj_iff ws a)

    or_iff : (ws : Wheres F) (a : A) → (eval_or fields_match ws a ≡ true) ↔ HoldsOr ws a
    or_iff nil a = ((λ h. tt), (λ h. refl))
    or_iff (cons w ws) a =
        either_iff (eval fields_match w a) (eval_any fields_match ws a) (frame_iff w a)
          (any_iff ws a)

    any_iff : (ws : Wheres F) (a : A) → (eval_any fields_match ws a ≡ true) ↔ HoldsAny ws a
    any_iff nil a = ((λ h. absurd (ground arith)), (λ h. absurd h))
    any_iff (cons w ws) a =
        either_iff (eval fields_match w a) (eval_any fields_match ws a) (frame_iff w a)
          (any_iff ws a)

  -- A filter accepts an object exactly if its meaning holds of it: every filter of the conjunction,
  -- one of the disjunction unless that is empty, not the negated one, and the fields.
  pub eval_iff : (w : Where F) (a : A) → (eval fields_match w a ≡ true) ↔ Holds w a
  eval_iff w a = frame_iff w a
