-- ===== src/Graph/Where/Range/Sound.antt =====
-- Whether the range that is read off a filter holds every object that the filter accepts: it does if
-- every alternative of a disjunction names a bound, and else it may not.
use tx_indexer.Base.{
  All, ◌≢◌, List, [], ◌∷◌, Option, none, some, Bool, true, false, if◌then◌else◌, ◌≡◌, ◌↔◌, inl, inr,
  refl, Bool-cases, arith,
}
use tx_indexer.Base.Int.{ℤ, eqb_ℤ, ◌≤ℤ◌}
use tx_indexer.Graph.Where.{
  Where, Wheres, plain, negated, nil, cons, IntPtr, FilterInt, eval, eval_all, eval_or, eval_any,
  eval_int, field, above, below, value_of, root_eval, check_eq, check_exists,
}
use tx_indexer.Graph.Where.Range.{
  less, greater, pick, pick_own, extreme, extreme_over, lower_ends, upper_ends, min_max, Bounded,
  BoundedConj, BoundedDisj,
}

module _ {F A : Type 0} (fields_match : F → A → Bool) (height : A → ℤ) (replaces : ℤ → ℤ → Bool)
    (own : F → List (Option IntPtr)) (Reaches : ℤ → ℤ → Type 0)
    (replace_lem : (s m h : ℤ) → replaces s m ≡ true → Reaches m h → Reaches s h)
    (keep_lem : (s m h : ℤ) → replaces s m ≡ false → Reaches s h → Reaches m h) where
  -- A bound that is there and reaches the height; a bound that does so if it is there.
  abbrev Tight : Option IntPtr → ℤ → Type 0
  Tight none h = ⊥
  Tight (some p) h = Reaches p.value h

  abbrev pub Loose : Option IntPtr → ℤ → Type 0
  Loose none h = Unit
  Loose (some p) h = Reaches p.value h

  Loose-of_Tight : (o : Option IntPtr) (h : ℤ) → Tight o h → Loose o h
  Loose-of_Tight none h t = tt
  Loose-of_Tight (some p) h t = t

  Tight-of_Loose : (o : Option IntPtr) (h : ℤ) → o ≢ none → Loose o h → Tight o h
  Tight-of_Loose none h n l = absurd (n refl)
  Tight-of_Loose (some p) h n l = l

  pick-Tight_best :
      (best s : Option IntPtr) (h : ℤ) → Tight best h → Tight (pick replaces own best s) h
  unfolding pick
  pick-Tight_best (some m) none h t = t
  pick-Tight_best (some m) (some s) h t = elim (Bool-cases (replaces s.value m.value)) [
    | inl y ↦ rw y (replace_lem s.value m.value h y t)
    | inr n ↦ rw n t
  ]
  pick-Tight_best none s h t = absurd t

  pick-Tight_new : (best s : Option IntPtr) (h : ℤ) → Tight s h → Tight (pick replaces own best s) h
  unfolding pick
  pick-Tight_new none (some s) h t = t
  pick-Tight_new (some m) (some s) h t = elim (Bool-cases (replaces s.value m.value)) [
    | inl y ↦ rw y t
    | inr n ↦ rw n (keep_lem s.value m.value h n t)
  ]
  pick-Tight_new best none h t = absurd t

  pick-Loose :
      (best s : Option IntPtr) (h : ℤ)
      → Loose best h
      → Loose s h
      → Loose (pick replaces own best s) h
  unfolding pick
  pick-Loose best none h b t = b
  pick-Loose none (some s) h b t = t
  pick-Loose (some m) (some s) h b t =
      Loose-of_Tight (pick replaces own (some m) (some s)) h (pick-Tight_new (some m) (some s) h t)

  pick_own-Loose :
      (best : Option IntPtr) (ss : List (Option IntPtr)) (h : ℤ)
      → Loose best h
      → All (λ s. Loose s h) ss
      → Loose (pick_own replaces own best ss) h
  unfolding pick_own
  pick_own-Loose best [] h b a = b
  pick_own-Loose best (s ∷ ss) h b a =
      pick_own-Loose (pick replaces own best s) ss h (pick-Loose best s h b a.0) a.1

  over-Tight :
      (ws : Wheres F) (best : Option IntPtr) (h : ℤ)
      → Tight best h
      → Tight (extreme_over replaces own best ws) h
  unfolding extreme_over
  over-Tight nil best h t = t
  over-Tight (cons w ws) best h t =
      over-Tight ws (pick replaces own best (extreme replaces own w)) h
        (pick-Tight_best best (extreme replaces own w) h t)

  any_step :
      (w : Where F) (ws : Wheres F) (best : Option IntPtr) (a : A)
      → extreme replaces own w ≢ none
      → (eval fields_match w a ≡ true → Loose (extreme replaces own w) (height a))
      → (eval_any fields_match ws a ≡ true
          → Tight
              (extreme_over replaces own (pick replaces own best (extreme replaces own w)) ws)
              (height a))
      → (if eval fields_match w a then true else eval_any fields_match ws a) ≡ true
      → Tight
          (extreme_over replaces own (pick replaces own best (extreme replaces own w)) ws)
          (height a)
  any_step w ws best a n f g e = elim (Bool-cases (eval fields_match w a)) [
    | inl y ↦ over-Tight ws (pick replaces own best (extreme replaces own w)) (height a) (
        pick-Tight_new best (extreme replaces own w) (height a)
          (Tight-of_Loose (extreme replaces own w) (height a) n (f y)))
    | inr no_match ↦ g (ground arith)
  ]

  module _
      (own_lem : (fields : F) (a : A)
        → fields_match fields a ≡ true
        → All (λ s. Loose s (height a)) (own fields)) where
    mutual
      unfolding extreme extreme_over eval eval_all eval_or eval_any Bounded BoundedConj BoundedDisj

      frame-Loose :
          (w : Where F) (a : A)
          → Bounded replaces own w
          → eval fields_match w a ≡ true
          → Loose (extreme replaces own w) (height a)
      frame-Loose (plain conj disj fields) a b e =
          pick_own-Loose (extreme_over replaces own (extreme_over replaces own none conj) disj)
            (own fields) (height a)
            (or-Loose disj (extreme_over replaces own none conj) a b.1 (ground arith)
              (conj-Loose conj none a b.0 (ground arith) tt))
            (own_lem fields a (ground arith))
      frame-Loose (negated conj disj inverse fields) a b e =
          pick_own-Loose (extreme_over replaces own (extreme_over replaces own none conj) disj)
            (own fields) (height a)
            (or-Loose disj (extreme_over replaces own none conj) a b.1 (ground arith)
              (conj-Loose conj none a b.0 (ground arith) tt))
            (own_lem fields a (ground arith))

      conj-Loose :
          (ws : Wheres F) (best : Option IntPtr) (a : A)
          → BoundedConj replaces own ws
          → eval_all fields_match ws a ≡ true
          → Loose best (height a)
          → Loose (extreme_over replaces own best ws) (height a)
      conj-Loose nil best a b e l = l
      conj-Loose (cons w ws) best a b e l =
          conj-Loose ws (pick replaces own best (extreme replaces own w)) a b.1 (ground arith) (
            pick-Loose best (extreme replaces own w) (height a) l
              (frame-Loose w a b.0 (ground arith)))

      or-Loose :
          (ws : Wheres F) (best : Option IntPtr) (a : A)
          → BoundedDisj replaces own ws
          → eval_or fields_match ws a ≡ true
          → Loose best (height a)
          → Loose (extreme_over replaces own best ws) (height a)
      or-Loose nil best a b e l = l
      or-Loose (cons w ws) best a b e l =
          Loose-of_Tight (extreme_over replaces own best (cons w ws)) (height a) (
            any_step w ws best a b.1 (λ y. frame-Loose w a b.0 y)
              (λ y. any-Tight ws (pick replaces own best (extreme replaces own w)) a b.2 y) e)

      any-Tight :
          (ws : Wheres F) (best : Option IntPtr) (a : A)
          → BoundedDisj replaces own ws
          → eval_any fields_match ws a ≡ true
          → Tight (extreme_over replaces own best ws) (height a)
      any-Tight nil best a b e = absurd (ground arith)
      any-Tight (cons w ws) best a b e =
          any_step w ws best a b.1 (λ y. frame-Loose w a b.0 y)
            (λ y. any-Tight ws (pick replaces own best (extreme replaces own w)) a b.2 y) e

    pub extreme-Loose :
        (w : Where F) (a : A)
        → Bounded replaces own w
        → eval fields_match w a ≡ true
        → Loose (extreme replaces own w) (height a)
    extreme-Loose w a = frame-Loose w a

abbrev pub AtMost : Option IntPtr → ℤ → Type 0
AtMost none h = Unit
AtMost (some p) h = p.value ≤ℤ h

abbrev pub AtLeast : Option IntPtr → ℤ → Type 0
AtLeast none h = Unit
AtLeast (some p) h = h ≤ℤ p.value

above_lem : (o : Option IntPtr) (h : ℤ) → above o h ≡ true → AtMost o h
unfolding above
above_lem none h e = tt
above_lem (some p) h e = ground arith

below_lem : (o : Option IntPtr) (h : ℤ) → below o h ≡ true → AtLeast o h
unfolding below
below_lem none h e = tt
below_lem (some p) h e = ground arith

eq_lem :
    (exists : Option Bool) (o : Option IntPtr) (h : ℤ)
    → root_eval eqb_ℤ (some h) exists (value_of o) ≡ true
    → AtMost o h × AtLeast o h
unfolding root_eval value_of check_eq check_exists
eq_lem exists none h e = (tt, tt)
eq_lem none (some p) h e = (ground arith, ground arith)
eq_lem (some true) (some p) h e = (ground arith, ground arith)
eq_lem (some false) (some p) h e = absurd (ground arith)

ends_lem :
    (f : FilterInt) (h : ℤ)
    → eval_int f h ≡ true
    → (AtMost f.gt h × AtMost f.eq h) × (AtLeast f.lt h × AtLeast f.eq h)
unfolding eval_int
ends_lem f h e =
    let same = eq_lem f.exists f.eq h (ground arith) in
    ((above_lem f.gt h (ground arith), same.0), (below_lem f.lt h (ground arith), same.1))

less_replace : (s m h : ℤ) → less s m ≡ true → m ≤ℤ h → s ≤ℤ h
less_replace s m h e l = ground arith

less_keep : (s m h : ℤ) → less s m ≡ false → s ≤ℤ h → m ≤ℤ h
less_keep s m h e l = ground arith

greater_replace : (s m h : ℤ) → greater s m ≡ true → h ≤ℤ m → h ≤ℤ s
greater_replace s m h e l = ground arith

greater_keep : (s m h : ℤ) → greater s m ≡ false → h ≤ℤ s → h ≤ℤ m
greater_keep s m h e l = ground arith

module _ {F A : Type 0} (fields_match : F → A → Bool) (height : A → ℤ) (of : F → Option FilterInt)
    (reads : (fields : F) (a : A)
      → fields_match fields a ≡ true
      → field eval_int (of fields) (height a) ≡ true) where
  abbrev Low : Option IntPtr → ℤ → Type 0
  Low =
      Loose fields_match height less (λ f. lower_ends (of f)) (λ s m. s ≤ℤ m) less_replace less_keep

  abbrev High : Option IntPtr → ℤ → Type 0
  High =
      Loose fields_match height greater (λ f. upper_ends (of f)) (λ s m. m ≤ℤ s) greater_replace
        greater_keep

  Low-iff : (o : Option IntPtr) (h : ℤ) → Low o h ↔ AtMost o h
  Low-iff none h = ((λ l. l), (λ l. l))
  Low-iff (some p) h = ((λ l. l), (λ l. l))

  High-iff : (o : Option IntPtr) (h : ℤ) → High o h ↔ AtLeast o h
  High-iff none h = ((λ l. l), (λ l. l))
  High-iff (some p) h = ((λ l. l), (λ l. l))

  ends_Loose :
      (f : Option FilterInt) (h : ℤ)
      → field eval_int f h ≡ true
      → All (λ s. Low s h) (lower_ends f) × All (λ s. High s h) (upper_ends f)
  unfolding field lower_ends upper_ends
  ends_Loose none h e = (tt, tt)
  ends_Loose (some f) h e =
      let (low, high) = ends_lem f h e in
      (
        ((Low-iff f.gt h).1 low.0, ((Low-iff f.eq h).1 low.1, tt)),
        ((High-iff f.lt h).1 high.0, ((High-iff f.eq h).1 high.1, tt)),
      )

  -- An object that a filter accepts is within the range read off the filter, on each side on which
  -- every alternative names a bound.
  pub min_max_range :
      (w : Where F) (a : A)
      → Bounded less (λ f. lower_ends (of f)) w
      → Bounded greater (λ f. upper_ends (of f)) w
      → eval fields_match w a ≡ true
      → AtMost (min_max of w).0 (height a) × AtLeast (min_max of w).1 (height a)
  unfolding min_max
  min_max_range w a low high e = (
    (Low-iff (extreme less (λ f. lower_ends (of f)) w) (height a)).0 (
        extreme-Loose fields_match height less (λ f. lower_ends (of f)) (λ s m. s ≤ℤ m) less_replace
          less_keep (λ f b q. (ends_Loose (of f) (height b) (reads f b q)).0) w a low e),
    (High-iff (extreme greater (λ f. upper_ends (of f)) w) (height a)).0 (
        extreme-Loose fields_match height greater (λ f. upper_ends (of f)) (λ s m. m ≤ℤ s)
          greater_replace greater_keep (λ f b q. (ends_Loose (of f) (height b) (reads f b q)).1) w a
          high e),
  )
