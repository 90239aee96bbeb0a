-- ===== src/Filters/Subscriptions/Pruned.antt =====
-- The subscriptions after a send.
use mathlib.Core.List.{Permᴰ}
use tx_indexer.Base.{
  ℕ, ◌≡◌, ◌↔◌, refl, sym, ap, ◌∙◌, Bool, true, false, not, Option, some, List, [], ◌∷◌, ◌++◌, keep,
  String, str_eq, eq_iff, if◌then◌else◌, In, Bool-cases, inl, inr, arith,
}
use tx_indexer.Base.Dict.{remove, Unique, In-Unique}
use tx_indexer.Chain.{Header, TxResult, Tx}
use tx_indexer.Filters.Poll.{Update}
use tx_indexer.Filters.Subscriptions.{Subscription, SubscriptionMap, Sent, prune, send_event}
use tx_indexer.Filters.Subscriptions.Sending.{
  deliveries, stays, failed_ids, failed_ids_iff, write_all_lem,
}
use tx_indexer.Graph.Model.{Coin}

abbrev among : List String → String → Bool
among [] id = false
among (x ∷ xs) id = let rest = among xs id in if str_eq id x then true else rest

among_iff : (xs : List String) (id : String) → (among xs id ≡ true) ↔ In id xs
among_iff [] id = (λ h. absurd (cc), λ i. absurd i)
among_iff (x ∷ xs) id =
    let (to, from) = among_iff xs id in
    elim (Bool-cases (str_eq id x)) [
      | inl y ↦ rw y (λ h. inl ((eq_iff id x).0 y), λ i. refl)
      | inr n ↦ rw n (
        λ h. inr (to h),
        λ i. elim i [
          | inl q ↦ absurd (let w = (eq_iff id x).1 q in ground (arith, n, w))
          | inr j ↦ from j
        ],
      )
    ]

keep-keep :
    {A : Type 0} (p q r : A → Bool) (m : List A)
    → ((a : A) → r a ≡ (if p a then q a else false))
    → keep q (keep p m) ≡ keep r m
unfolding keep
keep-keep p q r [] h = refl
keep-keep p q r (a ∷ m) h = elim (Bool-cases (p a)) [
  | inl y ↦ elim (Bool-cases (q a)) [
    | inl z ↦ rw (h a, y, z) (ap (λ l. a ∷ l) (keep-keep p q r m h))
    | inr z ↦ rw (h a, y, z) (keep-keep p q r m h)
  ]
  | inr n ↦ rw (h a, n) (keep-keep p q r m h)
]

keep_same :
    {A : Type 0} (p q : A → Bool) (m : List A)
    → ((a : A) → In a m → p a ≡ q a)
    → keep p m ≡ keep q m
unfolding keep
keep_same p q [] h = refl
keep_same p q (a ∷ m) h =
    let later = keep_same p q m (λ b i. h b (inr i)) in
    elim (Bool-cases (q a)) [
      | inl y ↦ rw (h a (inl refl), y) (ap (λ l. a ∷ l) later)
      | inr n ↦ rw (h a (inl refl), n) later
    ]

remove_lem : (id : String) (m : SubscriptionMap) → remove id m ≡ keep (λ e. not (str_eq e.0 id)) m
unfolding remove keep
remove_lem id [] = refl
remove_lem id ((key, v) ∷ m) = elim (Bool-cases (str_eq key id)) [
  | inl y ↦ rw (y, remove) (remove_lem id m)
  | inr n ↦ rw (n, remove) (ap (λ l. (key, v) ∷ l) (remove_lem id m))
]

flip : (a b : Bool) → not (if a then true else b) ≡ (if not a then not b else false)
flip true b = refl
flip false b = refl

keep_all : {A : Type 0} (m : List A) → keep (λ a. true) m ≡ m
unfolding keep
keep_all [] = refl
keep_all (a ∷ m) = ap (λ l. a ∷ l) (keep_all m)

prune_lem :
    (ids : List String) (m : SubscriptionMap) → prune ids m ≡ keep (λ e. not (among ids e.0)) m
unfolding prune
prune_lem [] m = sym (keep_all m)
prune_lem (id ∷ ids) m =
    prune_lem ids (remove id m)
    ∙ ap (keep (λ e. not (among ids e.0))) (remove_lem id m)
    ∙ keep-keep (λ e. not (str_eq e.0 id)) (λ e. not (among ids e.0))
        (λ e. not (among (id ∷ ids) e.0)) m (λ e. flip (str_eq e.0 id) (among ids e.0))

symm : {A : Type 0} {xs ys : List A} → Permᴰ xs ys → Permᴰ ys xs
symm Permᴰ.nil = Permᴰ.nil
symm (Permᴰ.cons q p) = Permᴰ.cons (sym q) (symm p)
symm (Permᴰ.swap q r) = Permᴰ.swap (sym r) (sym q)
symm (Permᴰ.trans p q) = Permᴰ.trans (symm q) (symm p)

pub In-Permᴰ : {A : Type 0} (a : A) (xs ys : List A) → Permᴰ xs ys → In a xs → In a ys
In-Permᴰ a _ _ Permᴰ.nil i = absurd i
In-Permᴰ a _ _ (Permᴰ.cons q p) (inl i) = inl (i ∙ q)
In-Permᴰ a _ _ (Permᴰ.cons q p) (inr i) = inr (In-Permᴰ a _ _ p i)
In-Permᴰ a _ _ (Permᴰ.swap q r) (inl i) = inr (inl (i ∙ q))
In-Permᴰ a _ _ (Permᴰ.swap q r) (inr (inl i)) = inl (i ∙ r)
In-Permᴰ a _ _ (Permᴰ.swap q r) (inr (inr i)) = inr (inr i)
In-Permᴰ a _ _ (Permᴰ.trans p q) i = In-Permᴰ a _ _ q (In-Permᴰ a _ _ p i)

module _ (prepare_header : Header → Option String) (prepare_tx : TxResult → Option String)
    (decode_fee : Tx → Option Coin) where
  abbrev kept : String → Update → List ℕ → String × Subscription → Bool
  kept = stays prepare_header prepare_tx decode_fee

  kept_iff :
      (event_type : String) (event : Update) (cancelled : List ℕ) (order sm : SubscriptionMap)
      (e : String × Subscription)
      → Unique sm
      → Permᴰ order sm
      → In e sm
      → not (
          among
            (failed_ids prepare_header prepare_tx decode_fee event_type event cancelled order)
            e.0)
        ≡ kept event_type event cancelled e
  kept_iff event_type event cancelled order sm e u p i =
      let (to, from) =
        among_iff (failed_ids prepare_header prepare_tx decode_fee event_type event cancelled order)
          e.0 in
      let (of_failed, failed) =
        failed_ids_iff prepare_header prepare_tx decode_fee event_type event cancelled order e.0 in
      elim (Bool-cases (
        among (failed_ids prepare_header prepare_tx decode_fee event_type event cancelled order)
          e.0)) [
            | inl y ↦
                let (d, j, q, n) = of_failed (to y) in
                let same = In-Unique d e sm u (In-Permᴰ d order sm p j) i q in
                rw y (sym n ∙ ap (kept event_type event cancelled) same)
            | inr n ↦ elim (Bool-cases (kept event_type event cancelled e)) [
              | inl k ↦ rw (n, k) refl
              | inr k ↦ absurd (
                  let y = from (failed (e, In-Permᴰ e sm order (symm p) i, refl, k)) in
                  ground (arith, n, y))
            ]
          ]

  -- Whatever the order in which the goroutines of a send write, the send returns; it leaves exactly the
  -- subscriptions of other types and those whose response was written, in their places; and what it
  -- writes is, in that order, one response to each subscription of the type whose connection was not
  -- removed and whose response could be encoded.
  pub send_event-stays :
      (event_type : String) (event : Update) (order sm : SubscriptionMap) (conns : Sent)
      → Unique sm
      → Permᴰ order sm
      → send_event prepare_header prepare_tx decode_fee order event_type event sm conns
        ≡ some (
          keep (kept event_type event conns.cancelled) sm,
          record conns {
            written =
                conns.written
                ++ deliveries prepare_header prepare_tx decode_fee event_type event conns.cancelled
                    order;
          },
        )
  unfolding send_event
  send_event-stays event_type event order sm conns u p =
      rw
        (
          write_all_lem prepare_header prepare_tx decode_fee event_type event order conns,
          send_event,
        )
        (ap
          (λ m. some (
            m,
            record conns {
              written =
                  conns.written
                  ++ deliveries prepare_header prepare_tx decode_fee event_type event
                      conns.cancelled order;
            },
          ))
          (prune_lem
              (failed_ids prepare_header prepare_tx decode_fee event_type event conns.cancelled
                order)
              sm
            ∙ keep_same _ (kept event_type event conns.cancelled) sm
                (λ e i. kept_iff event_type event conns.cancelled order sm e u p i)))
