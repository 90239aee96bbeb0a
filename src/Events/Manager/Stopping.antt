-- ===== src/Events/Manager/Stopping.antt =====
-- Stopping subscriptions (CancelSubscription and Close of events/manager.go), and the counter that
-- lets SignalEvent skip the map.
use tx_indexer.Base.{
  ℕ, ◌+◌, ◌-◌, ◌≡◌, ◌≢◌, ◌<◌, ◌∙◌, subst, ==_iff, refl, List, [], ◌∷◌, none, some, Bool, true,
  false, inl, inr, String, ◌==◌, if◌then◌else◌, Bool-cases, Option-cases, arith, length,
}
use tx_indexer.Events.Subscription.{EventSubscription, close, enqueue}
use tx_indexer.Events.Manager.{
  Manager, lookup, delete, subscribe, cancel_subscription, close_all, close_manager, signal_event,
  push_all,
}

module _ {V : Type 0} where
  lookup-delete_same : (m : List (ℕ × V)) (id : ℕ) → lookup (delete m id) id ≡ none
  unfolding lookup delete
  lookup-delete_same [] id = refl
  lookup-delete_same ((j, v) ∷ m) id = let h = lookup-delete_same m id in ground arith

  lookup-delete_ne : (m : List (ℕ × V)) (id k : ℕ) → id ≢ k → lookup (delete m id) k ≡ lookup m k
  unfolding lookup delete
  lookup-delete_ne [] id k ne = refl
  lookup-delete_ne ((j, v) ∷ m) id k ne = let h = lookup-delete_ne m id k ne in ground arith

  delete_absent : (m : List (ℕ × V)) (id : ℕ) → lookup m id ≡ none → delete m id ≡ m
  unfolding lookup delete
  delete_absent [] id h = refl
  delete_absent ((j, v) ∷ m) id h = elim (Bool-cases (j == id)) [
    | inl y ↦ absurd (ground arith)
    | inr n ↦ let rest = delete_absent m id (ground arith) in ground arith
  ]

  -- Each ID has one entry.
  abbrev pub Distinct : List (ℕ × V) → Type 0
  Distinct [] = Unit {0}
  Distinct ((k, v) ∷ m) = (lookup m k ≡ none) × Distinct m

  if-Distinct :
      (b : Bool) (x y : List (ℕ × V))
      → (b ≡ true → Distinct x)
      → (b ≡ false → Distinct y)
      → Distinct (if b then x else y)
  if-Distinct true x y p q = p refl
  if-Distinct false x y p q = q refl

  lookup-length : (m : List (ℕ × V)) (id : ℕ) (v : V) → lookup m id ≡ some v → 0 < length m
  unfolding lookup
  lookup-length [] id v h = absurd (ground arith)
  lookup-length ((j, w) ∷ m) id v h = omega arith

  delete-Distinct : (m : List (ℕ × V)) (id : ℕ) → Distinct m → Distinct (delete m id)
  unfolding delete
  delete-Distinct [] id d = tt
  delete-Distinct ((j, v) ∷ m) id d =
      let rest = delete-Distinct m id d.1 in
      if-Distinct (j == id) (delete m id) ((j, v) ∷ delete m id) (λ y. rest)
        (λ n. (lookup-delete_ne m id j (ground arith) ∙ d.0, rest))

  length-delete :
      (m : List (ℕ × V)) (id : ℕ) (v : V)
      → Distinct m
      → lookup m id ≡ some v
      → length (delete m id) + 1 ≡ length m
  unfolding lookup delete
  length-delete [] id v d h = absurd (ground arith)
  length-delete ((j, w) ∷ m) id v d h = elim (Bool-cases (j == id)) [
    | inl y ↦
        let same = delete_absent m id (subst (λ k. lookup m k ≡ none) ((==_iff j id).0 y) d.0) in
        ground arith
    | inr n ↦ let rest = length-delete m id v d.1 (ground arith) in ground arith
  ]

module _ {E : Type 0} where
  closed_once : (s t : EventSubscription E) → close s ≡ some t → close t ≡ none
  unfolding close
  closed_once s t h = elim (Bool-cases s.done) [
    | inl y ↦ absurd (ground arith)
    | inr n ↦ ground arith
  ]

  close_all-lookup :
      (m closed : List (ℕ × EventSubscription E)) (id : ℕ) (s : EventSubscription E)
      → close_all m ≡ some closed
      → lookup m id ≡ some s
      → (t : EventSubscription E) × (lookup closed id ≡ some t) × (close t ≡ none)
  unfolding lookup close_all
  close_all-lookup [] closed id s h l = absurd (ground arith)
  close_all-lookup ((k, u) ∷ m) closed id s h l = elim (Option-cases (close u)) [
    | inl gone ↦ absurd (ground arith)
    | inr (t, up) ↦ elim (Option-cases (close_all m)) [
      | inl gone ↦ absurd (ground arith)
      | inr (rest, up2) ↦ elim (Bool-cases (k == id)) [
        | inl y ↦ (t, ground arith, closed_once u t up)
        | inr n ↦
            let (v, at, done) = close_all-lookup m rest id s up2 (ground arith) in
            (v, ground arith, done)
      ]
    ]
  ]

  -- After Close, cancelling a subscription that was there closes its doneCh again: it panics.
  pub cancel_subscription-close_manager :
      (em after : Manager E) (id : ℕ) (s : EventSubscription E)
      → lookup em.subscriptions id ≡ some s
      → close_manager em ≡ some after
      → cancel_subscription id after ≡ none
  unfolding close_manager cancel_subscription
  cancel_subscription-close_manager em after id s l h =
      elim (Option-cases (close_all em.subscriptions)) [
        | inl gone ↦ absurd (ground arith)
        | inr (closed, up) ↦
            let (t, at, done) = close_all-lookup em.subscriptions closed id s up l in ground arith
      ]

  -- The counter is the number of the entries, each of its own ID.
  abbrev pub Counted : Manager E → Type 0
  Counted em = Distinct em.subscriptions × (em.num_subscriptions ≡ length em.subscriptions)

  -- A state from which the entry of one ID is gone, and no other.
  abbrev Removed : Manager E → ℕ → Manager E → Type 0
  Removed em id after =
      Counted after
      × (lookup after.subscriptions id ≡ none)
      × ((k : ℕ) → id ≢ k → lookup after.subscriptions k ≡ lookup em.subscriptions k)

  cancel_subscription-Removed :
      (em after : Manager E) (id : ℕ)
      → Counted em
      → cancel_subscription id em ≡ some after
      → Removed em id after
  unfolding cancel_subscription
  cancel_subscription-Removed em after id c h = elim (Option-cases (lookup em.subscriptions id)) [
    | inl gone ↦
        let same : em ≡ after = ground arith in subst (Removed em id) same (c, gone, λ k ne. refl)
    | inr (s, l) ↦ elim (Option-cases (close s)) [
      | inl gone ↦ absurd (ground arith)
      | inr (t, up) ↦
          let less = length-delete em.subscriptions id s c.0 l in
          let same : record {
            subscriptions = delete em.subscriptions id;
            num_subscriptions = em.num_subscriptions - 1;
          }
              ≡ after =
            ground arith in
          subst (Removed em id) same (
            (delete-Distinct em.subscriptions id c.0, omega arith),
            lookup-delete_same em.subscriptions id,
            λ k ne. lookup-delete_ne em.subscriptions id k ne,
          )
    ]
  ]

  -- Cancelling an ID, in use or not, leaves the counter the number of the entries, each of its own
  -- ID; that ID has no entry then, and every other ID has the entry that it had.
  pub cancel_subscription-Counted :
      (em after : Manager E) (id k : ℕ)
      → Counted em
      → cancel_subscription id em ≡ some after
      → Counted after
        × (lookup after.subscriptions k ≡ (if id == k then none else lookup em.subscriptions k))
  cancel_subscription-Counted em after id k c h =
      let (counted, gone, others) = cancel_subscription-Removed em after id c h in
      (
        counted,
        elim (Bool-cases (id == k)) [
          | inl y ↦ let here = (==_iff id k).0 y in ground arith
          | inr n ↦ let there = others k (ground arith) in ground arith
        ],
      )

  -- Subscribing with an ID that is not in use keeps the counter the number of the entries.
  pub subscribe-Counted :
      (em : Manager E) (id : ℕ) (types : List String)
      → Counted em
      → lookup em.subscriptions id ≡ none
      → Counted (subscribe id types em)
  unfolding subscribe
  subscribe-Counted em id types c l =
      let same = delete_absent em.subscriptions id l in
      (
        (lookup-delete_same em.subscriptions id, delete-Distinct em.subscriptions id c.0),
        ground arith,
      )

  push_all-lookup :
      (get_type : E → String) (event : E) (m : List (ℕ × EventSubscription E)) (id : ℕ)
      (s : EventSubscription E)
      → lookup m id ≡ some s
      → lookup (push_all get_type event m) id ≡ some (enqueue get_type event s)
  unfolding lookup push_all
  push_all-lookup get_type event [] id s l = absurd (ground arith)
  push_all-lookup get_type event ((k, u) ∷ m) id s l = elim (Bool-cases (k == id)) [
    | inl y ↦ ground arith
    | inr n ↦ let rest = push_all-lookup get_type event m id s (ground arith) in ground arith
  ]

  -- While the counter is right, the shortcut of SignalEvent skips nobody: a signalled event is
  -- pushed to every subscription.
  pub signal_event-lookup :
      (get_type : E → String) (event : E) (em : Manager E) (id : ℕ) (s : EventSubscription E)
      → Counted em
      → lookup em.subscriptions id ≡ some s
      → lookup (signal_event get_type event em).subscriptions id ≡ some (enqueue get_type event s)
  unfolding signal_event
  signal_event-lookup get_type event em id s c l =
      let more = lookup-length em.subscriptions id s l in
      let pushed = push_all-lookup get_type event em.subscriptions id s l in ground arith
