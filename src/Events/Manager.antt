-- ===== src/Events/Manager.antt =====
-- events/manager.go: the subscriptions by ID. A fresh ID is an argument (uuid is not in the
-- repository). numSubscriptions is an int64 that counts far fewer than 2^63 subscriptions.
pub mod Stopping
use tx_indexer.Base.{
  ℕ, zero, suc, ◌+◌, ◌-◌, List, [], ◌∷◌, ◌++◌, Option, none, some, Bool, true, false, String, ◌==◌,
  if◌then◌else◌,
}
use tx_indexer.Events.Subscription.{EventSubscription, new_subscription, close, enqueue}

-- The map, newest entries first, and the atomic counter.
pub record Manager (E : Type 0) : Type 0 where
  pub subscriptions : List (ℕ × EventSubscription E)
  pub num_subscriptions : ℕ

pub new_manager : {E : Type 0} → Manager E
new_manager = record { subscriptions = []; num_subscriptions = 0 }

unfoldable pub lookup : {V : Type 0} → List (ℕ × V) → ℕ → Option V
lookup [] id = none
lookup ((k, v) ∷ m) id = if k == id then some v else lookup m id

unfoldable pub delete : {V : Type 0} → List (ℕ × V) → ℕ → List (ℕ × V)
delete [] id = []
delete ((k, v) ∷ m) id = let rest = delete m id in if k == id then rest else (k, v) ∷ rest

module _ {E : Type 0} where
  pub subscribe : ℕ → List String → Manager E → Manager E
  subscribe id event_types em = record {
    subscriptions = (id, new_subscription event_types) ∷ delete em.subscriptions id;
    num_subscriptions = suc em.num_subscriptions;
  }

  -- `none` is the panic of a channel closed twice. The counter is not read below zero: it is 0 only
  -- if there is no subscription or Close has run, and then cancelling panics or finds nothing.
  unfoldable pub cancel_subscription : ℕ → Manager E → Option (Manager E)
  cancel_subscription id em = elim (lookup em.subscriptions id) [
    | none ↦ some em
    | some subscription ↦ elim (close subscription) [
      | none ↦ none
      | some closed ↦ some (record {
        subscriptions = delete em.subscriptions id;
        num_subscriptions = em.num_subscriptions - 1;
      })
    ]
  ]

  unfoldable pub close_all :
      List (ℕ × EventSubscription E) → Option (List (ℕ × EventSubscription E))
  close_all [] = some []
  close_all ((id, s) ∷ m) = elim (close s) [
    | none ↦ none
    | some closed ↦ elim (close_all m) [ none ↦ none | some rest ↦ some ((id, closed) ∷ rest) ]
  ]

  -- The map keeps the closed subscriptions.
  unfoldable pub close_manager : Manager E → Option (Manager E)
  close_manager em = elim (close_all em.subscriptions) [
    | none ↦ none
    | some closed ↦ some (record { subscriptions = closed; num_subscriptions = 0 })
  ]

  pub push_all : (E → String) → E → List (ℕ × EventSubscription E) → List (ℕ × EventSubscription E)
  push_all get_type event [] = []
  push_all get_type event ((id, s) ∷ m) = (id, enqueue get_type event s) ∷ push_all get_type event m

  pub signal_event : (E → String) → E → Manager E → Manager E
  signal_event get_type event em =
      if em.num_subscriptions == 0
      then em
      else record em { subscriptions = push_all get_type event em.subscriptions }
