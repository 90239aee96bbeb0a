-- ===== src/Events/Examples.antt =====
-- The theorems about events, at concrete inputs: one subscription and a manager with two.
use tx_indexer.Base.{◌≡◌, refl, List, [], ◌∷◌, ◌++◌, none, some, true, String, arith}
use tx_indexer.Events.Subscription.{
  waiting, EventSubscription, Action, push_event, notify, wake, take_event, send, receive, step,
  run, new_subscription, enqueue, close, event_supported, supports, push, pop, popped, on_wake,
  on_take, on_send, on_receive, silent, send_notification,
}
use tx_indexer.Events.Subscription.Order.{pending, accepted, run-in_order}
use tx_indexer.Events.Subscription.Wakeup.{Woken, run-Woken, run-delivers_all}
use tx_indexer.Events.Manager.{
  Manager, close_all, lookup, cancel_subscription, close_manager, signal_event,
}
use tx_indexer.Events.Manager.Stopping.{
  Counted, cancel_subscription-close_manager, signal_event-lookup,
}

-- An event is its type.
abbrev type_of : String → String
type_of event = event

abbrev blocks : List String
blocks = "newBlock" ∷ []

abbrev schedule : List (Action String)
schedule =
    push_event "newBlock"
    ∷ push_event "other"
    ∷ notify
    ∷ wake
    ∷ take_event
    ∷ send
    ∷ receive
    ∷ take_event
    ∷ []

abbrev at_rest : EventSubscription String
at_rest = record (new_subscription blocks) { phase = waiting }

schedule-run : run type_of schedule (new_subscription blocks) ≡ some (at_rest, "newBlock" ∷ [])
unfolding run step silent on_wake on_take on_send on_receive popped pop push enqueue event_supported
    supports send_notification new_subscription
schedule-run = refl

run-in_order_example :
    pending type_of (new_subscription blocks) ++ accepted type_of blocks schedule
    ≡ ("newBlock" ∷ []) ++ pending type_of at_rest
unfolding new_subscription
run-in_order_example =
    run-in_order type_of schedule (new_subscription blocks) at_rest ("newBlock" ∷ []) schedule-run

run-Woken_example : Woken type_of at_rest
unfolding new_subscription
run-Woken_example =
    run-Woken type_of schedule (new_subscription blocks) at_rest ("newBlock" ∷ [])
      (λ e c. absurd (ground arith)) schedule-run

run-delivers_all_example : "newBlock" ∷ [] ≡ accepted type_of blocks schedule
unfolding new_subscription
run-delivers_all_example =
    run-delivers_all type_of schedule blocks at_rest ("newBlock" ∷ []) schedule-run refl refl refl
      refl

abbrev two_listeners : Manager String
two_listeners = record {
  subscriptions = (5, new_subscription blocks) ∷ (8, new_subscription blocks) ∷ [];
  num_subscriptions = 2;
}

abbrev closed : EventSubscription String
closed = record (new_subscription blocks) { done = true }

abbrev all_closed : Manager String
all_closed = record { subscriptions = (5, closed) ∷ (8, closed) ∷ []; num_subscriptions = 0 }

two_listeners-Counted : Counted two_listeners
unfolding lookup
two_listeners-Counted = ((refl, (refl, tt)), refl)

cancel_subscription-close_manager_example : cancel_subscription 8 all_closed ≡ none
unfolding lookup close_manager close_all close new_subscription
cancel_subscription-close_manager_example =
    cancel_subscription-close_manager two_listeners all_closed 8 (new_subscription blocks) refl refl

abbrev one_listener : Manager String
one_listener = record { subscriptions = (8, new_subscription blocks) ∷ []; num_subscriptions = 1 }

signal_event-lookup_example :
    lookup (signal_event type_of "newBlock" two_listeners).subscriptions 8
    ≡ some (enqueue type_of "newBlock" (new_subscription blocks))
unfolding lookup
signal_event-lookup_example =
    signal_event-lookup type_of "newBlock" two_listeners 8 (new_subscription blocks)
      two_listeners-Counted refl
