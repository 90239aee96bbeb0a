-- ===== src/Events/Subscription.antt =====
-- events/queue.go and events/subscription.go: a subscription with its queue, its channels and the
-- goroutine of its runLoop. An Event is a parameter, of which GetType is known. A goroutine's step
-- and a call of another goroutine are an Action; `step` is `none` if the code cannot take that step
-- in that state (it blocks, or it panics), and a schedule is a list of actions.
pub mod Order
pub mod Wakeup
use tx_indexer.Base.{
  ℕ, zero, suc, ◌+◌, List, [], ◌∷◌, ◌++◌, Option, none, some, Bool, true, false, String, str_eq,
  if◌then◌else◌,
}

-- Where the loop stands: at the outer select, before pop, at the inner select with an event, or
-- returned with the event that it had popped, which nobody gets.
pub data Phase (E : Type 0) : Type 0 where
  waiting : Phase E
  draining : Phase E
  sending : E → Phase E
  stopped : List E → Phase E

-- outputCh and notifyCh have room for one value. `notifying` counts the calls of pushEvent between
-- the push and the notification.
pub record EventSubscription (E : Type 0) : Type 0 where
  pub event_store : List E
  pub output : List E
  pub done : Bool
  pub notified : Bool
  pub event_types : List String
  pub phase : Phase E
  pub notifying : ℕ

pub data Action (E : Type 0) : Type 0 where
  push_event : E → Action E
  notify : Action E
  wake : Action E
  take_event : Action E
  send : Action E
  receive : Action E
  stop : Action E
  close_done : Action E

unfoldable pub push : {E : Type 0} → E → List E → List E
push event events = events ++ event ∷ []

unfoldable pub pop : {E : Type 0} → List E → Option E × List E
pop [] = (none, [])
pop (event ∷ events) = (some event, events)

unfoldable pub new_subscription : {E : Type 0} → List String → EventSubscription E
new_subscription event_types = record {
  event_store = [];
  output = [];
  done = false;
  notified = false;
  event_types = event_types;
  phase = waiting;
  notifying = 0;
}

-- close(es.doneCh): closing a closed channel panics.
unfoldable pub close : {E : Type 0} → EventSubscription E → Option (EventSubscription E)
close s = if s.done then none else some (record s { done = true })

unfoldable pub supports : List String → String → Bool
supports [] event_type = false
supports (t ∷ ts) event_type = if str_eq t event_type then true else supports ts event_type

module _ {E : Type 0} (get_type : E → String) where
  unfoldable pub event_supported : EventSubscription E → E → Bool
  event_supported s event = supports s.event_types (get_type event)

  -- The first part of pushEvent: the guard and the push.
  unfoldable pub enqueue : E → EventSubscription E → EventSubscription E
  enqueue event s =
      if event_supported s event
      then record s { event_store = push event s.event_store; notifying = suc s.notifying }
      else s

  -- The second part: a notification that is pending already is left as it is.
  unfoldable pub send_notification : ℕ → EventSubscription E → Option (EventSubscription E)
  send_notification zero s = none
  send_notification (suc n) s = some (record s { notifying = n; notified = true })

  -- What the loop does with the result of pop.
  unfoldable pub popped : EventSubscription E → Option E × List E → EventSubscription E
  popped s (none, rest) = record s { phase = waiting; event_store = rest }
  popped s (some event, rest) = record s { phase = sending event; event_store = rest }

  unfoldable pub on_wake : Phase E → EventSubscription E → Option (EventSubscription E)
  on_wake waiting s =
      if s.notified then some (record s { phase = draining; notified = false }) else none
  on_wake draining s = none
  on_wake (sending event) s = none
  on_wake (stopped held) s = none

  unfoldable pub on_take : Phase E → EventSubscription E → Option (EventSubscription E)
  on_take draining s = some (popped s (pop s.event_store))
  on_take waiting s = none
  on_take (sending event) s = none
  on_take (stopped held) s = none

  unfoldable pub on_send : Phase E → List E → EventSubscription E → Option (EventSubscription E)
  on_send (sending event) [] s = some (record s { phase = draining; output = event ∷ [] })
  on_send (sending event) (x ∷ xs) s = none
  on_send waiting output s = none
  on_send draining output s = none
  on_send (stopped held) output s = none

  -- The case of doneCh of the two selects.
  pub on_stop : Phase E → EventSubscription E → Option (EventSubscription E)
  on_stop waiting s = if s.done then some (record s { phase = stopped [] }) else none
  on_stop (sending event) s =
      if s.done then some (record s { phase = stopped (event ∷ []) }) else none
  on_stop draining s = none
  on_stop (stopped held) s = none

  unfoldable pub on_receive : List E → EventSubscription E → Option (EventSubscription E × List E)
  on_receive [] s = none
  on_receive (event ∷ rest) s = some (record s { output = rest }, event ∷ [])

  -- No event comes out.
  unfoldable pub silent : Option (EventSubscription E) → Option (EventSubscription E × List E)
  silent none = none
  silent (some s) = some (s, [])

  unfoldable pub step : Action E → EventSubscription E → Option (EventSubscription E × List E)
  step (push_event event) s = some (enqueue event s, [])
  step notify s = silent (send_notification s.notifying s)
  step wake s = silent (on_wake s.phase s)
  step take_event s = silent (on_take s.phase s)
  step send s = silent (on_send s.phase s.output s)
  step receive s = on_receive s.output s
  step stop s = silent (on_stop s.phase s)
  step close_done s = silent (close s)

  -- A schedule, and the events that the subscriber receives in it.
  unfoldable pub run : List (Action E) → EventSubscription E → Option (EventSubscription E × List E)
  run [] s = some (s, [])
  run (a ∷ acts) s = elim (step a s) [
    | none ↦ none
    | some (t, out) ↦ elim (run acts t) [ none ↦ none | some (u, rest) ↦ some (u, out ++ rest) ]
  ]
