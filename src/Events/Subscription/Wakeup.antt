-- ===== src/Events/Subscription/Wakeup.antt =====
-- No wakeup is lost: a subscription that waits with events in its queue has a notification pending
-- or a call of pushEvent that is about to notify.
use tx_indexer.Base.{
  is_cons, List-cases, ℕ, zero, suc, ◌<◌, List, [], ◌∷◌, ◌++◌, ◌≡◌, ◌⊎◌, subst, inl, inr, sym, ap,
  ◌∙◌, some, true, false, String, Bool-cases, Option-cases, arith,
}
use mathlib.Core.List.{append-nil}
use tx_indexer.Events.Subscription.{
  Phase, waiting, draining, sending, stopped, EventSubscription, Action, push_event, notify, wake,
  take_event, send, receive, stop, close_done, pop, close, supports, event_supported, enqueue,
  send_notification, popped, on_wake, on_take, on_send, on_stop, on_receive, step, run,
  new_subscription,
}
use tx_indexer.Events.Subscription.Order.{pending, accepted, run-in_order, silent_inv, get_some}

module _ {E : Type 0} (get_type : E → String) where
  abbrev pub Woken : EventSubscription E → Type 0
  Woken s =
      s.phase ≡ waiting → is_cons s.event_store ≡ true → (s.notified ≡ true) ⊎ (0 < s.notifying)

  enqueue-Woken : (event : E) (s : EventSubscription E) → Woken s → Woken (enqueue get_type event s)
  unfolding enqueue event_supported
  enqueue-Woken event s w = elim (Bool-cases (supports s.event_types (get_type event))) [
    | inl y ↦ (λ e c. ground arith)
    | inr n ↦ (λ e c. ground (arith, w))
  ]

  notify-Woken :
      (n : ℕ) (s t : EventSubscription E) → send_notification get_type n s ≡ some t → Woken t
  unfolding send_notification
  notify-Woken zero s t h e c = absurd (ground arith)
  notify-Woken (suc n) s t h e c = ground arith

  popped-Woken :
      (events : List E) (s : EventSubscription E) → Woken (popped get_type s (pop events))
  unfolding popped pop
  popped-Woken [] s e c = absurd (ground arith)
  popped-Woken (event ∷ rest) s e c = absurd (ground arith)

  on_take-Woken :
      (p : Phase E) (s t : EventSubscription E) → on_take get_type p s ≡ some t → Woken t
  unfolding on_take
  on_take-Woken draining s t h e c =
      subst Woken (ap (get_some get_type s) h) (popped-Woken s.event_store s) e c
  on_take-Woken waiting s t h e c = absurd (ground arith)
  on_take-Woken (sending event) s t h e c = absurd (ground arith)
  on_take-Woken (stopped events) s t h e c = absurd (ground arith)

  on_wake-Woken :
      (p : Phase E) (s t : EventSubscription E) → on_wake get_type p s ≡ some t → Woken t
  unfolding on_wake
  on_wake-Woken waiting s t h e c = absurd (ground arith)
  on_wake-Woken draining s t h e c = absurd (ground arith)
  on_wake-Woken (sending event) s t h e c = absurd (ground arith)
  on_wake-Woken (stopped events) s t h e c = absurd (ground arith)

  on_send-Woken :
      (p : Phase E) (o : List E) (s t : EventSubscription E)
      → on_send get_type p o s ≡ some t
      → Woken t
  unfolding on_send
  on_send-Woken (sending event) [] s t h e c = absurd (ground arith)
  on_send-Woken (sending event) (x ∷ xs) s t h e c = absurd (ground arith)
  on_send-Woken waiting out s t h e c = absurd (ground arith)
  on_send-Woken draining out s t h e c = absurd (ground arith)
  on_send-Woken (stopped events) out s t h e c = absurd (ground arith)

  on_stop-Woken :
      (p : Phase E) (s t : EventSubscription E) → on_stop get_type p s ≡ some t → Woken t
  unfolding on_stop
  on_stop-Woken waiting s t h e c = absurd (ground arith)
  on_stop-Woken (sending event) s t h e c = absurd (ground arith)
  on_stop-Woken draining s t h e c = absurd (ground arith)
  on_stop-Woken (stopped events) s t h e c = absurd (ground arith)

  receive-Woken :
      (o : List E) (s t : EventSubscription E) (out : List E)
      → Woken s
      → on_receive get_type o s ≡ some (t, out)
      → Woken t
  unfolding on_receive
  receive-Woken [] s t out w h e c = absurd (ground arith)
  receive-Woken (event ∷ rest) s t out w h e c =
      let k = w (ground arith) (ground arith) in ground arith

  close-Woken : (s t : EventSubscription E) → Woken s → close s ≡ some t → Woken t
  unfolding close
  close-Woken s t w h e c = elim (Bool-cases s.done) [
    | inl y ↦ absurd (ground arith)
    | inr n ↦ let k = w (ground arith) (ground arith) in ground arith
  ]

  step-Woken :
      (a : Action E) (s t : EventSubscription E) (out : List E)
      → Woken s
      → step get_type a s ≡ some (t, out)
      → Woken t
  unfolding step
  step-Woken (push_event event) s t out w h =
      let same : enqueue get_type event s ≡ t = ground arith in
      subst Woken same (enqueue-Woken event s w)
  step-Woken notify s t out w h =
      notify-Woken s.notifying s t
        ((silent_inv get_type (send_notification get_type s.notifying s) t out h).0)
  step-Woken wake s t out w h =
      on_wake-Woken s.phase s t ((silent_inv get_type (on_wake get_type s.phase s) t out h).0)
  step-Woken take_event s t out w h =
      on_take-Woken s.phase s t ((silent_inv get_type (on_take get_type s.phase s) t out h).0)
  step-Woken send s t out w h =
      on_send-Woken s.phase s.output s t
        ((silent_inv get_type (on_send get_type s.phase s.output s) t out h).0)
  step-Woken receive s t out w h = receive-Woken s.output s t out w h
  step-Woken stop s t out w h =
      on_stop-Woken s.phase s t ((silent_inv get_type (on_stop get_type s.phase s) t out h).0)
  step-Woken close_done s t out w h = close-Woken s t w ((silent_inv get_type (close s) t out h).0)

  -- In every state that a schedule leads to from one in which no wakeup is lost, a loop that waits
  -- while its queue has events has a notification pending, or a pushEvent is about to notify it.
  pub run-Woken :
      (acts : List (Action E)) (s t : EventSubscription E) (out : List E)
      → Woken s
      → run get_type acts s ≡ some (t, out)
      → Woken t
  unfolding run
  run-Woken [] s t out w h = let same : s ≡ t = ground arith in subst Woken same w
  run-Woken (a ∷ acts) s t out w h = elim (Option-cases (step get_type a s)) [
    | inl gone ↦ absurd (ground arith)
    | inr ((u, first), up) ↦ elim (Option-cases (run get_type acts u)) [
      | inl gone ↦ absurd (ground arith)
      | inr ((v, rest), up2) ↦
          let same : v ≡ t = ground arith in
          subst Woken same (run-Woken acts u v rest (step-Woken a s u first w up) up2)
    ]
  ]

  new_subscription-Woken : (types : List String) → Woken (new_subscription types)
  unfolding new_subscription
  new_subscription-Woken types e c = absurd (ground arith)

  pending_nil :
      (t : EventSubscription E)
      → t.phase ≡ waiting
      → t.output ≡ []
      → is_cons t.event_store ≡ false
      → pending get_type t ≡ []
  pending_nil t p o c = elim (List-cases t.event_store) [
    | inl nil ↦ ground arith
    | inr (x, xs, e) ↦ absurd (ground arith)
  ]

  -- A new subscription, in any schedule: once its loop waits with no notification pending, under
  -- way or unread output, the subscriber has received every event of its types, in the order of the
  -- pushes.
  pub run-delivers_all :
      (acts : List (Action E)) (types : List String) (t : EventSubscription E) (out : List E)
      → run get_type acts (new_subscription types) ≡ some (t, out)
      → t.phase ≡ waiting
      → t.notified ≡ false
      → t.notifying ≡ 0
      → t.output ≡ []
      → out ≡ accepted get_type types acts
  unfolding new_subscription
  run-delivers_all acts types t out h p n q o =
      let w = run-Woken acts (new_subscription types) t out (new_subscription-Woken types) h in
      let kept = run-in_order get_type acts (new_subscription types) t out h in
      elim (Bool-cases (is_cons t.event_store)) [
        | inl more ↦ absurd (ground (arith, w p more))
        | inr none_left ↦
            sym (append-nil out) ∙ ap (λ l. out ++ l) (sym (pending_nil t p o none_left)) ∙ sym kept
      ]
