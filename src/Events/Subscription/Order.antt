-- ===== src/Events/Subscription/Order.antt =====
-- The order of the events of a subscription: what the subscriber receives in any schedule.
use tx_indexer.Base.{
  ℕ, zero, suc, List, [], ◌∷◌, ◌++◌, ◌≡◌, subst, inl, inr, refl, sym, ap, ◌∙◌, Option, none, some,
  String, if◌then◌else◌, Bool-cases, Option-cases, arith,
}
use mathlib.Core.List.{append_assoc, append-nil}
use tx_indexer.Events.Subscription.{
  Phase, waiting, draining, sending, stopped, EventSubscription, Action, push_event, notify, wake,
  take_event, send, receive, stop, close_done, push, pop, close, supports, event_supported, enqueue,
  send_notification, popped, on_wake, on_take, on_send, on_stop, on_receive, silent, step, run,
}

module _ {E : Type 0} (get_type : E → String) where
  -- The event that the loop has popped.
  abbrev pub held : Phase E → List E
  held waiting = []
  held draining = []
  held (sending event) = event ∷ []
  held (stopped events) = events

  -- The events of a subscription that the subscriber has not received, oldest first.
  abbrev pub pending : EventSubscription E → List E
  pending s = s.output ++ held s.phase ++ s.event_store

  -- The events of a schedule that have one of the types.
  abbrev pub accepted : List String → List (Action E) → List E
  accepted types [] = []
  accepted types (push_event event ∷ acts) =
      let rest = accepted types acts in
      if supports types (get_type event) then event ∷ rest else rest
  accepted types (notify ∷ acts) = accepted types acts
  accepted types (wake ∷ acts) = accepted types acts
  accepted types (take_event ∷ acts) = accepted types acts
  accepted types (send ∷ acts) = accepted types acts
  accepted types (receive ∷ acts) = accepted types acts
  accepted types (stop ∷ acts) = accepted types acts
  accepted types (close_done ∷ acts) = accepted types acts

  -- A step moves events from the back of what is pending to its front, and out.
  abbrev Kept : (s t : EventSubscription E) → List E → List E → Type 0
  Kept s t new out = (pending s ++ new ≡ out ++ pending t) × (t.event_types ≡ s.event_types)

  enqueue-Kept :
      (event : E) (s : EventSubscription E)
      → Kept s (enqueue get_type event s) (accepted s.event_types (push_event event ∷ [])) []
  unfolding enqueue event_supported push
  enqueue-Kept event s = elim (Bool-cases (supports s.event_types (get_type event))) [
    | inl y ↦ (grind (arith, append_assoc), ground arith)
    | inr n ↦ (grind (arith, append-nil), ground arith)
  ]

  on_wake-Kept :
      (p : Phase E) (s t : EventSubscription E)
      → s.phase ≡ p
      → on_wake get_type p s ≡ some t
      → Kept s t [] []
  unfolding on_wake
  on_wake-Kept waiting s t e h = elim (Bool-cases s.notified) [
    | inl y ↦ (grind (arith, append-nil), ground arith)
    | inr n ↦ absurd (ground arith)
  ]
  on_wake-Kept draining s t e h = absurd (ground arith)
  on_wake-Kept (sending event) s t e h = absurd (ground arith)
  on_wake-Kept (stopped events) s t e h = absurd (ground arith)

  abbrev pub get_some : EventSubscription E → Option (EventSubscription E) → EventSubscription E
  get_some d none = d
  get_some d (some s) = s

  popped-Kept :
      (events : List E) (s : EventSubscription E)
      → s.phase ≡ draining
      → s.event_store ≡ events
      → Kept s (popped get_type s (pop events)) [] []
  unfolding popped pop
  popped-Kept [] s e st = (grind (arith, append-nil), ground arith)
  popped-Kept (event ∷ rest) s e st = (grind (arith, append-nil, append_assoc), ground arith)

  on_take-Kept :
      (p : Phase E) (s t : EventSubscription E)
      → s.phase ≡ p
      → on_take get_type p s ≡ some t
      → Kept s t [] []
  unfolding on_take
  on_take-Kept draining s t e h =
      subst (λ u. Kept s u [] []) (ap (get_some s) h) (popped-Kept s.event_store s e refl)
  on_take-Kept waiting s t e h = absurd (ground arith)
  on_take-Kept (sending event) s t e h = absurd (ground arith)
  on_take-Kept (stopped events) s t e h = absurd (ground arith)

  on_send-Kept :
      (p : Phase E) (o : List E) (s t : EventSubscription E)
      → s.phase ≡ p
      → s.output ≡ o
      → on_send get_type p o s ≡ some t
      → Kept s t [] []
  unfolding on_send
  on_send-Kept (sending event) [] s t e o h = (grind (arith, append-nil), ground arith)
  on_send-Kept (sending event) (x ∷ xs) s t e o h = absurd (ground arith)
  on_send-Kept waiting out s t e o h = absurd (ground arith)
  on_send-Kept draining out s t e o h = absurd (ground arith)
  on_send-Kept (stopped events) out s t e o h = absurd (ground arith)

  on_stop-Kept :
      (p : Phase E) (s t : EventSubscription E)
      → s.phase ≡ p
      → on_stop get_type p s ≡ some t
      → Kept s t [] []
  unfolding on_stop
  on_stop-Kept waiting s t e h = elim (Bool-cases s.done) [
    | inl y ↦ (grind (arith, append-nil), ground arith)
    | inr n ↦ absurd (ground arith)
  ]
  on_stop-Kept (sending event) s t e h = elim (Bool-cases s.done) [
    | inl y ↦ (grind (arith, append-nil), ground arith)
    | inr n ↦ absurd (ground arith)
  ]
  on_stop-Kept draining s t e h = absurd (ground arith)
  on_stop-Kept (stopped events) s t e h = absurd (ground arith)

  pub silent_inv :
      (r : Option (EventSubscription E)) (t : EventSubscription E) (out : List E)
      → silent get_type r ≡ some (t, out)
      → (r ≡ some t) × (out ≡ [])
  unfolding silent
  silent_inv none t out h = absurd (ground arith)
  silent_inv (some s) t out h = (ground arith, ground arith)

  notify-Kept :
      (n : ℕ) (s t : EventSubscription E) → send_notification get_type n s ≡ some t → Kept s t [] []
  unfolding send_notification
  notify-Kept zero s t h = absurd (ground arith)
  notify-Kept (suc n) s t h = (grind (arith, append-nil), ground arith)

  receive-Kept :
      (o : List E) (s t : EventSubscription E) (out : List E)
      → s.output ≡ o
      → on_receive get_type o s ≡ some (t, out)
      → Kept s t [] out
  unfolding on_receive
  receive-Kept [] s t out o h = absurd (ground arith)
  receive-Kept (event ∷ rest) s t out o h = (grind (arith, append-nil), ground arith)

  close-Kept : (s t : EventSubscription E) → close s ≡ some t → Kept s t [] []
  unfolding close
  close-Kept s t h = elim (Bool-cases s.done) [
    | inl y ↦ absurd (ground arith)
    | inr n ↦ (grind (arith, append-nil), ground arith)
  ]

  step-Kept :
      (a : Action E) (s t : EventSubscription E) (out : List E)
      → step get_type a s ≡ some (t, out)
      → Kept s t (accepted s.event_types (a ∷ [])) out
  unfolding step
  step-Kept (push_event event) s t out h =
      let k = enqueue-Kept event s in (ground arith, ground arith)
  step-Kept notify s t out h =
      let (r, o) = silent_inv (send_notification get_type s.notifying s) t out h in
      let k = notify-Kept s.notifying s t r in (ground arith, ground arith)
  step-Kept wake s t out h =
      let (r, o) = silent_inv (on_wake get_type s.phase s) t out h in
      let k = on_wake-Kept s.phase s t refl r in (ground arith, ground arith)
  step-Kept take_event s t out h =
      let (r, o) = silent_inv (on_take get_type s.phase s) t out h in
      let k = on_take-Kept s.phase s t refl r in (ground arith, ground arith)
  step-Kept send s t out h =
      let (r, o) = silent_inv (on_send get_type s.phase s.output s) t out h in
      let k = on_send-Kept s.phase s.output s t refl refl r in (ground arith, ground arith)
  step-Kept receive s t out h = receive-Kept s.output s t out refl h
  step-Kept stop s t out h =
      let (r, o) = silent_inv (on_stop get_type s.phase s) t out h in
      let k = on_stop-Kept s.phase s t refl r in (ground arith, ground arith)
  step-Kept close_done s t out h =
      let (r, o) = silent_inv (close s) t out h in
      let k = close-Kept s t r in (ground arith, ground arith)

  accepted_cons :
      (types : List String) (a : Action E) (acts : List (Action E))
      → accepted types (a ∷ acts) ≡ accepted types (a ∷ []) ++ accepted types acts
  accepted_cons types (push_event event) acts = ground arith
  accepted_cons types notify acts = refl
  accepted_cons types wake acts = refl
  accepted_cons types take_event acts = refl
  accepted_cons types send acts = refl
  accepted_cons types receive acts = refl
  accepted_cons types stop acts = refl
  accepted_cons types close_done acts = refl

  -- Two steps' equations, one after the other.
  chain :
      (p q r new news first rest : List E)
      → p ++ new ≡ first ++ q
      → q ++ news ≡ rest ++ r
      → p ++ (new ++ news) ≡ (first ++ rest) ++ r
  chain p q r new news first rest e f = grind (arith, append_assoc)

  -- In any schedule, what is pending at first and what is pushed of the subscribed types is what
  -- the subscriber receives and what is pending at the end, in that order.
  pub run-in_order :
      (acts : List (Action E)) (s t : EventSubscription E) (out : List E)
      → run get_type acts s ≡ some (t, out)
      → pending s ++ accepted s.event_types acts ≡ out ++ pending t
  unfolding run
  run-in_order [] s t out h = append-nil (pending s) ∙ (ground arith)
  run-in_order (a ∷ acts) s t out h = elim (Option-cases (step get_type a s)) [
    | inl gone ↦ absurd (ground arith)
    | inr ((u, first), up) ↦ elim (Option-cases (run get_type acts u)) [
      | inl gone ↦ absurd (ground arith)
      | inr ((v, rest), up2) ↦
          let k = step-Kept a s u first up in
          let later = run-in_order acts u v rest up2 in
          subst (λ n. pending s ++ n ≡ out ++ pending t) (sym (accepted_cons s.event_types a acts))
            (ground (
              arith,
              chain (pending s) (pending u) (pending v) (accepted s.event_types (a ∷ []))
                  (accepted s.event_types acts) first rest,
            ))
    ]
  ]
