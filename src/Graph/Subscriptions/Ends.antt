-- ===== src/Graph/Subscriptions/Ends.antt =====
-- When the goroutine of a subscription ends, and when it does not.
use mathlib.Core.List.{append-nil}
use tx_indexer.Base.{
  ◌≡◌, ◌≢◌, refl, sym, ap, subst, ◌∙◌, Bool, true, false, Option, none, some, List, [], ◌∷◌, ◌++◌,
  All, Option-cases, Bool-cases, inl, inr,
}
use tx_indexer.Types.{NewBlock}
use tx_indexer.Graph.Subscriptions.{
  Ending, Phase, waiting, writing, ended, Channel, Move, event_taken, events_end, context_ends,
  end_noticed, client_receives, finish, write_next, take_event, handle_channel, step, run,
}
use tx_indexer.Graph.Subscriptions.Delivery.{pending, due, run-due, from_some}

module _ {E T : Type 0} (as_new_block : E → Option NewBlock) (written : NewBlock → List T) where
  abbrev step' : Move E → Channel T → Option (Channel T)
  step' = step as_new_block written

  -- A goroutine that has ended has cancelled its event subscription.
  abbrev Tidy : Channel T → Type 0
  Tidy c = (ending : Ending) → c.phase ≡ ended ending → c.subscribed ≡ false

  write_next-Tidy : (ys : List T) (c : Channel T) → Tidy (write_next as_new_block written ys c)
  unfolding write_next
  write_next-Tidy [] c ending h = absurd (cc)
  write_next-Tidy (y ∷ ys) c ending h = absurd (cc)

  take_event-Tidy : (e : E) (c : Channel T) → Tidy (take_event as_new_block written e c)
  unfolding take_event finish
  take_event-Tidy e c = elim (Option-cases (as_new_block e)) [
    | inl n ↦ rw (n, take_event) (λ ending h. refl)
    | inr (nb, y) ↦ rw (y, take_event) (write_next-Tidy (written nb) c)
  ]

  step-Tidy :
      (m : Move E) (phase : Phase T) (received : List T) (done subscribed : Bool) (c' : Channel T)
      → Tidy (record {
        phase = phase;
        received = received;
        context_done = done;
        subscribed = subscribed;
      })
      → step' m (record {
        phase = phase;
        received = received;
        context_done = done;
        subscribed = subscribed;
      })
        ≡ some c'
      → Tidy c'
  unfolding step finish
  step-Tidy (event_taken e) waiting received done subscribed c' t h =
      subst Tidy (sym (from_some _ c' h)) (take_event-Tidy e _)
  step-Tidy (event_taken e) (writing x xs) received done subscribed c' t h = absurd (cc)
  step-Tidy (event_taken e) (ended ending) received done subscribed c' t h = absurd (cc)
  step-Tidy events_end waiting received done subscribed c' t h =
      subst Tidy (sym (from_some _ c' h)) (λ ending e. refl)
  step-Tidy events_end (writing x xs) received done subscribed c' t h = absurd (cc)
  step-Tidy events_end (ended ending) received done subscribed c' t h = absurd (cc)
  step-Tidy context_ends phase received done subscribed c' t h =
      subst Tidy (sym (from_some _ c' h)) t
  step-Tidy end_noticed waiting received true subscribed c' t h =
      subst Tidy (sym (from_some _ c' h)) (λ ending e. refl)
  step-Tidy end_noticed waiting received false subscribed c' t h = absurd (cc)
  step-Tidy end_noticed (writing x xs) received true subscribed c' t h = absurd (cc)
  step-Tidy end_noticed (writing x xs) received false subscribed c' t h = absurd (cc)
  step-Tidy end_noticed (ended ending) received true subscribed c' t h = absurd (cc)
  step-Tidy end_noticed (ended ending) received false subscribed c' t h = absurd (cc)
  step-Tidy client_receives waiting received done subscribed c' t h = absurd (cc)
  step-Tidy client_receives (writing x xs) received done subscribed c' t h =
      subst Tidy (sym (from_some _ c' h)) (write_next-Tidy xs _)
  step-Tidy client_receives (ended ending) received done subscribed c' t h = absurd (cc)

  run-Tidy :
      (moves : List (Move E)) (c c' : Channel T)
      → Tidy c
      → run as_new_block written moves c ≡ some c'
      → Tidy c'
  unfolding run
  run-Tidy [] c c' t h = subst Tidy (sym (from_some c c' h)) t
  run-Tidy (m ∷ moves) c c' t h = elim (Option-cases (step' m c)) [
    | inl n ↦ absurd (let q = rw (n, run) at h in cc)
    | inr (c1, y) ↦
        run-Tidy moves c1 c' (step-Tidy m c.phase c.received c.context_done c.subscribed c1 t y)
          (rw (y, run) at h)
  ]

  -- Neither a receive nor the end of the context can be acted on.
  abbrev pub AtRest : Channel T → Type 0
  AtRest c = (step' client_receives c ≡ none) × (step' end_noticed c ≡ none)

  rest-ended :
      (phase : Phase T) (received : List T) (done subscribed : Bool)
      → done ≡ true
      → AtRest (record {
        phase = phase;
        received = received;
        context_done = done;
        subscribed = subscribed;
      })
      → (ending : Ending) × (phase ≡ ended ending)
  unfolding step
  rest-ended waiting received true subscribed d (n, stuck) = absurd (cc)
  rest-ended waiting received false subscribed d (n, stuck) = absurd (cc)
  rest-ended (writing x xs) received done subscribed d (n, stuck) = absurd (cc)
  rest-ended (ended ending) received done subscribed d r = (ending, refl)

  fresh-Tidy : Tidy handle_channel
  unfolding handle_channel
  fresh-Tidy ending h = absurd (cc)

  -- Whatever happens, and in whatever order, events that are taken after the end of the context
  -- included: if the context has ended and the goroutine comes to rest, so that neither a receive of
  -- the client nor the end of its context is left to act on, then the goroutine has ended, its event
  -- subscription is cancelled, and the client has received what all the events taken give, each element
  -- once and in order.
  pub run-ends :
      (moves : List (Move E)) (c : Channel T)
      → run as_new_block written moves handle_channel ≡ some c
      → c.context_done ≡ true
      → AtRest c
      → ((ending : Ending) × (c.phase ≡ ended ending))
        × (c.subscribed ≡ false)
        × (c.received ≡ due as_new_block written moves)
  unfolding handle_channel
  run-ends moves c h d r =
      let (ending, e) = rest-ended c.phase c.received c.context_done c.subscribed d r in
      (
        (ending, e),
        run-Tidy moves handle_channel c fresh-Tidy h ending e,
        sym (append-nil c.received)
            ∙ ap (λ p. c.received ++ pending p) (sym e)
            ∙ run-due as_new_block written moves handle_channel c h,
      )

  abbrev pub AtSend : T → List T → Channel T → Type 0
  AtSend x xs c = (c.phase ≡ writing x xs) × (c.subscribed ≡ true)

  step_AtSend :
      (m : Move E) (x : T) (xs : List T) (c c' : Channel T)
      → m ≢ client_receives
      → AtSend x xs c
      → step' m c ≡ some c'
      → AtSend x xs c'
  unfolding step
  step_AtSend (event_taken e) x xs c c' n s h = absurd (let q = rw s.0 at h in cc)
  step_AtSend events_end x xs c c' n s h = absurd (let q = rw s.0 at h in cc)
  step_AtSend context_ends x xs c c' n s h =
      let same = from_some _ c' h in
      (ap (λ d. d.phase) same ∙ s.0, ap (λ d. d.subscribed) same ∙ s.1)
  step_AtSend end_noticed x xs c c' n s h = elim (Bool-cases c.context_done) [
    | inl y ↦ absurd (let q = rw (y, s.0) at h in cc)
    | inr f ↦ absurd (let q = rw f at h in cc)
  ]
  step_AtSend client_receives x xs c c' n s h = absurd (n refl)

  -- A client that no longer receives while an element is to be written: whatever else happens, its
  -- context's end included, the goroutine stays at that send and keeps its event subscription.
  pub run-AtSend :
      (moves : List (Move E)) (x : T) (xs : List T) (c c' : Channel T)
      → All (λ m. m ≢ client_receives) moves
      → AtSend x xs c
      → run as_new_block written moves c ≡ some c'
      → AtSend x xs c'
  unfolding run
  run-AtSend [] x xs c c' a s h =
      let same = from_some c c' h in
      (ap (λ d. d.phase) same ∙ s.0, ap (λ d. d.subscribed) same ∙ s.1)
  run-AtSend (m ∷ moves) x xs c c' a s h = elim (Option-cases (step' m c)) [
    | inl n ↦ absurd (let q = rw (n, run) at h in cc)
    | inr (c1, y) ↦
        run-AtSend moves x xs c1 c' a.1 (step_AtSend m x xs c c1 a.0 s y) (rw (y, run) at h)
  ]
