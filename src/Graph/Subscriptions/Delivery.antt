-- ===== src/Graph/Subscriptions/Delivery.antt =====
-- What the client of a subscription receives.
use mathlib.Core.List.{append_assoc, append-nil}
use tx_indexer.Base.{
  ◌≡◌, refl, sym, ap, ap₂, ◌∙◌, Bool, true, false, Option, none, some, List, [], ◌∷◌, ◌++◌,
  Option-cases, inl, inr,
}
use tx_indexer.Types.{NewBlock}
use tx_indexer.Graph.Subscriptions.{
  Phase, waiting, writing, ended, Channel, Move, event_taken, events_end, context_ends, end_noticed,
  client_receives, finish, write_next, take_event, step, run,
}

abbrev pub pending : {T : Type 0} → Phase T → List T
pending waiting = []
pending (writing x xs) = x ∷ xs
pending (ended ending) = []

pub from_some : {A : Type 0} (x y : A) → some x ≡ some y → y ≡ x
from_some x y h = sym (ap (λ o. elim o [ none ↦ y | some z ↦ z ]) h)

module _ {E T : Type 0} (as_new_block : E → Option NewBlock) (written : NewBlock → List T) where
  -- What the events that were taken are to give.
  abbrev of_event : Option NewBlock → List T
  of_event none = []
  of_event (some nb) = written nb

  abbrev pub due : List (Move E) → List T
  due [] = []
  due (event_taken e ∷ moves) = of_event (as_new_block e) ++ due moves
  due (events_end ∷ moves) = due moves
  due (context_ends ∷ moves) = due moves
  due (end_noticed ∷ moves) = due moves
  due (client_receives ∷ moves) = due moves

  abbrev step' : Move E → Channel T → Option (Channel T)
  step' = step as_new_block written

  abbrev pub given : Channel T → List T
  given c = c.received ++ pending c.phase

  write_given :
      (ys : List T) (c : Channel T)
      → given (write_next as_new_block written ys c) ≡ c.received ++ ys
  unfolding write_next
  write_given [] c = refl
  write_given (x ∷ xs) c = refl

  step_given :
      (m : Move E) (phase : Phase T) (received : List T) (done subscribed : Bool) (c' : Channel T)
      → step' m (record {
        phase = phase;
        received = received;
        context_done = done;
        subscribed = subscribed;
      })
        ≡ some c'
      → given c' ≡ (received ++ pending phase) ++ due (m ∷ [])
  unfolding step take_event finish
  step_given (event_taken e) waiting received done subscribed c' h =
      let c : Channel T = record {
        phase = waiting;
        received = received;
        context_done = done;
        subscribed = subscribed;
      } in
      let same = ap given (from_some (take_event as_new_block written e c) c' h) in
      elim (Option-cases (as_new_block e)) [
        | inl n ↦ same ∙ rw (n, take_event) (sym (append-nil (received ++ [])))
        | inr (nb, y) ↦
            same
            ∙ rw (y, take_event)
                (write_given (written nb) c
                  ∙ ap₂ (λ a b. a ++ b) (sym (append-nil received)) (sym (append-nil (written nb))))
      ]
  step_given (event_taken e) (writing x xs) received done subscribed c' h = absurd (cc)
  step_given (event_taken e) (ended ending) received done subscribed c' h = absurd (cc)
  step_given events_end waiting received done subscribed c' h =
      ap given (from_some _ c' h) ∙ sym (append-nil (received ++ []))
  step_given events_end (writing x xs) received done subscribed c' h = absurd (cc)
  step_given events_end (ended ending) received done subscribed c' h = absurd (cc)
  step_given context_ends phase received done subscribed c' h =
      ap given (from_some _ c' h) ∙ sym (append-nil (received ++ pending phase))
  step_given end_noticed waiting received true subscribed c' h =
      ap given (from_some _ c' h) ∙ sym (append-nil (received ++ []))
  step_given end_noticed waiting received false subscribed c' h = absurd (cc)
  step_given end_noticed (writing x xs) received true subscribed c' h = absurd (cc)
  step_given end_noticed (writing x xs) received false subscribed c' h = absurd (cc)
  step_given end_noticed (ended ending) received true subscribed c' h = absurd (cc)
  step_given end_noticed (ended ending) received false subscribed c' h = absurd (cc)
  step_given client_receives waiting received done subscribed c' h = absurd (cc)
  step_given client_receives (writing x xs) received done subscribed c' h =
      ap given (from_some _ c' h)
      ∙ write_given xs (record {
        phase = writing x xs;
        received = received ++ x ∷ [];
        context_done = done;
        subscribed = subscribed;
      })
      ∙ append_assoc received (x ∷ []) xs
      ∙ sym (append-nil (received ++ x ∷ xs))
  step_given client_receives (ended ending) received done subscribed c' h = absurd (cc)

  due-append : (m : Move E) (moves : List (Move E)) → due (m ∷ moves) ≡ due (m ∷ []) ++ due moves
  due-append (event_taken e) moves =
      ap (λ l. l ++ due moves) (sym (append-nil (of_event (as_new_block e))))
  due-append events_end moves = refl
  due-append context_ends moves = refl
  due-append end_noticed moves = refl
  due-append client_receives moves = refl

  -- At any moment, what the client has received and what the goroutine is about to write are together
  -- what the events that were taken give, each once and in order.
  pub run-due :
      (moves : List (Move E)) (c c' : Channel T)
      → run as_new_block written moves c ≡ some c'
      → given c' ≡ given c ++ due moves
  unfolding run
  run-due [] c c' h = ap given (from_some c c' h) ∙ sym (append-nil (given c))
  run-due (m ∷ moves) c c' h = elim (Option-cases (step' m c)) [
    | inl n ↦ absurd (let q = rw (n, run) at h in cc)
    | inr (c1, y) ↦
        run-due moves c1 c' (rw (y, run) at h)
        ∙ ap (λ l. l ++ due moves)
            (step_given m c.phase c.received c.context_done c.subscribed c1 y)
        ∙ append_assoc (given c) (due (m ∷ [])) (due moves)
        ∙ ap (λ l. given c ++ l) (sym (due-append m moves))
  ]
