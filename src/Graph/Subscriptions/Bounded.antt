-- ===== src/Graph/Subscriptions/Bounded.antt =====
-- How long the goroutine of a subscription goes on without new events.
use tx_indexer.Base.{
  ℕ, suc, ◌≤◌, ◌⊎◌, length, arith, ◌≡◌, refl, ap, ◌∙◌, Bool, true, false, Option, some, List, [],
  ◌∷◌, All, Option-cases, inl, inr,
}
use tx_indexer.Types.{NewBlock}
use tx_indexer.Graph.Subscriptions.{
  Phase, waiting, writing, ended, Channel, Move, event_taken, events_end, context_ends, end_noticed,
  client_receives, finish, write_next, step, run,
}
use tx_indexer.Graph.Subscriptions.Delivery.{pending, from_some}

module _ {E T : Type 0} (as_new_block : E → Option NewBlock) (written : NewBlock → List T) where
  abbrev step' : Move E → Channel T → Option (Channel T)
  step' = step as_new_block written

  abbrev Forward : Move E → Type 0
  Forward m = (m ≡ client_receives) ⊎ (m ≡ end_noticed)

  -- The receives and the end that are left, if no more events are taken.
  abbrev left : Phase T → ℕ
  left waiting = 1
  left (writing x xs) = suc (suc (length xs))
  left (ended ending) = 0

  left-write_next :
      (ys : List T) (c : Channel T)
      → left (write_next as_new_block written ys c).phase ≡ suc (length ys)
  unfolding write_next
  left-write_next [] c = refl
  left-write_next (y ∷ ys) c = refl

  step-left :
      (m : Move E) (phase : Phase T) (received : List T) (done subscribed : Bool) (c' : Channel T)
      → Forward m
      → step' m (record {
        phase = phase;
        received = received;
        context_done = done;
        subscribed = subscribed;
      })
        ≡ some c'
      → suc (left c'.phase) ≡ left phase
  unfolding step finish
  step-left (event_taken e) phase received done subscribed c' f h =
      absurd (elim f [ inl q ↦ cc | inr q ↦ cc ])
  step-left events_end phase received done subscribed c' f h =
      absurd (elim f [ inl q ↦ cc | inr q ↦ cc ])
  step-left context_ends phase received done subscribed c' f h =
      absurd (elim f [ inl q ↦ cc | inr q ↦ cc ])
  step-left end_noticed waiting received true subscribed c' f h =
      ap (λ d. suc (left d.phase)) (from_some _ c' h)
  step-left end_noticed waiting received false subscribed c' f h = absurd (cc)
  step-left end_noticed (writing x xs) received true subscribed c' f h = absurd (cc)
  step-left end_noticed (writing x xs) received false subscribed c' f h = absurd (cc)
  step-left end_noticed (ended ending) received true subscribed c' f h = absurd (cc)
  step-left end_noticed (ended ending) received false subscribed c' f h = absurd (cc)
  step-left client_receives waiting received done subscribed c' f h = absurd (cc)
  step-left client_receives (writing x xs) received done subscribed c' f h =
      ap (λ d. suc (left d.phase)) (from_some _ c' h) ∙ ap suc (left-write_next xs _)
  step-left client_receives (ended ending) received done subscribed c' f h = absurd (cc)

  -- Receives and the end of the context cannot go on for ever: without new events the goroutine comes to
  -- rest after at most one move for each element left to write, and one more.
  pub run-bounded :
      (moves : List (Move E)) (c c' : Channel T)
      → All Forward moves
      → run as_new_block written moves c ≡ some c'
      → length moves ≤ suc (length (pending c.phase))
  unfolding run
  run-bounded moves c c' f h = omega (arith, left_over moves c c' f h, left_pending c.phase)
    where
      left_over :
          (moves : List (Move E)) (c c' : Channel T)
          → All Forward moves
          → run as_new_block written moves c ≡ some c'
          → length moves ≤ left c.phase
      left_over [] c c' f h = omega arith
      left_over (m ∷ moves) c c' f h = elim (Option-cases (step' m c)) [
        | inl n ↦ absurd (let q = rw (n, run) at h in cc)
        | inr (c1, y) ↦ omega (
          arith,
          left_over moves c1 c' f.1 (rw (y, run) at h),
          step-left m c.phase c.received c.context_done c.subscribed c1 f.0 y,
        )
      ]

      left_pending : (phase : Phase T) → left phase ≤ suc (length (pending phase))
      left_pending waiting = omega arith
      left_pending (writing x xs) = omega arith
      left_pending (ended ending) = omega arith
