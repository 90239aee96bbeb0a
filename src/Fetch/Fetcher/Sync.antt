-- ===== src/Fetch/Fetcher/Sync.antt =====
-- The queue of the fetcher of fetch/fetch.go goes on from the latest saved height without a hole,
-- whatever the order in which the workers answer.
use tx_indexer.Base.{
  ℕ, ◌+◌, ◌^◌, ◌≤◌, ◌<◌, ◌≡◌, sym, ap, subst, List, [], ◌∷◌, none, some, ok, inl, inr, arith,
  Option-cases, Result-cases, length,
}
use tx_indexer.Fetch.Slots.{Chunk, ChunkRange, Slot, size, set_at, set_chunk}
use tx_indexer.Fetch.Slots.Divide.{Chain}
use tx_indexer.Fetch.Slots.Gaps.{ranges}
use tx_indexer.Fetch.Slots.SetChunk.{ranges-set_at, length-set_at}
use tx_indexer.Fetch.Store.{Store, StoreLaws}
use tx_indexer.Fetch.Fetcher.{
  Fetcher, latest_local, write_blocks, finish_slot, write_slot, drain, search_slot, handle_response,
}

-- The latest saved height is `h`, and the slots go on from it up to `m`.
pub record Synced (s : Store) (f : Fetcher s) (h m : ℕ) : Type 0 where
  pub height : latest_local s (s.get_latest_height f.db) ≡ ok h
  pub chained : Chain (h + 1) m (ranges f.chunk_buffer.queue)
  pub within : size f.chunk_buffer ≤ f.chunk_buffer.max_slots
  pub same_max : f.chunk_buffer.max_slots ≡ f.max_slots
  pub fits : m < 2 ^ 64

module _ {s : Store} (w : StoreLaws s) where
  -- What a chunk that was written leaves behind.
  pub record Written (f f' : Fetcher s) (h : ℕ) : Type 0 where
    pub saved : s.get_latest_height f'.db ≡ ok h
    same_buffer : f'.chunk_buffer ≡ f.chunk_buffer
    same_slots : f'.max_slots ≡ f.max_slots

  finish_slot-Written :
      (f f' : Fetcher s) (range : ChunkRange) (n : ℕ) (b : s.Batch)
      → range.to < 2 ^ 64
      → finish_slot s f range n b ≡ (none, f')
      → Written f f' range.to
  unfolding finish_slot
  finish_slot-Written f f' range n b fits h =
      elim (Option-cases (s.set_latest_height b range.to).0) [
        | inr (e, q) ↦ absurd (ground arith)
        | inl q ↦ elim (Result-cases (s.commit f.db (s.set_latest_height b range.to).1)) [
          | inr (e, r) ↦ absurd (ground arith)
          | inl (db', r) ↦ record {
            saved = ground (arith, w.get_latest_height-commit f.db db' b range.to);
            same_buffer = ground arith;
            same_slots = ground arith;
          }
        ]
      ]

  pub write_slot-Written :
      (f f' : Fetcher s) (chunk : Chunk) (range : ChunkRange)
      → range.to < 2 ^ 64
      → write_slot s f chunk range ≡ (none, f')
      → Written f f' range.to
  unfolding write_slot
  write_slot-Written f f' chunk range fits h =
      elim (Option-cases
        (write_blocks s 0 chunk.blocks chunk.results (s.write_batch f.db) f.signalled)) [
          | inl q ↦ absurd (ground arith)
          | inr ((b, events), q) ↦
              let done =
                finish_slot-Written (record f { signalled = events }) f' range (length chunk.blocks)
                  b fits (ground arith) in
              record {
                saved = done.saved;
                same_buffer = done.same_buffer;
                same_slots = done.same_slots;
              }
        ]

  -- The first slot, if any, still waits for its chunk.
  abbrev pub Waiting : List Slot → Type 0
  Waiting [] = Unit {0}
  Waiting (x ∷ xs) = x.chunk ≡ none

  -- What draining the queue leaves behind.
  pub record Drained (h m : ℕ) (f' : Fetcher s) : Type 0 where
    pub height : ℕ
    pub not_below : h ≤ height
    pub synced : Synced s f' height m
    pub waiting : Waiting f'.chunk_buffer.queue

  abbrev pub popped : List Slot → Fetcher s → Fetcher s
  popped xs f = record f { chunk_buffer = record f.chunk_buffer { queue = xs } }

  pub drain_empty : (f f' : Fetcher s) → drain s [] f ≡ (none, f') → popped [] f ≡ f'
  unfolding drain
  drain_empty f f' e = ap (λ p. p.1) e

  pub drain_stops :
      (x : Slot) (xs : List Slot) (f f' : Fetcher s)
      → x.chunk ≡ none
      → drain s (x ∷ xs) f ≡ (none, f')
      → popped (x ∷ xs) f ≡ f'
  unfolding drain
  drain_stops x xs f f' q e = ground arith

  pub drain_writes :
      (x : Slot) (xs : List Slot) (f f' : Fetcher s) (chunk : Chunk)
      → x.chunk ≡ some chunk
      → drain s (x ∷ xs) f ≡ (none, f')
      → (f1 : Fetcher s) × (write_slot s (popped xs f) chunk x.chunk_range ≡ (none, f1))
        × (drain s xs f1 ≡ (none, f'))
  unfolding drain
  drain_writes x xs f f' chunk q e =
      elim (Option-cases (write_slot s (popped xs f) chunk x.chunk_range).0) [
        | inl r ↦ ((write_slot s (popped xs f) chunk x.chunk_range).1, ground arith, ground arith)
        | inr (failure, r) ↦ absurd (ground arith)
      ]

  Synced-after :
      (x : Slot) (xs : List Slot) (f f1 : Fetcher s) (h m : ℕ)
      → Synced s (popped (x ∷ xs) f) h m
      → Written (popped xs f) f1 x.chunk_range.to
      → Synced s (popped xs f1) x.chunk_range.to m
  unfolding latest_local
  Synced-after x xs f f1 h m sy done = record {
    height = ap (latest_local s) done.saved;
    chained = sy.chained.3;
    within = ground (arith, sy.within, done.same_buffer);
    same_max = ground (arith, sy.same_max, done.same_buffer, done.same_slots);
    fits = sy.fits;
  }

  drain-Drained :
      (q : List Slot) (f f' : Fetcher s) (h m : ℕ)
      → Synced s (record f { chunk_buffer = record f.chunk_buffer { queue = q } }) h m
      → drain s q f ≡ (none, f')
      → Drained h m f'
  drain-Drained [] f f' h m sy e =
      subst (Drained h m) (drain_empty f f' e)
        (record { height = h; not_below = omega arith; synced = sy; waiting = tt })
  drain-Drained (x ∷ xs) f f' h m sy e = elim (Option-cases x.chunk) [
    | inl q ↦
        subst (Drained h m) (drain_stops x xs f f' q e)
          (record { height = h; not_below = omega arith; synced = sy; waiting = q })
    | inr (chunk, q) ↦
        let (f1, wrote, more) = drain_writes x xs f f' chunk q e in
        let done =
          write_slot-Written (popped xs f) f1 chunk x.chunk_range
            (omega (arith, sy.fits, sy.chained.2)) wrote in
        let later =
          drain-Drained xs f1 f' x.chunk_range.to m (Synced-after x xs f f1 h m sy done) more in
        record {
          height = later.height;
          not_below = omega (arith, later.not_below, sy.chained.0, sy.chained.1);
          synced = later.synced;
          waiting = later.waiting;
        }
  ]

  -- A response that is handled without an error keeps the queue without a hole behind the latest
  -- height, never lowers that height, and leaves no chunk at the front that could be written.
  pub handle_response-Drained :
      (f f' : Fetcher s) (chunk : Chunk) (range : ChunkRange) (h m : ℕ)
      → Synced s f h m
      → handle_response s f chunk range ≡ (none, f')
      → Drained h m f'
  unfolding handle_response set_chunk
  handle_response-Drained f f' chunk range h m sy e =
      elim (Option-cases
        (set_at f.chunk_buffer.queue (search_slot s range.from f.chunk_buffer.queue) chunk)) [
          | inl q ↦ absurd (ground arith)
          | inr (ys, q) ↦
              drain-Drained ys (record f { chunk_buffer = record f.chunk_buffer { queue = ys } }) f'
                h m
                (record {
                  height = sy.height;
                  chained =
                      subst (Chain (h + 1) m)
                        (sym (
                          ranges-set_at f.chunk_buffer.queue ys
                            (search_slot s range.from f.chunk_buffer.queue) chunk q))
                        sy.chained;
                  within = omega (
                    arith,
                    length-set_at f.chunk_buffer.queue ys
                        (search_slot s range.from f.chunk_buffer.queue) chunk q,
                    sy.within,
                  );
                  same_max = sy.same_max;
                  fits = sy.fits;
                })
                (ground arith)
        ]
