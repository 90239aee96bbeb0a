-- ===== src/Fetch/Fetcher/InOrder.antt =====
-- What the collector's case of FetchChainData (fetch/fetch.go) saves.
use tx_indexer.Base.{
  ℕ, zero, suc, ◌+◌, ◌^◌, ◌<◌, ◌≡◌, refl, sym, ap, subst, ◌∙◌, List, [], ◌∷◌, ◌++◌, Option, none,
  some, ok, inl, inr, All, Option-cases, arith,
}
use tx_indexer.Fetch.Slots.{Chunk, ChunkRange, Slot, set_at, set_chunk}
use tx_indexer.Fetch.Slots.Divide.{Chain}
use tx_indexer.Fetch.Slots.Gaps.{ranges}
use tx_indexer.Fetch.Slots.SetChunk.{ranges-set_at}
use tx_indexer.Fetch.Store.{Store, StoreLaws, ItemLaws, FitsKey, Stored}
use tx_indexer.Fetch.Fetcher.{Fetcher, drain, search_slot, handle_response}
use tx_indexer.Fetch.Fetcher.Sync.{
  Synced, Drained, popped, drain_empty, drain_stops, drain_writes, handle_response-Drained,
}
use tx_indexer.Fetch.Fetcher.Saved.{items, events, AllApart, Accepted, write_slot-Stored}

module _ {s : Store} (w : StoreLaws s) (laws : ItemLaws s) where
  -- The store accepts each block and transaction of the chunk, no two of them share a place, and they
  -- are within the keys.
  pub record Storable (chunk : Chunk) : Type 0 where
    pub keys : All FitsKey (items chunk)
    pub apart : AllApart (items chunk)
    pub accepted : All (Accepted w laws) (items chunk)

  abbrev pub Ready : Option Chunk → Type 0
  Ready none = Unit
  Ready (some chunk) = Storable chunk

  -- The slots are saved one after another: after each, all of its chunk is read back, its blocks have
  -- been signalled in order, and its end is the latest height.
  abbrev pub SavedInOrder : List Slot → Fetcher s → Fetcher s → Type 0
  SavedInOrder [] f f' = (f'.db ≡ f.db) × (f'.signalled ≡ f.signalled)
  SavedInOrder (x ∷ xs) f f' =
      (chunk : Chunk) × (g : Fetcher s) × (x.chunk ≡ some chunk)
      × All (Stored s g.db) (items chunk)
      × (g.signalled ≡ f.signalled ++ events chunk)
      × (s.get_latest_height g.db ≡ ok x.chunk_range.to)
      × SavedInOrder xs g f'

  drain-SavedInOrder :
      (q : List Slot) (f f' : Fetcher s) (start m : ℕ)
      → Chain start m (ranges q)
      → m < 2 ^ 64
      → All (λ x. Ready x.chunk) q
      → drain s q f ≡ (none, f')
      → (written : List Slot) × (q ≡ written ++ f'.chunk_buffer.queue) × SavedInOrder written f f'
  drain-SavedInOrder [] f f' start m c fits r e =
      subst
        (λ g.
          (written : List Slot) × ([] ≡ written ++ g.chunk_buffer.queue) × SavedInOrder written f g)
        (drain_empty w f f' e) ([], refl, (refl, refl))
  drain-SavedInOrder (x ∷ xs) f f' start m c fits r e = elim (Option-cases x.chunk) [
    | inl q ↦
        subst
          (λ g.
            (written : List Slot) × ((x ∷ xs) ≡ written ++ g.chunk_buffer.queue)
            × SavedInOrder written f g)
          (drain_stops w x xs f f' q e) ([], refl, (refl, refl))
    | inr (chunk, q) ↦
        let (g, wrote, more) = drain_writes w x xs f f' chunk q e in
        let ready : Storable chunk = subst Ready q r.0 in
        let (stored, told, height) =
          write_slot-Stored w laws (popped w xs f) g chunk x.chunk_range (omega (arith, fits, c.2))
            ready.keys ready.apart ready.accepted wrote in
        let (written, split, later) =
          drain-SavedInOrder xs g f' (x.chunk_range.to + 1) m c.3 fits r.1 more in
        (x ∷ written, ap (λ l. x ∷ l) split, (chunk, g, q, stored, told, height, later))
  ]

  any_queue :
      (queue written : List Slot) (f f' : Fetcher s)
      → SavedInOrder written
          (record f { chunk_buffer = record f.chunk_buffer { queue = queue } })
          f'
      → SavedInOrder written f f'
  any_queue queue [] f f' saved = saved
  any_queue queue (x ∷ xs) f f' saved = saved

  Ready-set_at :
      (q ys : List Slot) (index : ℕ) (chunk : Chunk)
      → set_at q index chunk ≡ some ys
      → Storable chunk
      → All (λ x. Ready x.chunk) q
      → All (λ x. Ready x.chunk) ys
  unfolding set_at
  Ready-set_at [] ys index chunk h c r = absurd (ground arith)
  Ready-set_at (x ∷ xs) ys zero chunk h c r =
      subst (All (λ x. Ready x.chunk)) (from_some _ ys h) (c, r.1)
    where
      from_some : (a b : List Slot) → some a ≡ some b → a ≡ b
      from_some a b e = ap (λ o. elim o [ none ↦ a | some z ↦ z ]) e
  Ready-set_at (x ∷ xs) ys (suc index) chunk h c r = elim (Option-cases (set_at xs index chunk)) [
    | inl n ↦ absurd (ground arith)
    | inr (zs, e) ↦
        let same : x ∷ zs ≡ ys = ground arith in
        subst (All (λ x. Ready x.chunk)) same (r.0, Ready-set_at xs zs index chunk e c r.1)
  ]

  -- A fetcher in step handles a response without an error, and each chunk that waits in its queue and the
  -- response's chunk can be stored: the store accepts its blocks and results, no two of them share a
  -- place, and they are within the keys. Then the queue with the response's chunk is the slots written
  -- now followed by those that stay. The slots written are saved one after another: after each, all the
  -- blocks and results of its chunk are read back, its blocks have been signalled in order, and its end
  -- is the latest height. The queue goes on from the latest height without a hole, that height is not
  -- lowered, and no chunk that could be written is left at the front. A chunk may lack blocks of its
  -- range, which the node did not give.
  pub handle_response-SavedInOrder :
      (f f' : Fetcher s) (chunk : Chunk) (range : ChunkRange) (h m : ℕ)
      → Synced s f h m
      → Storable chunk
      → All (λ x. Ready x.chunk) f.chunk_buffer.queue
      → handle_response s f chunk range ≡ (none, f')
      → Drained w h m f'
        × (written : List Slot) × (set_at f.chunk_buffer.queue
              (search_slot s range.from f.chunk_buffer.queue)
              chunk
            ≡ some (written ++ f'.chunk_buffer.queue))
        × SavedInOrder written f f'
  unfolding handle_response set_chunk
  handle_response-SavedInOrder f f' chunk range h m sy storable ready e =
      elim (Option-cases
        (set_at f.chunk_buffer.queue (search_slot s range.from f.chunk_buffer.queue) chunk)) [
          | inl q ↦ absurd (ground arith)
          | inr (ys, q) ↦
              let (written, split, saved) =
                drain-SavedInOrder ys
                  (record f { chunk_buffer = record f.chunk_buffer { queue = ys } }) f' (h + 1) m
                  (subst (Chain (h + 1) m)
                    (sym (
                      ranges-set_at f.chunk_buffer.queue ys
                        (search_slot s range.from f.chunk_buffer.queue) chunk q))
                    sy.chained)
                  sy.fits
                  (Ready-set_at f.chunk_buffer.queue ys
                    (search_slot s range.from f.chunk_buffer.queue) chunk q storable ready)
                  (ground arith) in
              (
                handle_response-Drained w f f' chunk range h m sy e,
                written,
                q ∙ ap some split,
                any_queue ys written f f' saved,
              )
        ]
