-- ===== src/Fetch/Fetcher/Saved.antt =====
-- What writeSlot of fetch/fetch.go saves.
use mathlib.Core.List.{append_assoc, append-nil, map}
use tx_indexer.Base.{
  ℕ, suc, ◌^◌, ◌<◌, ◌≡◌, refl, sym, ap, subst, ◌∙◌, List, [], ◌∷◌, ◌++◌, Option, none, some, ok,
  inl, inr, All, Option-cases, Result-cases, get_elem?, length, arith,
}
use tx_indexer.Chain.{Block, TxResult}
use tx_indexer.Types.{NewBlock}
use tx_indexer.Fetch.Slots.{Chunk, ChunkRange}
use tx_indexer.Fetch.Store.{
  Store, StoreLaws, ItemLaws, Item, block_of, tx_of, Apart, FitsKey, put, Stored,
}
use tx_indexer.Fetch.Fetcher.Sync.{write_slot-Written}
use tx_indexer.Fetch.Fetcher.{Fetcher, write_txs, write_blocks, finish_slot, write_slot}

abbrev of_results : Option (List TxResult) → List Item
of_results none = []
of_results (some txs) = map tx_of txs

-- The blocks and the results at their places, from a place on.
abbrev items_from : ℕ → List (List TxResult) → List Block → List Item
items_from k results [] = []
items_from k results (block ∷ rest) =
    block_of block ∷ of_results (get_elem? results k) ++ items_from (suc k) results rest

abbrev pub items : Chunk → List Item
items chunk = items_from 0 chunk.results chunk.blocks

abbrev results_at : Option (List TxResult) → List TxResult
results_at none = []
results_at (some txs) = txs

-- An event for each block, with the results at its place.
abbrev events_from : ℕ → List (List TxResult) → List Block → List NewBlock
events_from k results [] = []
events_from k results (block ∷ rest) =
    record { block = block; results = results_at (get_elem? results k) }
    ∷ events_from (suc k) results rest

abbrev pub events : Chunk → List NewBlock
events chunk = events_from 0 chunk.results chunk.blocks

-- No two are saved in one place.
abbrev pub AllApart : List Item → Type 0
AllApart [] = Unit
AllApart (i ∷ is) = All (Apart i) is × AllApart is

All-right : {A : Type 0} (P : A → Type 0) (xs ys : List A) → All P (xs ++ ys) → All P ys
All-right P [] ys a = a
All-right P (x ∷ xs) ys a = All-right P xs ys a.1

module _ {s : Store} (w : StoreLaws s) (laws : ItemLaws s) where
  -- The store sets it without an error, in any batch.
  abbrev pub Accepted : Item → Type 0
  Accepted i = (b : s.Batch) → (put s b i).0 ≡ none

  abbrev put_all : s.Batch → List Item → s.Batch
  put_all b [] = b
  put_all b (i ∷ is) = put_all (put s b i).1 is

  put_all-append :
      (b : s.Batch) (is js : List Item) → put_all b (is ++ js) ≡ put_all (put_all b is) js
  put_all-append b [] js = refl
  put_all-append b (i ∷ is) js = put_all-append (put s b i).1 is js

  put_all-keeps :
      (b : s.Batch) (i : Item) (js : List Item)
      → laws.Has b i
      → FitsKey i
      → All FitsKey js
      → All (Apart i) js
      → All Accepted js
      → laws.Has (put_all b js) i
  put_all-keeps b i [] h f fs a acc = h
  put_all-keeps b i (j ∷ js) h f fs a acc =
      put_all-keeps (put s b j).1 i js (laws.put-keeps b i j f fs.0 a.0 (acc.0 b) h) f fs.1 a.1
        acc.1

  put_all-Has :
      (b : s.Batch) (is : List Item)
      → All FitsKey is
      → AllApart is
      → All Accepted is
      → All (laws.Has (put_all b is)) is
  put_all-Has b [] fs a acc = tt
  put_all-Has b (i ∷ is) fs a acc = (
    put_all-keeps (put s b i).1 i is (laws.put-Has b i (acc.0 b)) fs.0 fs.1 a.0 acc.1,
    put_all-Has (put s b i).1 is fs.1 a.1 acc.1,
  )

  All-map :
      {P Q : Item → Type 0} → ((i : Item) → P i → Q i) → (is : List Item) → All P is → All Q is
  All-map f [] a = tt
  All-map f (i ∷ is) a = (f i a.0, All-map f is a.1)

  write_txs_lem :
      (b : s.Batch) (txs : List TxResult) → write_txs s b txs ≡ put_all b (map tx_of txs)
  unfolding write_txs
  write_txs_lem b [] = refl
  write_txs_lem b (t ∷ ts) = write_txs_lem (s.set_tx b t).1 ts

  from_some : {A : Type 0} (x y : A) → some x ≡ some y → y ≡ x
  from_some x y h = sym (ap (λ o. elim o [ none ↦ y | some z ↦ z ]) h)

  write_blocks_lem :
      (k : ℕ) (blocks : List Block) (results : List (List TxResult)) (b b' : s.Batch)
      (told told' : List NewBlock)
      → All Accepted (items_from k results blocks)
      → write_blocks s k blocks results b told ≡ some (b', told')
      → (b' ≡ put_all b (items_from k results blocks))
        × (told' ≡ told ++ events_from k results blocks)
  unfolding write_blocks
  write_blocks_lem k [] results b b' told told' acc h =
      let same = from_some (b, told) (b', told') h in
      (ap (λ p. p.0) same, ap (λ p. p.1) same ∙ sym (append-nil told))
  write_blocks_lem k (block ∷ rest) results b b' told told' acc h =
      elim (Option-cases (get_elem? results k)) [
        | inl n ↦ absurd (let q = rw (acc.0 b, n, write_blocks) at h in cc)
        | inr (txs, e) ↦
            let (written, signalled) =
              write_blocks_lem (suc k) rest results (write_txs s (s.set_block b block).1 txs) b'
                (told ++ record { block = block; results = txs } ∷ []) told'
                (All-right Accepted (of_results (get_elem? results k))
                  (items_from (suc k) results rest) acc.1)
                (rw (acc.0 b, e, write_blocks) at h) in
            (
              written
                  ∙ ap (λ a. put_all a (items_from (suc k) results rest))
                      (write_txs_lem (s.set_block b block).1 txs)
                  ∙ sym (
                      put_all-append (s.set_block b block).1 (map tx_of txs)
                        (items_from (suc k) results rest))
                  ∙ ap
                      (λ o.
                        put_all (s.set_block b block).1
                          (of_results o ++ items_from (suc k) results rest))
                      (sym e),
              signalled
                  ∙ append_assoc told (record { block = block; results = txs } ∷ [])
                      (events_from (suc k) results rest)
                  ∙ ap
                      (λ o.
                        told
                        ++ record { block = block; results = results_at o }
                          ∷ events_from (suc k) results rest)
                      (sym e),
            )
      ]

  -- The end of a slot commits the batch that it is given.
  finish_slot-Stored :
      (f f' : Fetcher s) (range : ChunkRange) (n : ℕ) (b : s.Batch) (is : List Item)
      → All (laws.Has b) is
      → finish_slot s f range n b ≡ (none, f')
      → All (Stored s f'.db) is × (f'.signalled ≡ f.signalled)
  unfolding finish_slot
  finish_slot-Stored f f' range n b is has h =
      elim (Option-cases (s.set_latest_height b range.to).0) [
        | inr (e, q) ↦ absurd (ground arith)
        | inl q ↦ elim (Result-cases (s.commit f.db (s.set_latest_height b range.to).1)) [
          | inr (e, r) ↦ absurd (ground arith)
          | inl (db', r) ↦
              let at : f'.db ≡ db' = ground arith in
              let quiet : f'.signalled ≡ f.signalled = ground arith in
              (
                All-map
                    (λ i kept.
                      subst (λ d. Stored s d i) (sym at)
                        (laws.commit-Stored f.db db' (s.set_latest_height b range.to).1 i r
                          (laws.set_latest_height-keeps b range.to i q kept)))
                    is has,
                quiet,
              )
        ]
      ]

  -- If the store accepts each block and transaction of a chunk, no two of them share a place, and their
  -- heights and indices are within the keys, then a slot that is written without an error stores all of
  -- them: each block is read back by its height and each result by its height and index. Exactly the
  -- chunk's blocks are signalled, in order and each with the results at its place, and the latest
  -- height is the slot's end.
  pub write_slot-Stored :
      (f f' : Fetcher s) (chunk : Chunk) (range : ChunkRange)
      → range.to < 2 ^ 64
      → All FitsKey (items chunk)
      → AllApart (items chunk)
      → All Accepted (items chunk)
      → write_slot s f chunk range ≡ (none, f')
      → All (Stored s f'.db) (items chunk)
        × (f'.signalled ≡ f.signalled ++ events chunk)
        × (s.get_latest_height f'.db ≡ ok range.to)
  unfolding write_slot
  write_slot-Stored f f' chunk range fits keys apart acc h =
      elim (Option-cases
        (write_blocks s 0 chunk.blocks chunk.results (s.write_batch f.db) f.signalled)) [
          | inl q ↦ absurd (ground arith)
          | inr ((b, told), q) ↦
              let (written, signalled) =
                write_blocks_lem 0 chunk.blocks chunk.results (s.write_batch f.db) b f.signalled
                  told acc q in
              let (stored, quiet) =
                finish_slot-Stored (record f { signalled = told }) f' range (length chunk.blocks) b
                  (items chunk)
                  (subst (λ a. All (laws.Has a) (items chunk)) (sym written)
                    (put_all-Has (s.write_batch f.db) (items chunk) keys apart acc))
                  (ground arith) in
              (stored, quiet ∙ signalled, (write_slot-Written w f f' chunk range fits h).saved)
        ]
