-- ===== src/Fetch/Fetcher.antt =====
-- fetch/fetch.go: the fetcher, which reserves ranges, saves the chunks that its workers bring, and
-- signals the saved blocks. The loop of FetchChainData is a step for each tick and response; the
-- clock, the client's answers and the order of the responses are arguments. Logging is left out.
pub mod Sync
pub mod Attempts
pub mod Saved
pub mod InOrder
use tx_indexer.Base.{
  ℕ, zero, suc, ◌+◌, ◌%◌, ◌^◌, ◌≡◌, Bool, true, false, ◌&&◌, List, [], ◌∷◌, ◌++◌, Option, none,
  some, Result, ok, err, ltb, leb, ◌==◌, if◌then◌else◌, length, get_elem?, not, map,
}
use tx_indexer.Chain.{Tx, Header, Block, TxResult, DeliverTx}
use tx_indexer.Types.{NewBlock}
use tx_indexer.Fetch.Slots.{
  Chunk, ChunkRange, Slot, Slots, size, add_64, set_chunk, reserve_chunk_ranges,
}
use tx_indexer.Fetch.Store.{Store}

abbrev pub default_max_slots : ℕ
default_max_slots = 100

abbrev pub default_max_chunk_size : ℕ
default_max_chunk_size = 100

-- `panics` is an index out of range or a nil pointer, which ends the process.
pub data FetchError (E : Type 0) : Type 0 where
  latest_height : E → FetchError E
  save_height : E → Option E → FetchError E
  persist : E → FetchError E
  panics : FetchError E

module _ (s : Store) where
  pub record Fetcher : Type 0 where
    pub db : s.Db
    pub chunk_buffer : Slots
    pub max_slots : ℕ
    pub max_chunk_size : ℕ
    pub latest_chunk_size : ℕ
    -- the events that SignalEvent was called with, oldest first
    pub signalled : List NewBlock

  -- New and its options.
  pub new_fetcher : s.Db → ℕ → ℕ → ℕ → Fetcher
  new_fetcher db max_slots max_chunk_size latest_chunk_size = record {
    db = db;
    chunk_buffer = record { queue = []; max_slots = max_slots };
    max_slots = max_slots;
    max_chunk_size = max_chunk_size;
    latest_chunk_size = latest_chunk_size;
    signalled = [];
  }

  -- A transaction that cannot be saved is skipped.
  unfoldable pub write_txs : s.Batch → List TxResult → s.Batch
  write_txs b [] = b
  write_txs b (t ∷ ts) = write_txs (s.set_tx b t).1 ts

  -- A block that cannot be saved is skipped, with its transactions and its event. `none` is an index
  -- behind the end of the results.
  unfoldable pub write_blocks :
      ℕ
      → List Block
      → List (List TxResult)
      → s.Batch
      → List NewBlock
      → Option (s.Batch × List NewBlock)
  write_blocks index [] results b events = some (b, events)
  write_blocks index (block ∷ rest) results b events =
      let (failure, b') = s.set_block b block in
      let skipped = write_blocks (suc index) rest results b' events in
      let saved : Option (s.Batch × List NewBlock) = elim (get_elem? results index) [
        | none ↦ none
        | some txs ↦
            write_blocks (suc index) rest results (write_txs b' txs)
              (events ++ record { block = block; results = txs } ∷ [])
      ] in
      elim failure [ some e ↦ skipped | none ↦ saved ]

  -- The end of writeSlot: the height, and the commit.
  unfoldable pub finish_slot :
      Fetcher → ChunkRange → ℕ → s.Batch → Option (FetchError s.Error) × Fetcher
  finish_slot f range blocks b =
      let (failure, b') = s.set_latest_height b range.to in
      elim failure [
        | some e ↦ (some (save_height e (s.rollback b')), f)
        | none ↦ elim (s.commit f.db b') [
          | err e ↦ (some (persist e), f)
          | ok db' ↦ (none, record f { db = db'; latest_chunk_size = blocks })
        ]
      ]

  unfoldable pub write_slot : Fetcher → Chunk → ChunkRange → Option (FetchError s.Error) × Fetcher
  write_slot f chunk range =
      elim (write_blocks 0 chunk.blocks chunk.results (s.write_batch f.db) f.signalled) [
        | none ↦ (some panics, f)
        | some (b, events) ↦
            finish_slot (record f { signalled = events }) range (length chunk.blocks) b
      ]

  -- The latest height that attemptRangeFetch works with: 0 in an empty store.
  unfoldable pub latest_local : Result s.Error ℕ → Result (FetchError s.Error) ℕ
  latest_local (ok h) = ok h
  latest_local (err e) = if s.is_not_found e then ok 0 else err (latest_height e)

  -- What a tick gives: an error, or the ranges for which workers are started and the new state.
  pub data Attempt : Type 0 where
    fails : FetchError s.Error → Attempt
    starts : List ChunkRange → Fetcher → Attempt

  -- attemptRangeFetch, with the answer of GetLatestBlockNumber; `none` is that call's error.
  module _ (push : Slot → List Slot → List Slot) where
    pub reserve : ℕ → Fetcher → ℕ → ℕ → Attempt
    reserve fuel f local remote =
        elim (reserve_chunk_ranges push fuel f.chunk_buffer (add_64 local 1) remote
          f.max_chunk_size) [
            | none ↦ fails panics
            | some (gaps, buffer) ↦ starts gaps (record f { chunk_buffer = buffer })
          ]

    pub attempt_range_fetch : ℕ → Fetcher → Option ℕ → Attempt
    attempt_range_fetch fuel f latest_remote =
        if size f.chunk_buffer == f.max_slots
        then starts [] f
        else elim (latest_local (s.get_latest_height f.db)) [
          | err e ↦ fails e
          | ok local ↦ elim latest_remote [
            | none ↦ starts [] f
            | some remote ↦ if leb remote local then starts [] f else reserve fuel f local remote
          ]
        ]

  -- The loop that writes the chunks at the front of the queue.
  unfoldable pub drain : List Slot → Fetcher → Option (FetchError s.Error) × Fetcher
  drain [] f = (none, record f { chunk_buffer = record f.chunk_buffer { queue = [] } })
  drain (item ∷ rest) f = elim item.chunk [
    | none ↦ (none, record f { chunk_buffer = record f.chunk_buffer { queue = item ∷ rest } })
    | some chunk ↦
        let popped = record f { chunk_buffer = record f.chunk_buffer { queue = rest } } in
        let (failure, f') = write_slot popped chunk item.chunk_range in
        let written = drain rest f' in elim failure [ some e ↦ (some e, f') | none ↦ written ]
  ]

  -- sort.Search on the sorted queue: the first slot from which on the test holds, or the size.
  unfoldable pub search_slot : ℕ → List Slot → ℕ
  search_slot from [] = 0
  search_slot from (x ∷ xs) = if leb from x.chunk_range.from then 0 else suc (search_slot from xs)

  -- A response from the collector channel. Its error is only logged.
  unfoldable pub handle_response :
      Fetcher → Chunk → ChunkRange → Option (FetchError s.Error) × Fetcher
  handle_response f chunk range =
      elim (set_chunk f.chunk_buffer (search_slot range.from f.chunk_buffer.queue) chunk) [
        | none ↦ (some panics, f)
        | some buffer ↦ drain buffer.queue (record f { chunk_buffer = buffer })
      ]

  -- IsReady, with whether the node answers: `none` is ready.
  pub data NotReady : Type 0 where
    in_progress not_reachable : NotReady

  pub is_ready : Fetcher → Bool → Option NotReady
  is_ready f reachable =
      if f.latest_chunk_size == f.max_chunk_size
      then some in_progress
      else if reachable
      then none
      else some not_reachable
