-- ===== src/Fetch/Worker.antt =====
-- fetch/worker.go and the genesis part of fetch/fetch.go: the workers that fetch a chunk of blocks
-- and of transaction results. The node is a parameter: it answers each request, or fails. An
-- errors.Join is the list of what it joins; nil is the empty list. `none` is a panic. A block of
-- the node has as many transactions as its NumTxs says; another one is outside the model: `none`.
pub mod Genesis
pub mod Sequential
pub mod Batched
use tx_indexer.Base.{
  ℕ, zero, suc, ◌+◌, ◌-◌, ◌%◌, ◌^◌, Bool, true, false, List, [], ◌∷◌, ◌++◌, Option, none, some,
  Result, ok, err, ◌==◌, if◌then◌else◌, length, get_elem?,
}
use tx_indexer.Chain.{Tx, Block, TxResult, DeliverTx}
use tx_indexer.Fetch.Slots.{Chunk, ChunkRange}

-- A ResultBlockResults: the height, and the answers to the block's transactions.
pub record BlockResults : Type 0 where
  pub height : ℕ
  pub deliver_txs : List DeliverTx

-- The node's client. An answer of a batch is `none` if it is not of the type asked for.
pub record Client : Type 1 where
  pub Failure : Type 0
  pub get_block : ℕ → Result Failure Block
  pub get_block_results : ℕ → Result Failure BlockResults
  pub add_block_request : ℕ → Option Failure
  pub add_block_results_request : ℕ → Option Failure
  pub execute_blocks : List ℕ → Result Failure (List (Option Block))
  pub execute_results : List ℕ → Result Failure (List (Option BlockResults))

pub data WorkerError (F : Type 0) : Type 0 where
  add_failed : F → WorkerError F
  block_failed : ℕ → F → WorkerError F
  results_failed : ℕ → F → WorkerError F
  bad_cast : WorkerError F

-- The heights of a range, both ends included.
count_from : ℕ → ℕ → List ℕ
count_from zero n = []
count_from (suc k) n = n ∷ count_from k (suc n)

pub heights : ChunkRange → List ℕ
heights r = count_from (r.to + 1 - r.from) r.from

-- The results of a block's transactions, from the index `index` on.
unfoldable pub tx_results : ℕ → ℕ → List DeliverTx → List Tx → Option (List TxResult)
tx_results height index deliver [] = some []
tx_results height index [] (tx ∷ txs) = none
tx_results height index (d ∷ ds) (tx ∷ txs) = elim (tx_results height (suc index) ds txs) [
  | none ↦ none
  | some rest ↦
      some (record { height = height; index = index % 2 ^ 32; tx = tx; response = d } ∷ rest)
]

unfoldable pub block_results : ℕ → List DeliverTx → Block → Option (List TxResult)
block_results height deliver block =
    if length block.txs == block.num_txs then tx_results height 0 deliver block.txs else none

-- txs[i] = … on a made slice; `none` is an index out of range.
pub put_at : List (List TxResult) → ℕ → List TxResult → Option (List (List TxResult))
put_at [] i v = none
put_at (x ∷ xs) zero v = some (v ∷ xs)
put_at (x ∷ xs) (suc i) v = elim (put_at xs i v) [ none ↦ none | some ys ↦ some (x ∷ ys) ]

-- make([][]*types.TxResult, len(blocks))
pub empty_results : List Block → List (List TxResult)
empty_results [] = []
empty_results (b ∷ bs) = [] ∷ empty_results bs

module _ (c : Client) where
  abbrev pub Error : Type 0
  Error = WorkerError c.Failure

  first_failure : (ℕ → Option c.Failure) → List ℕ → Option c.Failure
  first_failure add [] = none
  first_failure add (n ∷ ns) =
      let rest = first_failure add ns in elim (add n) [ some e ↦ some e | none ↦ rest ]

  pub get_blocks_sequentially : List ℕ → List Block × List Error
  get_blocks_sequentially [] = ([], [])
  get_blocks_sequentially (n ∷ ns) =
      let (blocks, errs) = get_blocks_sequentially ns in
      elim (c.get_block n) [
        | err e ↦ (blocks, block_failed n e ∷ errs)
        | ok block ↦ (block ∷ blocks, errs)
      ]

  cast_blocks : List (Option Block) → Option (List Block)
  cast_blocks [] = some []
  cast_blocks (none ∷ rest) = none
  cast_blocks (some b ∷ rest) = elim (cast_blocks rest) [ none ↦ none | some bs ↦ some (b ∷ bs) ]

  pub get_blocks_from_batch : ChunkRange → List Block × List Error
  get_blocks_from_batch range = elim (first_failure c.add_block_request (heights range)) [
    | some e ↦ ([], add_failed e ∷ [])
    | none ↦ elim (c.execute_blocks (heights range)) [
      | err e ↦ get_blocks_sequentially (heights range)
      | ok raw ↦ elim (cast_blocks raw) [ none ↦ ([], bad_cast ∷ []) | some blocks ↦ (blocks, []) ]
    ]
  ]

  unfoldable pub entry :
      Block
      → Option (List (List TxResult) × List Error)
      → Option (List (List TxResult) × List Error)
  entry block none = none
  entry block (some (results, errs)) =
      if block.num_txs == 0
      then some ([] ∷ results, errs)
      else elim (c.get_block_results block.height) [
        | err e ↦ some ([] ∷ results, results_failed block.height e ∷ errs)
        | ok answer ↦ elim (block_results block.height answer.deliver_txs block) [
          | none ↦ none
          | some txs ↦ some (txs ∷ results, errs)
        ]
      ]

  -- An empty block keeps its empty entry, and so does a block whose results cannot be fetched.
  unfoldable pub get_tx_results_sequentially :
      List Block → Option (List (List TxResult) × List Error)
  get_tx_results_sequentially [] = some ([], [])
  get_tx_results_sequentially (block ∷ blocks) = entry block (get_tx_results_sequentially blocks)

  -- The heights that are asked for.
  pub requested : List Block → List ℕ
  requested [] = []
  requested (b ∷ bs) = if b.num_txs == 0 then requested bs else b.height ∷ requested bs

  -- The block of a height by the map from heights to positions: the last one of that height, and the
  -- first block for a height that no block has.
  index_of_height : List Block → ℕ → ℕ → ℕ → ℕ
  index_of_height [] height index found = found
  index_of_height (b ∷ bs) height index found =
      index_of_height bs height (suc index) (if b.height == height then index else found)

  pub block_of_height : List Block → ℕ → Option Block
  block_of_height blocks height = get_elem? blocks (index_of_height blocks height 0 0)

  -- The loop that extracts the results: what the k-th answer gives is put at position k.
  pub extract_results :
      ℕ
      → List Block
      → List (Option BlockResults)
      → List (List TxResult)
      → Option (List (List TxResult) × List Error)
  extract_results k blocks [] fetched = some (fetched, [])
  extract_results k blocks (none ∷ rest) fetched = some ([], bad_cast ∷ [])
  extract_results k blocks (some answer ∷ rest) fetched =
      elim (block_of_height blocks answer.height) [
        | none ↦ none
        | some block ↦ elim (block_results answer.height answer.deliver_txs block) [
          | none ↦ none
          | some txs ↦ elim (put_at fetched k txs) [
            | none ↦ none
            | some fetched' ↦ extract_results (suc k) blocks rest fetched'
          ]
        ]
      ]

  pub get_tx_result_from_batch : List Block → Option (List (List TxResult) × List Error)
  get_tx_result_from_batch blocks =
      elim (first_failure c.add_block_results_request (requested blocks)) [
        | some e ↦ some ([], add_failed e ∷ [])
        | none ↦ elim (requested blocks) [
          | [] ↦ some (empty_results blocks, [])
          | h ∷ hs ↦ elim (c.execute_results (requested blocks)) [
            | err e ↦ get_tx_results_sequentially blocks
            | ok raw ↦ extract_results 0 blocks raw (empty_results blocks)
          ]
        ]
      ]

  -- handleChunk: the chunk is sent also if there were errors.
  pub handle_chunk : ChunkRange → Option (Chunk × List Error)
  handle_chunk range =
      let (blocks, block_errs) = get_blocks_from_batch range in
      elim (get_tx_result_from_batch blocks) [
        | none ↦ none
        | some (results, result_errs) ↦
            some (record { blocks = blocks; results = results }, block_errs ++ result_errs)
      ]
