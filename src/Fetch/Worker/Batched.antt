-- ===== src/Fetch/Worker/Batched.antt =====
-- Fetching results in one batch (getTxResultFromBatch of fetch/worker.go): an answer is put at its
-- place in the batch, which is not its block's place if an earlier block has no transactions.
use tx_indexer.Base.{◌≡◌, ◌≢◌, List, [], ◌∷◌, none, some, ok, arith}
use tx_indexer.Chain.{Block, TxResult}
use tx_indexer.Fetch.Worker.{
  Client, BlockResults, block_results, requested, block_of_height, index_of_height, extract_results,
  empty_results, put_at, first_failure, entry, get_tx_results_sequentially,
  get_tx_result_from_batch,
}

module _ (c : Client) (quiet full : Block) (answer : BlockResults) (txs : List TxResult) where
  -- For a block without transactions before one with transactions, and a node that gives the same
  -- answer in a batch as alone, the batch puts the second block's results at the first block's place
  -- and leaves the second one's empty; one after another they stand at the second block's place.
  pub batch_shifts_results :
      quiet.num_txs ≡ 0
      → full.num_txs ≢ 0
      → quiet.height ≢ full.height
      → answer.height ≡ full.height
      → c.add_block_results_request full.height ≡ none
      → c.execute_results (full.height ∷ []) ≡ ok (some answer ∷ [])
      → c.get_block_results full.height ≡ ok answer
      → block_results full.height answer.deliver_txs full ≡ some txs
      → (get_tx_result_from_batch c (quiet ∷ full ∷ []) ≡ some (txs ∷ [] ∷ [], []))
        × (get_tx_results_sequentially c (quiet ∷ full ∷ []) ≡ some ([] ∷ txs ∷ [], []))
  unfolding get_tx_result_from_batch get_tx_results_sequentially requested first_failure
      extract_results block_of_height index_of_height put_at empty_results entry
  batch_shifts_results p q ne same added batch single results = (ground arith, ground arith)
