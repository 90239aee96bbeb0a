-- ===== src/Fetch/Worker/Genesis.antt =====
-- The genesis part of fetch/fetch.go: the block made of the genesis state, and its only slot.
use tx_indexer.Base.{
  ℕ, List, [], ◌∷◌, Option, none, some, Result, ok, err, ◌>>=◌, length, if◌then◌else◌,
}
use tx_indexer.Chain.{Tx, Block, DeliverTx}
use tx_indexer.Fetch.Slots.{Chunk}
use tx_indexer.Fetch.Store.{Store}
use tx_indexer.Fetch.Fetcher.{Fetcher, FetchError, write_slot}
use tx_indexer.Fetch.Worker.{tx_results}

-- The answer of GetGenesis. `app_state` is `none` if it is no GnoGenesisState; a transaction is
-- `none` if Amino cannot encode it.
pub record Genesis : Type 0 where
  pub genesis_time : ℕ
  pub chain_id : List ℕ
  pub app_state : Option (List (Option Tx))

pub data GenesisError (F : Type 0) : Type 0 where
  client_failed : F → GenesisError F
  invalid_genesis_state : GenesisError F
  unknown_state_kind : GenesisError F
  unmarshallable_tx : GenesisError F
  nil_results : GenesisError F

module _ {F : Type 0} where
  lift_client : {A : Type 0} → Result F A → Result (GenesisError F) A
  lift_client (ok a) = ok a
  lift_client (err e) = err (client_failed e)

  or_error : {A : Type 0} → Option A → GenesisError F → Result (GenesisError F) A
  or_error none e = err e
  or_error (some a) e = ok a

  genesis_txs : List (Option Tx) → Result (GenesisError F) (List Tx)
  genesis_txs [] = ok []
  genesis_txs (none ∷ rest) = err unmarshallable_tx
  genesis_txs (some tx ∷ rest) = do txs ← genesis_txs rest; ok (tx ∷ txs)

  pub get_genesis_block : Result F (Option Genesis) → Result (GenesisError F) Block
  unfolding lift_client or_error
  get_genesis_block answer = do
    present ← lift_client answer
    genesis ← or_error present invalid_genesis_state
    state ← or_error genesis.app_state unknown_state_kind
    txs ← genesis_txs state
    ok (record {
      header = record {
        height = 0;
        num_txs = length txs;
        total_txs = length txs;
        time = genesis.genesis_time;
        chain_id = genesis.chain_id;
      };
      txs = txs;
    })

  -- What is fetched for height 0; `none` is a result missing for a transaction, which panics.
  pub genesis_chunk :
      Result F (Option Genesis)
      → Result F (Option (List DeliverTx))
      → Result (GenesisError F) (Option Chunk)
  unfolding lift_client or_error
  genesis_chunk genesis answer = do
    block ← get_genesis_block genesis
    results ← lift_client answer
    deliver ← or_error results nil_results
    elim (tx_results 0 0 deliver block.txs) [
      | none ↦ ok none
      | some txs ↦ ok (some (record { blocks = block ∷ []; results = txs ∷ [] }))
    ]

-- fetchGenesisData: nothing is done if a height is stored, or if the store fails.
pub data GenesisOutcome (s : Store) (F : Type 0) : Type 0 where
  present : GenesisOutcome s F
  store_failed : s.Error → GenesisOutcome s F
  not_fetched : GenesisError F → GenesisOutcome s F
  genesis_panics : GenesisOutcome s F
  written : Option (FetchError s.Error) × Fetcher s → GenesisOutcome s F

module _ (s : Store) {F : Type 0} where
  write_genesis : Fetcher s → Result (GenesisError F) (Option Chunk) → GenesisOutcome s F
  write_genesis f (err e) = not_fetched e
  write_genesis f (ok none) = genesis_panics
  write_genesis f (ok (some chunk)) = written (write_slot s f chunk (record { from = 0; to = 0 }))

  pub fetch_genesis_data :
      Fetcher s
      → Result F (Option Genesis)
      → Result F (Option (List DeliverTx))
      → GenesisOutcome s F
  unfolding write_genesis
  fetch_genesis_data f genesis results = elim (s.get_latest_height f.db) [
    | ok h ↦ present
    | err e ↦
        if s.is_not_found e then write_genesis f (genesis_chunk genesis results) else store_failed e
  ]
