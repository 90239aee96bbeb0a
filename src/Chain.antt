-- ===== src/Chain.antt =====
-- The chain's types (tm2/pkg/bft/types, not in the repository): the fields that the indexer reads.
-- Heights and counts are int64 there and are never negative, so they are plain numbers here; gas
-- amounts are integers. What the indexer only passes on is one opaque value.
use tx_indexer.Base.{ℕ, List}
use tx_indexer.Base.Int.{ℤ}

-- types.Tx is a []byte.
abbrev pub Tx : Type 0
Tx = List ℕ

pub record Header : Type 0 where
  pub height : ℕ
  pub num_txs : ℕ
  pub total_txs : ℕ
  pub time : ℕ
  pub chain_id : List ℕ

pub record Block : Type 0 where
  pub header : Header
  pub open header use *
  pub txs : List Tx

pub record DeliverTx : Type 0 where
  pub gas_wanted : ℤ
  pub gas_used : ℤ
  pub payload : List ℕ

pub record TxResult : Type 0 where
  pub height : ℕ
  pub index : ℕ
  pub tx : Tx
  pub response : DeliverTx
