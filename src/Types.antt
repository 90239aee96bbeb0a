-- ===== src/Types.antt =====
-- types/events.go: the event that the fetcher signals for every block that it saves.
use tx_indexer.Base.{List}
use tx_indexer.Chain.{Block, TxResult}

pub record NewBlock : Type 0 where
  pub block : Block
  pub results : List TxResult
