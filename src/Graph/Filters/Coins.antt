-- ===== src/Graph/Filters/Coins.antt =====
-- The filters of coins, fees and the transactions of a block.
use tx_indexer.Base.{Option, Bool, ◌&&◌, String}
use tx_indexer.Graph.Where.{Where, eval, field, FilterInt, FilterString, eval_int, eval_string}
use tx_indexer.Graph.Model.{Coin, TxFee, BlockTransaction}

pub record CoinFields : Type 0 where
  pub denom : Option FilterString
  pub amount : Option FilterInt

pub record TxFeeFields : Type 0 where
  pub gas_wanted : Option FilterInt
  pub gas_fee : Option (Where CoinFields)

pub record BlockTransactionFields : Type 0 where
  pub memo : Option FilterString
  pub hash : Option FilterString
  pub fee : Option (Where TxFeeFields)

module _ (match_string : String → String → Option Bool) where
  pub coin_match : CoinFields → Coin → Bool
  coin_match f obj =
      field (eval_string match_string) f.denom obj.denom && field eval_int f.amount obj.amount

  pub eval_coin : Where CoinFields → Coin → Bool
  eval_coin = eval coin_match

  pub tx_fee_match : TxFeeFields → TxFee → Bool
  tx_fee_match f obj =
      field eval_int f.gas_wanted obj.gas_wanted && field eval_coin f.gas_fee obj.gas_fee

  pub eval_tx_fee : Where TxFeeFields → TxFee → Bool
  eval_tx_fee = eval tx_fee_match

  pub block_transaction_match : BlockTransactionFields → BlockTransaction → Bool
  block_transaction_match f obj =
      field (eval_string match_string) f.memo obj.memo
      && field (eval_string match_string) f.hash obj.hash
      && field eval_tx_fee f.fee obj.fee

  pub eval_block_transaction : Where BlockTransactionFields → BlockTransaction → Bool
  eval_block_transaction = eval block_transaction_match
