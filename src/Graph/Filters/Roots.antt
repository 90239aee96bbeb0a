-- ===== src/Graph/Filters/Roots.antt =====
-- The filters of the queries getBlocks and getTransactions, and their ranges.
pub mod Ranges
use tx_indexer.Graph.Where.{IntPtr}
use tx_indexer.Graph.Where.Range.{min_max}
use tx_indexer.Base.{
  Option, none, some, Bool, true, false, ◌&&◌, ◌||◌, if◌then◌else◌, String, is_some,
}
use tx_indexer.Graph.Where.{
  Where, eval, field, slice, specified, FilterInt, FilterString, FilterBoolean, FilterTime,
  eval_int, eval_string, eval_boolean, eval_time,
}
use tx_indexer.Graph.Model.{Block, Transaction}
use tx_indexer.Graph.Filters.Coins.{
  CoinFields, eval_coin, TxFeeFields, eval_tx_fee, BlockTransactionFields, eval_block_transaction,
}
use tx_indexer.Graph.Filters.Messages.{
  MemFileFields, eval_mem_file, MemPackageFields, eval_mem_package, BankMsgSendFields,
  eval_bank_msg_send, MsgCallFields, eval_msg_call, MsgAddPackageFields, eval_msg_add_package,
  MsgRunFields, eval_msg_run, MessageValueFields, eval_message_value, TransactionMessageFields,
  eval_transaction_message,
}
use tx_indexer.Graph.Filters.Events.{
  GnoEventAttributeFields, eval_gno_event_attribute, GnoEventFields, eval_gno_event,
  StorageDepositEventFields, eval_storage_deposit_event, StorageUnlockEventFields,
  eval_storage_unlock_event, UnknownEventFields, eval_unknown_event, EventFields, eval_event,
  TransactionResponseFields, eval_transaction_response,
}

pub record BlockFields : Type 0 where
  pub version : Option FilterString
  pub validators_hash : Option FilterString
  pub txs : Option (Where BlockTransactionFields)
  pub total_txs : Option FilterInt
  pub time : Option FilterTime
  pub proposer_address_raw : Option FilterString
  pub num_txs : Option FilterInt
  pub next_validators_hash : Option FilterString
  pub last_results_hash : Option FilterString
  pub last_commit_hash : Option FilterString
  pub last_block_hash : Option FilterString
  pub height : Option FilterInt
  pub hash : Option FilterString
  pub consensus_hash : Option FilterString
  pub chain_id : Option FilterString
  pub app_version : Option FilterString
  pub app_hash : Option FilterString

pub record TransactionFields : Type 0 where
  pub success : Option FilterBoolean
  pub response : Option (Where TransactionResponseFields)
  pub messages : Option (Where TransactionMessageFields)
  pub memo : Option FilterString
  pub index : Option FilterInt
  pub hash : Option FilterString
  pub gas_wanted : Option FilterInt
  pub gas_used : Option FilterInt
  pub gas_fee : Option (Where CoinFields)
  pub block_height : Option FilterInt

module _ (match_string : String → String → Option Bool) where
  unfoldable pub block_match : BlockFields → Block → Bool
  block_match f obj =
      field (eval_string match_string) f.version obj.version
      && field (eval_string match_string) f.validators_hash obj.validators_hash
      && slice (eval_block_transaction match_string) f.txs obj.txs
      && field eval_int f.total_txs obj.total_txs
      && field eval_time f.time obj.time
      && field (eval_string match_string) f.proposer_address_raw obj.proposer_address_raw
      && field eval_int f.num_txs obj.num_txs
      && field (eval_string match_string) f.next_validators_hash obj.next_validators_hash
      && field (eval_string match_string) f.last_results_hash obj.last_results_hash
      && field (eval_string match_string) f.last_commit_hash obj.last_commit_hash
      && field (eval_string match_string) f.last_block_hash obj.last_block_hash
      && field eval_int f.height obj.height
      && field (eval_string match_string) f.hash obj.hash
      && field (eval_string match_string) f.consensus_hash obj.consensus_hash
      && field (eval_string match_string) f.chain_id obj.chain_id
      && field (eval_string match_string) f.app_version obj.app_version
      && field (eval_string match_string) f.app_hash obj.app_hash

  unfoldable pub eval_block : Where BlockFields → Block → Bool
  eval_block = eval block_match

  unfoldable pub transaction_match : TransactionFields → Transaction → Bool
  transaction_match f obj =
      field eval_boolean f.success obj.success
      && field (eval_transaction_response match_string) f.response obj.response
      && slice (eval_transaction_message match_string) f.messages obj.messages
      && field (eval_string match_string) f.memo obj.memo
      && field eval_int f.index obj.index
      && field (eval_string match_string) f.hash obj.hash
      && field eval_int f.gas_wanted obj.gas_wanted
      && field eval_int f.gas_used obj.gas_used
      && field (eval_coin match_string) f.gas_fee obj.gas_fee
      && field eval_int f.block_height obj.block_height

  unfoldable pub eval_transaction : Where TransactionFields → Transaction → Bool
  eval_transaction = eval transaction_match

unfoldable pub min_max_height : Where BlockFields → Option IntPtr × Option IntPtr
min_max_height = min_max (λ f. f.height)

unfoldable pub min_max_block_height : Where TransactionFields → Option IntPtr × Option IntPtr
min_max_block_height = min_max (λ f. f.block_height)

unfoldable pub min_max_index : Where TransactionFields → Option IntPtr × Option IntPtr
min_max_index = min_max (λ f. f.index)
