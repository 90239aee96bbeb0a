-- ===== src/Graph/Filters/Events.antt =====
-- The filters of the response of a transaction and of its events.
use tx_indexer.Base.{Option, Bool, true, ◌&&◌, ◌||◌, if◌then◌else◌, String, is_some}
use tx_indexer.Graph.Where.{
  Where, eval, field, slice, specified, FilterInt, FilterString, eval_int, eval_string,
}
use tx_indexer.Graph.Model.{
  GnoEventAttribute, GnoEvent, StorageDepositEvent, StorageUnlockEvent, UnknownEvent, Event,
  TransactionResponse, gno_event, storage_deposit_event, storage_unlock_event, unknown_event,
}
use tx_indexer.Graph.Filters.Coins.{CoinFields, eval_coin}

pub record GnoEventAttributeFields : Type 0 where
  pub value : Option FilterString
  pub key : Option FilterString

pub record GnoEventFields : Type 0 where
  pub kind : Option FilterString
  pub pkg_path : Option FilterString
  pub attrs : Option (Where GnoEventAttributeFields)

pub record StorageDepositEventFields : Type 0 where
  pub kind : Option FilterString
  pub pkg_path : Option FilterString
  pub fee_delta : Option (Where CoinFields)
  pub bytes_delta : Option FilterInt

pub record StorageUnlockEventFields : Type 0 where
  pub kind : Option FilterString
  pub pkg_path : Option FilterString
  pub fee_refund : Option (Where CoinFields)
  pub bytes_delta : Option FilterInt

pub record UnknownEventFields : Type 0 where
  pub value : Option FilterString

pub record EventFields : Type 0 where
  pub gno_event : Option (Where GnoEventFields)
  pub storage_deposit_event : Option (Where StorageDepositEventFields)
  pub storage_unlock_event : Option (Where StorageUnlockEventFields)
  pub unknown_event : Option (Where UnknownEventFields)

pub record TransactionResponseFields : Type 0 where
  pub log : Option FilterString
  pub info : Option FilterString
  pub events : Option (Where EventFields)
  pub error_text : Option FilterString
  pub payload : Option FilterString

module _ (match_string : String → String → Option Bool) where
  pub gno_event_attribute_match : GnoEventAttributeFields → GnoEventAttribute → Bool
  gno_event_attribute_match f obj =
      field (eval_string match_string) f.value obj.value
      && field (eval_string match_string) f.key obj.key

  pub eval_gno_event_attribute : Where GnoEventAttributeFields → GnoEventAttribute → Bool
  eval_gno_event_attribute = eval gno_event_attribute_match

  pub gno_event_match : GnoEventFields → GnoEvent → Bool
  gno_event_match f obj =
      field (eval_string match_string) f.kind obj.kind
      && field (eval_string match_string) f.pkg_path obj.pkg_path
      && slice eval_gno_event_attribute f.attrs obj.attrs

  pub eval_gno_event : Where GnoEventFields → GnoEvent → Bool
  eval_gno_event = eval gno_event_match

  pub storage_deposit_event_match : StorageDepositEventFields → StorageDepositEvent → Bool
  storage_deposit_event_match f obj =
      field (eval_string match_string) f.kind obj.kind
      && field (eval_string match_string) f.pkg_path obj.pkg_path
      && field (eval_coin match_string) f.fee_delta obj.fee_delta
      && field eval_int f.bytes_delta obj.bytes_delta

  pub eval_storage_deposit_event : Where StorageDepositEventFields → StorageDepositEvent → Bool
  eval_storage_deposit_event = eval storage_deposit_event_match

  pub storage_unlock_event_match : StorageUnlockEventFields → StorageUnlockEvent → Bool
  storage_unlock_event_match f obj =
      field (eval_string match_string) f.kind obj.kind
      && field (eval_string match_string) f.pkg_path obj.pkg_path
      && field (eval_coin match_string) f.fee_refund obj.fee_refund
      && field eval_int f.bytes_delta obj.bytes_delta

  pub eval_storage_unlock_event : Where StorageUnlockEventFields → StorageUnlockEvent → Bool
  eval_storage_unlock_event = eval storage_unlock_event_match

  pub unknown_event_match : UnknownEventFields → UnknownEvent → Bool
  unknown_event_match f obj = field (eval_string match_string) f.value obj.value

  pub eval_unknown_event : Where UnknownEventFields → UnknownEvent → Bool
  eval_unknown_event = eval unknown_event_match

  event_specified : EventFields → Bool
  event_specified f =
      is_some f.gno_event
      || is_some f.storage_deposit_event
      || is_some f.storage_unlock_event
      || is_some f.unknown_event

  -- A filter for another type of the union rejects the object.
  event_matches : EventFields → Event → Bool
  event_matches f (gno_event v) = specified eval_gno_event f.gno_event v
  event_matches f (storage_deposit_event v) =
      specified eval_storage_deposit_event f.storage_deposit_event v
  event_matches f (storage_unlock_event v) =
      specified eval_storage_unlock_event f.storage_unlock_event v
  event_matches f (unknown_event v) = specified eval_unknown_event f.unknown_event v

  event_match : EventFields → Event → Bool
  event_match f v = if event_specified f then event_matches f v else true

  pub eval_event : Where EventFields → Event → Bool
  eval_event = eval event_match

  pub transaction_response_match : TransactionResponseFields → TransactionResponse → Bool
  transaction_response_match f obj =
      field (eval_string match_string) f.log obj.log
      && field (eval_string match_string) f.info obj.info
      && slice eval_event f.events obj.events
      && field (eval_string match_string) f.error_text obj.error_text
      && field (eval_string match_string) f.payload obj.payload

  pub eval_transaction_response : Where TransactionResponseFields → TransactionResponse → Bool
  eval_transaction_response = eval transaction_response_match
