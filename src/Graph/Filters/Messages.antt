-- ===== src/Graph/Filters/Messages.antt =====
-- The filters of the messages of a transaction.
use tx_indexer.Base.{
  List, [], Option, none, some, Bool, true, ◌&&◌, ◌||◌, if◌then◌else◌, String, is_some,
}
use tx_indexer.Graph.Where.{Where, eval, field, slice, specified, FilterString, eval_string}
use tx_indexer.Graph.Model.{
  MemFile, MemPackage, BankMsgSend, MsgCall, MsgAddPackage, MsgRun, MessageValue,
  TransactionMessage, bank_msg_send, msg_call, msg_add_package, msg_run, unexpected_message,
}

pub record MemFileFields : Type 0 where
  pub name : Option FilterString
  pub body : Option FilterString

pub record MemPackageFields : Type 0 where
  pub path : Option FilterString
  pub name : Option FilterString
  pub files : Option (Where MemFileFields)

pub record BankMsgSendFields : Type 0 where
  pub to_address : Option FilterString
  pub from_address : Option FilterString
  pub amount : Option FilterString

pub record MsgCallFields : Type 0 where
  pub send : Option FilterString
  pub pkg_path : Option FilterString
  pub max_deposit : Option FilterString
  pub func : Option FilterString
  pub caller : Option FilterString
  pub args : Option FilterString

pub record MsgAddPackageFields : Type 0 where
  pub send : Option FilterString
  pub mem_package : Option (Where MemPackageFields)
  pub max_deposit : Option FilterString
  pub deposit : Option FilterString
  pub creator : Option FilterString

pub record MsgRunFields : Type 0 where
  pub send : Option FilterString
  pub mem_package : Option (Where MemPackageFields)
  pub max_deposit : Option FilterString
  pub caller : Option FilterString

pub record MessageValueFields : Type 0 where
  pub bank_msg_send : Option (Where BankMsgSendFields)
  pub msg_call : Option (Where MsgCallFields)
  pub msg_add_package : Option (Where MsgAddPackageFields)
  pub msg_run : Option (Where MsgRunFields)

pub record TransactionMessageFields : Type 0 where
  pub value : Option (Where MessageValueFields)
  pub type_url : Option FilterString
  pub route : Option FilterString

-- What a range over a slice visits.
elements : Option (List String) → List String
elements none = []
elements (some xs) = xs

module _ (match_string : String → String → Option Bool) where
  pub mem_file_match : MemFileFields → MemFile → Bool
  mem_file_match f obj =
      field (eval_string match_string) f.name obj.name
      && field (eval_string match_string) f.body obj.body

  pub eval_mem_file : Where MemFileFields → MemFile → Bool
  eval_mem_file = eval mem_file_match

  pub mem_package_match : MemPackageFields → MemPackage → Bool
  mem_package_match f obj =
      field (eval_string match_string) f.path obj.path
      && field (eval_string match_string) f.name obj.name
      && slice eval_mem_file f.files obj.files

  pub eval_mem_package : Where MemPackageFields → MemPackage → Bool
  eval_mem_package = eval mem_package_match

  pub bank_msg_send_match : BankMsgSendFields → BankMsgSend → Bool
  bank_msg_send_match f obj =
      field (eval_string match_string) f.to_address obj.to_address
      && field (eval_string match_string) f.from_address obj.from_address
      && field (eval_string match_string) f.amount obj.amount

  pub eval_bank_msg_send : Where BankMsgSendFields → BankMsgSend → Bool
  eval_bank_msg_send = eval bank_msg_send_match

  pub msg_call_match : MsgCallFields → MsgCall → Bool
  msg_call_match f obj =
      field (eval_string match_string) f.send obj.send
      && field (eval_string match_string) f.pkg_path obj.pkg_path
      && field (eval_string match_string) f.max_deposit obj.max_deposit
      && field (eval_string match_string) f.func obj.func
      && field (eval_string match_string) f.caller obj.caller
      && slice (eval_string match_string) f.args (elements obj.args)

  pub eval_msg_call : Where MsgCallFields → MsgCall → Bool
  eval_msg_call = eval msg_call_match

  pub msg_add_package_match : MsgAddPackageFields → MsgAddPackage → Bool
  msg_add_package_match f obj =
      field (eval_string match_string) f.send obj.send
      && field eval_mem_package f.mem_package obj.mem_package
      && field (eval_string match_string) f.max_deposit obj.max_deposit
      && field (eval_string match_string) f.deposit obj.deposit
      && field (eval_string match_string) f.creator obj.creator

  pub eval_msg_add_package : Where MsgAddPackageFields → MsgAddPackage → Bool
  eval_msg_add_package = eval msg_add_package_match

  pub msg_run_match : MsgRunFields → MsgRun → Bool
  msg_run_match f obj =
      field (eval_string match_string) f.send obj.send
      && field eval_mem_package f.mem_package obj.mem_package
      && field (eval_string match_string) f.max_deposit obj.max_deposit
      && field (eval_string match_string) f.caller obj.caller

  pub eval_msg_run : Where MsgRunFields → MsgRun → Bool
  eval_msg_run = eval msg_run_match

  message_value_specified : MessageValueFields → Bool
  message_value_specified f =
      is_some f.bank_msg_send
      || is_some f.msg_call
      || is_some f.msg_add_package
      || is_some f.msg_run

  -- A filter for another type of the union rejects the object.
  message_value_matches : MessageValueFields → MessageValue → Bool
  message_value_matches f (bank_msg_send v) = specified eval_bank_msg_send f.bank_msg_send v
  message_value_matches f (msg_call v) = specified eval_msg_call f.msg_call v
  message_value_matches f (msg_add_package v) = specified eval_msg_add_package f.msg_add_package v
  message_value_matches f (msg_run v) = specified eval_msg_run f.msg_run v
  message_value_matches f (unexpected_message raw) = true

  message_value_match : MessageValueFields → MessageValue → Bool
  message_value_match f v = if message_value_specified f then message_value_matches f v else true

  pub eval_message_value : Where MessageValueFields → MessageValue → Bool
  eval_message_value = eval message_value_match

  pub transaction_message_match : TransactionMessageFields → TransactionMessage → Bool
  transaction_message_match f obj =
      field eval_message_value f.value obj.value
      && field (eval_string match_string) f.type_url obj.type_url
      && field (eval_string match_string) f.route obj.route

  pub eval_transaction_message : Where TransactionMessageFields → TransactionMessage → Bool
  eval_transaction_message = eval transaction_message_match
