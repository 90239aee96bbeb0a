-- ===== src/Graph/TxFilter/Inputs.antt =====
-- The inputs of the filters of transactions: types of serve/graph/model/models_gen.go, with the
-- fields that the filters read.
use tx_indexer.Base.{Option, List, Bool, String}
use tx_indexer.Base.Int.{ℤ}

pub record AmountInput : Type 0 where
  pub from : Option ℤ
  pub to : Option ℤ
  pub denomination : Option String

pub record BankMsgSendInput : Type 0 where
  pub from_address : Option String
  pub to_address : Option String
  pub amount : Option AmountInput

pub record MemPackageInput : Type 0 where
  pub name : Option String
  pub path : Option String

pub record MsgCallInput : Type 0 where
  pub caller : Option String
  pub send : Option AmountInput
  pub pkg_path : Option String
  pub func : Option String
  pub args : Option (List String)

pub record MsgAddPackageInput : Type 0 where
  pub creator : Option String
  pub mem_package : Option MemPackageInput
  pub deposit : Option AmountInput

pub record MsgRunInput : Type 0 where
  pub caller : Option String
  pub send : Option AmountInput
  pub mem_package : Option MemPackageInput

pub record BankParam : Type 0 where
  pub send : Option BankMsgSendInput

pub record VmParam : Type 0 where
  pub exec : Option MsgCallInput
  pub add_package : Option MsgAddPackageInput
  pub run : Option MsgRunInput

pub record MessageInput : Type 0 where
  pub type_url : Option String
  pub route : Option String
  pub bank_param : Option BankParam
  pub vm_param : Option VmParam

pub record AttributeInput : Type 0 where
  pub key : Option String
  pub value : Option String

pub record GnoEventInput : Type 0 where
  pub kind : Option String
  pub pkg_path : Option String
  pub attrs : Option (List AttributeInput)

pub record EventInput : Type 0 where
  pub gno_event : Option GnoEventInput

pub record TransactionFilter : Type 0 where
  pub from_gas_wanted : Option ℤ
  pub to_gas_wanted : Option ℤ
  pub from_gas_used : Option ℤ
  pub to_gas_used : Option ℤ
  pub message : List MessageInput
  pub memo : Option String
  pub success : Option Bool
  pub events : List EventInput
