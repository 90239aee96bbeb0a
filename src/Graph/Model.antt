-- ===== src/Graph/Model.antt =====
-- The objects that the filters of the queries look at, with the fields that they look at: the types
-- of serve/graph/model/models_gen.go, and the values of the getters of serve/graph/model/block.go and
-- serve/graph/model/transaction.go, which convert types of the chain.
use tx_indexer.Base.{ℕ, List, Option, Bool, String}
use tx_indexer.Base.Int.{ℤ}

-- Amounts are ints.
pub record Coin : Type 0 where
  pub denom : String
  pub amount : ℤ

pub record TxFee : Type 0 where
  pub gas_wanted : ℤ
  pub gas_fee : Coin

pub record BlockTransaction : Type 0 where
  pub memo : String
  pub hash : String
  pub fee : TxFee

pub record MemFile : Type 0 where
  pub name : String
  pub body : String

pub record MemPackage : Type 0 where
  pub path : String
  pub name : String
  pub files : List MemFile

pub record BankMsgSend : Type 0 where
  pub to_address : String
  pub from_address : String
  pub amount : String

pub record MsgCall : Type 0 where
  pub send : String
  pub pkg_path : String
  pub max_deposit : String
  pub func : String
  pub caller : String
  -- nil and the empty slice differ.
  pub args : Option (List String)

pub record MsgAddPackage : Type 0 where
  pub send : String
  pub mem_package : MemPackage
  pub max_deposit : String
  pub deposit : String
  pub creator : String

pub record MsgRun : Type 0 where
  pub send : String
  pub mem_package : MemPackage
  pub max_deposit : String
  pub caller : String

-- The union of the messages; what is of no known type is its JSON text.
pub data MessageValue : Type 0 where
  bank_msg_send : BankMsgSend → MessageValue
  msg_call : MsgCall → MessageValue
  msg_add_package : MsgAddPackage → MessageValue
  msg_run : MsgRun → MessageValue
  unexpected_message : String → MessageValue

pub record TransactionMessage : Type 0 where
  pub value : MessageValue
  pub type_url : String
  pub route : String

pub record GnoEventAttribute : Type 0 where
  pub value : String
  pub key : String

pub record GnoEvent : Type 0 where
  pub kind : String
  pub pkg_path : String
  pub attrs : List GnoEventAttribute

pub record StorageDepositEvent : Type 0 where
  pub kind : String
  pub pkg_path : String
  pub fee_delta : Coin
  pub bytes_delta : ℤ

pub record StorageUnlockEvent : Type 0 where
  pub kind : String
  pub pkg_path : String
  pub fee_refund : Coin
  pub bytes_delta : ℤ

pub record UnknownEvent : Type 0 where
  pub value : String

pub data Event : Type 0 where
  gno_event : GnoEvent → Event
  storage_deposit_event : StorageDepositEvent → Event
  storage_unlock_event : StorageUnlockEvent → Event
  unknown_event : UnknownEvent → Event

pub record TransactionResponse : Type 0 where
  pub log : String
  pub info : String
  pub events : List Event
  pub error_text : String
  pub payload : String

-- What the getters of model/block.go give.
pub record Block : Type 0 where
  pub version : String
  pub validators_hash : String
  pub txs : List BlockTransaction
  pub total_txs : ℤ
  pub time : ℕ
  pub proposer_address_raw : String
  pub num_txs : ℤ
  pub next_validators_hash : String
  pub last_results_hash : String
  pub last_commit_hash : String
  pub last_block_hash : String
  pub height : ℤ
  pub hash : String
  pub consensus_hash : String
  pub chain_id : String
  pub app_version : String
  pub app_hash : String

-- What the getters of model/transaction.go give. The getters of messages whose cast fails, and
-- with it a package that is nil, are left out.
pub record Transaction : Type 0 where
  pub success : Bool
  pub response : TransactionResponse
  pub messages : List TransactionMessage
  pub memo : String
  pub index : ℤ
  pub hash : String
  pub gas_wanted : ℤ
  pub gas_used : ℤ
  pub gas_fee : Coin
  pub block_height : ℤ
