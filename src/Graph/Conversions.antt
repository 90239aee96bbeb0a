-- ===== src/Graph/Conversions.antt =====
-- The conversions of serve/graph/model/transaction.go and serve/graph/model/block.go: from the chain's
-- transactions and blocks to the objects that the filters of the queries look at. What the chain's types
-- and JSON give is a parameter. An int64 is an int. The values are those of the getters; what a getter
-- computes only once it would compute again from the same data.
pub mod Objects
pub mod Typed
use tx_indexer.Base.{
  ℕ, Bool, true, false, not, is_some, Option, none, some, List, [], ◌∷◌, map, String, str_eq,
  if◌then◌else◌,
}
use tx_indexer.Base.Int.{ℤ, pos}
use tx_indexer.Chain.{Tx, Header, DeliverTx, TxResult}
use tx_indexer.Chain as Chain
use tx_indexer.Graph.Model.{
  Coin, TxFee, BlockTransaction, BankMsgSend, MsgCall, MsgAddPackage, MsgRun, MemFile, MemPackage,
  MessageValue, bank_msg_send, msg_call, msg_add_package, msg_run, unexpected_message,
  TransactionMessage, GnoEvent, StorageDepositEvent, StorageUnlockEvent, UnknownEvent, Event,
  gno_event, storage_deposit_event, storage_unlock_event, unknown_event, TransactionResponse,
  Transaction, Block,
}

abbrev pub message_route_bank : String
message_route_bank = "bank"

abbrev pub message_route_vm : String
message_route_vm = "vm"

abbrev pub message_type_send : String
message_type_send = "send"

abbrev pub message_type_exec : String
message_type_exec = "exec"

abbrev pub message_type_add_package : String
message_type_add_package = "add_package"

abbrev pub message_type_run : String
message_type_run = "run"

-- The messages of the chain after the cast, their addresses and amounts printed.
pub record SendMsg : Type 0 where
  pub from_address : String
  pub to_address : String
  pub amount : String

pub record CallMsg : Type 0 where
  pub caller : String
  pub send : String
  pub max_deposit : String
  pub pkg_path : String
  pub func : String
  pub args : Option (List String)

pub record AddMsg : Type 0 where
  pub creator : String
  pub package_name : String
  pub package_path : String
  pub files : List MemFile
  pub send : String
  pub max_deposit : String

pub record RunMsg : Type 0 where
  pub caller : String
  pub send : String
  pub max_deposit : String
  pub package_name : String
  pub package_path : String
  pub files : List MemFile

-- std.Msg: its methods, and JSON: the message's text, and what the text of each type decodes to.
pub record Messages (M : Type 0) : Type 0 where
  pub route : M → String
  pub kind : M → String
  pub marshal : M → Option String
  pub unmarshal_send : String → Option SendMsg
  pub unmarshal_call : String → Option CallMsg
  pub unmarshal_add : String → Option AddMsg
  pub unmarshal_run : String → Option RunMsg

-- abci.Event: which of the known types it has, and JSON.
pub data EventType : Type 0 where
  is_gno : EventType
  is_storage_deposit : EventType
  is_storage_unlock : EventType
  is_other : EventType

pub record Events (Ev : Type 0) : Type 0 where
  pub type_of : Ev → EventType
  pub marshal_event : Ev → Option String
  pub unmarshal_gno : String → Option GnoEvent
  pub unmarshal_deposit : String → Option StorageDepositEvent
  pub unmarshal_unlock : String → Option StorageUnlockEvent

-- cast[T]: to JSON and back.
unfoldable pub cast : {M T : Type 0} → (M → Option String) → (String → Option T) → M → Option T
cast marshal unmarshal m = elim (marshal m) [ none ↦ none | some encoded ↦ unmarshal encoded ]

module _ {M : Type 0} (ms : Messages M) where
  unfoldable pub make_bank_msg_send : M → BankMsgSend
  make_bank_msg_send m = elim (cast ms.marshal ms.unmarshal_send m) [
    | none ↦ record { to_address = ""; from_address = ""; amount = "" }
    | some d ↦ record {
      to_address = d.to_address;
      from_address = d.from_address;
      amount = d.amount;
    }
  ]

  unfoldable pub make_vm_msg_call : M → MsgCall
  make_vm_msg_call m = elim (cast ms.marshal ms.unmarshal_call m) [
    | none ↦ record {
      send = "";
      pkg_path = "";
      max_deposit = "";
      func = "";
      caller = "";
      args = none;
    }
    | some d ↦ record {
      send = d.send;
      pkg_path = d.pkg_path;
      max_deposit = d.max_deposit;
      func = d.func;
      caller = d.caller;
      args = d.args;
    }
  ]

  -- `none` is the message without a package that a failed cast gives, for which the model has no value.
  unfoldable pub make_vm_add_package : M → Option MsgAddPackage
  make_vm_add_package m = elim (cast ms.marshal ms.unmarshal_add m) [
    | none ↦ none
    | some d ↦ some (record {
      send = d.send;
      mem_package = record { path = d.package_path; name = d.package_name; files = d.files };
      max_deposit = d.max_deposit;
      deposit = d.send;
      creator = d.creator;
    })
  ]

  unfoldable pub make_vm_msg_run : M → Option MsgRun
  make_vm_msg_run m = elim (cast ms.marshal ms.unmarshal_run m) [
    | none ↦ none
    | some d ↦ some (record {
      send = d.send;
      mem_package = record { path = d.package_path; name = d.package_name; files = d.files };
      max_deposit = d.max_deposit;
      caller = d.caller;
    })
  ]

  unfoldable pub make_unexpected_message : M → String
  make_unexpected_message m = elim (ms.marshal m) [ none ↦ "" | some raw ↦ raw ]

  -- A message of the route and the type, with its value.
  abbrev message_of : String → String → MessageValue → TransactionMessage
  message_of route type_url value = record { value = value; type_url = type_url; route = route }

  abbrev with_value :
      {A : Type 0} → String → String → (A → MessageValue) → Option A → Option TransactionMessage
  with_value route type_url value none = none
  with_value route type_url value (some a) = some (message_of route type_url (value a))

  unfoldable pub unexpected : M → Option TransactionMessage
  unexpected m =
      some (message_of (ms.route m) (ms.kind m) (unexpected_message (make_unexpected_message m)))

  -- The switches of NewTransactionMessage.
  unfoldable pub new_vm_message : M → Option TransactionMessage
  new_vm_message m =
      if str_eq (ms.kind m) message_type_exec
      then some (message_of message_route_vm message_type_exec (msg_call (make_vm_msg_call m)))
      else if str_eq (ms.kind m) message_type_add_package
      then with_value message_route_vm message_type_add_package msg_add_package
          (make_vm_add_package m)
      else if str_eq (ms.kind m) message_type_run
      then with_value message_route_vm message_type_run msg_run (make_vm_msg_run m)
      else unexpected m

  unfoldable pub new_transaction_message : M → Option TransactionMessage
  new_transaction_message m =
      if str_eq (ms.route m) message_route_bank
      then if str_eq (ms.kind m) message_type_send
        then some
            (message_of message_route_bank message_type_send (bank_msg_send (make_bank_msg_send m)))
        else unexpected m
      else if str_eq (ms.route m) message_route_vm
      then new_vm_message m
      else unexpected m

  -- The loop of getMessages.
  unfoldable pub new_messages : List M → Option (List TransactionMessage)
  new_messages [] = some []
  new_messages (m ∷ msgs) = elim (new_transaction_message m) [
    | none ↦ none
    | some tm ↦ elim (new_messages msgs) [ none ↦ none | some tms ↦ some (tm ∷ tms) ]
  ]

module _ {Ev : Type 0} (es : Events Ev) where
  abbrev known_or_text : {A : Type 0} → (A → Event) → String → Option A → Event
  known_or_text event text none = unknown_event (record { value = text })
  known_or_text event text (some a) = event a

  abbrev as_deposit : StorageDepositEvent → Event
  as_deposit d = storage_deposit_event (record d { kind = "StorageDepositEvent" })

  abbrev as_unlock : StorageUnlockEvent → Event
  as_unlock d = storage_unlock_event (record d { kind = "StorageUnlockEvent" })

  abbrev event_of : EventType → String → Event
  event_of is_gno text = known_or_text gno_event text (es.unmarshal_gno text)
  event_of is_storage_deposit text = known_or_text as_deposit text (es.unmarshal_deposit text)
  event_of is_storage_unlock text = known_or_text as_unlock text (es.unmarshal_unlock text)
  event_of is_other text = unknown_event (record { value = text })

  unfoldable pub make_event : Ev → Option Event
  make_event event = elim (es.marshal_event event) [
    | none ↦ none
    | some text ↦ some (event_of (es.type_of event) text)
  ]

  -- The loop of getEvents: an event that cannot be made is left out.
  unfoldable pub make_events : List Ev → List Event
  make_events [] = []
  make_events (event ∷ events) = elim (make_event event) [
    | none ↦ make_events events
    | some made ↦ made ∷ make_events events
  ]
