-- ===== src/Filters/Subscriptions.antt =====
-- serve/filters/subscription.go and serve/filters/subscription: the subscriptions of web socket clients
-- by ID, and what an event makes of them. PrepareValue (Amino, then base64) is a parameter, `none` where
-- it fails. A panic is `none`.
pub mod Sending
pub mod Pruned
pub mod Removed
use tx_indexer.Base.{
  Bool, true, false, not, ◌&&◌, Option, none, some, List, [], ◌∷◌, Result, ok, err, String, str_eq,
  if◌then◌else◌,
}
use tx_indexer.Base.Dict.{find, remove, insert}
use tx_indexer.Chain.{Header, Block, TxResult, Tx}
use tx_indexer.Filters.Poll.{Update, new_block, new_tx}
use tx_indexer.Graph.Model.{Coin}
use tx_indexer.Serve.Conns.{Conn, Conns, write_data}
use tx_indexer.Serve.Gas.{GasPrice, get_gas_prices_by_block}
use tx_indexer.Serve.Rpc.{json_rpc_version}

abbrev pub new_heads_event : String
new_heads_event = "newHeads"

abbrev pub new_transactions_event : String
new_transactions_event = "newTransactions"

abbrev pub new_gas_price_event : String
new_gas_price_event = "newGasPrice"

abbrev pub subscription_method : String
subscription_method = "subscription"

-- BlockSubscription, TransactionSubscription and GasPriceSubscription.
pub data Kind : Type 0 where
  for_heads : Kind
  for_transactions : Kind
  for_gas_prices : Kind

pub record Subscription : Type 0 where
  pub kind : Kind
  pub conn : Conn

unfoldable pub get_type : Kind → String
get_type for_heads = new_heads_event
get_type for_transactions = new_transactions_event
get_type for_gas_prices = new_gas_price_event

-- The result of a response.
pub data Payload : Type 0 where
  encoded : String → Payload
  gas_prices : List GasPrice → Payload

pub record SubscribeResponse : Type 0 where
  pub result : Payload
  pub subscription : String

pub record BaseJsonSubscribeResponse : Type 0 where
  pub params : SubscribeResponse
  pub jsonrpc : String
  pub method : String

unfoldable pub new_json_subscribe_response : String → Payload → BaseJsonSubscribeResponse
new_json_subscribe_response id result = record {
  params = record { result = result; subscription = id };
  jsonrpc = json_rpc_version;
  method = subscription_method;
}

abbrev pub SubscriptionMap : Type 0
SubscriptionMap = List (String × Subscription)

-- A fresh ID is an argument (uuid).
unfoldable pub add_subscription : String → Subscription → SubscriptionMap → SubscriptionMap
add_subscription id sub sm = insert id sub sm

-- Whether it was there, and the map without it.
unfoldable pub delete_subscription : String → SubscriptionMap → Bool × SubscriptionMap
delete_subscription id sm = elim (find id sm) [
  | none ↦ (false, sm)
  | some sub ↦ (true, remove id sm)
]

-- The last lines of sendEvent.
unfoldable pub prune : List String → SubscriptionMap → SubscriptionMap
prune [] sm = sm
prune (id ∷ invalid) sm = prune invalid (remove id sm)

abbrev pub Sent : Type 0
Sent = Conns BaseJsonSubscribeResponse

module _ (prepare_header : Header → Option String) (prepare_tx : TxResult → Option String)
    (decode_fee : Tx → Option Coin) where
  -- What WriteResponse of the three types makes of the data: an error, if the data has another type
  -- or cannot be encoded, is `none` inside.
  unfoldable pub prepare : Kind → Update → Option (Option Payload)
  prepare for_heads (new_block block) = elim (prepare_header block.header) [
    | none ↦ some none
    | some text ↦ some (some (encoded text))
  ]
  prepare for_heads (new_tx tx) = some none
  prepare for_transactions (new_block block) = some none
  prepare for_transactions (new_tx tx) = elim (prepare_tx tx) [
    | none ↦ some none
    | some text ↦ some (some (encoded text))
  ]
  prepare for_gas_prices (new_block block) = elim (get_gas_prices_by_block decode_fee block) [
    | none ↦ none
    | some prices ↦ some (some (gas_prices prices))
  ]
  prepare for_gas_prices (new_tx tx) = some none

  -- Whether it succeeded.
  unfoldable pub write_response : String → Update → Subscription → Sent → Option (Bool × Sent)
  write_response id event sub conns = elim (prepare sub.kind event) [
    | none ↦ none
    | some none ↦ some (false, conns)
    | some (some payload) ↦
        some (write_data sub.conn (new_json_subscribe_response id payload) conns)
  ]

  -- The goroutines of sendEvent, in the order in which they write: the IDs that are marked invalid.
  unfoldable pub write_all : String → Update → SubscriptionMap → Sent → Option (List String × Sent)
  write_all event_type event [] conns = some ([], conns)
  write_all event_type event ((id, sub) ∷ order) conns =
      if not (str_eq (get_type sub.kind) event_type)
      then write_all event_type event order conns
      else elim (write_response id event sub conns) [
        | none ↦ none
        | some (written, conns') ↦ elim (write_all event_type event order conns') [
          | none ↦ none
          | some (invalid, conns'') ↦ some (if written then invalid else id ∷ invalid, conns'')
        ]
      ]

  -- The entries of the map are visited in the order `order`.
  unfoldable pub send_event :
      SubscriptionMap → String → Update → SubscriptionMap → Sent → Option (SubscriptionMap × Sent)
  send_event order event_type event sm conns = elim (write_all event_type event order conns) [
    | none ↦ none
    | some (invalid, conns') ↦ some (prune invalid sm, conns')
  ]
