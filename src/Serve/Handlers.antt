-- ===== src/Serve/Handlers.antt =====
-- The JSON-RPC methods: serve/handlers/block, serve/handlers/tx, serve/handlers/subs, the errors of
-- serve/spec/spec.go, and the endpoints and web socket listeners of serve/jsonrpc.go.
pub mod Answers
use tx_indexer.Base.{
  ℕ, ◌%◌, ◌^◌, Bool, true, false, not, Option, none, some, List, [], ◌∷◌, Result, ok, err, String,
  str_eq, ◌==◌, if◌then◌else◌,
}
use Prim.Native.String
use tx_indexer.Base.Int.{ℤ, negsuc}
use tx_indexer.Chain.{Header, Block, TxResult}
use tx_indexer.Filters.Manager.{
  Manager, Changes, headers, txs, create_block_filter, create_tx_filter, remove_filter,
  new_subscription, uninstall_subscription, poll,
}
use tx_indexer.Filters.Poll.{TxFilterOption}
use tx_indexer.Filters.Subscriptions.{
  Kind, for_heads, for_transactions, for_gas_prices, Sent, new_heads_event, new_transactions_event,
  new_gas_price_event,
}
use tx_indexer.Serve.Conns.{Conn, get_ws_connection, add_ws_connection, remove_ws_connection}
use tx_indexer.Serve.Rpc.{
  RpcError, Outcome, Metadata, Handler, Handlers, Request, Written, new_json_error, add_handler,
  extract_base_requests, handle_request,
}

abbrev pub server_error_code : ℤ
server_error_code = negsuc 31999

abbrev pub invalid_params_error_code : ℤ
invalid_params_error_code = negsuc 32601

-- What the handlers use of a JSON value, and of the formatting and parsing of numbers: the assertion
-- that it is a string, fmt's %v, strconv's ParseUint of base 10 and 64 bits, ParseObjectParameter, and
-- the values that are answered.
pub record Json (V : Type 0) : Type 0 where
  pub as_string : V → Option String
  pub print : V → String
  pub print_int : ℕ → String
  pub parse_uint : String → Option ℕ
  pub parse_object : V → Option TxFilterOption
  pub of_string : String → V
  pub of_bool : Bool → V
  pub of_strings : List String → V

-- The storage of the handlers; a pointer that is returned may be nil, `none` inside.
pub record Storage (E : Type 0) : Type 0 where
  pub get_block : ℕ → Result E (Option Block)
  pub get_tx : ℕ → ℕ → Result E (Option TxResult)
  pub get_tx_by_hash : String → Result E (Option TxResult)
  pub is_not_found : E → Bool
  pub message : E → String

-- encode.PrepareValue at the three types; `none` where Amino fails.
pub record Encoder : Type 0 where
  pub prepare_block : Block → Option String
  pub prepare_header : Header → Option String
  pub prepare_tx : TxResult → Option String

-- What the handlers change: the filter manager and the connections.
pub record Service : Type 0 where
  pub manager : Manager
  pub conns : Sent

infixr 5 ◌<>◌
abbrev ◌<>◌ : String → String → String
a <> b = String.◌++◌ a b

unfoldable pub generate_response_error : String → RpcError
generate_response_error text = new_json_error text server_error_code

abbrev pub generate_invalid_param_count_error : RpcError
generate_invalid_param_count_error =
    new_json_error "Invalid number of parameters" invalid_params_error_code

module _ {V : Type 0} (json : Json V) where
  pub get_ordinal_suffix : ℕ → String
  get_ordinal_suffix num =
      if num % 10 == 1
      then if num % 100 == 11 then json.print_int num <> "th" else json.print_int num <> "st"
      else if num % 10 == 2
      then if num % 100 == 12 then json.print_int num <> "th" else json.print_int num <> "nd"
      else if num % 10 == 3
      then if num % 100 == 13 then json.print_int num <> "th" else json.print_int num <> "rd"
      else json.print_int num <> "th"

  pub generate_invalid_param_error : ℕ → RpcError
  generate_invalid_param_error index =
      new_json_error ("Invalid " <> get_ordinal_suffix index <> " parameter")
        invalid_params_error_code

  unfoldable pub to_uint64 : V → Option ℕ
  to_uint64 v = json.parse_uint (json.print v)

  -- What was fetched is encoded; nil is answered with nil.
  unfoldable pub answer_with :
      {A : Type 0} → (A → Option String) → Result String (Option A) → Outcome V
  answer_with prepare (err text) = (none, some (generate_response_error text))
  answer_with prepare (ok none) = (none, none)
  answer_with prepare (ok (some a)) = elim (prepare a) [
    | none ↦ (none, some (generate_response_error "unable to amino encode value"))
    | some text ↦ (some (json.of_string text), none)
  ]

  module _ {E : Type 0} (storage : Storage E) (encoder : Encoder) where
    -- getBlock, getTx and getTxByHash: what was not found is nil, without an error.
    unfoldable pub fetched : {A : Type 0} → Result E (Option A) → Result String (Option A)
    fetched (ok a) = ok a
    fetched (err e) = if storage.is_not_found e then ok none else err (storage.message e)

    unfoldable pub get_block_handler : List V → Outcome V
    get_block_handler [] = (none, some generate_invalid_param_count_error)
    get_block_handler (p ∷ []) = elim (json.as_string p) [
      | none ↦ (none, some (generate_invalid_param_error 1))
      | some requested_block ↦ elim (json.parse_uint requested_block) [
        | none ↦ (none, some (generate_invalid_param_error 1))
        | some block_num ↦ answer_with encoder.prepare_block (fetched (storage.get_block block_num))
      ]
    ]
    get_block_handler (p ∷ q ∷ ps) = (none, some generate_invalid_param_count_error)

    -- The index is converted to a uint32.
    unfoldable pub get_tx_handler : List V → Outcome V
    get_tx_handler [] = (none, some generate_invalid_param_count_error)
    get_tx_handler (p ∷ []) = (none, some generate_invalid_param_count_error)
    get_tx_handler (p ∷ q ∷ ps) = elim (to_uint64 p) [
      | none ↦ (none, some (generate_invalid_param_error 1))
      | some block_num ↦ elim (to_uint64 q) [
        | none ↦ (none, some (generate_invalid_param_error 2))
        | some tx_index ↦
            answer_with encoder.prepare_tx (fetched (storage.get_tx block_num (tx_index % 2 ^ 32)))
      ]
    ]

    unfoldable pub get_tx_by_hash_handler : List V → Outcome V
    get_tx_by_hash_handler [] = (none, some generate_invalid_param_count_error)
    get_tx_by_hash_handler (p ∷ ps) = elim (json.as_string p) [
      | none ↦ (none, some (generate_invalid_param_error 1))
      | some tx_hash ↦ answer_with encoder.prepare_tx (fetched (storage.get_tx_by_hash tx_hash))
    ]

    -- A handler that changes nothing.
    abbrev reading : (List V → Outcome V) → Handler Service V
    reading handler s metadata params = (handler params, s)

    pub register_tx_endpoints : Handlers Service V → Handlers Service V
    register_tx_endpoints handlers =
        add_handler (add_handler handlers "getTxResult" (reading get_tx_handler))
          "getTxResultByHash" (reading get_tx_by_hash_handler)

    pub register_block_endpoints : Handlers Service V → Handlers Service V
    register_block_endpoints handlers = add_handler handlers "getBlock" (reading get_block_handler)
