-- ===== src/Serve/Subs.antt =====
-- serve/handlers/subs/subs.go: the methods of filters and subscriptions; their endpoints and the web
-- socket listeners of serve/jsonrpc.go. What uuid makes and the time are functions of the state.
pub mod Clients
use tx_indexer.Base.{
  ℕ, Bool, true, false, Option, none, some, List, [], ◌∷◌, Result, ok, err, String, str_eq, is_some,
  if◌then◌else◌,
}
use Prim.Native.String
use tx_indexer.Chain.{Header, TxResult}
use tx_indexer.Filters.Manager.{
  Manager, Changes, headers, txs, create_block_filter, create_tx_filter, remove_filter,
  new_subscription, uninstall_subscription, poll,
}
use tx_indexer.Filters.Subscriptions.{
  Kind, for_heads, for_transactions, for_gas_prices, new_heads_event, new_transactions_event,
  new_gas_price_event,
}
use tx_indexer.Serve.Conns.{Conn, get_ws_connection, add_ws_connection, remove_ws_connection}
use tx_indexer.Serve.Handlers.{
  Json, Encoder, Service, server_error_code, generate_response_error,
  generate_invalid_param_count_error, generate_invalid_param_error,
}
use tx_indexer.Serve.Rpc.{
  Outcome, Metadata, Handler, Handlers, Request, Written, new_json_error, add_handler,
  extract_base_requests, handle_request,
}

unfoldable pub is_ws : Metadata → Bool
is_ws metadata = is_some metadata.web_socket_id

module _ {V : Type 0} (json : Json V) (encoder : Encoder) (fresh : Service → String)
    (now : Service → ℕ) where
  abbrev refused_count : Service → Outcome V × Service
  refused_count s = ((none, some generate_invalid_param_count_error), s)

  abbrev refused_param : Service → Outcome V × Service
  refused_param s = ((none, some (generate_invalid_param_error json 1)), s)

  abbrev not_over_ws : Service → Outcome V × Service
  not_over_ws s =
      ((none, some (new_json_error "Method only supported over WS" server_error_code)), s)

  unfoldable pub new_block_filter_handler : Handler Service V
  new_block_filter_handler s metadata [] = (
    (some (json.of_string (fresh s)), none),
    record s { manager = create_block_filter (fresh s) (now s) s.manager },
  )
  new_block_filter_handler s metadata (p ∷ ps) = refused_count s

  unfoldable pub new_transaction_filter_handler : Handler Service V
  new_transaction_filter_handler s metadata [] = refused_count s
  new_transaction_filter_handler s metadata (p ∷ ps) = elim (json.parse_object p) [
    | none ↦ refused_param s
    | some options ↦ (
      (some (json.of_string (fresh s)), none),
      record s { manager = create_tx_filter (fresh s) options (now s) s.manager },
    )
  ]

  unfoldable pub uninstall_filter_handler : Handler Service V
  uninstall_filter_handler s metadata [] = refused_count s
  uninstall_filter_handler s metadata (p ∷ []) = elim (json.as_string p) [
    | none ↦ refused_param s
    | some id ↦
        (let (removed, m) = remove_filter id s.manager in
          ((some (json.of_bool removed), none), record s { manager = m }))
  ]
  uninstall_filter_handler s metadata (p ∷ q ∷ ps) = refused_count s

  -- The kind of subscription of an event type.
  unfoldable pub kind_of : String → Option Kind
  kind_of event_type =
      if str_eq event_type new_heads_event
      then some for_heads
      else if str_eq event_type new_transactions_event
      then some for_transactions
      else if str_eq event_type new_gas_price_event
      then some for_gas_prices
      else none

  unfoldable pub subscribe : String → String → Service → Result String (String × Service)
  subscribe conn_id event_type s = elim (get_ws_connection conn_id s.conns) [
    | none ↦ err (String.◌++◌ (String.◌++◌ "WS connection with ID " conn_id) " not found")
    | some conn ↦ elim (kind_of event_type) [
      | none ↦ err (String.◌++◌ "invalid event type: " event_type)
      | some kind ↦
          ok (fresh s, record s { manager = new_subscription (fresh s) kind conn s.manager })
    ]
  ]

  -- The last lines of SubscribeHandler.
  unfoldable pub subscribed : Service → Result String (String × Service) → Outcome V × Service
  subscribed s (err text) = (
    (none, some (new_json_error (String.◌++◌ "unable to subscribe, " text) server_error_code)),
    s,
  )
  subscribed s (ok (id, s')) = ((some (json.of_string id), none), s')

  unfoldable pub subscribe_handler : Handler Service V
  subscribe_handler s metadata params = elim metadata.web_socket_id [
    | none ↦ not_over_ws s
    | some conn_id ↦ elim params [
      | [] ↦ refused_count s
      | p ∷ ps ↦ elim (json.as_string p) [
        | none ↦ refused_param s
        | some event_type ↦ subscribed s (subscribe conn_id event_type s)
      ]
    ]
  ]

  -- UnsubscribeHandler after its test of the parameters' number.
  unfoldable pub unsubscribe : V → Service → Outcome V × Service
  unsubscribe p s = elim (json.as_string p) [
    | none ↦ refused_param s
    | some id ↦
        (let (removed, m) = uninstall_subscription id s.manager in
          ((some (json.of_bool removed), none), record s { manager = m }))
  ]

  abbrev unsubscribe_params : List V → Service → Outcome V × Service
  unsubscribe_params [] s = refused_count s
  unsubscribe_params (p ∷ []) s = unsubscribe p s
  unsubscribe_params (p ∷ q ∷ ps) s = refused_count s

  unfoldable pub unsubscribe_handler : Handler Service V
  unsubscribe_handler s metadata params =
      if is_ws metadata then unsubscribe_params params s else not_over_ws s

  -- The loop over the changes; `none` is the error of the first that cannot be encoded.
  unfoldable pub encode_all : {A : Type 0} → (A → Option String) → List A → Option (List String)
  encode_all prepare [] = some []
  encode_all prepare (a ∷ rest) = elim (prepare a) [
    | none ↦ none
    | some text ↦ elim (encode_all prepare rest) [ none ↦ none | some texts ↦ some (text ∷ texts) ]
  ]

  unfoldable pub encode_changes : Changes → Option (List String)
  encode_changes (headers hs) = encode_all encoder.prepare_header hs
  encode_changes (txs ts) = encode_all encoder.prepare_tx ts

  unfoldable pub answer_changes : String → Option Changes → Outcome V
  answer_changes id none =
      (none, some (generate_response_error (String.◌++◌ "filter not found, id: " id)))
  answer_changes id (some changes) = elim (encode_changes changes) [
    | none ↦ (none, some (generate_response_error "unable to amino encode value"))
    | some texts ↦ (some (json.of_strings texts), none)
  ]

  -- GetFilter and GetChanges are one poll of the manager.
  unfoldable pub get_filter_changes_handler : Handler Service V
  get_filter_changes_handler s metadata [] = refused_count s
  get_filter_changes_handler s metadata (p ∷ []) = elim (json.as_string p) [
    | none ↦ refused_param s
    | some id ↦
        (let (found, m) = poll id (now s) s.manager in
          (answer_changes id found, record s { manager = m }))
  ]
  get_filter_changes_handler s metadata (p ∷ q ∷ ps) = refused_count s

  pub register_sub_endpoints : Handlers Service V → Handlers Service V
  register_sub_endpoints handlers =
      let h1 = add_handler handlers "subscribe" subscribe_handler in
      let h2 = add_handler h1 "unsubscribe" unsubscribe_handler in
      let h3 = add_handler h2 "newBlockFilter" new_block_filter_handler in
      let h4 = add_handler h3 "newTransactionFilter" new_transaction_filter_handler in
      let h5 = add_handler h4 "getFilterChanges" get_filter_changes_handler in
      add_handler h5 "uninstallFilter" uninstall_filter_handler

-- The listeners of setupWSListeners: of a new session with a fresh ID, of its end, and of a message,
-- which is ignored if it is malformed. The ID is a value of the session.
unfoldable pub handle_connect : String → ℕ → Service → Service
handle_connect ws_id session s = record s { conns = add_ws_connection ws_id session s.conns }

unfoldable pub handle_disconnect : String → Service → Service
handle_disconnect ws_id s = record s { conns = remove_ws_connection ws_id s.conns }

-- `none` outside is a panic, and inside that nothing is written.
pub handle_message :
    {V Body : Type 0}
    → (Body → Option (List (Option (Request V))))
    → (Body → Option (Option (Request V)))
    → Handlers Service V
    → String
    → String
    → Body
    → Service
    → Option (Option (Written V) × Service)
handle_message unmarshal_list unmarshal_one handlers remote_addr ws_id body s =
    elim (extract_base_requests unmarshal_list unmarshal_one body) [
      | none ↦ some (none, s)
      | some requests ↦
          elim (handle_request handlers
            (record { remote_addr = remote_addr; web_socket_id = some ws_id }) s requests) [
              | none ↦ none
              | some (written, s') ↦ some (some written, s')
            ]
    ]
