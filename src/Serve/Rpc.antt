-- ===== src/Serve/Rpc.antt =====
-- The dispatch of JSON-RPC requests: handleRequest, route, isValidBaseRequest, extractBaseRequests and
-- handleHTTPRequest of serve/jsonrpc.go, the handlers' map of serve/handler.go, and the messages of
-- serve/spec/spec.go. JSON values are a parameter `V`; a handler may change a state `S`.
pub mod Responses
pub mod Registry
use tx_indexer.Base.{
  ℕ, zero, suc, ◌+◌, Bool, true, false, not, ◌&&◌, Option, none, some, List, [], ◌∷◌, Result, ok,
  err, if◌then◌else◌, String, str_eq,
}
use tx_indexer.Base.Int.{ℤ, negsuc}

abbrev pub json_rpc_version : String
json_rpc_version = "2.0"

abbrev pub invalid_request_error_code : ℤ
invalid_request_error_code = negsuc 32599

abbrev pub method_not_found_error_code : ℤ
method_not_found_error_code = negsuc 32600

pub record Request (V : Type 0) : Type 0 where
  pub jsonrpc : String
  pub id : ℕ
  pub method : String
  pub params : List V

pub record RpcError : Type 0 where
  pub message : String
  pub code : ℤ

pub record Response (V : Type 0) : Type 0 where
  pub jsonrpc : String
  pub id : ℕ
  pub result : Option V
  pub error : Option RpcError

-- What a handler returns: a value, which may be nil, and an error, which may be nil.
abbrev pub Outcome : Type 0 → Type 0
Outcome V = Option V × Option RpcError

-- The metadata of a request: the remote address, and the ID of a web socket.
pub record Metadata : Type 0 where
  pub remote_addr : String
  pub web_socket_id : Option String

unfoldable pub new_json_response : {V : Type 0} → ℕ → Option V → Option RpcError → Response V
new_json_response id result error = record {
  jsonrpc = json_rpc_version;
  id = id;
  result = result;
  error = error;
}

pub new_json_error : String → ℤ → RpcError
new_json_error message code = record { message = message; code = code }

pub is_valid_base_request : {V : Type 0} → Request V → Bool
is_valid_base_request r = if str_eq r.method "" then false else str_eq r.jsonrpc json_rpc_version

-- What is written: one response, or a batch.
pub data Written (V : Type 0) : Type 0 where
  single : Response V → Written V
  batch : List (Response V) → Written V

pub write_responses : {V : Type 0} → List (Response V) → Written V
write_responses [] = batch []
write_responses (r ∷ []) = single r
write_responses (r ∷ p ∷ rs) = batch (r ∷ p ∷ rs)

abbrev pub Handler : Type 0 → Type 0 → Type 0
Handler S V = S → Metadata → List V → Outcome V × S

abbrev pub Handlers : Type 0 → Type 0 → Type 0
Handlers S V = List (String × Handler S V)

module _ {S V : Type 0} where
  pub find_handler : Handlers S V → String → Option (Handler S V)
  find_handler [] method = none
  find_handler ((m, h) ∷ handlers) method =
      let rest = find_handler handlers method in if str_eq m method then some h else rest

  -- RegisterHandler overwrites; UnregisterHandler removes, if there is one.
  pub add_handler : Handlers S V → String → Handler S V → Handlers S V
  add_handler [] method handler = (method, handler) ∷ []
  add_handler ((m, h) ∷ handlers) method handler =
      let rest = add_handler handlers method handler in
      if str_eq m method then (m, handler) ∷ handlers else (m, h) ∷ rest

  pub remove_handler : Handlers S V → String → Handlers S V
  remove_handler [] method = []
  remove_handler ((m, h) ∷ handlers) method =
      let rest = remove_handler handlers method in if str_eq m method then rest else (m, h) ∷ rest

  module _ (handlers : Handlers S V) (metadata : Metadata) where
    pub route : S → Request V → Outcome V × S
    route s request = elim (find_handler handlers request.method) [
      | none ↦
          ((none, some (new_json_error "Method handler not set" method_not_found_error_code)), s)
      | some handler ↦ handler s metadata request.params
    ]

    pub answer : ℕ → Outcome V × S → Response V × S
    answer id ((result, some e), s) = (new_json_response id none (some e), s)
    answer id ((result, none), s) = (new_json_response id result none, s)

    pub respond : S → Request V → Response V × S
    respond s request =
        if not (is_valid_base_request request)
        then (
          new_json_response request.id none
              (some (new_json_error "invalid JSON-RPC 2.0 request" invalid_request_error_code)),
          s,
        )
        else answer request.id (route s request)

    -- The loop over the requests; a request that is nil is a panic, `none`.
    unfoldable pub respond_all : S → List (Option (Request V)) → Option (List (Response V) × S)
    respond_all s [] = some ([], s)
    respond_all s (none ∷ requests) = none
    respond_all s (some request ∷ requests) =
        let (response, s') = respond s request in
        elim (respond_all s' requests) [
          | none ↦ none
          | some (responses, s'') ↦ some (response ∷ responses, s'')
        ]

    unfoldable pub handle_request : S → List (Option (Request V)) → Option (Written V × S)
    handle_request s requests = elim (respond_all s requests) [
      | none ↦ none
      | some (responses, s') ↦ some (write_responses responses, s')
    ]

-- json.Unmarshal into a list of requests and into one request; `none` is its error. A JSON null is
-- a nil slice or a nil request.
module _ {V Body : Type 0} (unmarshal_list : Body → Option (List (Option (Request V))))
    (unmarshal_one : Body → Option (Option (Request V))) where
  unfoldable pub extract_base_requests : Body → Option (List (Option (Request V)))
  extract_base_requests body = elim (unmarshal_list body) [
    | some requests ↦ some requests
    | none ↦ elim (unmarshal_one body) [ none ↦ none | some request ↦ some (request ∷ []) ]
  ]

  -- Of an HTTP request: `err` is the status 400 with its text.
  unfoldable pub handle_http_request :
      {S : Type 0}
      → Handlers S V
      → Metadata
      → S
      → Option Body
      → Result String (Option (Written V × S))
  handle_http_request handlers metadata s none = err "unable to read request"
  handle_http_request handlers metadata s (some body) = elim (extract_base_requests body) [
    | none ↦ err "Invalid request body"
    | some requests ↦ ok (handle_request handlers metadata s requests)
  ]
