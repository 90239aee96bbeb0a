-- ===== src/Serve/Rpc/Responses.antt =====
-- The responses belong to the requests.
use tx_indexer.Base.{
  ◌≡◌, ◌≢◌, refl, true, false, Option, none, some, List, [], ◌∷◌, map, Bool-cases, Option-cases,
  inl, inr, In,
}
use tx_indexer.Serve.Rpc.{
  Request, Response, RpcError, Outcome, Metadata, Handler, Handlers, json_rpc_version,
  new_json_response, new_json_error, is_valid_base_request, find_handler, route, answer, respond,
  respond_all, Written, single, batch, write_responses, handle_request, invalid_request_error_code,
  method_not_found_error_code,
}

module _ {S V : Type 0} (handlers : Handlers S V) (metadata : Metadata) where
  -- Why a response is what it is, and the state that the request leaves.
  pub data Reason (s : S) (request : Request V) : Option V → Option RpcError → S → Type 0 where
    invalid :
        (e : RpcError)
        → is_valid_base_request request ≡ false
        → e.code ≡ invalid_request_error_code
        → Reason s request none (some e) s
    unknown :
        (e : RpcError)
        → is_valid_base_request request ≡ true
        → find_handler handlers request.method ≡ none
        → e.code ≡ method_not_found_error_code
        → Reason s request none (some e) s
    refused :
        (handler : Handler S V) (result : Option V) (e : RpcError) (s' : S)
        → is_valid_base_request request ≡ true
        → find_handler handlers request.method ≡ some handler
        → handler s metadata request.params ≡ ((result, some e), s')
        → Reason s request none (some e) s'
    served :
        (handler : Handler S V) (result : Option V) (s' : S)
        → is_valid_base_request request ≡ true
        → find_handler handlers request.method ≡ some handler
        → handler s metadata request.params ≡ ((result, none), s')
        → Reason s request result none s'

  -- A response to a request: its ID, the version, and what the handler gave, if it was called.
  pub record Fits (s : S) (request : Request V) (response : Response V) (s' : S) : Type 0 where
    pub same_id : response.id ≡ request.id
    pub version : response.jsonrpc ≡ json_rpc_version
    pub reason : Reason s request response.result response.error s'

  -- The responses stand in the order of the requests, one for each, and the handlers ran in it.
  abbrev pub FitAll : S → List (Request V) → List (Response V) → S → Type 0
  FitAll s [] [] s' = s ≡ s'
  FitAll s [] (p ∷ ps) s' = ⊥
  FitAll s (r ∷ rs) [] s' = ⊥
  FitAll s (r ∷ rs) (p ∷ ps) s' = (t : S) × Fits s r p t × FitAll t rs ps s'

  -- What is written for these responses: one alone is not a batch.
  abbrev pub Writes : List (Response V) → Written V → Type 0
  Writes ps (single p) = ps ≡ p ∷ []
  Writes ps (batch qs) = (ps ≡ qs) × ((p : Response V) → ps ≢ p ∷ [])

  served_lem :
      (s : S) (r : Request V) (handler : Handler S V) (o : Outcome V × S)
      → is_valid_base_request r ≡ true
      → find_handler handlers r.method ≡ some handler
      → handler s metadata r.params ≡ o
      → Fits s r (answer handlers metadata r.id o).0 (answer handlers metadata r.id o).1
  unfolding answer new_json_response
  served_lem s r handler ((result, some e), s') valid f h = record {
    same_id = refl;
    version = refl;
    reason = refused handler result e s' valid f h;
  }
  served_lem s r handler ((result, none), s') valid f h = record {
    same_id = refl;
    version = refl;
    reason = served handler result s' valid f h;
  }

  respond-Fits :
      (s : S) (r : Request V)
      → Fits s r (respond handlers metadata s r).0 (respond handlers metadata s r).1
  unfolding respond route answer new_json_response new_json_error
  respond-Fits s r = elim (Bool-cases (is_valid_base_request r)) [
    | inr n ↦ rw n (record {
      same_id = refl;
      version = refl;
      reason =
          invalid (new_json_error "invalid JSON-RPC 2.0 request" invalid_request_error_code) n refl;
    })
    | inl y ↦ elim (Option-cases (find_handler handlers r.method)) [
      | inl f ↦
          rw (y, f, route)
            (record {
              same_id = refl;
              version = refl;
              reason =
                  unknown (new_json_error "Method handler not set" method_not_found_error_code) y f
                    refl;
            })
      | inr (handler, f) ↦
          rw (y, f, route) (served_lem s r handler (handler s metadata r.params) y f refl)
    ]
  ]

  all-FitAll :
      (s : S) (requests : List (Request V))
      → (responses : List (Response V)) × (s' : S) × (respond_all handlers metadata s
            (map some requests)
          ≡ some (responses, s'))
        × FitAll s requests responses s'
  unfolding respond_all
  all-FitAll s [] = ([], s, refl, refl)
  all-FitAll s (r ∷ rs) =
      let (ps, s', e, f) = all-FitAll (respond handlers metadata s r).1 rs in
      (
        (respond handlers metadata s r).0 ∷ ps,
        s',
        rw (e, respond_all) refl,
        ((respond handlers metadata s r).1, respond-Fits s r, f),
      )

  writes_lem : (ps : List (Response V)) → Writes ps (write_responses ps)
  unfolding write_responses
  writes_lem [] = (refl, λ p h. absurd (cc))
  writes_lem (p ∷ []) = refl
  writes_lem (p ∷ q ∷ ps) = (refl, λ x h. absurd (cc))

  -- If no request is nil, each gets one response, at its place: with its ID, and with what its handler
  -- gave when it ran after the requests before it, a result or an error and never both; a request
  -- that is not valid or has no handler gets the error for that. One response alone is written as it
  -- is, and else a batch.
  pub handle_request-FitAll :
      (s : S) (requests : List (Request V))
      → (responses : List (Response V)) × (written : Written V) × (s' : S) × (handle_request
            handlers metadata s
            (map some requests)
          ≡ some (written, s'))
        × FitAll s requests responses s'
        × Writes responses written
  unfolding handle_request
  handle_request-FitAll s requests =
      let (ps, s', e, f) = all-FitAll s requests in
      (ps, write_responses ps, s', rw (e, handle_request) refl, f, writes_lem ps)

  all_none :
      (s : S) (requests : List (Option (Request V)))
      → In none requests
      → respond_all handlers metadata s requests ≡ none
  unfolding respond_all
  all_none s [] i = absurd i
  all_none s (none ∷ requests) i = refl
  all_none s (some r ∷ requests) (inl i) = absurd (cc)
  all_none s (some r ∷ requests) (inr i) =
      rw (all_none (respond handlers metadata s r).1 requests i, respond_all) refl

  -- A batch with a nil request is a panic: no request of it gets a response.
  pub handle_request-none :
      (s : S) (requests : List (Option (Request V)))
      → In none requests
      → handle_request handlers metadata s requests ≡ none
  unfolding handle_request
  handle_request-none s requests i = rw (all_none s requests i, handle_request) refl
