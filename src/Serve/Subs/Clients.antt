-- ===== src/Serve/Subs/Clients.antt =====
-- What the clients of filters and subscriptions are answered.
use tx_indexer.Base.{
  ℕ, ◌≡◌, refl, ap, ◌∙◌, true, Option, none, some, List, [], ◌∷◌, String, eq_iff, All,
}
use tx_indexer.Base.Dict.{find}
use tx_indexer.Chain.{Tx}
use tx_indexer.Graph.Model.{Coin}
use tx_indexer.Filters.Manager.{Manager, Changes, txs, create_tx_filter, poll}
use tx_indexer.Filters.Manager.Polls.{run_lem, poll_lem, polled_lem, update_filter_all}
use tx_indexer.Filters.Manager.Runs.{Action, Spares, updates, run}
use tx_indexer.Filters.Poll.{TxFilterOption, for_txs, get_last_used, new_tx_filter}
use tx_indexer.Filters.Poll.Changes.{passing}
use tx_indexer.Filters.Poll.Lookup.{find-new_filter}
use tx_indexer.Filters.Subscriptions.{SubscriptionMap, Sent}
use tx_indexer.Serve.Handlers.{Json, Encoder, Service, generate_response_error}
use tx_indexer.Serve.Rpc.{Metadata, Outcome}
use tx_indexer.Serve.Subs.{
  is_ws, new_transaction_filter_handler, get_filter_changes_handler, encode_changes, answer_changes,
  unsubscribe_handler,
}

module _ {V : Type 0} (json : Json V) (encoder : Encoder) (fresh : Service → String)
    (now : Service → ℕ) where
  abbrev asked_changes : Service → Metadata → List V → Outcome V × Service
  asked_changes = get_filter_changes_handler json encoder fresh now

  -- A poll that gives `changes`, as the method answers it.
  changes_answered :
      (s : Service) (metadata : Metadata) (v : V) (id : String) (changes : Changes)
      → json.as_string v ≡ some id
      → (poll id (now s) s.manager).0 ≡ some changes
      → ((asked_changes s metadata (v ∷ [])).0
          ≡ answer_changes json encoder fresh now id (some changes))
        × ((asked_changes s metadata (v ∷ [])).1.manager ≡ (poll id (now s) s.manager).1)
  unfolding get_filter_changes_handler
  changes_answered s metadata v id changes h p =
      rw (h, get_filter_changes_handler) (ap (answer_changes json encoder fresh now id) p, refl)

  -- Any client over a web socket that has a subscription's ID ends it: the answer and the state do not
  -- depend on whose connection the request came from.
  pub unsubscribe_handler_anyone :
      (s : Service) (mine other : Metadata) (params : List V)
      → is_ws mine ≡ true
      → is_ws other ≡ true
      → unsubscribe_handler json encoder fresh now s mine params
        ≡ unsubscribe_handler json encoder fresh now s other params
  unfolding unsubscribe_handler
  unsubscribe_handler_anyone s mine other params h k = rw (h, k) refl

  -- The text of everything that a filter has collected.
  abbrev pub text_of : Changes → Option (List String)
  text_of = encode_changes json encoder fresh now

  module _ (decode_fee : Tx → Option Coin) (order : SubscriptionMap → Sent → SubscriptionMap) where
    abbrev runs : List Action → Manager × Sent → Option (Manager × Sent)
    runs = run encoder.prepare_header encoder.prepare_tx decode_fee order

    -- A client makes a transaction filter by newTransactionFilter. Whatever then happens to the manager
    -- and the connections, as long as nobody else uses the filter's ID and no cleanup's cutoff is after
    -- the filter's making: getFilterChanges answers with the encoded results that the options let through
    -- since, each once and in order, if all can be encoded, and then the filter is empty; if one cannot,
    -- it answers with an error only, and the filter is empty all the same, so those results are lost.
    pub new_filter-changes :
        (s : Service) (metadata asking : Metadata) (p v : V) (ps : List V)
        (options : TxFilterOption) (actions : List Action)
        → json.parse_object p ≡ some options
        → json.as_string v ≡ some (fresh s)
        → All (Spares (fresh s) (now s)) actions
        → let made = new_transaction_filter_handler json encoder fresh now s metadata (p ∷ ps) in
          (made.0 ≡ (some (json.of_string (fresh s)), none))
          × ((later : Service) × (runs actions (made.1.manager, made.1.conns)
                ≡ some (later.manager, later.conns))
              × ((asked_changes later asking (v ∷ [])).0
                  ≡ elim (text_of (txs (passing options (updates actions)))) [
                    | none ↦ (none, some (generate_response_error "unable to amino encode value"))
                    | some texts ↦ (some (json.of_strings texts), none)
                  ])
              × (find (fresh s) (asked_changes later asking (v ∷ [])).1.manager.filters
                  ≡ some (for_txs (record { opts = options; txs = []; last_used = now later }))))
    unfolding new_transaction_filter_handler create_tx_filter new_tx_filter get_last_used
        answer_changes
    new_filter-changes s metadata asking p v ps options actions hp hv spared =
        let f = for_txs (new_tx_filter options (now s)) in
        let m = create_tx_filter (fresh s) options (now s) s.manager in
        let there : find (fresh s) m.filters ≡ some f =
          find-new_filter (fresh s) (fresh s) f s.manager.filters
          ∙ rw ((eq_iff (fresh s) (fresh s)).1 refl) refl in
        let (t, e, g) =
          run_lem encoder.prepare_header encoder.prepare_tx decode_fee order (fresh s) actions m
            s.conns f there spared in
        let later : Service = record { manager = t.0; conns = t.1 } in
        let (given, left) =
          poll_lem (fresh s) (now later) t.0 (update_filter_all (updates actions) f) g in
        let q = polled_lem (now later) (updates actions) f in
        let (answered, kept) =
          changes_answered later asking v (fresh s) (txs (passing options (updates actions))) hv
            (given ∙ ap (λ x. some x.0) q) in
        rw (hp, new_transaction_filter_handler)
          (
            refl,
            (
              later,
              e,
              answered,
              ap (λ x. find (fresh s) x.filters) kept ∙ left ∙ ap (λ x. some x.1) q,
            ),
          )
