-- ===== src/Filters/Manager/Runs.antt =====
-- Runs of the manager: new blocks, the calls of clients and the ticks of the cleanup, in any order.
use tx_indexer.Base.{
  ℕ, ◌≤◌, ◌≡◌, refl, ap, ◌∙◌, false, Option, none, some, List, [], ◌∷◌, ◌++◌, map, String, str_eq,
  is_cons, Bool-cases, inl, inr,
}
use tx_indexer.Chain.{Header, TxResult, Tx}
use tx_indexer.Types.{NewBlock}
use tx_indexer.Graph.Model.{Coin}
use tx_indexer.Filters.Poll.{TxFilterOption, Update, new_block, new_tx, FilterMap}
use tx_indexer.Filters.Subscriptions.{
  Kind, SubscriptionMap, Sent, new_heads_event, new_transactions_event, new_gas_price_event,
}
use tx_indexer.Filters.Subscriptions.Sending.{send_event-some}
use tx_indexer.Filters.Manager.{
  Manager, update_with, range_items, update_filters, create_block_filter, create_tx_filter,
  remove_filter, new_subscription, uninstall_subscription, clean_up, poll, send, apply_results,
  send_gas_price, apply_new_block,
}
use tx_indexer.Serve.Conns.{Conn, add_ws_connection, remove_ws_connection}

-- What may happen next to the manager or to the connections.
pub data Action : Type 0 where
  block_comes : NewBlock → Action
  client_polls : String → ℕ → Action
  block_filter_made : String → ℕ → Action
  tx_filter_made : String → TxFilterOption → ℕ → Action
  filter_removed : String → Action
  cleanup_runs : ℕ → Action
  subscribes : String → Kind → Conn → Action
  unsubscribes : String → Action
  connects : String → ℕ → Action
  disconnects : String → Action

-- The action leaves the filter of the ID, last used at `used`, to the client: it does not poll, replace
-- or remove it, and a cleanup's cutoff is not after its last use.
abbrev pub Spares : String → ℕ → Action → Type 0
Spares id used (block_comes event) = Unit
Spares id used (client_polls other now) = str_eq other id ≡ false
Spares id used (block_filter_made other now) = str_eq other id ≡ false
Spares id used (tx_filter_made other options now) = str_eq other id ≡ false
Spares id used (filter_removed other) = str_eq other id ≡ false
Spares id used (cleanup_runs cutoff) = cutoff ≤ used
Spares id used (subscribes other kind conn) = Unit
Spares id used (unsubscribes other) = Unit
Spares id used (connects other session) = Unit
Spares id used (disconnects other) = Unit

-- What the filters are updated with by an action.
abbrev pub updates_of : Action → List Update
updates_of (block_comes event) = new_block event.block ∷ map new_tx event.results
updates_of (client_polls other now) = []
updates_of (block_filter_made other now) = []
updates_of (tx_filter_made other options now) = []
updates_of (filter_removed other) = []
updates_of (cleanup_runs cutoff) = []
updates_of (subscribes other kind conn) = []
updates_of (unsubscribes other) = []
updates_of (connects other session) = []
updates_of (disconnects other) = []

abbrev pub updates : List Action → List Update
updates [] = []
updates (a ∷ actions) = updates_of a ++ updates actions

abbrev pub range_all : List Update → FilterMap → FilterMap
range_all [] items = items
range_all (u ∷ us) items = range_all us (range_items (update_with u) items)

module _ (prepare_header : Header → Option String) (prepare_tx : TxResult → Option String)
    (decode_fee : Tx → Option Coin) (order : SubscriptionMap → Sent → SubscriptionMap) where
  unfoldable pub act : Action → Manager × Sent → Option (Manager × Sent)
  act (block_comes event) s = apply_new_block prepare_header prepare_tx decode_fee order event s
  act (client_polls id now) (m, conns) = some ((poll id now m).1, conns)
  act (block_filter_made id now) (m, conns) = some (create_block_filter id now m, conns)
  act (tx_filter_made id options now) (m, conns) = some (create_tx_filter id options now m, conns)
  act (filter_removed id) (m, conns) = some ((remove_filter id m).1, conns)
  act (cleanup_runs cutoff) (m, conns) = some (clean_up cutoff m, conns)
  act (subscribes id kind conn) (m, conns) = some (new_subscription id kind conn m, conns)
  act (unsubscribes id) (m, conns) = some ((uninstall_subscription id m).1, conns)
  act (connects id session) (m, conns) = some (m, add_ws_connection id session conns)
  act (disconnects id) (m, conns) = some (m, remove_ws_connection id conns)

  unfoldable pub run : List Action → Manager × Sent → Option (Manager × Sent)
  run [] s = some s
  run (a ∷ actions) s = elim (act a s) [ none ↦ none | some s' ↦ run actions s' ]

  send_lem :
      (event_type : String) (u : Update) (m : Manager) (conns : Sent)
      → (s : Manager × Sent) × (send prepare_header prepare_tx decode_fee order event_type u
            (m, conns)
          ≡ some s)
        × (s.0.filters ≡ m.filters)
  unfolding send
  send_lem event_type u m conns =
      let (sm, conns', e) =
        send_event-some prepare_header prepare_tx decode_fee (order m.subscriptions conns)
          event_type u m.subscriptions conns in
      rw (e, send) ((record m { subscriptions = sm }, conns'), refl, refl)

  apply_results_lem :
      (results : List TxResult) (m : Manager) (conns : Sent)
      → (s : Manager × Sent) × (apply_results prepare_header prepare_tx decode_fee order results
            (m, conns)
          ≡ some s)
        × (s.0.filters ≡ range_all (map new_tx results) m.filters)
  unfolding apply_results update_filters
  apply_results_lem [] m conns = ((m, conns), refl, refl)
  apply_results_lem (tx ∷ results) m conns =
      let (s1, e1, f1) =
        send_lem new_transactions_event (new_tx tx) (update_filters (new_tx tx) m) conns in
      let (s2, e2, f2) = apply_results_lem results s1.0 s1.1 in
      rw (e1, apply_results) (s2, e2, f2 ∙ ap (range_all (map new_tx results)) f1)

  pub apply_new_block_lem :
      (event : NewBlock) (m : Manager) (conns : Sent)
      → (s : Manager × Sent) × (apply_new_block prepare_header prepare_tx decode_fee order event
            (m, conns)
          ≡ some s)
        × (s.0.filters ≡ range_all (new_block event.block ∷ map new_tx event.results) m.filters)
  unfolding apply_new_block update_filters send_gas_price
  apply_new_block_lem event m conns =
      let (s1, e1, f1) =
        send_lem new_heads_event (new_block event.block) (update_filters (new_block event.block) m)
          conns in
      let (s2, e2, f2) = send_lem new_gas_price_event (new_block event.block) s1.0 s1.1 in
      elim (Bool-cases (is_cons event.block.txs)) [
        | inl y ↦
            let (s3, e3, f3) = apply_results_lem event.results s2.0 s2.1 in
            rw (e1, apply_new_block)
              (rw (y, e2, send_gas_price)
                (s3, e3, f3 ∙ ap (range_all (map new_tx event.results)) (f2 ∙ f1)))
        | inr n ↦
            let (s3, e3, f3) = apply_results_lem event.results s1.0 s1.1 in
            rw (e1, apply_new_block)
              (rw (n, send_gas_price) (s3, e3, f3 ∙ ap (range_all (map new_tx event.results)) f1))
      ]
