-- ===== src/Filters/Manager.antt =====
-- serve/filters/manager.go: the manager of the filters and of the subscriptions. The current time and
-- the fresh IDs (uuid) are arguments. A panic is `none`.

pub mod Runs
pub mod Polls
pub mod Announced
use tx_indexer.Base.{
  ℕ, ◌≡◌, Bool, true, false, Option, none, some, List, [], ◌∷◌, Result, ok, err, String, str_eq,
  if◌then◌else◌, is_cons,
}
use tx_indexer.Base.Dict.{insert}
use tx_indexer.Chain.{Header, Block, TxResult, Tx}
use tx_indexer.Types.{NewBlock}
use tx_indexer.Graph.Model.{Coin}
use tx_indexer.Filters.Poll.{
  TxFilterOption, Update, new_block, new_tx, Filter, for_blocks, for_txs, FilterMap,
  new_block_filter, new_tx_filter, update_block_filter, update_tx_filter, get_block_changes,
  get_tx_changes, new_filter, uninstall_filter, get_filter, cleanup,
}
use tx_indexer.Filters.Subscriptions.{
  Kind, Subscription, SubscriptionMap, Sent, add_subscription, delete_subscription, send_event,
  new_heads_event, new_transactions_event, new_gas_price_event,
}
use tx_indexer.Serve.Conns.{Conn}

pub record Manager : Type 0 where
  pub filters : FilterMap
  pub subscriptions : SubscriptionMap

pub new_filter_manager : Manager
new_filter_manager = record { filters = []; subscriptions = [] }

-- UpdateWith of the filter's type.
unfoldable pub update_with : Update → Filter → Filter
update_with u (for_blocks b) = for_blocks (update_block_filter u b)
update_with u (for_txs tf) = for_txs (update_tx_filter u tf)

-- A callback changes a filter in place.
unfoldable pub range_items : (Filter → Filter) → FilterMap → FilterMap
range_items cb [] = []
range_items cb ((id, filter) ∷ items) = (id, cb filter) ∷ range_items cb items

unfoldable pub update_filters : Update → Manager → Manager
update_filters u m = record m { filters = range_items (update_with u) m.filters }

unfoldable pub create_block_filter : String → ℕ → Manager → Manager
create_block_filter id now m = record m {
  filters = new_filter id (for_blocks (new_block_filter now)) m.filters;
}

unfoldable pub create_tx_filter : String → TxFilterOption → ℕ → Manager → Manager
create_tx_filter id options now m = record m {
  filters = new_filter id (for_txs (new_tx_filter options now)) m.filters;
}

unfoldable pub remove_filter : String → Manager → Bool × Manager
remove_filter id m =
    let (removed, items) = uninstall_filter id m.filters in (removed, record m { filters = items })

unfoldable pub new_subscription : String → Kind → Conn → Manager → Manager
new_subscription id kind conn m = record m {
  subscriptions = add_subscription id (record { kind = kind; conn = conn }) m.subscriptions;
}

unfoldable pub uninstall_subscription : String → Manager → Bool × Manager
uninstall_subscription id m =
    let (removed, sm) = delete_subscription id m.subscriptions in
    (removed, record m { subscriptions = sm })

-- The case of the ticker in cleanupRoutine.
unfoldable pub clean_up : ℕ → Manager → Manager
clean_up cutoff m = record m { filters = cleanup cutoff m.filters }

-- `none` is ErrFilterNotFound.
unfoldable pub find_filter : String → ℕ → Manager → Option Filter × Manager
find_filter id now m =
    let (found, items) = get_filter id now m.filters in (found, record m { filters = items })

-- What GetChanges returns.
pub data Changes : Type 0 where
  headers : List Header → Changes
  txs : List TxResult → Changes

unfoldable pub get_changes : Filter → Changes × Filter
get_changes (for_blocks b) = (let (hs, b') = get_block_changes b in (headers hs, for_blocks b'))
get_changes (for_txs tf) = (let (ts, tf') = get_tx_changes tf in (txs ts, for_txs tf'))

-- GetFilter and then GetChanges on what it found, which the map still has.
unfoldable pub poll : String → ℕ → Manager → Option Changes × Manager
poll id now m =
    let (found, m') = find_filter id now m in
    elim found [
      | none ↦ (none, m')
      | some filter ↦
          (let (changes, filter') = get_changes filter in
            (some changes, record m' { filters = insert id filter' m'.filters }))
    ]

module _ (prepare_header : Header → Option String) (prepare_tx : TxResult → Option String)
    (decode_fee : Tx → Option Coin) (order : SubscriptionMap → Sent → SubscriptionMap) where
  -- `order` is the order in which the goroutines of a send write.
  unfoldable pub send : String → Update → Manager × Sent → Option (Manager × Sent)
  send event_type u (m, conns) =
      elim (send_event prepare_header prepare_tx decode_fee (order m.subscriptions conns) event_type
        u m.subscriptions conns) [
          | none ↦ none
          | some (sm, conns') ↦ some (record m { subscriptions = sm }, conns')
        ]

  -- The loop over the results of a block.
  unfoldable pub apply_results : List TxResult → Manager × Sent → Option (Manager × Sent)
  apply_results [] (m, conns) = some (m, conns)
  apply_results (tx ∷ results) (m, conns) =
      elim (send new_transactions_event (new_tx tx) (update_filters (new_tx tx) m, conns)) [
        | none ↦ none
        | some s ↦ apply_results results s
      ]

  unfoldable pub send_gas_price : Block → Manager × Sent → Option (Manager × Sent)
  send_gas_price block s =
      if is_cons block.txs then send new_gas_price_event (new_block block) s else some s

  -- The case of a new block in subscribeToEvents.
  unfoldable pub apply_new_block : NewBlock → Manager × Sent → Option (Manager × Sent)
  apply_new_block event (m, conns) =
      elim (send new_heads_event (new_block event.block)
        (update_filters (new_block event.block) m, conns)) [
          | none ↦ none
          | some s ↦ elim (send_gas_price event.block s) [
            | none ↦ none
            | some s' ↦ apply_results event.results s'
          ]
        ]
