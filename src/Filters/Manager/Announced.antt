-- ===== src/Filters/Manager/Announced.antt =====
-- What a new block makes of the subscriptions, and what it writes to them.
use mathlib.Core.List.{Permᴰ}
use tx_indexer.Base.{
  ◌≡◌, refl, sym, ap, Option, some, List, [], ◌∷◌, ◌++◌, keep, map, String, if◌then◌else◌, is_cons,
  Bool-cases, inl, inr,
}
use tx_indexer.Base.Dict.{Unique, keep-Unique}
use tx_indexer.Chain.{Header, Block, TxResult, Tx}
use tx_indexer.Types.{NewBlock}
use tx_indexer.Graph.Model.{Coin}
use tx_indexer.Filters.Poll.{Update, new_block, new_tx, FilterMap}
use tx_indexer.Filters.Subscriptions.{
  SubscriptionMap, Sent, new_heads_event, new_transactions_event, new_gas_price_event,
}
use tx_indexer.Filters.Subscriptions.Sending.{deliveries, stays}
use tx_indexer.Filters.Subscriptions.Pruned.{send_event-stays}
use tx_indexer.Filters.Manager.{
  Manager, update_filters, send, apply_results, send_gas_price, apply_new_block,
}
use tx_indexer.Filters.Manager.Runs.{range_all}

-- What is announced of a block, in order: its header, its gas prices if it has transactions, and the
-- result of each transaction.
abbrev pub of_transactions : List TxResult → List (String × Update)
of_transactions [] = []
of_transactions (tx ∷ results) = (new_transactions_event, new_tx tx) ∷ of_transactions results

abbrev pub of_gas_prices : Block → List (String × Update)
of_gas_prices block = if is_cons block.txs then (new_gas_price_event, new_block block) ∷ [] else []

abbrev pub announcements : NewBlock → List (String × Update)
announcements event =
    (new_heads_event, new_block event.block)
    ∷ (of_gas_prices event.block ++ of_transactions event.results)

module _ (prepare_header : Header → Option String) (prepare_tx : TxResult → Option String)
    (decode_fee : Tx → Option Coin) (order : SubscriptionMap → Sent → SubscriptionMap) where
  -- Announced one after the other: each to the subscriptions that the ones before it left.
  abbrev pub announce : List (String × Update) → SubscriptionMap × Sent → SubscriptionMap × Sent
  announce [] s = s
  announce ((event_type, u) ∷ events) (sm, conns) = announce events (
    keep (stays prepare_header prepare_tx decode_fee event_type u conns.cancelled) sm,
    record conns {
      written =
          conns.written
          ++ deliveries prepare_header prepare_tx decode_fee event_type u conns.cancelled
              (order sm conns);
    },
  )

  announce-append :
      (es fs : List (String × Update)) (s : SubscriptionMap × Sent)
      → announce (es ++ fs) s ≡ announce fs (announce es s)
  announce-append [] fs s = refl
  announce-append (e ∷ es) fs (sm, conns) = announce-append es fs (announce (e ∷ []) (sm, conns))

  announce-Unique :
      (es : List (String × Update)) (sm : SubscriptionMap) (conns : Sent)
      → Unique sm
      → Unique (announce es (sm, conns)).0
  announce-Unique [] sm conns u = u
  announce-Unique ((event_type, e) ∷ es) sm conns u =
      announce-Unique es _ _
        (keep-Unique (stays prepare_header prepare_tx decode_fee event_type e conns.cancelled) sm u)

  -- The manager's state with other subscriptions.
  abbrev with_sent : FilterMap → SubscriptionMap × Sent → Manager × Sent
  with_sent filters (sm, conns) = (record { filters = filters; subscriptions = sm }, conns)

  module _ (permuted : (sm : SubscriptionMap) (conns : Sent) → Permᴰ (order sm conns) sm) where
    send-announce :
        (event_type : String) (u : Update) (filters : FilterMap) (s : SubscriptionMap × Sent)
        → Unique s.0
        → send prepare_header prepare_tx decode_fee order event_type u (with_sent filters s)
          ≡ some (with_sent filters (announce ((event_type, u) ∷ []) s))
    unfolding send
    send-announce event_type u filters (sm, conns) q =
        rw
          (
            send_event-stays prepare_header prepare_tx decode_fee event_type u (order sm conns) sm
                conns q (permuted sm conns),
            send,
          )
          refl

    apply_results-announce :
        (results : List TxResult) (filters : FilterMap) (s : SubscriptionMap × Sent)
        → Unique s.0
        → apply_results prepare_header prepare_tx decode_fee order results (with_sent filters s)
          ≡ some (
              with_sent
                (range_all (map new_tx results) filters)
                (announce (of_transactions results) s))
    unfolding apply_results update_filters
    apply_results-announce [] filters s q = refl
    apply_results-announce (tx ∷ results) filters s q =
        rw
          (
            send-announce new_transactions_event (new_tx tx) (range_all (new_tx tx ∷ []) filters) s
                q,
            apply_results,
          )
          (apply_results-announce results (range_all (new_tx tx ∷ []) filters)
            (announce ((new_transactions_event, new_tx tx) ∷ []) s)
            (announce-Unique ((new_transactions_event, new_tx tx) ∷ []) s.0 s.1 q))

    send_gas_price-announce :
        (block : Block) (filters : FilterMap) (s : SubscriptionMap × Sent)
        → Unique s.0
        → send_gas_price prepare_header prepare_tx decode_fee order block (with_sent filters s)
          ≡ some (with_sent filters (announce (of_gas_prices block) s))
    unfolding send_gas_price
    send_gas_price-announce block filters s q = elim (Bool-cases (is_cons block.txs)) [
      | inl y ↦
          rw (y, send_gas_price) (send-announce new_gas_price_event (new_block block) filters s q)
      | inr n ↦ rw (n, send_gas_price) refl
    ]

    -- Whatever the order in which the goroutines of each send write, a new block updates the filters with
    -- the block and then with each result, in order; and its header, its gas prices if it has
    -- transactions, and its results are announced one after the other, each to the subscriptions that the
    -- announcements before it left.
    pub apply_new_block-announce :
        (event : NewBlock) (filters : FilterMap) (sm : SubscriptionMap) (conns : Sent)
        → Unique sm
        → apply_new_block prepare_header prepare_tx decode_fee order event
            (with_sent filters (sm, conns))
          ≡ some (
              with_sent
                (range_all (new_block event.block ∷ map new_tx event.results) filters)
                (announce (announcements event) (sm, conns)))
    unfolding apply_new_block update_filters
    apply_new_block-announce event filters sm conns q =
        let block = event.block in
        let heads = (new_heads_event, new_block block) ∷ [] in
        let items = range_all (new_block block ∷ []) filters in
        let s1 = announce heads (sm, conns) in
        let q1 = announce-Unique heads sm conns q in
        let s2 = announce (of_gas_prices block) s1 in
        let q2 = announce-Unique (of_gas_prices block) s1.0 s1.1 q1 in
        rw
          (
            send-announce new_heads_event (new_block block) items (sm, conns) q,
            send_gas_price-announce block items s1 q1,
            apply_results-announce event.results items s2 q2,
            apply_new_block,
          )
          (ap (λ s. some (with_sent (range_all (map new_tx event.results) items) s))
            (sym (announce-append (of_gas_prices block) (of_transactions event.results) s1)))
