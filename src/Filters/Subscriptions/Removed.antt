-- ===== src/Filters/Subscriptions/Removed.antt =====
-- The subscriptions after a connection is removed.
use mathlib.Core.List.{Permᴰ}
use tx_indexer.Base.{
  ℕ, ◌≡◌, ◌≢◌, refl, sym, ap, ap₂, subst, ◌∙◌, Bool, true, not, Option, some, List, [], ◌∷◌, ◌++◌,
  keep, String, ◌==◌, ==_iff, In, Bool-cases, Option-cases, inl, inr,
}
use tx_indexer.Base.Dict.{find, Unique}
use tx_indexer.Chain.{Header, TxResult, Tx}
use tx_indexer.Filters.Poll.{Update}
use tx_indexer.Filters.Subscriptions.{Subscription, get_type, SubscriptionMap, Sent, send_event}
use tx_indexer.Filters.Subscriptions.Sending.{delivery, deliveries, stays, cancelled_silent}
use tx_indexer.Graph.Model.{Coin}
use tx_indexer.Serve.Conns.{Conn, is_cancelled, remove_ws_connection, get_ws_connection}
use tx_indexer.Filters.Subscriptions.Pruned.{send_event-stays}

In-keep-true : {A : Type 0} (p : A → Bool) (a : A) (m : List A) → In a (keep p m) → p a ≡ true
unfolding keep
In-keep-true p a [] i = absurd i
In-keep-true p a (b ∷ m) i = elim (Bool-cases (p b)) [
  | inl y ↦ elim (rw (y, keep) at i) [ inl q ↦ ap p q ∙ y | inr j ↦ In-keep-true p a m j ]
  | inr n ↦ In-keep-true p a m (rw (n, keep) at i)
]

module _ (prepare_header : Header → Option String) (prepare_tx : TxResult → Option String)
    (decode_fee : Tx → Option Coin) where
  abbrev kept : String → Update → List ℕ → String × Subscription → Bool
  kept = stays prepare_header prepare_tx decode_fee

  removed_cancelled :
      (id : String) (conn : Conn) (conns : Sent)
      → get_ws_connection id conns ≡ some conn
      → is_cancelled (remove_ws_connection id conns).cancelled conn.ctx ≡ true
  unfolding get_ws_connection remove_ws_connection
  removed_cancelled id conn conns h =
      rw (h, remove_ws_connection) (rw ((==_iff conn.ctx conn.ctx).1 refl) refl)

  removed_written :
      (id : String) (conns : Sent) → (remove_ws_connection id conns).written ≡ conns.written
  unfolding remove_ws_connection
  removed_written id conns = elim (Option-cases (find id conns.conns)) [
    | inl e ↦ rw (e, remove_ws_connection) refl
    | inr (conn, e) ↦ rw (e, remove_ws_connection) refl
  ]

  deliveries_skip :
      (event_type : String) (event : Update) (cancelled : List ℕ) (ctx : ℕ)
      (order : SubscriptionMap)
      → is_cancelled cancelled ctx ≡ true
      → deliveries prepare_header prepare_tx decode_fee event_type event cancelled order
        ≡ deliveries prepare_header prepare_tx decode_fee event_type event cancelled
            (keep (λ e. not (e.1.conn.ctx == ctx)) order)
  unfolding keep
  deliveries_skip event_type event cancelled ctx [] c = refl
  deliveries_skip event_type event cancelled ctx (e ∷ order) c =
      let later = deliveries_skip event_type event cancelled ctx order c in
      elim (Bool-cases (e.1.conn.ctx == ctx)) [
        | inl y ↦
            let (silent, gone) =
              cancelled_silent prepare_header prepare_tx decode_fee event_type event cancelled e (
                subst (λ x. is_cancelled cancelled x ≡ true) (sym ((==_iff e.1.conn.ctx ctx).0 y))
                  c) in
            rw (y, silent) later
        | inr n ↦ rw n (
            ap
              (λ l. delivery prepare_header prepare_tx decode_fee event_type event cancelled e ++ l)
              later)
      ]

  -- After a connection is removed, the next event of a type removes every subscription of that type on
  -- it, and no subscription on it is written to.
  pub remove_ws_connection-send_event :
      (id : String) (conn : Conn) (event_type : String) (event : Update)
      (order sm : SubscriptionMap) (conns : Sent)
      → get_ws_connection id conns ≡ some conn
      → Unique sm
      → Permᴰ order sm
      → (sm' : SubscriptionMap) × (conns' : Sent) × (send_event prepare_header prepare_tx decode_fee
            order event_type event sm
            (remove_ws_connection id conns)
          ≡ some (sm', conns'))
        × ((e : String × Subscription)
            → In e sm'
            → e.1.conn.ctx ≡ conn.ctx
            → get_type e.1.kind ≢ event_type)
        × (conns'.written
            ≡ conns.written
              ++ deliveries prepare_header prepare_tx decode_fee event_type event
                  (remove_ws_connection id conns).cancelled
                  (keep (λ e. not (e.1.conn.ctx == conn.ctx)) order))
  remove_ws_connection-send_event id conn event_type event order sm conns h u p =
      let c = removed_cancelled id conn conns h in
      let after = remove_ws_connection id conns in
      (
        keep (kept event_type event after.cancelled) sm,
        record after {
          written =
              after.written
              ++ deliveries prepare_header prepare_tx decode_fee event_type event after.cancelled
                  order;
        },
        send_event-stays prepare_header prepare_tx decode_fee event_type event order sm after u p,
        λ e i same.
            (cancelled_silent prepare_header prepare_tx decode_fee event_type event after.cancelled
                e (subst (λ x. is_cancelled after.cancelled x ≡ true) (sym same) c)).1
              (In-keep-true (kept event_type event after.cancelled) e sm i),
        ap₂ (λ l r. l ++ r) (removed_written id conns)
            (deliveries_skip event_type event after.cancelled conn.ctx order c),
      )
