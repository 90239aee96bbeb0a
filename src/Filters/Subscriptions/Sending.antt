-- ===== src/Filters/Subscriptions/Sending.antt =====
-- What a send does to the subscriptions and what it writes, in whatever order the goroutines run.
use mathlib.Core.List.{append_assoc, append-nil}
use tx_indexer.Base.{
  ℕ, ◌≡◌, ◌↔◌, ◌≢◌, refl, sym, ap, ◌∙◌, Bool, true, false, Option, none, some, List, [], ◌∷◌, ◌++◌,
  String, str_eq, eq_iff, if◌then◌else◌, In, Bool-cases, Option-cases, inl, inr, arith,
}
use tx_indexer.Chain.{Header, TxResult, Tx}
use tx_indexer.Filters.Poll.{Update, new_block, new_tx}
use tx_indexer.Filters.Subscriptions.{
  Kind, for_heads, for_transactions, for_gas_prices, Subscription, get_type, Payload, encoded,
  gas_prices, BaseJsonSubscribeResponse, new_json_subscribe_response, SubscriptionMap, Sent,
  prepare, write_response, write_all, prune, send_event,
}
use tx_indexer.Graph.Model.{Coin}
use tx_indexer.Serve.Conns.{is_cancelled, write_data}
use tx_indexer.Serve.Gas.Counted.{get_gas_prices_by_block-some}

unwritten :
    (conns : Sent)
    → ◌≡◌ {A = Option (Bool × Sent)}
        (some (false, conns))
        (some (false, record conns { written = conns.written ++ [] }))
unwritten conns =
    ap (λ w. some (false, record conns { written = w })) (sym (append-nil conns.written))

module _ (prepare_header : Header → Option String) (prepare_tx : TxResult → Option String)
    (decode_fee : Tx → Option Coin) where
  abbrev prep : Kind → Update → Option (Option Payload)
  prep = prepare prepare_header prepare_tx decode_fee

  -- WriteResponse returns on any data.
  prepare-some : (kind : Kind) (event : Update) → (p : Option Payload) × (prep kind event ≡ some p)
  unfolding prepare
  prepare-some for_heads (new_block b) = elim (Option-cases (prepare_header b.header)) [
    | inl e ↦ (none, rw (e, prepare) refl)
    | inr (text, e) ↦ (some (encoded text), rw (e, prepare) refl)
  ]
  prepare-some for_heads (new_tx tx) = (none, refl)
  prepare-some for_transactions (new_block b) = (none, refl)
  prepare-some for_transactions (new_tx tx) = elim (Option-cases (prepare_tx tx)) [
    | inl e ↦ (none, rw (e, prepare) refl)
    | inr (text, e) ↦ (some (encoded text), rw (e, prepare) refl)
  ]
  prepare-some for_gas_prices (new_block b) =
      let (prices, e) = get_gas_prices_by_block-some decode_fee b in
      (some (gas_prices prices), rw (e, prepare) refl)
  prepare-some for_gas_prices (new_tx tx) = (none, refl)

  -- The data as it is encoded for a subscription of the kind, if it can be.
  abbrev pub payload : Kind → Update → Option Payload
  payload kind event = elim (prep kind event) [ none ↦ none | some p ↦ p ]

  -- What a subscription is to be written: nothing if the event has another type, if its connection was
  -- removed, or if the data cannot be encoded for it.
  unfoldable pub delivery :
      String → Update → List ℕ → String × Subscription → List (ℕ × BaseJsonSubscribeResponse)
  delivery event_type event cancelled (id, sub) =
      if str_eq (get_type sub.kind) event_type
      then if is_cancelled cancelled sub.conn.ctx then [] else elim (payload sub.kind event) [
        | none ↦ []
        | some p ↦ (sub.conn.session, new_json_subscribe_response id p) ∷ []
      ]
      else []

  abbrev pub deliveries :
      String → Update → List ℕ → SubscriptionMap → List (ℕ × BaseJsonSubscribeResponse)
  deliveries event_type event cancelled [] = []
  deliveries event_type event cancelled (e ∷ order) =
      delivery event_type event cancelled e ++ deliveries event_type event cancelled order

  -- The subscriptions that a send leaves: those of another type, and those that were written.
  unfoldable pub stays : String → Update → List ℕ → String × Subscription → Bool
  stays event_type event cancelled (id, sub) =
      if str_eq (get_type sub.kind) event_type
      then if is_cancelled cancelled sub.conn.ctx
        then false
        else elim (payload sub.kind event) [ none ↦ false | some p ↦ true ]
      else true

  abbrev pub failed_ids : String → Update → List ℕ → SubscriptionMap → List String
  failed_ids event_type event cancelled [] = []
  failed_ids event_type event cancelled (e ∷ order) =
      let rest = failed_ids event_type event cancelled order in
      if stays event_type event cancelled e then rest else e.0 ∷ rest

  other_type :
      (event_type : String) (event : Update) (cancelled : List ℕ) (e : String × Subscription)
      → str_eq (get_type e.1.kind) event_type ≡ false
      → (stays event_type event cancelled e ≡ true) × (delivery event_type event cancelled e ≡ [])
  unfolding delivery stays
  other_type event_type event cancelled (id, sub) n = rw n (refl, refl)

  -- Nothing is written on a cancelled connection, and its subscriptions of the type do not stay.
  pub cancelled_silent :
      (event_type : String) (event : Update) (cancelled : List ℕ) (e : String × Subscription)
      → is_cancelled cancelled e.1.conn.ctx ≡ true
      → (delivery event_type event cancelled e ≡ [])
        × (stays event_type event cancelled e ≡ true → get_type e.1.kind ≢ event_type)
  unfolding delivery stays
  cancelled_silent event_type event cancelled (id, sub) c =
      elim (Bool-cases (str_eq (get_type sub.kind) event_type)) [
        | inl y ↦ rw (y, c) (refl, λ h. absurd (cc))
        | inr n ↦
            rw n (refl, λ h q. let y = (eq_iff (get_type sub.kind) event_type).1 q in absurd (cc))
      ]

  -- WriteResponse of a subscription of the type, whose data is prepared as `p`.
  write_prepared :
      (event_type : String) (event : Update) (id : String) (sub : Subscription) (conns : Sent)
      (p : Option Payload)
      → str_eq (get_type sub.kind) event_type ≡ true
      → prep sub.kind event ≡ some p
      → write_response prepare_header prepare_tx decode_fee id event sub conns
        ≡ some (
          stays event_type event conns.cancelled (id, sub),
          record conns {
            written = conns.written ++ delivery event_type event conns.cancelled (id, sub);
          },
        )
  unfolding write_response write_data delivery stays
  write_prepared event_type event id sub conns none y e =
      elim (Bool-cases (is_cancelled conns.cancelled sub.conn.ctx)) [
        | inl c ↦ rw (y, c, e, write_response) (unwritten conns)
        | inr c ↦ rw (y, c, e, write_response) (unwritten conns)
      ]
  write_prepared event_type event id sub conns (some p) y e =
      elim (Bool-cases (is_cancelled conns.cancelled sub.conn.ctx)) [
        | inl c ↦ rw (y, c, e, write_response) (rw (c, write_data) (unwritten conns))
        | inr c ↦ rw (y, c, e, write_response) (rw (c, write_data) refl)
      ]

  pub write_all_lem :
      (event_type : String) (event : Update) (order : SubscriptionMap) (conns : Sent)
      → write_all prepare_header prepare_tx decode_fee event_type event order conns
        ≡ some (
          failed_ids event_type event conns.cancelled order,
          record conns {
            written = conns.written ++ deliveries event_type event conns.cancelled order;
          },
        )
  unfolding write_all write_response write_data
  write_all_lem event_type event [] conns =
      ap (λ w. some ([], record conns { written = w })) (sym (append-nil conns.written))
  write_all_lem event_type event ((id, sub) ∷ order) conns =
      elim (Bool-cases (str_eq (get_type sub.kind) event_type)) [
        | inr n ↦
            let (kept, silent) = other_type event_type event conns.cancelled (id, sub) n in
            rw (n, kept, silent, write_all) (write_all_lem event_type event order conns)
        | inl y ↦
            let (p, e) = prepare-some sub.kind event in
            rw
              (
                y,
                write_prepared event_type event id sub conns p y e,
                write_all_lem event_type event order (record conns {
                  written = conns.written ++ delivery event_type event conns.cancelled (id, sub);
                }),
                write_all,
              )
              (ap
                (λ w. some (
                  failed_ids event_type event conns.cancelled ((id, sub) ∷ order),
                  record conns { written = w },
                ))
                (append_assoc conns.written (delivery event_type event conns.cancelled (id, sub))
                  (deliveries event_type event conns.cancelled order)))
      ]

  -- An ID is failed if an entry that does not stay has it.
  pub failed_ids_iff :
      (event_type : String) (event : Update) (cancelled : List ℕ) (order : SubscriptionMap)
      (id : String)
      → In id (failed_ids event_type event cancelled order) ↔ (
          (e : String × Subscription) × In e order
          × (e.0 ≡ id)
          × (stays event_type event cancelled e ≡ false))
  failed_ids_iff event_type event cancelled [] id = (λ i. absurd i, λ p. absurd p.1)
  failed_ids_iff event_type event cancelled (d ∷ order) id =
      let (to, from) = failed_ids_iff event_type event cancelled order id in
      elim (Bool-cases (stays event_type event cancelled d)) [
        | inl y ↦ rw y (
          λ i. let (e, j, q, n) = to i in (e, inr j, q, n),
          λ p.
              let (e, j, q, n) = p in
              elim j [
                | inl k ↦ absurd (
                    let w = sym (ap (stays event_type event cancelled) k) ∙ n in
                    ground (arith, y, w))
                | inr k ↦ from (e, k, q, n)
              ],
        )
        | inr m ↦ rw m (
          λ i. elim i [
            | inl k ↦ (d, inl refl, sym k, m)
            | inr k ↦ let (e, j, q, n) = to k in (e, inr j, q, n)
          ],
          λ p.
              let (e, j, q, n) = p in
              elim j [ inl k ↦ inl (sym q ∙ ap (λ x. x.0) k) | inr k ↦ inr (from (e, k, q, n)) ],
        )
      ]

  -- A send returns, whatever the event is.
  pub send_event-some :
      (order : SubscriptionMap) (event_type : String) (event : Update) (sm : SubscriptionMap)
      (conns : Sent)
      → (sm' : SubscriptionMap) × (conns' : Sent) × (send_event prepare_header prepare_tx decode_fee
            order event_type event sm conns
          ≡ some (sm', conns'))
  unfolding send_event
  send_event-some order event_type event sm conns =
      rw (write_all_lem event_type event order conns, send_event)
        (
          prune (failed_ids event_type event conns.cancelled order) sm,
          record conns {
            written = conns.written ++ deliveries event_type event conns.cancelled order;
          },
          refl,
        )
