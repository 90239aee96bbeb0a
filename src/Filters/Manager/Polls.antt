-- ===== src/Filters/Manager/Polls.antt =====
-- What a poll through the manager gives, whatever else happens between two polls.
use mathlib.Core.List.{append_assoc, append-nil}
use tx_indexer.Base.{
  ℕ, ◌≡◌, refl, sym, ap, subst, ◌∙◌, Bool, true, false, Option, none, some, List, [], ◌∷◌, ◌++◌,
  String, str_eq, eq_iff, if◌then◌else◌, All, Bool-cases, Option-cases, inl, inr,
}
use tx_indexer.Base.Dict.{find, find-insert}
use tx_indexer.Chain.{Header, TxResult, Tx}
use tx_indexer.Graph.Model.{Coin}
use tx_indexer.Filters.Poll.{
  Update, new_block, new_tx, BlockFilter, TxFilter, Filter, for_blocks, for_txs, FilterMap,
  get_last_used, update_tx_filter, update_block_filter, update_last_used, get_filter,
  get_block_changes, get_tx_changes,
}
use tx_indexer.Filters.Poll.Changes.{passing, update_all, update_all-txs}
use tx_indexer.Filters.Poll.Lookup.{
  find-uninstall_filter, find-new_filter, touched, get_filter-find, find-get_filter, find-cleanup,
}
use tx_indexer.Filters.Subscriptions.{SubscriptionMap, Sent}
use tx_indexer.Filters.Manager.{
  Manager, update_with, range_items, create_block_filter, create_tx_filter, remove_filter,
  new_subscription, uninstall_subscription, clean_up, find_filter, Changes, headers, txs,
  get_changes, poll,
}
use tx_indexer.Filters.Manager.Runs.{
  Action, block_comes, client_polls, block_filter_made, tx_filter_made, filter_removed,
  cleanup_runs, subscribes, unsubscribes, connects, disconnects, Spares, updates_of, updates,
  range_all, act, run, apply_new_block_lem,
}

abbrev pub update_filter_all : List Update → Filter → Filter
update_filter_all [] f = f
update_filter_all (u ∷ us) f = update_filter_all us (update_with u f)

abbrev pub headers_of : List Update → List Header
headers_of [] = []
headers_of (new_block block ∷ us) = block.header ∷ headers_of us
headers_of (new_tx tx ∷ us) = headers_of us

-- What a filter has collected after some updates.
abbrev pub collected : Filter → List Update → Changes
collected (for_blocks b) us = headers (b.block_headers ++ headers_of us)
collected (for_txs tf) us = txs (tf.txs ++ passing tf.opts us)

-- A filter after a poll.
abbrev pub emptied : ℕ → Filter → Filter
emptied now (for_blocks b) = for_blocks (record b { block_headers = []; last_used = now })
emptied now (for_txs tf) = for_txs (record tf { txs = []; last_used = now })

txs_updated :
    (us : List Update) (tf : TxFilter)
    → update_filter_all us (for_txs tf) ≡ for_txs (update_all us tf)
unfolding update_with
txs_updated [] tf = refl
txs_updated (u ∷ us) tf = txs_updated us (update_tx_filter u tf)

blocks_updated :
    (us : List Update) (b : BlockFilter)
    → update_filter_all us (for_blocks b)
      ≡ for_blocks (record b { block_headers = b.block_headers ++ headers_of us })
unfolding update_with update_block_filter
blocks_updated [] b =
    ap (λ l. for_blocks (record b { block_headers = l })) (sym (append-nil b.block_headers))
blocks_updated (new_block block ∷ us) b =
    blocks_updated us (update_block_filter (new_block block) b)
    ∙ ap (λ l. for_blocks (record b { block_headers = l }))
        (append_assoc b.block_headers (block.header ∷ []) (headers_of us))
blocks_updated (new_tx tx ∷ us) b = blocks_updated us b

-- What a poll does with a filter that was updated.
pub polled_lem :
    (now : ℕ) (us : List Update) (f : Filter)
    → get_changes (update_last_used now (update_filter_all us f)) ≡ (collected f us, emptied now f)
unfolding get_changes update_last_used get_block_changes get_tx_changes
polled_lem now us (for_blocks b) =
    ap (λ f. get_changes (update_last_used now f)) (blocks_updated us b)
polled_lem now us (for_txs tf) =
    ap (λ f. get_changes (update_last_used now f))
      (txs_updated us tf ∙ ap for_txs (update_all-txs us tf))

used_lem :
    (us : List Update) (f : Filter) → get_last_used (update_filter_all us f) ≡ get_last_used f
unfolding get_last_used
used_lem us (for_blocks b) = ap get_last_used (blocks_updated us b)
used_lem us (for_txs tf) = ap get_last_used (txs_updated us tf ∙ ap for_txs (update_all-txs us tf))

update_filter_all-append :
    (us vs : List Update) (f : Filter)
    → update_filter_all (us ++ vs) f ≡ update_filter_all vs (update_filter_all us f)
update_filter_all-append [] vs f = refl
update_filter_all-append (u ∷ us) vs f = update_filter_all-append us vs (update_with u f)

find-range_items :
    (id : String) (g : Filter → Filter) (f : Filter) (items : FilterMap)
    → find id items ≡ some f
    → find id (range_items g items) ≡ some (g f)
unfolding find range_items
find-range_items id g f [] h = absurd (cc)
find-range_items id g f ((key, d) ∷ items) h = elim (Bool-cases (str_eq key id)) [
  | inl y ↦ rw y (ap (λ o. elim o [ none ↦ none | some x ↦ some (g x) ]) (rw y at h))
  | inr n ↦ rw n (find-range_items id g f items (rw n at h))
]

find-range_all :
    (id : String) (us : List Update) (f : Filter) (items : FilterMap)
    → find id items ≡ some f
    → find id (range_all us items) ≡ some (update_filter_all us f)
find-range_all id [] f items h = h
find-range_all id (u ∷ us) f items h =
    find-range_all id us (update_with u f) (range_items (update_with u) items)
      (find-range_items id (update_with u) f items h)

not_taken : {A : Type 0} {x : A} (b : Bool) (u v : A) → b ≡ false → x ≡ (if b then u else v) → x ≡ v
not_taken true u v n e = absurd (cc)
not_taken false u v n e = e

-- A poll of a filter that the map has.
pub poll_lem :
    (id : String) (now : ℕ) (m : Manager) (f : Filter)
    → find id m.filters ≡ some f
    → ((poll id now m).0 ≡ some (get_changes (update_last_used now f)).0)
      × (find id (poll id now m).1.filters ≡ some (get_changes (update_last_used now f)).1)
unfolding poll find_filter
poll_lem id now m f h =
    let e = get_filter-find id now m.filters ∙ ap (touched now) h in
    rw (e, poll)
      (
        refl,
        find-insert id id (get_changes (update_last_used now f)).1 (get_filter id now m.filters).1
            ∙ rw ((eq_iff id id).1 refl) refl,
      )

poll_other :
    (id asked : String) (now : ℕ) (m : Manager)
    → str_eq id asked ≡ false
    → find asked (poll id now m).1.filters ≡ find asked m.filters
unfolding poll find_filter
poll_other id asked now m n =
    let others = find-get_filter id asked now m.filters n in
    elim (Option-cases (get_filter id now m.filters).0) [
      | inl e ↦ rw (e, poll) others
      | inr (f, e) ↦
          rw (e, poll)
            (not_taken (str_eq id asked) (some (get_changes f).1)
                (find asked (get_filter id now m.filters).1) n
                (find-insert id asked (get_changes f).1 (get_filter id now m.filters).1)
              ∙ others)
    ]

module _ (prepare_header : Header → Option String) (prepare_tx : TxResult → Option String)
    (decode_fee : Tx → Option Coin) (order : SubscriptionMap → Sent → SubscriptionMap) where
  act_lem :
      (id : String) (a : Action) (m : Manager) (conns : Sent) (f : Filter)
      → find id m.filters ≡ some f
      → Spares id (get_last_used f) a
      → (s : Manager × Sent) × (act prepare_header prepare_tx decode_fee order a (m, conns)
          ≡ some s)
        × (find id s.0.filters ≡ some (update_filter_all (updates_of a) f))
  unfolding act create_block_filter create_tx_filter remove_filter clean_up new_subscription
      uninstall_subscription
  act_lem id (block_comes event) m conns f h p =
      let (s, e, q) =
        apply_new_block_lem prepare_header prepare_tx decode_fee order event m conns in
      (s, e, ap (find id) q ∙ find-range_all id (updates_of (block_comes event)) f m.filters h)
  act_lem id (client_polls other now) m conns f h p = (_, refl, poll_other other id now m p ∙ h)
  act_lem id (block_filter_made other now) m conns f h p = (
    _,
    refl,
    not_taken (str_eq other id) _ (find id m.filters) p (find-new_filter other id _ m.filters) ∙ h,
  )
  act_lem id (tx_filter_made other options now) m conns f h p = (
    _,
    refl,
    not_taken (str_eq other id) _ (find id m.filters) p (find-new_filter other id _ m.filters) ∙ h,
  )
  act_lem id (filter_removed other) m conns f h p = (
    _,
    refl,
    not_taken (str_eq other id) _ (find id m.filters) p (find-uninstall_filter other id m.filters)
        ∙ h,
  )
  act_lem id (cleanup_runs cutoff) m conns f h p = (_, refl, find-cleanup id cutoff f m.filters h p)
  act_lem id (subscribes other kind conn) m conns f h p = (_, refl, h)
  act_lem id (unsubscribes other) m conns f h p = (_, refl, h)
  act_lem id (connects other session) m conns f h p = (_, refl, h)
  act_lem id (disconnects other) m conns f h p = (_, refl, h)

  pub run_lem :
      (id : String) (actions : List Action) (m : Manager) (conns : Sent) (f : Filter)
      → find id m.filters ≡ some f
      → All (Spares id (get_last_used f)) actions
      → (s : Manager × Sent) × (run prepare_header prepare_tx decode_fee order actions (m, conns)
          ≡ some s)
        × (find id s.0.filters ≡ some (update_filter_all (updates actions) f))
  unfolding run
  run_lem id [] m conns f h p = ((m, conns), refl, h)
  run_lem id (a ∷ actions) m conns f h p =
      let (s1, e1, h1) = act_lem id a m conns f h p.0 in
      let (s2, e2, h2) =
        run_lem id actions s1.0 s1.1 (update_filter_all (updates_of a) f) h1
          (subst (λ t. All (Spares id t) actions) (sym (used_lem (updates_of a) f)) p.1) in
      rw (e1, run)
        (s2, e2, h2 ∙ ap some (sym (update_filter_all-append (updates_of a) (updates actions) f)))

  -- Whatever the manager and the connections do in between, in whatever order, as long as nobody else
  -- polls, replaces or removes the filter and no cleanup's cutoff is after its last use: the run returns,
  -- and a poll gives what the filter held and then what has passed it since, each once and in order: for
  -- a block filter the headers of the new blocks, for a transaction filter the results that its options
  -- let through. The filter is then empty, with the same options.
  pub run-poll :
      (id : String) (now : ℕ) (actions : List Action) (m : Manager) (conns : Sent) (f : Filter)
      → find id m.filters ≡ some f
      → All (Spares id (get_last_used f)) actions
      → (s : Manager × Sent) × (run prepare_header prepare_tx decode_fee order actions (m, conns)
          ≡ some s)
        × ((poll id now s.0).0 ≡ some (collected f (updates actions)))
        × (find id (poll id now s.0).1.filters ≡ some (emptied now f))
  run-poll id now actions m conns f h p =
      let (s, e, g) = run_lem id actions m conns f h p in
      let (given, left) = poll_lem id now s.0 (update_filter_all (updates actions) f) g in
      let q = polled_lem now (updates actions) f in
      (s, e, given ∙ ap (λ x. some x.0) q, left ∙ ap (λ x. some x.1) q)
