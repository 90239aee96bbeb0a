-- ===== src/Filters/Poll/Changes.antt =====
-- What a client is given when it polls a filter, and which filters a cleanup removes.
use mathlib.Core.List.{append_assoc, append-nil}
use tx_indexer.Base.{
  ℕ, ◌≤◌, ◌<◌, ◌≡◌, ◌↔◌, ◌⊎◌, refl, sym, ap, ◌∙◌, List, [], ◌∷◌, ◌++◌, Bool, true, false, inl, inr,
  if◌then◌else◌, ltb, String, Bool-cases, arith, In,
}
use tx_indexer.Chain.{TxResult}
use tx_indexer.Filters.Poll.{
  TxFilterOption, Update, new_block, new_tx, TxFilter, check_filter_options, update_tx_filter,
  get_tx_changes, Filter, FilterMap, get_last_used, cleanup,
}

-- The transactions among the updates that the options let through.
abbrev pub passing : TxFilterOption → List Update → List TxResult
passing opts [] = []
passing opts (new_block block ∷ us) = passing opts us
passing opts (new_tx tx ∷ us) =
    let rest = passing opts us in if check_filter_options opts tx then tx ∷ rest else rest

abbrev pub update_all : List Update → TxFilter → TxFilter
update_all [] tf = tf
update_all (u ∷ us) tf = update_all us (update_tx_filter u tf)

pub update_all-txs :
    (us : List Update) (tf : TxFilter)
    → update_all us tf ≡ record tf { txs = tf.txs ++ passing tf.opts us }
unfolding update_tx_filter
update_all-txs [] tf = ap (λ l. record tf { txs = l }) (sym (append-nil tf.txs))
update_all-txs (new_block block ∷ us) tf = update_all-txs us tf
update_all-txs (new_tx tx ∷ us) tf =
    let rest = update_all-txs us (update_tx_filter (new_tx tx) tf) in
    elim (Bool-cases (check_filter_options tf.opts tx)) [
      | inl y ↦
          rest
          ∙ rw (y, update_tx_filter)
              (ap (λ l. record tf { txs = l }) (append_assoc tf.txs (tx ∷ []) (passing tf.opts us)))
      | inr n ↦ rest ∙ rw (n, update_tx_filter)
    ]

-- A poll gives what was held and then the transactions that the options let through since, each
-- once and in their order, and the poll after it gives only what comes later.
pub get_tx_changes-update_all :
    (us vs : List Update) (tf : TxFilter)
    → ((get_tx_changes (update_all us tf)).0 ≡ tf.txs ++ passing tf.opts us)
      × ((get_tx_changes (update_all vs (get_tx_changes (update_all us tf)).1)).0
          ≡ passing tf.opts vs)
unfolding get_tx_changes
get_tx_changes-update_all us vs tf = (
  ap (λ f. f.txs) (update_all-txs us tf),
  ap (λ f. f.txs) (update_all-txs vs (record (update_all us tf) { txs = [] }))
      ∙ ap (λ f. passing f.opts vs) (update_all-txs us tf),
)

split_iff :
    (b : Bool) (e d : String × Filter) (rest items : FilterMap) (cutoff : ℕ)
    → (b ≡ true → get_last_used e.1 < cutoff)
    → (b ≡ false → cutoff ≤ get_last_used e.1)
    → In d rest ↔ (In d items × (cutoff ≤ get_last_used d.1))
    → In d (if b then rest else e ∷ rest) ↔ (((d ≡ e) ⊎ In d items) × (cutoff ≤ get_last_used d.1))
split_iff true e d rest items cutoff old new h = (
  λ m. (inr (h.0 m).0, (h.0 m).1),
  λ p. elim p.0 [
    | inl q ↦ absurd (omega (arith, p.1, ap (λ x. get_last_used x.1) q, old refl))
    | inr i ↦ h.1 (i, p.1)
  ],
)
split_iff false e d rest items cutoff old new h = (
  λ m. elim m [
    | inl q ↦ (inl q, omega (arith, ap (λ x. get_last_used x.1) q, new refl))
    | inr i ↦ (inr (h.0 i).0, (h.0 i).1)
  ],
  λ p. elim p.0 [ inl q ↦ inl q | inr i ↦ inr (h.1 (i, p.1)) ],
)

-- A cleanup keeps exactly the filters that were last used at the cutoff or after it.
pub cleanup_iff :
    (cutoff : ℕ) (items : FilterMap) (d : String × Filter)
    → In d (cleanup cutoff items) ↔ (In d items × (cutoff ≤ get_last_used d.1))
unfolding cleanup
cleanup_iff cutoff [] d = (λ m. absurd m, λ p. absurd p.0)
cleanup_iff cutoff ((key, filter) ∷ items) d =
    let later = cleanup_iff cutoff items d in
    split_iff (ltb (get_last_used filter) cutoff) (key, filter) d (cleanup cutoff items) items
      cutoff (λ y. ground arith) (λ n. ground arith) later
