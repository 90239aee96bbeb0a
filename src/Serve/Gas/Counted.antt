-- ===== src/Serve/Gas/Counted.antt =====
-- The averages: no division by 0, whatever the fees are.
use tx_indexer.Base.{
  ℕ, zero, suc, ◌<◌, ◌≡◌, refl, Option, some, List, [], ◌∷◌, String, str_eq, All, Bool-cases,
  Option-cases, inl, inr, arith,
}
use tx_indexer.Base.Int.{ℤ, pos, negsuc, div64}
use tx_indexer.Chain.{Tx, Block}
use tx_indexer.Graph.Model.{Coin}
use tx_indexer.Serve.Gas.{
  GasPrice, Table, absorb, update, modify_aggregated_info, aggregate, calculate_gas_prices,
  add_fees, calculate_gas_fee_per_block, add_blocks, get_gas_prices_by_blocks,
  get_gas_prices_by_block,
}

abbrev Counted : Table → Type 0
Counted = All (λ e. 0 < e.1.total_count)

update-Counted :
    (denom : String) (l h a : ℤ) (table : Table)
    → Counted table
    → Counted (update denom l h a table)
unfolding update absorb
update-Counted denom l h a [] c = (omega arith, tt)
update-Counted denom l h a ((d, info) ∷ table) c = elim (Bool-cases (str_eq d denom)) [
  | inl y ↦ rw (y, update) (omega arith, c.1)
  | inr n ↦ rw (n, update) (c.0, update-Counted denom l h a table c.1)
]

div64-some : (a : ℤ) (n : ℕ) → 0 < n → (q : ℤ) × (div64 a n ≡ some q)
unfolding div64
div64-some a zero h = absurd (omega arith)
div64-some (pos a) (suc n) h = (_, refl)
div64-some (negsuc a) (suc n) h = (_, refl)

aggregate-Counted :
    (table entries : Table)
    → Counted table
    → Counted entries
    → (table' : Table) × (aggregate table entries ≡ some table') × Counted table'
unfolding aggregate modify_aggregated_info
aggregate-Counted table [] c d = (table, refl, c)
aggregate-Counted table ((denom, info) ∷ entries) c d =
    let (q, e) = div64-some info.total_amount info.total_count d.0 in
    rw (e, aggregate, modify_aggregated_info)
      (aggregate-Counted (update denom info.low info.high q table) entries
        (update-Counted denom info.low info.high q table c) d.1)

module _ (decode_fee : Tx → Option Coin) where
  add_fees-Counted :
      (table : Table) (txs : List Tx) → Counted table → Counted (add_fees decode_fee table txs)
  unfolding add_fees
  add_fees-Counted table [] c = c
  add_fees-Counted table (tx ∷ txs) c = elim (Option-cases (decode_fee tx)) [
    | inl e ↦ rw (e, add_fees) (add_fees-Counted table txs c)
    | inr (fee, e) ↦
        rw (e, add_fees)
          (add_fees-Counted (update fee.denom fee.amount fee.amount fee.amount table) txs
            (update-Counted fee.denom fee.amount fee.amount fee.amount table c))
  ]

  add_blocks-Counted :
      (table : Table) (blocks : List Block)
      → Counted table
      → (table' : Table) × (add_blocks decode_fee table blocks ≡ some table')
  unfolding add_blocks calculate_gas_fee_per_block
  add_blocks-Counted table [] c = (table, refl)
  add_blocks-Counted table (b ∷ blocks) c =
      let (table', e, c') =
        aggregate-Counted table (add_fees decode_fee [] b.txs) c (add_fees-Counted [] b.txs tt) in
      rw (e, add_blocks) (add_blocks-Counted table' blocks c')

  -- The gas prices of a block are computed, whatever its fees are: no division is by 0.
  pub get_gas_prices_by_block-some :
      (block : Block)
      → (prices : List GasPrice) × (get_gas_prices_by_block decode_fee block ≡ some prices)
  unfolding get_gas_prices_by_block get_gas_prices_by_blocks
  get_gas_prices_by_block-some block =
      let (table, e) = add_blocks-Counted [] (block ∷ []) tt in
      rw (e, get_gas_prices_by_blocks) (calculate_gas_prices table, refl)
