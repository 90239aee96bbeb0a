-- ===== src/Serve/Gas.antt =====
-- serve/methods/gas.go: the lowest, highest and average gas fee of some blocks, per denomination.
-- Amounts are int64; the counters count transactions and blocks, and do not overflow. A Go map is a
-- list of its entries. Decoding a transaction's fee is a parameter, `none` where it fails.
pub mod Bounds
pub mod Counted
pub mod Handler
use tx_indexer.Base.{
  ℕ, zero, suc, Bool, true, false, Option, none, some, List, [], ◌∷◌, if◌then◌else◌, String, str_eq,
}
use tx_indexer.Base.Int.{ℤ, pos, leb_ℤ, add64, div64}
use tx_indexer.Chain.{Tx, Block}
use tx_indexer.Graph.Model.{Coin}

pub record GasFeeTotalInfo : Type 0 where
  pub low : ℤ
  pub high : ℤ
  pub total_amount : ℤ
  pub total_count : ℕ

pub record GasPrice : Type 0 where
  pub denom : String
  pub low : ℤ
  pub average : ℤ
  pub high : ℤ

abbrev pub no_info : GasFeeTotalInfo
no_info = record { low = pos 0; high = pos 0; total_amount = pos 0; total_count = 0 }

abbrev pub min_ℤ : ℤ → ℤ → ℤ
min_ℤ a b = if leb_ℤ a b then a else b

abbrev pub max_ℤ : ℤ → ℤ → ℤ
max_ℤ a b = if leb_ℤ a b then b else a

unfoldable pub min_with_default : ℤ → ℤ → ℤ
min_with_default current new_value =
    if leb_ℤ current (pos 0) then new_value else min_ℤ current new_value

-- The four lines that update an entry: by the amount of a transaction, or by a block's entry.
unfoldable pub absorb : GasFeeTotalInfo → ℤ → ℤ → ℤ → GasFeeTotalInfo
absorb info low high amount = record {
  low = min_with_default info.low low;
  high = max_ℤ info.high high;
  total_amount = add64 info.total_amount amount;
  total_count = suc info.total_count;
}

abbrev pub Table : Type 0
Table = List (String × GasFeeTotalInfo)

-- The entry of a denomination, made if there is none, is updated.
unfoldable pub update : String → ℤ → ℤ → ℤ → Table → Table
update denom low high amount [] = (denom, absorb no_info low high amount) ∷ []
update denom low high amount ((d, info) ∷ table) =
    let rest = update denom low high amount table in
    if str_eq d denom then (d, absorb info low high amount) ∷ table else (d, info) ∷ rest

-- modifyAggregatedInfo for one entry of a block; `none` is a division by 0.
unfoldable pub modify_aggregated_info : Table → String × GasFeeTotalInfo → Option Table
modify_aggregated_info table (denom, info) = elim (div64 info.total_amount info.total_count) [
  | none ↦ none
  | some average ↦ some (update denom info.low info.high average table)
]

unfoldable pub aggregate : Table → Table → Option Table
aggregate table [] = some table
aggregate table (entry ∷ entries) = elim (modify_aggregated_info table entry) [
  | none ↦ none
  | some table' ↦ aggregate table' entries
]

-- An entry without a count is left out.
unfoldable pub calculate_gas_prices : Table → List GasPrice
calculate_gas_prices [] = []
calculate_gas_prices ((denom, info) ∷ table) = elim (div64 info.total_amount info.total_count) [
  | none ↦ calculate_gas_prices table
  | some average ↦
      record { denom = denom; low = info.low; average = average; high = info.high }
      ∷ calculate_gas_prices table
]

module _ (decode_fee : Tx → Option Coin) where
  -- The loop over a block's transactions.
  unfoldable pub add_fees : Table → List Tx → Table
  add_fees table [] = table
  add_fees table (tx ∷ txs) = elim (decode_fee tx) [
    | none ↦ add_fees table txs
    | some fee ↦ add_fees (update fee.denom fee.amount fee.amount fee.amount table) txs
  ]

  unfoldable pub calculate_gas_fee_per_block : Block → Table
  calculate_gas_fee_per_block block = add_fees [] block.txs

  unfoldable pub add_blocks : Table → List Block → Option Table
  add_blocks table [] = some table
  add_blocks table (block ∷ blocks) = elim (aggregate table (calculate_gas_fee_per_block block)) [
    | none ↦ none
    | some table' ↦ add_blocks table' blocks
  ]

  unfoldable pub get_gas_prices_by_blocks : List Block → Option (List GasPrice)
  get_gas_prices_by_blocks blocks = elim (add_blocks [] blocks) [
    | none ↦ none
    | some table ↦ some (calculate_gas_prices table)
  ]

  pub get_gas_prices_by_block : Block → Option (List GasPrice)
  get_gas_prices_by_block block = get_gas_prices_by_blocks (block ∷ [])
