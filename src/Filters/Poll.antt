-- ===== src/Filters/Poll.antt =====
-- serve/filters/filter: the block filter and the transaction filter; and serve/filters/filter_map.go.
-- Time is a number; time.Now() is an argument. The ID of a new filter is one too (uuid).
pub mod Changes
pub mod Lookup
use tx_indexer.Base.{
  ℕ, ◌^◌, ◌-◌, List, [], ◌∷◌, ◌++◌, Option, none, some, Bool, true, false, if◌then◌else◌, ltb,
  String, str_eq,
}
use tx_indexer.Base.Int.{ℤ, pos, leb_ℤ}
use tx_indexer.Chain.{Header, Block, TxResult}

pub record RangeFilterOption : Type 0 where
  pub min : Option ℤ
  pub max : Option ℤ

pub record TxFilterOption : Type 0 where
  pub gas_used : Option RangeFilterOption
  pub gas_wanted : Option RangeFilterOption
  pub gas_limit : Option RangeFilterOption

-- The data of UpdateWith.
pub data Update : Type 0 where
  new_block : Block → Update
  new_tx : TxResult → Update

pub record BlockFilter : Type 0 where
  pub block_headers : List Header
  pub last_used : ℕ

pub record TxFilter : Type 0 where
  pub opts : TxFilterOption
  pub txs : List TxResult
  pub last_used : ℕ

pub new_block_filter : ℕ → BlockFilter
new_block_filter now = record { block_headers = []; last_used = now }

unfoldable pub new_tx_filter : TxFilterOption → ℕ → TxFilter
new_tx_filter opts now = record { opts = opts; txs = []; last_used = now }

abbrev bound_or : Option ℤ → ℤ → ℤ
bound_or none default = default
bound_or (some bound) default = bound

pub filtered_by_range_filter_option : ℤ → Option RangeFilterOption → Bool
filtered_by_range_filter_option value none = true
filtered_by_range_filter_option value (some range) =
    if leb_ℤ (bound_or range.min (pos 0)) value
    then leb_ℤ value (bound_or range.max (pos (2 ^ 63 - 1)))
    else false

-- GasLimit compares the gas used.
pub check_filter_options : TxFilterOption → TxResult → Bool
check_filter_options opts tx =
    if filtered_by_range_filter_option tx.response.gas_used opts.gas_used
    then if filtered_by_range_filter_option tx.response.gas_wanted opts.gas_wanted
      then filtered_by_range_filter_option tx.response.gas_used opts.gas_limit
      else false
    else false

unfoldable pub update_block_filter : Update → BlockFilter → BlockFilter
update_block_filter (new_block block) b = record b {
  block_headers = b.block_headers ++ block.header ∷ [];
}
update_block_filter (new_tx tx) b = b

unfoldable pub get_block_changes : BlockFilter → List Header × BlockFilter
get_block_changes b = (b.block_headers, record b { block_headers = [] })

unfoldable pub update_tx_filter : Update → TxFilter → TxFilter
update_tx_filter (new_block block) tf = tf
update_tx_filter (new_tx tx) tf =
    if check_filter_options tf.opts tx then record tf { txs = tf.txs ++ tx ∷ [] } else tf

unfoldable pub get_tx_changes : TxFilter → List TxResult × TxFilter
get_tx_changes tf = (tf.txs, record tf { txs = [] })

pub data Filter : Type 0 where
  for_blocks : BlockFilter → Filter
  for_txs : TxFilter → Filter

unfoldable pub get_last_used : Filter → ℕ
get_last_used (for_blocks b) = b.last_used
get_last_used (for_txs tf) = tf.last_used

unfoldable pub update_last_used : ℕ → Filter → Filter
update_last_used now (for_blocks b) = for_blocks (record b { last_used = now })
update_last_used now (for_txs tf) = for_txs (record tf { last_used = now })

abbrev pub FilterMap : Type 0
FilterMap = List (String × Filter)

-- Whether it was there, and the map without it.
pub uninstall_filter : String → FilterMap → Bool × FilterMap
uninstall_filter id [] = (false, [])
uninstall_filter id ((key, filter) ∷ items) =
    let (exists, rest) = uninstall_filter id items in
    if str_eq key id then (true, rest) else (exists, (key, filter) ∷ rest)

-- The entry of the map is overwritten if the ID has one.
pub new_filter : String → Filter → FilterMap → FilterMap
new_filter id filter items = (id, filter) ∷ (uninstall_filter id items).1

-- The filter, whose time of use is now.
pub get_filter : String → ℕ → FilterMap → Option Filter × FilterMap
get_filter id now [] = (none, [])
get_filter id now ((key, filter) ∷ items) =
    let (found, rest) = get_filter id now items in
    if str_eq key id
    then (some (update_last_used now filter), (key, update_last_used now filter) ∷ items)
    else (found, (key, filter) ∷ rest)

pub cleanup : ℕ → FilterMap → FilterMap
cleanup cutoff [] = []
cleanup cutoff ((key, filter) ∷ items) =
    let rest = cleanup cutoff items in
    if ltb (get_last_used filter) cutoff then rest else (key, filter) ∷ rest
