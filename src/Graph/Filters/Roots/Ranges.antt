-- ===== src/Graph/Filters/Roots/Ranges.antt =====
-- The ranges that the resolvers read off the filters of blocks and transactions.
use tx_indexer.Base.{Option, none, some, Bool, true, false, ◌&&◌, ◌≡◌, refl, arith, subst, String}
use tx_indexer.Base.Int.{◌≤ℤ◌}
use tx_indexer.Graph.Where.{
  Where, plain, nil, cons, IntPtr, FilterInt, eval, eval_all, eval_or, eval_any, eval_int, field,
  slice,
}
use tx_indexer.Graph.Where.Range.{
  less, greater, pick, pick_own, extreme, extreme_over, lower_ends, upper_ends, min_max, Bounded,
}
use tx_indexer.Graph.Where.Range.Sound.{AtMost, AtLeast, min_max_range}
use tx_indexer.Graph.Model.{Block, Transaction}
use tx_indexer.Graph.Filters.Roots.{
  BlockFields, TransactionFields, block_match, transaction_match, eval_block, eval_transaction,
  min_max_height, min_max_block_height, min_max_index,
}

&&-right : (b c : Bool) → (b && c) ≡ true → c ≡ true
&&-right true c h = h
&&-right false c h = absurd (ground arith)

&&-left : (b c : Bool) → (b && c) ≡ true → b ≡ true
&&-left true c h = refl
&&-left false c h = absurd (ground arith)

-- Filters in which every alternative of a disjunction names a lower and an upper bound.
abbrev pub BoundedBy : {F : Type 0} → (F → Option FilterInt) → Where F → Type 0
BoundedBy of w =
    Bounded less (λ f. lower_ends (of f)) w × Bounded greater (λ f. upper_ends (of f)) w

module _ (match_string : String → String → Option Bool) where
  block_match_height :
      (f : BlockFields) (b : Block)
      → block_match match_string f b ≡ true
      → field eval_int f.height b.height ≡ true
  unfolding block_match
  block_match_height f b h = ground arith

  transaction_match_height :
      (f : TransactionFields) (t : Transaction)
      → transaction_match match_string f t ≡ true
      → field eval_int f.block_height t.block_height ≡ true
  unfolding transaction_match
  transaction_match_height f t h = ground arith

  transaction_match_index :
      (f : TransactionFields) (t : Transaction)
      → transaction_match match_string f t ≡ true
      → field eval_int f.index t.index ≡ true
  unfolding transaction_match
  transaction_match_index f t h = ground arith

  -- A block that a filter accepts has its height within the range that getBlocks iterates over, if
  -- every alternative of the filter's disjunctions names both bounds.
  pub min_max_height_range :
      (w : Where BlockFields) (b : Block)
      → BoundedBy (λ f. f.height) w
      → eval_block match_string w b ≡ true
      → AtMost (min_max_height w).0 b.height × AtLeast (min_max_height w).1 b.height
  unfolding eval_block min_max_height
  min_max_height_range w b bounded e =
      min_max_range (block_match match_string) (λ x. x.height) (λ f. f.height) block_match_height w
        b bounded.0 bounded.1 e

  -- A transaction that a filter accepts has its height and its index within the ranges that
  -- getTransactions iterates over, if every alternative of the filter's disjunctions names both
  -- bounds of both.
  pub min_max_transaction_range :
      (w : Where TransactionFields) (t : Transaction)
      → BoundedBy (λ f. f.block_height) w
      → BoundedBy (λ f. f.index) w
      → eval_transaction match_string w t ≡ true
      → (AtMost (min_max_block_height w).0 t.block_height
          × AtLeast (min_max_block_height w).1 t.block_height)
        × (AtMost (min_max_index w).0 t.index × AtLeast (min_max_index w).1 t.index)
  unfolding eval_transaction min_max_block_height min_max_index
  min_max_transaction_range w t heights indices e = (
    min_max_range (transaction_match match_string) (λ x. x.block_height) (λ f. f.block_height)
        transaction_match_height w t heights.0 heights.1 e,
    min_max_range (transaction_match match_string) (λ x. x.index) (λ f. f.index)
        transaction_match_index w t indices.0 indices.1 e,
  )

abbrev pub no_block_fields : BlockFields
no_block_fields = record {
  version = none;
  validators_hash = none;
  txs = none;
  total_txs = none;
  time = none;
  proposer_address_raw = none;
  num_txs = none;
  next_validators_hash = none;
  last_results_hash = none;
  last_commit_hash = none;
  last_block_hash = none;
  height = none;
  hash = none;
  consensus_hash = none;
  chain_id = none;
  app_version = none;
  app_hash = none;
}

-- The filter of blocks above a height.
abbrev pub height_above : IntPtr → Where BlockFields
height_above p = plain nil nil (record no_block_fields {
  height = some (record { exists = none; eq = none; gt = some p; lt = none });
})

module _ (match_string : String → String → Option Bool) where
  -- A disjunction of "above a height" and a filter that names no lower bound accepts a block below
  -- that height which the second filter accepts, but the range read off it starts at that height,
  -- so the block is not iterated over.
  pub min_max_height_misses :
      (p : IntPtr) (g : Where BlockFields) (b : Block)
      → eval_block match_string g b ≡ true
      → (min_max_height g).0 ≡ none
      → ¬ (p.value ≤ℤ b.height)
      → (eval_block match_string (plain nil (cons (height_above p) (cons g nil)) no_block_fields) b
          ≡ true)
        × (¬ AtMost
            (min_max_height (plain nil (cons (height_above p) (cons g nil)) no_block_fields)).0
            b.height)
  unfolding eval_block min_max_height min_max eval eval_all eval_or eval_any extreme extreme_over
      pick pick_own lower_ends block_match field slice
  min_max_height_misses p g b e free low = (
    (ground arith),
    (λ h. low (
        subst
          (λ x. AtMost (pick less (λ (f : BlockFields). lower_ends f.height) (some p) x) b.height)
          free h)),
  )
