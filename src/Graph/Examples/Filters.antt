-- ===== src/Graph/Examples/Filters.antt =====
-- The theorems about what filters accept, at concrete inputs.
use tx_indexer.Base.{◌≡◌, ◌↔◌, refl, true, none, some, arith}
use tx_indexer.Base.Int.{pos}
use tx_indexer.Graph.Where.{
  Where, plain, nil, cons, eval, eval_all, eval_or, eval_any, field, slice,
}
use tx_indexer.Graph.Where.Meaning.{Holds, eval_iff}
use tx_indexer.Graph.Where.Range.{extreme, extreme_over, pick, pick_own, lower_ends, min_max}
use tx_indexer.Graph.Where.Range.Sound.{AtMost}
use tx_indexer.Graph.Filters.Roots.{TransactionFields, block_match, eval_block, min_max_height}
use tx_indexer.Graph.Filters.Roots.Ranges.{no_block_fields, height_above, min_max_height_misses}
use tx_indexer.Graph.Examples.{no_regexp, block_at, two_ranges, no_transaction_fields, ptr}

eval_iff_example :
    (eval (block_match no_regexp) two_ranges (block_at 3) ≡ true)
    ↔ Holds (block_match no_regexp) two_ranges (block_at 3)
eval_iff_example = eval_iff (block_match no_regexp) two_ranges (block_at 3)

-- A disjunction of "above 10" and "no condition" accepts block 3.
min_max_height_misses_example :
    (eval_block no_regexp
        (plain nil
          (cons
            (height_above (record { address = 0; value = pos 10 }))
            (cons (plain nil nil no_block_fields) nil))
          no_block_fields)
        (block_at 3)
      ≡ true)
    × (¬ AtMost
        (min_max_height (
          plain nil
            (cons
              (height_above (record { address = 0; value = pos 10 }))
              (cons (plain nil nil no_block_fields) nil))
            no_block_fields)).0
        (pos 3))
unfolding eval_block eval eval_all eval_or eval_any block_match field slice min_max_height min_max
    extreme extreme_over pick pick_own lower_ends
min_max_height_misses_example =
    min_max_height_misses no_regexp (record { address = 0; value = pos 10 })
      (plain nil nil no_block_fields) (block_at 3) refl refl (λ h. absurd (omega (arith, h)))

abbrev early : Where TransactionFields
early = plain nil nil (record no_transaction_fields {
  index = some (record { exists = none; eq = ptr 2 0; gt = none; lt = none });
  block_height = some (record { exists = none; eq = none; gt = ptr 0 1; lt = ptr 1 5 });
})
