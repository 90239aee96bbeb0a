-- ===== src/Storage/Examples/Walks/Queries.antt =====
-- The query getBlocks over the store of storage/pebble.go, with a concrete engine of one entry.
use tx_indexer.Base.{
  keep, ℕ, ◌≡◌, refl, false, Option, none, some, [], ◌∷◌, Result, ok, err, In, arith,
}
use tx_indexer.Base.Int.{to_uint}
use tx_indexer.Chain.{Block, TxResult}
use tx_indexer.Storage.Keys.{key_block}
use tx_indexer.Storage.Engine.{Entry}
use tx_indexer.Storage.Examples.{sample_block, list_codec, put_block, read_block-put_block}
use tx_indexer.Storage.Examples.Walks.{
  entry_engine, entry_laws, bounded, shown, get_entry_self, Cursor, is_lt,
}
use tx_indexer.Storage.Pebble.{BlockIter, Error, block_iterator, engine_error}
use tx_indexer.Graph.Where.{
  eval, eval_all, eval_or, eval_any, field, slice, eval_int, root_eval, value_of, above, below,
  check_exists, check_eq,
}
use tx_indexer.Graph.Where.Range.{
  extreme, extreme_over, pick, pick_own, lower_ends, upper_ends, min_max,
}
use tx_indexer.Graph.Model
use tx_indexer.Graph.Filters.Roots.{eval_block, block_match, min_max_height}
use tx_indexer.Graph.Query.{Iterator, Answer}
use tx_indexer.Graph.Resolvers.{desc, is_desc, get_blocks, bounds, same_place, deref}
use tx_indexer.Storage.Encode.{encode_uint64_ascending, encode_string_ascending}
use tx_indexer.Base.Lex.{bytes_compare}
use tx_indexer.Graph.Resolvers.Stored.{pebble_reader, get_blocks-In}
use tx_indexer.Graph.Examples.{no_regexp, block_at, two_ranges, two_ranges-BoundedBy}

abbrev stored : Option Entry
stored = some (key_block 3, put_block sample_block)

abbrev stored_walk : BlockIter Cursor
stored_walk = record { i = (bounded stored (key_block 2) (key_block 10), false); init = false }

-- No transactions are asked for.
abbrev no_txs : ℕ → ℕ → ℕ → ℕ → Result (Error entry_engine list_codec) ℕ
no_txs from to i j = ok 0

abbrev no_tx_walk : Iterator ℕ (Error entry_engine list_codec) TxResult
no_tx_walk = record {
  next = λ n. (false, n);
  value = λ n. err (engine_error tt);
  error = λ n. none;
}

abbrev model_of : Block → Model.Block
model_of b = block_at b.height

get_blocks-In_example :
    (a : Answer (Error entry_engine list_codec) Model.Block) × (get_blocks
        (pebble_reader entry_engine list_codec stored no_txs no_txs no_tx_walk
          (λ h. err (engine_error tt)))
        no_regexp
        model_of
        (λ _. false)
        2
        two_ranges
        (some desc)
      ≡ some a)
    × In (block_at 3) a.elements
    × (a.elements ≡ keep (eval_block no_regexp two_ranges) (block_at 3 ∷ []))
unfolding is_desc entry_laws block_iterator bounds eval_block eval eval_all eval_or eval_any
    block_match field slice eval_int root_eval value_of above below check_exists check_eq
    min_max_height min_max extreme extreme_over pick pick_own lower_ends upper_ends shown bounded
    is_lt same_place to_uint deref bytes_compare key_block encode_uint64_ascending
    encode_string_ascending
get_blocks-In_example =
    get_blocks-In entry_engine list_codec stored no_txs no_txs no_tx_walk
      (λ h. err (engine_error tt)) entry_laws no_regexp model_of 2 two_ranges (some desc)
      stored_walk (sample_block ∷ []) 3 (put_block sample_block) sample_block
      (get_entry_self (key_block 3) (put_block sample_block)) (read_block-put_block sample_block)
      refl (omega arith) two_ranges-BoundedBy (2, refl, omega arith) (9, refl, omega arith)
      (omega arith) refl (read_block-put_block sample_block, tt) (omega arith) (omega arith) refl
