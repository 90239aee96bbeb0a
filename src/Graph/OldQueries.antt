-- ===== src/Graph/OldQueries.antt =====
-- The queries blocks and transactions of serve/graph/all.resolvers.go, which use the old filters of
-- serve/graph/transaction_filter.go and serve/graph/block_filter.go.
pub mod Answers
use tx_indexer.Base.{
  ℕ, Bool, true, false, Option, none, some, List, [], ◌∷◌, map, Result, ok, err, String,
}
use tx_indexer.Base.Int.{ℤ, to_uint}
use tx_indexer.Graph.Model.{Coin, Block, Transaction}
use tx_indexer.Graph.Query.{
  Iterator, Answer, Report, max_reached, cancelled, failed, query_loop, max_elements_per_query,
}
use tx_indexer.Graph.Resolvers.{Reader, opened}
use tx_indexer.Graph.TxFilter.{
  BlockFilter, TransactionFilter, filtered_block_by, filtered_transaction_by,
}

-- The fields of the filters that bound the iteration, and the others.
pub record BlockQuery : Type 0 where
  pub from_height : Option ℤ
  pub to_height : Option ℤ
  pub times : BlockFilter

pub record TransactionQuery : Type 0 where
  pub from_block_height : Option ℤ
  pub to_block_height : Option ℤ
  pub from_index : Option ℤ
  pub to_index : Option ℤ
  pub hash : Option String
  pub conditions : TransactionFilter

-- A bound that is dereferenced and converted to an unsigned number of so many bits; nil is 0.
unfoldable pub bound_of : ℕ → Option ℤ → ℕ
bound_of w none = 0
bound_of w (some n) = to_uint w n

-- An error of the store, or a panic of the filter.
pub data Trouble (E : Type 0) : Type 0 where
  of_store : E → Trouble E
  panicked : Trouble E

abbrev from_store : {E : Type 0} → Option E → Option (Trouble E)
from_store none = none
from_store (some e) = some (of_store e)

module _ {I E A B : Type 0} (it : Iterator I E A) (convert : A → B) (filter : B → Option Bool) where
  -- Value, the conversion and the filter: a value with the filter's answer.
  unfoldable pub tested_value : I → Result (Trouble E) (B × Bool)
  tested_value s = elim (it.value s) [
    | err e ↦ err (of_store e)
    | ok a ↦ elim (filter (convert a)) [ none ↦ err panicked | some b ↦ ok (convert a, b) ]
  ]

  abbrev pub tested : Iterator I (Trouble E) (B × Bool)
  tested = record { next = it.next; value = tested_value; error = λ s. from_store (it.error s) }

-- The answer of a loop over tested values; `none` is a panic.
abbrev pub store_error : {E : Type 0} → Option (Trouble E) → Option E
store_error none = none
store_error (some (of_store e)) = some e
store_error (some panicked) = none

abbrev pub reported :
    {E B : Type 0} → List B → Option E → Option (Report (Trouble E)) → Option (Answer E B)
reported elements error none = some (record { elements = elements; error = error; report = none })
reported elements error (some max_reached) =
    some (record { elements = elements; error = error; report = some max_reached })
reported elements error (some cancelled) =
    some (record { elements = elements; error = error; report = some cancelled })
reported elements error (some (failed (of_store e))) =
    some (record { elements = elements; error = error; report = some (failed e) })
reported elements error (some (failed panicked)) = none

unfoldable pub without_tests : {E B : Type 0} → Answer (Trouble E) (B × Bool) → Option (Answer E B)
without_tests a = reported (map (λ p. p.0) a.elements) (store_error a.error) a.report

abbrev pub finished :
    {E B : Type 0} → Option (Answer (Trouble E) (B × Bool)) → Option (Option (Answer E B))
finished none = none
finished (some a) = some (without_tests a)

module _ {BI TI E B T : Type 0} (store : Reader BI TI E B T) where
  -- `now` is the time at which a block is tested.
  unfoldable pub blocks :
      (B → Block) → (Block → ℕ) → (ℕ → Bool) → ℕ → BlockQuery → Option (Answer E Block)
  blocks new_block now done fuel q =
      opened (store.block_iterator (bound_of 64 q.from_height) (bound_of 64 q.to_height)) (
        query_loop store.blocks new_block (λ b. filtered_block_by (now b) b q.times)
          max_elements_per_query done fuel 0 [])

  module _ (parse_coins : String → Option (List Coin)) (new_transaction : T → Transaction) where
    -- The loop of transactions; `none` outside is the end of the fuel, and inside a panic.
    unfoldable pub iterate_txs :
        (ℕ → Bool) → ℕ → TransactionFilter → Result E TI → Option (Option (Answer E Transaction))
    iterate_txs done fuel conditions (err e) =
        some (some (record { elements = []; error = some e; report = none }))
    iterate_txs done fuel conditions (ok s) = finished (
        query_loop
          (tested store.txs new_transaction
            (λ tx. filtered_transaction_by parse_coins tx conditions))
          (λ p. p) (λ p. p.1) max_elements_per_query done fuel 0 [] s)

    -- A transaction that is asked for by its hash is not filtered.
    unfoldable pub by_hash : Result E T → Answer E Transaction
    by_hash (err e) = record { elements = []; error = some e; report = none }
    by_hash (ok tx) = record { elements = new_transaction tx ∷ []; error = none; report = none }

    unfoldable pub transactions :
        (ℕ → Bool) → ℕ → TransactionQuery → Option (Option (Answer E Transaction))
    transactions done fuel q = elim q.hash [
      | some h ↦ some (some (by_hash (store.get_tx_by_hash h)))
      | none ↦ iterate_txs done fuel q.conditions (
          store.tx_iterator (bound_of 64 q.from_block_height) (bound_of 64 q.to_block_height)
            (bound_of 32 q.from_index) (bound_of 32 q.to_index))
    ]
