-- ===== src/Graph/Resolvers/Transactions.antt =====
-- What getTransactions answers, on the path of a hash and on that of an iteration.
use tx_indexer.Base.{
  ℕ, ◌<◌, ◌≡◌, refl, Bool, Option, none, some, List, [], Result, ok, err, inl, inr, String, length,
  arith, Bool-cases, Option-cases, Result-cases,
}
use tx_indexer.Graph.Where.{Where}
use tx_indexer.Graph.Model.{Transaction}
use tx_indexer.Graph.Filters.Roots.{TransactionFields, eval_transaction}
use tx_indexer.Graph.Query.{Answer, max_elements_per_query}
use tx_indexer.Graph.Query.Answers.{Yields, Accepted, query_loop-Accepted}
use tx_indexer.Graph.Resolvers.{
  Reader, Order, opened, looked_up_hash, open_txs, one_transaction, get_transactions,
}

module _ {BI TI E B T : Type 0} (store : Reader BI TI E B T)
    (match_string : String → String → Option Bool) (new_transaction : T → Transaction) where
  abbrev pub Selected : Where TransactionFields → Answer E Transaction → Type 0
  Selected w =
      Accepted store.txs new_transaction (eval_transaction match_string w) max_elements_per_query

  one_transaction-Selected :
      (w : Where TransactionFields) (r : Result E T)
      → Selected w (one_transaction store match_string new_transaction w r)
  unfolding one_transaction
  one_transaction-Selected w (err e) = (omega arith, tt)
  one_transaction-Selected w (ok tx) =
      elim (Bool-cases (eval_transaction match_string w (new_transaction tx))) [
        | inl y ↦ rw y (omega arith, (y, tt))
        | inr n ↦ rw n (omega arith, tt)
      ]

  -- Whatever values the opened iterator gives, readable or not, and whenever the context is
  -- cancelled: with more fuel than there are values, getTransactions returns, for a hash and for an
  -- iteration, and it returns at most the limit, only transactions that the filter accepts.
  pub get_transactions-Selected :
      (done : ℕ → Bool) (fuel : ℕ) (w : Where TransactionFields) (order : Option Order)
      → ((s : TI)
          → open_txs store w order ≡ ok s
          → (vs : List (Result E T)) × (e : Option E) × Yields store.txs vs e s
            × (length vs < fuel))
      → (a : Answer E Transaction) × (get_transactions store match_string new_transaction done fuel
            w order
          ≡ some a)
        × Selected w a
  unfolding get_transactions opened
  get_transactions-Selected done fuel w order ends = elim (Option-cases (looked_up_hash w)) [
    | inr (h, q) ↦
        rw (q, get_transactions)
          (
            one_transaction store match_string new_transaction w (store.get_tx_by_hash h),
            refl,
            one_transaction-Selected w (store.get_tx_by_hash h),
          )
    | inl q ↦ elim (Result-cases (open_txs store w order)) [
      | inr (e, r) ↦
          rw (q, r, get_transactions)
            (record { elements = []; error = some e; report = none }, refl, (omega arith, tt))
      | inl (s, r) ↦
          let (vs, e, y, f) = ends s r in
          rw (q, r, get_transactions)
            (query_loop-Accepted store.txs new_transaction (eval_transaction match_string w)
              max_elements_per_query done fuel 0 [] vs e s y f refl (omega arith) tt)
    ]
  ]
