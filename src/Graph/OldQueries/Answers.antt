-- ===== src/Graph/OldQueries/Answers.antt =====
-- What the queries by the old filters answer.
use tx_indexer.Base.{
  ℕ, zero, ◌+◌, ◌-◌, ◌<◌, ◌≡◌, refl, sym, ap, ap₂, ◌∙◌, Bool, false, Option, none, some, List, [],
  ◌∷◌, map, keep, take, suc, ok, String, All, length, length-map, leb, Bool-cases, inl, inr, arith,
}
use tx_indexer.Graph.Model.{Coin, Transaction}
use tx_indexer.Graph.Query.{Iterator, max_reached, max_elements_per_query}
use tx_indexer.Graph.Query.Answers.{Yields, expected, query_loop-keep}
use tx_indexer.Graph.Resolvers.{Reader}
use tx_indexer.Graph.TxFilter.{filtered_transaction_by}
use tx_indexer.Graph.TxFilter.Total.{
  ValueOfType, NamesGnoEvent, Returns, filtered_transaction_by-Returns,
}
use tx_indexer.Graph.OldQueries.{
  TransactionQuery, bound_of, from_store, tested_value, tested, without_tests, store_error,
  finished, iterate_txs, transactions,
}

-- Whether the filter accepts, where it does not panic.
abbrev pub passes : {B : Type 0} → (B → Option Bool) → B → Bool
passes filter b = elim (filter b) [ none ↦ false | some answer ↦ answer ]

map-take : {A B : Type 0} (f : A → B) (n : ℕ) (xs : List A) → map f (take n xs) ≡ take n (map f xs)
map-take f zero xs = refl
map-take f (suc n) [] = refl
map-take f (suc n) (x ∷ xs) = ap (λ l. f x ∷ l) (map-take f n xs)

store_from : {E : Type 0} (e : Option E) → store_error (from_store e) ≡ e
store_from none = refl
store_from (some e) = refl

module _ {I E A B : Type 0} (it : Iterator I E A) (convert : A → B) (filter : B → Option Bool) where
  abbrev tests : List A → List (B × Bool)
  tests [] = []
  tests (x ∷ xs) = (convert x, passes filter (convert x)) ∷ tests xs

  tested_value-ok :
      (s : I) (x : A)
      → it.value s ≡ ok x
      → Returns (filter (convert x))
      → tested_value it convert filter s ≡ ok (convert x, passes filter (convert x))
  unfolding tested_value
  tested_value-ok s x v (b, q) =
      rw (v, q, tested_value)
        (ap (λ o. ok (convert x, elim o [ none ↦ false | some a ↦ a ])) (sym q))

  tested-Yields :
      (xs : List A) (e : Option E) (s : I)
      → Yields it (map ok xs) e s
      → All (λ x. Returns (filter (convert x))) xs
      → Yields (tested it convert filter) (map ok (tests xs)) (from_store e) s
  unfolding Yields
  tested-Yields [] e s y r = (y.0, ap from_store y.1)
  tested-Yields (x ∷ xs) e s y r =
      (y.0, tested_value-ok (it.next s).1 x y.1 r.0, tested-Yields xs e (it.next s).1 y.2 r.1)

  length-tests : (xs : List A) → length (tests xs) ≡ length xs
  length-tests [] = refl
  length-tests (x ∷ xs) = ap suc (length-tests xs)

  kept_tests :
      (xs : List A)
      → map (λ p. p.0) (keep (λ p. p.1) (map (λ p. p) (tests xs)))
        ≡ keep (passes filter) (map convert xs)
  unfolding keep
  kept_tests [] = refl
  kept_tests (x ∷ xs) = elim (Bool-cases (passes filter (convert x))) [
    | inl y ↦ rw y (ap (λ l. convert x ∷ l) (kept_tests xs))
    | inr n ↦ rw n (kept_tests xs)
  ]

  -- The answer without the tests is the answer to the elements that pass.
  untested :
      (ks : List (B × Bool)) (kept : List B) (e : Option E) (max_elements : ℕ)
      → map (λ p. p.0) ks ≡ kept
      → without_tests (
          expected
            (tested it convert filter)
            (λ p. p)
            (λ p. p.1)
            max_elements
            0
            []
            ks
            (from_store e))
        ≡ some (expected it convert (passes filter) max_elements 0 [] kept e)
  unfolding without_tests
  untested ks kept e max_elements same =
      let len : leb max_elements (0 + length ks) ≡ leb max_elements (0 + length kept) =
        ap (λ n. leb max_elements (0 + n)) (sym (length-map ks (λ p. p.0)) ∙ ap length same) in
      let taken = map-take (λ p. p.0) (max_elements - 0) ks ∙ ap (take (max_elements - 0)) same in
      elim (Bool-cases (leb max_elements (0 + length kept))) [
        | inl y ↦
            rw (len, y)
              (ap (λ l. some (record { elements = l; error = none; report = some max_reached }))
                taken)
        | inr n ↦
            rw (len, n)
              (ap₂ (λ l o. some (record { elements = l; error = o; report = none })) taken
                (store_from e))
      ]

module _ {BI TI E B T : Type 0} (store : Reader BI TI E B T)
    (parse_coins : String → Option (List Coin)) (new_transaction : T → Transaction) where
  -- A query that names no hash, of which each event input names a GnoEvent, over an iterator that lists
  -- transactions whose messages have values of the types that their type_urls stand for: with enough
  -- fuel and no cancellation the query returns, without a panic, and its elements are the transactions
  -- that the filter accepts, in order and up to the limit; it reports the limit exactly if there are as
  -- many, and else ends with the iterator's error.
  pub transactions-keep :
      (q : TransactionQuery) (fuel : ℕ) (xs : List T) (e : Option E) (s : TI)
      → q.hash ≡ none
      → store.tx_iterator
          (bound_of 64 q.from_block_height)
          (bound_of 64 q.to_block_height)
          (bound_of 32 q.from_index)
          (bound_of 32 q.to_index)
        ≡ ok s
      → Yields store.txs (map ok xs) e s
      → length xs < fuel
      → All NamesGnoEvent q.conditions.events
      → All (λ x. All ValueOfType (new_transaction x).messages) xs
      → transactions store parse_coins new_transaction (λ _. false) fuel q
        ≡ some (
            some (
              expected store.txs new_transaction
                (passes (λ tx. filtered_transaction_by parse_coins tx q.conditions))
                max_elements_per_query
                0
                []
                (keep
                  (passes (λ tx. filtered_transaction_by parse_coins tx q.conditions))
                  (map new_transaction xs))
                e))
  unfolding transactions iterate_txs
  transactions-keep q fuel xs e s h o y f named typed =
      let filter = λ (tx : Transaction). filtered_transaction_by parse_coins tx q.conditions in
      let returns = returning q named xs typed in
      rw (h, transactions)
        (rw (o, iterate_txs)
          (ap finished (
              query_loop-keep (tested store.txs new_transaction filter) (λ p. p) (λ p. p.1)
                max_elements_per_query fuel 0 [] (tests store.txs new_transaction filter xs)
                (from_store e) s (tested-Yields store.txs new_transaction filter xs e s y returns)
                (omega (arith, f, length-tests store.txs new_transaction filter xs)) (omega arith))
            ∙ ap some (
                untested store.txs new_transaction filter _ _ e max_elements_per_query
                  (kept_tests store.txs new_transaction filter xs))))
    where
      returning :
          (q : TransactionQuery)
          → All NamesGnoEvent q.conditions.events
          → (xs : List T) → All (λ x. All ValueOfType (new_transaction x).messages) xs
          → All
              (λ x. Returns (filtered_transaction_by parse_coins (new_transaction x) q.conditions))
              xs
      returning q named [] t = tt
      returning q named (x ∷ xs) t = (
        filtered_transaction_by-Returns parse_coins (new_transaction x) q.conditions named t.0,
        returning q named xs t.1,
      )
