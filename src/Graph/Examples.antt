-- ===== src/Graph/Examples.antt =====
-- The theorems about the queries, at concrete inputs: a store of three blocks whose iterators walk
-- through lists.
pub mod Filters
pub mod Chain
use tx_indexer.Base.{
  keep, ℕ, zero, suc, ◌≤◌, ◌<◌, ◌≡◌, ◌≢◌, refl, subst, Bool, true, false, Option, none, some, List,
  [], ◌∷◌, Result, ok, err, String, map, length, arith,
}
use tx_indexer.Base.Int.{ℤ, pos, negsuc}
use tx_indexer.Graph.Where.{Where, Wheres, plain, negated, nil, cons, IntPtr, FilterInt}
use tx_indexer.Graph.Where.Range.{
  Bounded, BoundedConj, BoundedDisj, extreme, extreme_over, pick, pick_own, lower_ends, upper_ends,
  min_max,
}
use tx_indexer.Graph.Model.{Block, Transaction}
use tx_indexer.Graph.Filters.Roots.{BlockFields, eval_block, eval_transaction, min_max_height}
use tx_indexer.Graph.Filters.Roots.Ranges.{no_block_fields, BoundedBy}
use tx_indexer.Graph.Query.{Iterator, Answer, query_loop, max_elements_per_query}
use tx_indexer.Graph.Query.Answers.{
  Yields, Accepted, expected, query_loop-keep, query_loop-Accepted,
}
use tx_indexer.Graph.Resolvers.{
  Reader, Order, desc, open_txs, get_blocks, get_transactions, is_desc,
}
use tx_indexer.Graph.Resolvers.Blocks.{Listing, in_range, get_blocks-whole}
use tx_indexer.Graph.Filters.Roots.{TransactionFields}
use tx_indexer.Graph.TxFilter.{filtered_transaction_by}
use tx_indexer.Graph.OldQueries.{TransactionQuery, transactions}
use tx_indexer.Graph.OldQueries.Answers.{passes, transactions-keep}
use tx_indexer.Graph.Resolvers.Transactions.{Selected, get_transactions-Selected}

-- A walk through a list, with the element that it stands at.
abbrev Walk : Type 0 → Type 0
Walk A = Option A × List A

abbrev move : {A : Type 0} → Walk A → Bool × Walk A
move (c, []) = (false, (none, []))
move (c, x ∷ xs) = (true, (some x, xs))

abbrev current : {A : Type 0} → Walk A → Result String A
current (none, xs) = err "no element"
current (some x, xs) = ok x

abbrev walking : {A : Type 0} → Iterator (Walk A) String A
walking = record { next = move; value = current; error = λ _. none }

walking-Yields :
    {A : Type 0} (xs : List A) (c : Option A) → Yields (walking {A = A}) (map ok xs) none (c, xs)
unfolding Yields
walking-Yields [] c = (refl, refl)
walking-Yields (x ∷ xs) c = (refl, refl, walking-Yields xs (some x))

abbrev pub no_regexp : String → String → Option Bool
no_regexp p s = none

abbrev pub block_at : ℕ → Block
block_at h = record {
  version = "";
  validators_hash = "";
  txs = [];
  total_txs = pos 0;
  time = 0;
  proposer_address_raw = "";
  num_txs = pos 0;
  next_validators_hash = "";
  last_results_hash = "";
  last_commit_hash = "";
  last_block_hash = "";
  height = pos h;
  hash = "";
  consensus_hash = "";
  chain_id = "test";
  app_version = "";
  app_hash = "";
}

abbrev pub ptr : ℕ → ℕ → Option IntPtr
ptr a n = some (record { address = a; value = pos n })

abbrev pub heights : Option IntPtr → Option IntPtr → Where BlockFields
heights gt lt = plain nil nil (record no_block_fields {
  height = some (record { exists = none; eq = none; gt = gt; lt = lt });
})

-- Heights above 2 and below 4, or above 5 and below 9.
abbrev pub two_ranges : Where BlockFields
two_ranges =
    plain nil (cons (heights (ptr 0 2) (ptr 1 4)) (cons (heights (ptr 2 5) (ptr 3 9)) nil))
      no_block_fields

pub two_ranges-BoundedBy : BoundedBy (λ f. f.height) two_ranges
unfolding Bounded BoundedConj BoundedDisj extreme extreme_over pick pick_own lower_ends upper_ends
two_ranges-BoundedBy = (
  (tt, ((tt, tt), (λ h. absurd (cc)), ((tt, tt), (λ h. absurd (cc)), tt))),
  (tt, ((tt, tt), (λ h. absurd (cc)), ((tt, tt), (λ h. absurd (cc)), tt))),
)

-- Three blocks, which the iterators filter by their range.
abbrev stored : Bool → List ℕ
stored true = 8 ∷ 5 ∷ 3 ∷ []
stored false = 3 ∷ 5 ∷ 8 ∷ []

abbrev pub transaction_at : ℕ → Transaction
transaction_at h = record {
  success = true;
  response = record { log = ""; info = ""; events = []; error_text = ""; payload = "" };
  messages = [];
  memo = "hello";
  index = pos 0;
  hash = "abc";
  gas_wanted = pos 10;
  gas_used = pos 7;
  gas_fee = record { denom = "ugnot"; amount = pos 1 };
  block_height = pos h;
}

abbrev list_store : Reader (Walk ℕ) (Walk ℕ) String ℕ ℕ
list_store = record {
  get_latest_height = ok 8;
  get_tx_by_hash = λ h. err "not found";
  block_iterator = λ from to. ok (none, keep (λ h. in_range from to h) (stored false));
  block_reverse_iterator = λ from to. ok (none, keep (λ h. in_range from to h) (stored true));
  tx_iterator = λ from to i j. ok (none, 3 ∷ 5 ∷ []);
  tx_reverse_iterator = λ from to i j. ok (none, 5 ∷ 3 ∷ []);
  blocks = walking;
  txs = walking;
}

abbrev store_listing : Listing list_store block_at (λ h. h)
store_listing = record {
  listed = stored;
  height_lem = λ b. refl;
  forward = λ from to _ _. (
    (none, keep (λ h. in_range from to h) (stored false)),
    refl,
    walking-Yields (keep (λ h. in_range from to h) (stored false)) none,
  );
  backward = λ from to _ _. (
    (none, keep (λ h. in_range from to h) (stored true)),
    refl,
    walking-Yields (keep (λ h. in_range from to h) (stored true)) none,
  );
}

get_blocks-whole_example :
    get_blocks list_store no_regexp block_at (λ _. false) 4 two_ranges (some desc)
    ≡ some (
        expected
          (walking {A = ℕ})
          block_at
          (eval_block no_regexp two_ranges)
          max_elements_per_query
          0
          []
          (keep (eval_block no_regexp two_ranges) (map block_at (8 ∷ 5 ∷ 3 ∷ [])))
          none)
unfolding is_desc min_max_height min_max extreme extreme_over pick pick_own lower_ends upper_ends
get_blocks-whole_example =
    get_blocks-whole list_store block_at (λ h. h) no_regexp store_listing 4 two_ranges (some desc)
      two_ranges-BoundedBy (2, refl, omega arith) (9, refl, omega arith) (omega arith)

abbrev pub no_transaction_fields : TransactionFields
no_transaction_fields = record {
  success = none;
  response = none;
  messages = none;
  memo = none;
  index = none;
  hash = none;
  gas_wanted = none;
  gas_used = none;
  gas_fee = none;
  block_height = none;
}

abbrev cheap : Where TransactionFields
cheap = plain nil nil (record no_transaction_fields {
  gas_used = some (record { exists = none; eq = none; gt = none; lt = ptr 0 9 });
})

walk_lem : (s : Walk ℕ) → open_txs list_store cheap none ≡ ok s → (none, 3 ∷ 5 ∷ []) ≡ s
unfolding open_txs is_desc
walk_lem s e = cc

walk_ends :
    (s : Walk ℕ)
    → open_txs list_store cheap none ≡ ok s
    → (vs : List (Result String ℕ)) × (e : Option String) × Yields (walking {A = ℕ}) vs e s
      × (length vs < 3)
walk_ends s e = (
  map ok (3 ∷ 5 ∷ []),
  none,
  subst (Yields (walking {A = ℕ}) (map ok (3 ∷ 5 ∷ [])) none) (walk_lem s e)
      (walking-Yields (3 ∷ 5 ∷ []) none),
  omega arith,
)

get_transactions-Selected_example :
    (a : Answer String Transaction) × (get_transactions list_store no_regexp transaction_at
        (λ n. false)
        3
        cheap
        none
      ≡ some a)
    × Selected list_store no_regexp transaction_at cheap a
get_transactions-Selected_example =
    get_transactions-Selected list_store no_regexp transaction_at (λ n. false) 3 cheap none
      walk_ends

-- The transactions that succeeded, used at most 8 gas and have this memo.
abbrev hello : TransactionQuery
hello = record {
  from_block_height = some (pos 3);
  to_block_height = none;
  from_index = none;
  to_index = none;
  hash = none;
  conditions = record {
    from_gas_wanted = none;
    to_gas_wanted = none;
    from_gas_used = none;
    to_gas_used = some (pos 8);
    message = [];
    memo = some "hello";
    success = some true;
    events = [];
  };
}

abbrev accepts_hello : Transaction → Bool
accepts_hello = passes (λ tx. filtered_transaction_by (λ s. none) tx hello.conditions)

transactions-keep_example :
    transactions list_store (λ s. none) transaction_at (λ _. false) 3 hello
    ≡ some (
        some (
          expected
            (walking {A = ℕ})
            transaction_at
            accepts_hello
            max_elements_per_query
            0
            []
            (keep accepts_hello (map transaction_at (3 ∷ 5 ∷ [])))
            none))
transactions-keep_example =
    transactions-keep list_store (λ s. none) transaction_at hello 3 (3 ∷ 5 ∷ []) none
      (none, 3 ∷ 5 ∷ []) refl refl (walking-Yields (3 ∷ 5 ∷ []) none) (omega arith) tt
      (tt, (tt, tt))
