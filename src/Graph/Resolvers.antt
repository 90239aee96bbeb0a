-- ===== src/Graph/Resolvers.antt =====
-- The resolvers getBlocks, getTransactions and latestBlockHeight of serve/graph/all.resolvers.go, and
-- the writers of their subscriptions with handleChannel of serve/graph/resolver.go. The store is its
-- interface; an iterator knows its own direction.
pub mod Blocks
pub mod Transactions
pub mod Walks
pub mod Stored
use tx_indexer.Base.{
  ℕ, ◌+◌, ◌-◌, ◌%◌, ◌^◌, Bool, true, false, ◌&&◌, not, Option, none, some, List, [], ◌∷◌, ◌++◌,
  Result, ok, err, ◌==◌, ltb, if◌then◌else◌, String,
}
use tx_indexer.Base.Int.{ℤ, pos, negsuc, to_uint, to_int}
use tx_indexer.Graph.Where.{Where, Wheres, plain, negated, nil, cons, IntPtr, FilterString}
use tx_indexer.Graph.Model.{Block, Transaction}
use tx_indexer.Graph.Filters.Roots.{
  BlockFields, TransactionFields, eval_block, eval_transaction, min_max_height,
  min_max_block_height, min_max_index,
}
use tx_indexer.Graph.Query.{
  Iterator, Answer, Report, cancelled, failed, query_loop, max_elements_per_query,
}

-- The store's interface Reader of storage/types.go, as far as the resolvers use it.
pub record Reader (BI TI E B T : Type 0) : Type 0 where
  pub get_latest_height : Result E ℕ
  pub get_tx_by_hash : String → Result E T
  pub block_iterator : ℕ → ℕ → Result E BI
  pub block_reverse_iterator : ℕ → ℕ → Result E BI
  pub tx_iterator : ℕ → ℕ → ℕ → ℕ → Result E TI
  pub tx_reverse_iterator : ℕ → ℕ → ℕ → ℕ → Result E TI
  pub blocks : Iterator BI E B
  pub txs : Iterator TI E T

pub data Order : Type 0 where
  asc : Order
  desc : Order

unfoldable pub deref : Option IntPtr → ℤ
deref none = pos 0
deref (some p) = p.value

-- from == to && to != nil: pointers are equal if they point to one place.
unfoldable pub same_place : Option IntPtr → Option IntPtr → Bool
same_place (some p) (some q) = p.address == q.address
same_place from to = false

-- The bounds for an iterator.
unfoldable pub bounds : ℕ → Option IntPtr × Option IntPtr → ℕ × ℕ
bounds w (from, to) = (
  to_uint w (deref from),
  if same_place from to then (to_uint w (deref to) + 1) % 2 ^ w else to_uint w (deref to),
)

-- A test of the order, which may be absent.
unfoldable pub is_desc : Option Order → Bool
is_desc (some desc) = true
is_desc (some asc) = false
is_desc none = false

-- An iterator that does not open is the resolver's error.
unfoldable pub opened :
    {E I B : Type 0} → Result E I → (I → Option (Answer E B)) → Option (Answer E B)
opened (ok s) loop = loop s
opened (err e) loop = some (record { elements = []; error = some e; report = none })

fields_of : {F : Type 0} → Where F → F
fields_of (plain conj disj fields) = fields
fields_of (negated conj disj inverse fields) = fields

-- len(where.Or) == 0
no_alternatives : {F : Type 0} → Where F → Bool
no_alternatives (plain conj nil fields) = true
no_alternatives (plain conj (cons w ws) fields) = false
no_alternatives (negated conj nil inverse fields) = true
no_alternatives (negated conj (cons w ws) inverse fields) = false

-- where.Hash.Eq, if where.Hash is there.
hash_eq : Option FilterString → Option String
hash_eq none = none
hash_eq (some f) = f.eq

-- The hash that is looked up in place of an iteration.
pub looked_up_hash : Where TransactionFields → Option String
looked_up_hash w = if no_alternatives w then hash_eq (fields_of w).hash else none

module _ {BI TI E B T : Type 0} (store : Reader BI TI E B T) where
  pub latest_block_height : Result E ℤ
  latest_block_height = elim store.get_latest_height [ ok h ↦ ok (to_int h) | err e ↦ err e ]

  -- The iterator that getBlocks opens.
  unfoldable pub open_blocks : Where BlockFields → Option Order → Result E BI
  open_blocks w order =
      let (from, to) = bounds 64 (min_max_height w) in
      if is_desc order then store.block_reverse_iterator from to else store.block_iterator from to

  unfoldable pub open_txs : Where TransactionFields → Option Order → Result E TI
  open_txs w order =
      let (from_height, to_height) = bounds 64 (min_max_block_height w) in
      let (from_index, to_index) = bounds 32 (min_max_index w) in
      if is_desc order
      then store.tx_reverse_iterator from_height to_height from_index to_index
      else store.tx_iterator from_height to_height from_index to_index

  module _ (match_string : String → String → Option Bool) where
    unfoldable pub get_blocks :
        (B → Block) → (ℕ → Bool) → ℕ → Where BlockFields → Option Order → Option (Answer E Block)
    get_blocks new_block done fuel w order = opened (open_blocks w order) (
        query_loop store.blocks new_block (eval_block match_string w) max_elements_per_query done
          fuel 0 [])

    unfoldable pub one_transaction :
        (T → Transaction) → Where TransactionFields → Result E T → Answer E Transaction
    one_transaction new_transaction w (err e) = record {
      elements = [];
      error = some e;
      report = none;
    }
    one_transaction new_transaction w (ok tx) =
        if eval_transaction match_string w (new_transaction tx)
        then record { elements = new_transaction tx ∷ []; error = none; report = none }
        else record { elements = []; error = none; report = none }

    unfoldable pub get_transactions :
        (T → Transaction)
        → (ℕ → Bool)
        → ℕ
        → Where TransactionFields
        → Option Order
        → Option (Answer E Transaction)
    get_transactions new_transaction done fuel w order = elim (looked_up_hash w) [
      | some h ↦ some (one_transaction new_transaction w (store.get_tx_by_hash h))
      | none ↦ opened (open_txs w order) (
          query_loop store.txs new_transaction (eval_transaction match_string w)
            max_elements_per_query done fuel 0 [])
    ]
