-- ===== src/Graph/Query.antt =====
-- The loop of the resolvers in serve/graph/all.resolvers.go: over an iterator of the store, with a
-- filter, a limit on the answers and a context that may be cancelled.
pub mod Answers
use tx_indexer.Base.{
  ℕ, zero, suc, ◌+◌, Bool, true, false, Option, none, some, List, [], ◌∷◌, ◌++◌, Result, ok, err,
  ◌==◌, if◌then◌else◌,
}

-- The interface Iterator of storage/types.go, without Close.
pub record Iterator (I E A : Type 0) : Type 0 where
  pub next : I → Bool × I
  pub value : I → Result E A
  pub error : I → Option E

-- What is added to the answer's errors.
pub data Report (E : Type 0) : Type 0 where
  max_reached : Report E
  cancelled : Report E
  failed : E → Report E

-- What a resolver returns, and the errors that it adds.
pub record Answer (E B : Type 0) : Type 0 where
  pub elements : List B
  pub error : Option E
  pub report : Option (Report E)

-- A round returns, or goes on with the loop's variables.
pub data Round (I E B : Type 0) : Type 0 where
  returns : Answer E B → Round I E B
  goes_on : ℕ → List B → I → Round I E B

abbrev pub max_elements_per_query : ℕ
max_elements_per_query = 10000

module _ {I E A B : Type 0} (it : Iterator I E A) (convert : A → B) (accept : B → Bool)
    (max_elements : ℕ) where
  -- `append` and the counter, for an element that passes.
  unfoldable pub collect : ℕ → List B → B → I → Round I E B
  collect i out b s = if accept b then goes_on (i + 1) (out ++ (b ∷ [])) s else goes_on i out s

  unfoldable pub read_value : Bool → ℕ → List B → I → Round I E B
  read_value true i out s =
      returns (record { elements = out; error = none; report = some cancelled })
  read_value false i out s = elim (it.value s) [
    | err e ↦ returns (record { elements = out; error = none; report = some (failed e) })
    | ok a ↦ collect i out (convert a) s
  ]

  -- The test of the limit comes first, then Next, then the context.
  unfoldable pub query_round : Bool → ℕ → List B → I → Round I E B
  query_round done i out s =
      if i == max_elements
      then returns (record { elements = out; error = none; report = some max_reached })
      else (let (found, s') = it.next s in
          if found
          then read_value done i out s'
          else returns (record { elements = out; error = it.error s'; report = none }))

  -- `done n` tells whether the context is cancelled when `n` rounds of fuel are left. The loop gives
  -- `none` if the fuel runs out.
  unfoldable pub query_loop : (ℕ → Bool) → ℕ → ℕ → List B → I → Option (Answer E B)
  query_loop done zero i out s = none
  query_loop done (suc n) i out s = elim (query_round (done n) i out s) [
    | returns a ↦ some a
    | goes_on i' out' s' ↦ query_loop done n i' out' s'
  ]
