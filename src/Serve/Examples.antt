-- ===== src/Serve/Examples.antt =====
-- The theorems about gas prices and about the dispatch of requests, at concrete inputs.
pub mod Clients
use tx_indexer.Base.{◌+◌, ◌≡◌, refl, Bool, Option, none, some, List, [], ◌∷◌, String, All, arith}
use tx_indexer.Base.Int.{pos}
use tx_indexer.Chain.{Tx, Block}
use tx_indexer.Graph.Model.{Coin}
use tx_indexer.Serve.Gas.{GasPrice, get_gas_prices_by_blocks}
use tx_indexer.Base.{ℕ, Result, ok, err, map, str_eq, if◌then◌else◌, Bool, true, false, inl, inr}
use tx_indexer.Graph.Query.{Iterator}
use tx_indexer.Graph.Query.Answers.{Yields}
use tx_indexer.Serve.Gas.Handler.{get_gas_price_by, get_gas_price_by-none}
use tx_indexer.Serve.Rpc.{
  Request, Response, Metadata, Handler, Handlers, Written, handle_request, find_handler,
  add_handler, remove_handler,
}
use tx_indexer.Serve.Rpc.Responses.{FitAll, Writes, handle_request-FitAll, handle_request-none}
use tx_indexer.Serve.Rpc.Registry.{find_handler-registered}
use tx_indexer.Serve.Gas.Bounds.{Ordered, FeesOfBlocks, get_gas_prices_by_blocks-Ordered}

-- A transaction of one byte pays as many ugnot; other bytes are no transaction.
abbrev fee_of : Tx → Option Coin
fee_of [] = none
fee_of (n ∷ ns) = some (record { denom = "ugnot"; amount = pos n })

abbrev block_of : List Tx → Block
block_of txs = record {
  header = record { height = 1; num_txs = 2; total_txs = 2; time = 0; chain_id = [] };
  txs = txs;
}

abbrev two_blocks : List Block
two_blocks = block_of ((5 ∷ []) ∷ (8 ∷ []) ∷ []) ∷ block_of ((3 ∷ []) ∷ [] ∷ []) ∷ []

fee_lem : (n : ℕ) (fee : Coin) → fee_of (n ∷ []) ≡ some fee → fee.amount ≡ pos n
fee_lem n fee e = cc

two_blocks-Fees : FeesOfBlocks fee_of 8 two_blocks
two_blocks-Fees = (
  (
    (λ fee e. (5, fee_lem 5 fee e, omega arith, omega arith)),
    ((λ fee e. (8, fee_lem 8 fee e, omega arith, omega arith)), tt),
  ),
  (((λ fee e. (3, fee_lem 3 fee e, omega arith, omega arith)), ((λ fee e. absurd (cc)), tt)), tt),
)

get_gas_prices_by_blocks-Ordered_example :
    (prices : List GasPrice) × (get_gas_prices_by_blocks fee_of two_blocks ≡ some prices)
    × All Ordered prices
get_gas_prices_by_blocks-Ordered_example =
    get_gas_prices_by_blocks-Ordered fee_of 8 two_blocks two_blocks-Fees (omega arith)

-- A walk through values, some of which cannot be read.
abbrev Values : Type 0
Values = List (Result String Block)

abbrev move : Values × Values → Bool × (Values × Values)
move (c, []) = (false, ([], []))
move (c, v ∷ vs) = (true, (v ∷ [], vs))

abbrev current : Values × Values → Result String Block
current ([], vs) = err "no element"
current (v ∷ c, vs) = v

abbrev walking : Iterator (Values × Values) String Block
walking = record { next = move; value = current; error = λ _. none }

abbrev one_broken : Values
one_broken = ok (block_of ((5 ∷ []) ∷ [])) ∷ err "broken" ∷ []

get_gas_price_by-none_example :
    get_gas_price_by (λ from to. ok ([], one_broken)) walking fee_of 3 1 9 ≡ some (ok none)
unfolding Yields
get_gas_price_by-none_example =
    get_gas_price_by-none (λ from to. ok ([], one_broken)) walking fee_of 3 1 9 ([], one_broken)
      (block_of ((5 ∷ []) ∷ []) ∷ []) "broken" [] none refl (refl, refl, (refl, refl, (refl, refl)))
      (omega arith)

-- A handler that counts its calls, and one that refuses.
abbrev counting : Handler ℕ ℕ
counting s m ps = ((some s, none), s + 1)

abbrev refusing : Handler ℕ ℕ
refusing s m ps = ((some s, some (record { message = "no"; code = pos 1 })), s)

abbrev methods : Handlers ℕ ℕ
methods = ("count", counting) ∷ ("refuse", refusing) ∷ []

abbrev local : Metadata
local = record { remote_addr = "127.0.0.1"; web_socket_id = none }

abbrev request_of : ℕ → String → Request ℕ
request_of id method = record { jsonrpc = "2.0"; id = id; method = method; params = [] }

abbrev batch_of_three : List (Request ℕ)
batch_of_three = request_of 7 "count" ∷ request_of 8 "refuse" ∷ request_of 9 "count" ∷ []

handle_request-FitAll_example :
    (responses : List (Response ℕ)) × (written : Written ℕ) × (s' : ℕ) × (handle_request methods
        local 0
        (map some batch_of_three)
      ≡ some (written, s'))
    × FitAll methods local 0 batch_of_three responses s'
    × Writes methods local responses written
handle_request-FitAll_example = handle_request-FitAll methods local 0 batch_of_three

handle_request-none_example :
    handle_request methods local 0 (some (request_of 7 "count") ∷ none ∷ []) ≡ none
handle_request-none_example =
    handle_request-none methods local 0 (some (request_of 7 "count") ∷ none ∷ []) (inr (inl refl))
