-- ===== src/Serve/Gas/Handler.antt =====
-- serve/handlers/gas/gas.go: the blocks of a range, and the gas prices of them. JSON values are a
-- parameter with `parse_uint`, strconv.ParseUint of the value's text.
use tx_indexer.Base.{
  ℕ, zero, suc, ◌-◌, ◌<◌, ◌≡◌, refl, Option, none, some, List, [], ◌∷◌, ◌++◌, Result, ok, err,
  if◌then◌else◌, String, ltb, length, map, arith,
}
use tx_indexer.Base.Int.{negsuc}
use tx_indexer.Chain.{Tx, Block}
use tx_indexer.Graph.Model.{Coin}
use tx_indexer.Graph.Query.{Iterator}
use tx_indexer.Graph.Query.Answers.{Yields}
use tx_indexer.Serve.Gas.{GasPrice, get_gas_prices_by_blocks}
use tx_indexer.Serve.Rpc.{RpcError, new_json_error}

abbrev default_block_range_size : ℕ
default_block_range_size = 1000

pub initialize_default_block_range_by_height : ℕ → ℕ × ℕ
initialize_default_block_range_by_height latest_height = (
  if ltb default_block_range_size latest_height
      then latest_height - default_block_range_size
      else 0,
  latest_height,
)

-- What the loop over the iterator comes to.
pub data Collected (E : Type 0) : Type 0 where
  all_blocks : List Block → Collected E
  unreadable : E → Collected E

module _ {BI E : Type 0} (it : Iterator BI E Block) where
  -- for it.Next() { … it.Value() … }; `none` means that the fuel ran out.
  unfoldable pub collect_blocks : ℕ → List Block → BI → Option (Collected E)
  collect_blocks zero blocks s = none
  collect_blocks (suc n) blocks s =
      let (found, s') = it.next s in
      if found
      then elim (it.value s') [
        | err e ↦ some (unreadable e)
        | ok block ↦ collect_blocks n (blocks ++ (block ∷ [])) s'
      ]
      else some (all_blocks blocks)

  collect_unreadable :
      (xs : List Block) (e : E) (rest : List (Result E Block)) (end : Option E) (n : ℕ)
      (blocks : List Block) (s : BI)
      → Yields it (map ok xs ++ (err e ∷ rest)) end s
      → length xs < n
      → collect_blocks n blocks s ≡ some (unreadable e)
  unfolding collect_blocks Yields
  collect_unreadable xs e rest end zero blocks s y f = absurd (omega arith)
  collect_unreadable [] e rest end (suc n) blocks s y f = rw (y.0, y.1) refl
  collect_unreadable (x ∷ xs) e rest end (suc n) blocks s y f =
      rw (y.0, y.1)
        (collect_unreadable xs e rest end n (blocks ++ (x ∷ [])) (it.next s).1 y.2
          (omega (arith, f)))

module _ {BI E : Type 0} (open_iterator : ℕ → ℕ → Result E BI) (it : Iterator BI E Block)
    (decode_fee : Tx → Option Coin) where
  -- The value failed: the err that is returned is the one of BlockIterator, which is nil. A nil slice
  -- of prices is `none`.
  unfoldable pub answer_blocks : Collected E → Option (Result E (Option (List GasPrice)))
  answer_blocks (unreadable e) = some (ok none)
  answer_blocks (all_blocks blocks) = elim (get_gas_prices_by_blocks decode_fee blocks) [
    | none ↦ none
    | some prices ↦ some (ok (some prices))
  ]

  -- getGasPriceBy; `none` is the end of the fuel, or a panic.
  unfoldable pub get_gas_price_by : ℕ → ℕ → ℕ → Option (Result E (Option (List GasPrice)))
  get_gas_price_by fuel from_block_num to_block_num =
      elim (open_iterator from_block_num to_block_num) [
        | err e ↦ some (err e)
        | ok s ↦ elim (collect_blocks it fuel [] s) [
          | none ↦ none
          | some collected ↦ answer_blocks collected
        ]
      ]

  -- If a block of the range cannot be read, the answer is nil without an error, whatever the error
  -- is and however many blocks were read before it.
  pub get_gas_price_by-none :
      (fuel from to : ℕ) (s : BI) (xs : List Block) (e : E) (rest : List (Result E Block))
      (end : Option E)
      → open_iterator from to ≡ ok s
      → Yields it (map ok xs ++ (err e ∷ rest)) end s
      → length xs < fuel
      → get_gas_price_by fuel from to ≡ some (ok none)
  unfolding get_gas_price_by answer_blocks
  get_gas_price_by-none fuel from to s xs e rest end o y f =
      rw (o, get_gas_price_by, collect_unreadable it xs e rest end fuel [] s y f) refl

-- ParseUint, or 0 where it fails.
or_zero : Option ℕ → ℕ
or_zero none = 0
or_zero (some n) = n

abbrev invalid_param_count : RpcError
invalid_param_count = new_json_error "Invalid number of parameters" (negsuc 32601)

module _ {BI E V : Type 0} (latest_height : Result E ℕ) (open_iterator : ℕ → ℕ → Result E BI)
    (it : Iterator BI E Block) (decode_fee : Tx → Option Coin) (parse_uint : V → Option ℕ)
    (message : E → String) where
  generate_response_error : E → RpcError
  generate_response_error e = new_json_error (message e) (negsuc 31999)

  lift_result :
      Option (Result E (Option (List GasPrice))) → Option (Result RpcError (Option (List GasPrice)))
  lift_result none = none
  lift_result (some (ok prices)) = some (ok prices)
  lift_result (some (err e)) = some (err (generate_response_error e))

  prices_of : ℕ → ℕ × ℕ → Option (Result RpcError (Option (List GasPrice)))
  prices_of fuel (from_block_num, to_block_num) =
      lift_result (get_gas_price_by open_iterator it decode_fee fuel from_block_num to_block_num)

  -- No parameters, or the two ends of the range.
  pub get_gas_price_handler : ℕ → List V → Option (Result RpcError (Option (List GasPrice)))
  get_gas_price_handler fuel [] = elim latest_height [
    | err e ↦ some (err (generate_response_error e))
    | ok h ↦ prices_of fuel (initialize_default_block_range_by_height h)
  ]
  get_gas_price_handler fuel (from ∷ to ∷ []) =
      prices_of fuel (or_zero (parse_uint from), or_zero (parse_uint to))
  get_gas_price_handler fuel (v ∷ []) = some (err invalid_param_count)
  get_gas_price_handler fuel (u ∷ v ∷ w ∷ ws) = some (err invalid_param_count)
