-- ===== src/Serve/Gas/Bounds.antt =====
-- The gas prices are in order, for positive fees.
use native.Mathlib.Nat.{mul-le-mul_right, le-div_iff_mul-le, div-le_of_le-mul}
use tx_indexer.Base.{
  ℕ, zero, suc, ◌+◌, ◌*◌, ◌/◌, ◌^◌, ◌≤◌, ◌<◌, ◌≡◌, refl, ap, ◌∙◌, Option, some, List, [], ◌∷◌,
  if◌then◌else◌, String, str_eq, leb, Bool-cases, Option-cases, inl, inr, All, length, arith,
}
use tx_indexer.Base.Int.{ℤ, pos, ◌≤ℤ◌, add64, div64, to_uint, to_int}
use tx_indexer.Chain.{Tx, Block}
use tx_indexer.Graph.Model.{Coin}
use tx_indexer.Serve.Gas.{
  GasFeeTotalInfo, GasPrice, no_info, max_ℤ, min_with_default, absorb, Table, update,
  modify_aggregated_info, aggregate, calculate_gas_prices, add_fees, calculate_gas_fee_per_block,
  add_blocks, get_gas_prices_by_blocks,
}

add64_lem : (t a : ℕ) → t + a < 2 ^ 63 → add64 (pos t) (pos a) ≡ pos (t + a)
unfolding add64 to_uint to_int
add64_lem t a h = ground arith

min_ℕ : ℕ → ℕ → ℕ
min_ℕ a b = if leb a b then a else b

max_ℕ : ℕ → ℕ → ℕ
max_ℕ a b = if leb a b then b else a

min_lem : (l m c t a : ℕ) → l * c ≤ t → m ≤ a → min_ℕ l m * suc c ≤ t + a
unfolding min_ℕ
min_lem l m c t a h k = elim (Bool-cases (leb l m)) [
  | inl y ↦ rw y (grind arith)
  | inr n ↦ rw n (let p = mul-le-mul_right {m = m} {n = l} c (ground arith) in grind (arith, p))
]

max_lem : (l m c t a : ℕ) → t ≤ l * c → a ≤ m → t + a ≤ max_ℕ l m * suc c
unfolding max_ℕ
max_lem l m c t a h k = elim (Bool-cases (leb l m)) [
  | inl y ↦ rw y (let p = mul-le-mul_right {m = l} {n = m} c (ground arith) in grind (arith, p))
  | inr n ↦ rw n (grind arith)
]

-- An entry after at least one and at most `n` amounts, each positive and at most `top`: the total is
-- between the lowest and the highest amount times the count.
record Good (top n : ℕ) (info : GasFeeTotalInfo) : Type 0 where
  l : ℕ
  h : ℕ
  t : ℕ
  low_lem : info.low ≡ pos l
  high_lem : info.high ≡ pos h
  total_lem : info.total_amount ≡ pos t
  positive : 0 < l
  ordered : l ≤ h
  below_top : h ≤ top
  counted : 0 < info.total_count
  count_at_most : info.total_count ≤ n
  total_above : l * info.total_count ≤ t
  total_below : t ≤ h * info.total_count

Good-mono : (top n m : ℕ) (info : GasFeeTotalInfo) → n ≤ m → Good top n info → Good top m info
Good-mono top n m info le g = record {
  l = g.l;
  h = g.h;
  t = g.t;
  low_lem = g.low_lem;
  high_lem = g.high_lem;
  total_lem = g.total_lem;
  positive = g.positive;
  ordered = g.ordered;
  below_top = g.below_top;
  counted = g.counted;
  count_at_most = omega (arith, g.count_at_most);
  total_above = g.total_above;
  total_below = g.total_below;
}

total_small : (top n c h t : ℕ) → t ≤ h * c → h ≤ top → c ≤ n → t ≤ n * top
total_small top n c h t a b d =
    let p = mul-le-mul_right {m = h} {n = top} c b in
    let q = mul-le-mul_right {m = c} {n = n} top d in grind (arith, p, q)

min_default_lem : (l m : ℕ) → 0 < l → min_with_default (pos l) (pos m) ≡ pos (min_ℕ l m)
unfolding min_with_default min_ℕ
min_default_lem l m h = ground arith

max_ℤ_lem : (l m : ℕ) → max_ℤ (pos l) (pos m) ≡ pos (max_ℕ l m)
unfolding max_ℕ
max_ℤ_lem l m = ground arith

no_info-Good :
    (top l h a : ℕ)
    → 0 < l
    → l ≤ a
    → a ≤ h
    → h ≤ top
    → top < 2 ^ 63
    → Good top 1 (absorb no_info (pos l) (pos h) (pos a))
unfolding absorb min_with_default
no_info-Good top l h a p q r s small = record {
  l = l;
  h = h;
  t = a;
  low_lem = refl;
  high_lem = ground arith;
  total_lem = add64_lem 0 a (omega arith) ∙ ap pos (omega arith);
  positive = p;
  ordered = omega arith;
  below_top = s;
  counted = omega arith;
  count_at_most = omega arith;
  total_above = omega arith;
  total_below = omega arith;
}

absorb-Good :
    (top n l h a : ℕ) (info : GasFeeTotalInfo)
    → Good top n info
    → 0 < l
    → l ≤ a
    → a ≤ h
    → h ≤ top
    → suc n * top < 2 ^ 63
    → Good top (suc n) (absorb info (pos l) (pos h) (pos a))
unfolding absorb min_ℕ max_ℕ
absorb-Good top n l h a info g p q r s small = record {
  l = min_ℕ g.l l;
  h = max_ℕ g.h h;
  t = g.t + a;
  low_lem = ap (λ x. min_with_default x (pos l)) g.low_lem ∙ min_default_lem g.l l g.positive;
  high_lem = ap (λ x. max_ℤ x (pos h)) g.high_lem ∙ max_ℤ_lem g.h h;
  total_lem = ap (λ x. add64 x (pos a)) g.total_lem ∙ add64_lem g.t a sum_small;
  positive = (let x = g.positive in ground arith);
  ordered = (let x = g.ordered in ground arith);
  below_top = (let x = g.below_top in ground arith);
  counted = omega arith;
  count_at_most = omega (arith, g.count_at_most);
  total_above = min_lem g.l l info.total_count g.t a g.total_above q;
  total_below = max_lem g.h h info.total_count g.t a g.total_below r;
}
  where
    sum_small : g.t + a < 2 ^ 63
    sum_small =
        let x =
          total_small top n info.total_count g.h g.t g.total_below g.below_top g.count_at_most in
        grind (arith, x)

abbrev GoodTable : ℕ → ℕ → Table → Type 0
GoodTable top n = All (λ e. Good top n e.1)

GoodTable-mono :
    (top n m : ℕ) (table : Table) → n ≤ m → GoodTable top n table → GoodTable top m table
GoodTable-mono top n m [] le g = tt
GoodTable-mono top n m (e ∷ table) le g =
    (Good-mono top n m e.1 le g.0, GoodTable-mono top n m table le g.1)

update-GoodTable :
    (denom : String) (top n l h a : ℕ) (table : Table)
    → GoodTable top n table
    → 0 < l
    → l ≤ a
    → a ≤ h
    → h ≤ top
    → suc n * top < 2 ^ 63
    → GoodTable top (suc n) (update denom (pos l) (pos h) (pos a) table)
unfolding update
update-GoodTable denom top n l h a [] g p q r s small = (
  Good-mono top 1 (suc n) (absorb no_info (pos l) (pos h) (pos a)) (omega arith)
      (no_info-Good top l h a p q r s (grind arith)),
  tt,
)
update-GoodTable denom top n l h a ((d, info) ∷ table) g p q r s small =
    elim (Bool-cases (str_eq d denom)) [
      | inl y ↦ rw y (
        absorb-Good top n l h a info g.0 p q r s small,
        GoodTable-mono top n (suc n) table (omega arith) g.1,
      )
      | inr no_match ↦ rw no_match (
        Good-mono top n (suc n) info (omega arith) g.0,
        update-GoodTable denom top n l h a table g.1 p q r s small,
      )
    ]

div_lem :
    (t c l h : ℕ)
    → 0 < c
    → l * c ≤ t
    → t ≤ h * c
    → (a : ℕ) × (div64 (pos t) c ≡ some (pos a)) × (l ≤ a) × (a ≤ h)
unfolding div64
div_lem t zero l h p lo hi = absurd (omega arith)
div_lem t (suc d) l h p lo hi =
    (t / suc d, refl, (le-div_iff_mul-le p).1 lo, div-le_of_le-mul (suc d) (grind (arith, hi)))

-- The division of an entry's total by its count is between its lowest and highest amount.
average_lem :
    (top n : ℕ) (info : GasFeeTotalInfo) (g : Good top n info)
    → (a : ℕ) × (div64 info.total_amount info.total_count ≡ some (pos a)) × (g.l ≤ a) × (a ≤ g.h)
average_lem top n info g =
    rw g.total_lem (div_lem g.t info.total_count g.l g.h g.counted g.total_above g.total_below)

modify-GoodTable :
    (top n k : ℕ) (table : Table) (entry : String × GasFeeTotalInfo)
    → GoodTable top n table
    → Good top k entry.1
    → suc n * top < 2 ^ 63
    → (table' : Table) × (modify_aggregated_info table entry ≡ some table')
      × GoodTable top (suc n) table'
unfolding modify_aggregated_info
modify-GoodTable top n k table (denom, info) gt g small =
    let (a, e, lo, hi) = average_lem top k info g in
    rw (e, g.low_lem, g.high_lem, modify_aggregated_info)
      (
        update denom (pos g.l) (pos g.h) (pos a) table,
        refl,
        update-GoodTable denom top n g.l g.h a table gt g.positive lo hi g.below_top small,
      )

aggregate-GoodTable :
    (top n k : ℕ) (table entries : Table)
    → GoodTable top n table
    → GoodTable top k entries
    → (n + length entries) * top < 2 ^ 63
    → (table' : Table) × (aggregate table entries ≡ some table')
      × GoodTable top (n + length entries) table'
unfolding aggregate
aggregate-GoodTable top n k table [] gt ge small =
    (table, refl, GoodTable-mono top n (n + 0) table (omega arith) gt)
aggregate-GoodTable top n k table (entry ∷ entries) gt ge small =
    let (table1, e, g1) = modify-GoodTable top n k table entry gt ge.0 (grind (arith)) in
    let (table2, f, g2) =
      aggregate-GoodTable top (suc n) k table1 entries g1 ge.1 (grind (arith)) in
    rw (e, aggregate)
      (
        table2,
        f,
        GoodTable-mono top (suc n + length entries) (n + suc (length entries)) table2 (omega arith)
            g2,
      )

length-update :
    (denom : String) (l h a : ℤ) (table : Table)
    → length (update denom l h a table) ≤ suc (length table)
unfolding update
length-update denom l h a [] = omega arith
length-update denom l h a ((d, info) ∷ table) = ground (arith, length-update denom l h a table)

-- The fee of a transaction, if it can be decoded, is positive and at most `top`.
abbrev pub Fees : (Tx → Option Coin) → ℕ → List Tx → Type 0
Fees decode_fee top = All (λ tx.
    (fee : Coin) → decode_fee tx ≡ some fee → (a : ℕ) × (fee.amount ≡ pos a) × (0 < a) × (a ≤ top))

abbrev pub FeesOfBlocks : (Tx → Option Coin) → ℕ → List Block → Type 0
FeesOfBlocks decode_fee top = All (λ b. Fees decode_fee top b.txs)

abbrev pub number_of_txs : List Block → ℕ
number_of_txs [] = 0
number_of_txs (b ∷ blocks) = length b.txs + number_of_txs blocks

abbrev pub Ordered : GasPrice → Type 0
Ordered p = (p.low ≤ℤ p.average) × (p.average ≤ℤ p.high)

calculate-Ordered :
    (top n : ℕ) (table : Table) → GoodTable top n table → All Ordered (calculate_gas_prices table)
unfolding calculate_gas_prices
calculate-Ordered top n [] g = tt
calculate-Ordered top n ((denom, info) ∷ table) g =
    let (a, e, lo, hi) = average_lem top n info g.0 in
    rw (e, calculate_gas_prices, g.0.low_lem, g.0.high_lem)
      ((omega (arith, lo), omega (arith, hi)), calculate-Ordered top n table g.1)

module _ (decode_fee : Tx → Option Coin) where
  add_fees-GoodTable :
      (top n : ℕ) (table : Table) (txs : List Tx)
      → GoodTable top n table
      → Fees decode_fee top txs
      → (n + length txs) * top < 2 ^ 63
      → GoodTable top (n + length txs) (add_fees decode_fee table txs)
        × (length (add_fees decode_fee table txs) ≤ length table + length txs)
  unfolding add_fees
  add_fees-GoodTable top n table [] g f small =
      (GoodTable-mono top n (n + 0) table (omega arith) g, omega arith)
  add_fees-GoodTable top n table (tx ∷ txs) g f small = elim (Option-cases (decode_fee tx)) [
    | inl e ↦
        rw (e, add_fees)
          (let r = add_fees-GoodTable top n table txs g f.1 (grind arith) in
            (
              GoodTable-mono top (n + length txs) (n + suc (length txs))
                  (add_fees decode_fee table txs) (omega arith) r.0,
              omega (arith, r.1),
            ))
    | inr (fee, e) ↦
        let (a, q, p, t) = f.0 fee e in
        let longer = length-update fee.denom (pos a) (pos a) (pos a) table in
        rw (e, q, add_fees)
          (let r =
              add_fees-GoodTable top (suc n) (update fee.denom (pos a) (pos a) (pos a) table) txs
                (update-GoodTable fee.denom top n a a a table g p (omega arith) (omega arith) t
                  (grind arith))
                f.1 (grind arith) in
            (
              GoodTable-mono top (suc n + length txs) (n + suc (length txs))
                  (add_fees decode_fee (update fee.denom (pos a) (pos a) (pos a) table) txs)
                  (omega arith) r.0,
              omega (arith, r.1, longer),
            ))
  ]

  add_blocks-GoodTable :
      (top n : ℕ) (table : Table) (blocks : List Block)
      → GoodTable top n table
      → FeesOfBlocks decode_fee top blocks
      → (n + number_of_txs blocks) * top < 2 ^ 63
      → (table' : Table) × (add_blocks decode_fee table blocks ≡ some table')
        × GoodTable top (n + number_of_txs blocks) table'
  unfolding add_blocks calculate_gas_fee_per_block
  add_blocks-GoodTable top n table [] g f small =
      (table, refl, GoodTable-mono top n (n + 0) table (omega arith) g)
  add_blocks-GoodTable top n table (b ∷ blocks) g f small =
      let (good, short) = add_fees-GoodTable top 0 [] b.txs tt f.0 (grind arith) in
      let (table1, e, g1) =
        aggregate-GoodTable top n (length b.txs) table (add_fees decode_fee [] b.txs) g
          (GoodTable-mono top (0 + length b.txs) (length b.txs) (add_fees decode_fee [] b.txs)
            (omega arith) good)
          (let m =
              mul-le-mul_right {m = n + length (add_fees decode_fee [] b.txs)}
                {n = n + number_of_txs (b ∷ blocks)} top (omega (arith, short)) in
            grind (arith, m, small)) in
      let (table2, h, g2) =
        add_blocks-GoodTable top (n + length b.txs) table1 blocks
          (GoodTable-mono top (n + length (add_fees decode_fee [] b.txs)) (n + length b.txs) table1
            (omega (arith, short)) g1)
          f.1 (grind arith) in
      rw (e, add_blocks)
        (
          table2,
          h,
          GoodTable-mono top (n + length b.txs + number_of_txs blocks)
              (n + (length b.txs + number_of_txs blocks)) table2 (omega arith) g2,
        )

  -- If every fee that can be decoded is positive and at most `top`, and `top` times the number of
  -- transactions is below 2 ^ 63, then the gas prices of the blocks are computed, without a division
  -- by 0, and each is in order: the lowest is at most the average, and that at most the highest.
  pub get_gas_prices_by_blocks-Ordered :
      (top : ℕ) (blocks : List Block)
      → FeesOfBlocks decode_fee top blocks
      → number_of_txs blocks * top < 2 ^ 63
      → (prices : List GasPrice) × (get_gas_prices_by_blocks decode_fee blocks ≡ some prices)
        × All Ordered prices
  unfolding get_gas_prices_by_blocks
  get_gas_prices_by_blocks-Ordered top blocks f small =
      let (table, e, g) = add_blocks-GoodTable top 0 [] blocks tt f (grind arith) in
      rw (e, get_gas_prices_by_blocks)
        (calculate_gas_prices table, refl, calculate-Ordered top (0 + number_of_txs blocks) table g)
