-- ===== src/Fetch/Slots/Divide.antt =====
-- The division of gaps into chunks (fetch/slots.go, the last loop of findGaps): it ends, and the
-- chunks follow one another through the gap.
use tx_indexer.Base.{
  ℕ, zero, suc, ◌+◌, ◌-◌, ◌^◌, ◌≤◌, ◌<◌, ◌≡◌, refl, sym, ap, subst, ◌∙◌, dec_le, true, List, [],
  ◌∷◌, ◌++◌, Option, some, inl, inr, arith, ltb, leb, ◌&&◌, if◌then◌else◌, Bool-cases, All,
  All-append,
}
use tx_indexer.Fetch.Slots.{ChunkRange, add_64, sub_64, divide_gap, divide_one, divide_gaps}

-- Ranges that follow one another without a hole, from `i` up to `to`.
abbrev pub Chain : ℕ → ℕ → List ChunkRange → Type 0
Chain i to [] = i ≡ to + 1
Chain i to (r ∷ rs) = (r.from ≡ i) × (r.from ≤ r.to) × (r.to ≤ to) × Chain (r.to + 1) to rs

-- No range is empty, and none is longer than the chunk size.
abbrev pub Sized : ℕ → ChunkRange → Type 0
Sized max_size r = (r.from ≤ r.to) × (r.to < r.from + max_size)

-- How many of the ranges hold `x`, and whether `x` is between two ends.
abbrev pub inside : ℕ → ℕ → ℕ → ℕ
inside from to x = if leb from x && leb x to then 1 else 0

unfoldable pub hits : ℕ → List ChunkRange → ℕ
hits x [] = 0
hits x (r ∷ rs) = inside r.from r.to x + hits x rs

pub hits-append : (x : ℕ) (rs ss : List ChunkRange) → hits x (rs ++ ss) ≡ hits x rs + hits x ss
unfolding hits
hits-append x [] ss = omega arith
hits-append x (r ∷ rs) ss = omega (arith, hits-append x rs ss)

pub hits-Chain : (x i to : ℕ) (rs : List ChunkRange) → Chain i to rs → hits x rs ≡ inside i to x
unfolding hits
hits-Chain x i to [] c = ground arith
hits-Chain x i to (r ∷ rs) c = ground (arith, hits-Chain x (r.to + 1) to rs c.3)

pub Chain-le : (i to : ℕ) (rs : List ChunkRange) → Chain i to rs → i ≤ to + 1
Chain-le i to [] c = omega arith
Chain-le i to (r ∷ rs) c = omega (arith, Chain-le (r.to + 1) to rs c.3)

pub Chain-append :
    (i m to : ℕ) (rs ss : List ChunkRange)
    → Chain i m rs
    → Chain (m + 1) to ss
    → Chain i to (rs ++ ss)
Chain-append i m to [] ss c d = rw c d
Chain-append i m to (r ∷ rs) ss c d =
    (c.0, c.1, omega (arith, Chain-le (m + 1) to ss d), Chain-append (r.to + 1) m to rs ss c.3 d)

module _ (max_size : ℕ) (gap : ChunkRange) (positive : 0 < max_size)
    (fits : gap.to + max_size < 2 ^ 64) where
  abbrev first : ℕ → ChunkRange
  first i = record {
    from = i;
    to = if ltb gap.to (i + max_size - 1) then gap.to else i + max_size - 1;
  }

  divide_end : (fuel i : ℕ) → gap.to < i → divide_gap (suc fuel) max_size gap i ≡ some []
  unfolding divide_gap
  divide_end fuel i h = ground arith

  divide_end_pos : (fuel i : ℕ) → 0 < fuel → gap.to < i → divide_gap fuel max_size gap i ≡ some []
  divide_end_pos zero i p h = absurd (omega arith)
  divide_end_pos (suc fuel) i p h = divide_end fuel i h

  first_Sized : (i : ℕ) → i ≤ gap.to → Sized max_size (first i)
  first_Sized i h = ground arith

  abbrev pub Divided : ℕ → ℕ → Type 0
  Divided fuel i =
      (ds : List ChunkRange) × (divide_gap fuel max_size gap i ≡ some ds)
      × Chain i gap.to ds
      × All (Sized max_size) ds

  divide_step :
      (fuel i : ℕ) (ds : List ChunkRange)
      → i ≤ gap.to
      → divide_gap fuel max_size gap (i + max_size) ≡ some ds
      → divide_gap (suc fuel) max_size gap i ≡ some (first i ∷ ds)
  unfolding divide_gap
  divide_step fuel i ds h e = rw in_gap (rw next_i (rw e (rw new_to)))
    where
      in_gap : leb i gap.to ≡ true
      in_gap = ground arith

      next_i : add_64 i max_size ≡ i + max_size
      next_i = omega arith

      new_to : sub_64 (add_64 i max_size) 1 ≡ i + max_size - 1
      new_to = omega arith

  -- The loop ends, and cuts the rest of the gap.
  pub divide_gap-Chain : (fuel i : ℕ) → i ≤ gap.to → gap.to + 1 < fuel + i → Divided fuel i
  divide_gap-Chain zero i h f = absurd (omega arith)
  divide_gap-Chain (suc fuel) i h f = elim (dec_le (i + max_size) gap.to) [
    | yes more ↦
        let (ds, run, chain, sized) = divide_gap-Chain fuel (i + max_size) more (omega arith) in
        (
          first i ∷ ds,
          divide_step fuel i ds h run,
          (
            refl,
            ground arith,
            ground arith,
            subst (λ k. Chain k gap.to ds) (sym (next_from more)) chain,
          ),
          (first_Sized i h, sized),
        )
    | no last ↦ (
      first i ∷ [],
      divide_step fuel i [] h (ended last f),
      (refl, ground arith, ground arith, ground arith),
      (first_Sized i h, tt),
    )
  ]
    where
      next_from : i + max_size ≤ gap.to → (first i).to + 1 ≡ i + max_size
      next_from m = ground arith

      ended :
          ¬ (i + max_size ≤ gap.to)
          → gap.to + 1 < suc fuel + i
          → divide_gap fuel max_size gap (i + max_size) ≡ some []
      ended n g = divide_end_pos fuel (i + max_size) (omega arith) (omega arith)

abbrev pub Divisible : ℕ → ℕ → ChunkRange → Type 0
Divisible fuel max_size g = (g.from ≤ g.to) × (g.to + max_size < 2 ^ 64) × (g.to + 1 < fuel)

pub short_gap :
    (max_size : ℕ) (g : ChunkRange)
    → g.from ≤ g.to
    → g.to + 1 < 2 ^ 64
    → leb (add_64 (sub_64 g.to g.from) 1) max_size ≡ leb (g.to - g.from + 1) max_size
short_gap max_size g h k = ap (λ n. leb n max_size) (omega arith)

-- Chunks that hold what their gaps hold, and fit their size.
abbrev Divides : ℕ → List ChunkRange → Option (List ChunkRange) → Type 0
Divides max_size gaps r =
    (ds : List ChunkRange) × (r ≡ some ds)
    × ((x : ℕ) → hits x ds ≡ hits x gaps)
    × All (Sized max_size) ds

divide_one_lem :
    (fuel max_size : ℕ) (g : ChunkRange)
    → 0 < max_size
    → Divisible fuel max_size g
    → Divides max_size (g ∷ []) (divide_one fuel max_size g)
unfolding divide_one hits
divide_one_lem fuel max_size g p a = elim (Bool-cases (leb (g.to - g.from + 1) max_size)) [
  | inl short ↦ (
    g ∷ [],
    rw (short_gap max_size g a.0 (omega arith) ∙ short) refl,
    λ x. refl,
    ((a.0, ground arith), tt),
  )
  | inr long ↦
      let (ds, cut, chain, small) =
        divide_gap-Chain max_size g p a.1 fuel g.from a.0 (omega arith) in
      (
        ds,
        rw (short_gap max_size g a.0 (omega arith) ∙ long) cut,
        λ x. omega (arith, hits-Chain x g.from g.to ds chain),
        small,
      )
]

divide_cons :
    (fuel max_size : ℕ) (g : ChunkRange) (gs : List ChunkRange)
    → Divides max_size (g ∷ []) (divide_one fuel max_size g)
    → Divides max_size gs (divide_gaps fuel max_size gs)
    → Divides max_size (g ∷ gs) (divide_gaps fuel max_size (g ∷ gs))
unfolding divide_gaps hits
divide_cons fuel max_size g gs (ds, cut, held, small) (rest, run, same, sized) = (
  ds ++ rest,
  rw (cut, divide_gaps) (rw run),
  λ x. omega (arith, hits-append x ds rest, held x, same x),
  All-append (Sized max_size) ds rest small sized,
)

-- All gaps are divided: what they hold is what the chunks hold, and every chunk fits its size.
pub divide_gaps_lem :
    (fuel max_size : ℕ) (gaps : List ChunkRange)
    → 0 < max_size
    → All (Divisible fuel max_size) gaps
    → (ds : List ChunkRange) × (divide_gaps fuel max_size gaps ≡ some ds)
      × ((x : ℕ) → hits x ds ≡ hits x gaps)
      × All (Sized max_size) ds
divide_gaps_lem fuel max_size [] p a = unfold divide_gaps in ([], refl, λ x. refl, tt)
divide_gaps_lem fuel max_size (g ∷ gs) p (a, as_) =
    divide_cons fuel max_size g gs (divide_one_lem fuel max_size g p a)
      (divide_gaps_lem fuel max_size gs p as_)
