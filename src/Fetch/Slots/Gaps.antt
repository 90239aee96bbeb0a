-- ===== src/Fetch/Slots/Gaps.antt =====
-- findGaps of fetch/slots.go: the gaps and the reserved ranges together cover the range that was
-- asked for, and no number twice.
use mathlib.Core.List.{map}
use tx_indexer.Base.{
  ℕ, ◌+◌, ◌^◌, ◌≤◌, ◌<◌, ◌≡◌, sym, ap, subst, ◌∙◌, List, [], ◌∷◌, ◌++◌, some, arith, All,
  All-append,
}
use tx_indexer.Fetch.Slots.{
  ChunkRange, Slot, sub_64, gaps_between, last_gap, undivided_gaps, find_gaps,
}
use tx_indexer.Fetch.Slots.Divide.{hits, hits-append, inside, Sized, Divisible, divide_gaps_lem}

abbrev pub ranges : List Slot → List ChunkRange
ranges = map λ s. s.chunk_range

-- The slots are sorted, apart from one another, and within the two ends.
abbrev pub Ordered : ℕ → ℕ → List Slot → Type 0
Ordered lo hi [] = lo ≤ hi + 1
Ordered lo hi (p ∷ ps) =
    (lo ≤ p.chunk_range.from)
    × (p.chunk_range.from ≤ p.chunk_range.to)
    × (p.chunk_range.to ≤ hi)
    × Ordered (p.chunk_range.to + 1) hi ps

abbrev Within : ℕ → ChunkRange → Type 0
Within hi r = (r.from ≤ r.to) × (r.to ≤ hi)

gaps_between_last :
    (prev hi : ℕ) (q : List Slot)
    → Ordered (prev + 1) hi q
    → (prev ≤ (gaps_between prev q).1) × ((gaps_between prev q).1 ≤ hi)
unfolding gaps_between
gaps_between_last prev hi [] o = omega arith
gaps_between_last prev hi (p ∷ ps) o = omega (arith, gaps_between_last p.chunk_range.to hi ps o.3)

gaps_between-Within :
    (prev hi : ℕ) (q : List Slot)
    → hi + 1 < 2 ^ 64
    → Ordered (prev + 1) hi q
    → All (Within hi) (gaps_between prev q).0
unfolding gaps_between
gaps_between-Within prev hi [] f o = tt
gaps_between-Within prev hi (p ∷ ps) f o =
    ground (arith, gaps_between-Within p.chunk_range.to hi ps f o.3)

hits-gaps_between :
    (x prev hi : ℕ) (q : List Slot)
    → hi + 1 < 2 ^ 64
    → Ordered (prev + 1) hi q
    → hits x (gaps_between prev q).0 + hits x (ranges q)
      ≡ inside (prev + 1) (gaps_between prev q).1 x
unfolding gaps_between hits
hits-gaps_between x prev hi [] f o = ground arith
hits-gaps_between x prev hi (p ∷ ps) f o = ground (
  arith,
  hits-gaps_between x p.chunk_range.to hi ps f o.3,
  gaps_between_last p.chunk_range.to hi ps o.3,
)

undivided_empty_Within :
    (start end : ℕ) → start ≤ end → All (Within end) (undivided_gaps [] start end)
unfolding undivided_gaps
undivided_empty_Within start end h = (omega arith, tt)

undivided_empty_hits :
    (x start end : ℕ)
    → hits x (undivided_gaps [] start end) + hits x (ranges []) ≡ inside start end x
unfolding undivided_gaps hits
undivided_empty_hits x start end = omega arith

-- The gaps between the parts, and the one behind the last.
whole : ℕ → ℕ → List Slot → List ChunkRange
whole prev end q = (gaps_between prev q).0 ++ last_gap (gaps_between prev q).1 end

whole-Within :
    (prev end : ℕ) (q : List Slot)
    → end + 1 < 2 ^ 64
    → Ordered (prev + 1) end q
    → All (Within end) (whole prev end q)
unfolding last_gap
whole-Within prev end q f o =
    unfold whole in
    All-append (Within end) (gaps_between prev q).0 (last_gap (gaps_between prev q).1 end)
      (gaps_between-Within prev end q f o) (ground arith)

hits-whole :
    (x prev end : ℕ) (q : List Slot)
    → end + 1 < 2 ^ 64
    → Ordered (prev + 1) end q
    → hits x (whole prev end q) + hits x (ranges q) ≡ inside (prev + 1) end x
unfolding whole last_gap hits
hits-whole x prev end q f o = ground (
  arith,
  hits-append x (gaps_between prev q).0 (last_gap (gaps_between prev q).1 end),
  hits-gaps_between x prev end q f o,
  gaps_between_last prev end q o,
)

start_back : (start : ℕ) → 0 < start → start < 2 ^ 64 → sub_64 start 1 + 1 ≡ start
start_back start h f = omega arith

module _ (q : List Slot) (start end : ℕ) (positive : 0 < start) (fits : end + 1 < 2 ^ 64)
    (some_left : start ≤ end) where
  undivided_gaps-Within : Ordered start end q → All (Within end) (undivided_gaps q start end)
  unfolding undivided_gaps whole
  undivided_gaps-Within o = cases q o
    where
      cases : (r : List Slot) → Ordered start end r → All (Within end) (undivided_gaps r start end)
      cases [] o = undivided_empty_Within start end some_left
      cases (p ∷ ps) o =
          whole-Within (sub_64 start 1) end (p ∷ ps) fits
            (subst (λ n. Ordered n end (p ∷ ps)) (sym (start_back start positive (omega arith))) o)

  hits-undivided_gaps :
      (x : ℕ)
      → Ordered start end q
      → hits x (undivided_gaps q start end) + hits x (ranges q) ≡ inside start end x
  unfolding undivided_gaps whole
  hits-undivided_gaps x o = cases q o
    where
      cases :
          (r : List Slot)
          → Ordered start end r
          → hits x (undivided_gaps r start end) + hits x (ranges r) ≡ inside start end x
      cases [] o = undivided_empty_hits x start end
      cases (p ∷ ps) o =
          hits-whole x (sub_64 start 1) end (p ∷ ps) fits
            (subst (λ n. Ordered n end (p ∷ ps)) (sym (start_back start positive (omega arith))) o)
          ∙ ap (λ n. inside n end x) (start_back start positive (omega arith))

  -- From sorted slots within the range asked for, and with fuel above its end, the search returns.
  -- Each number of the range is in exactly one gap or slot, no other number is in a gap, and no gap
  -- is empty or longer than the chunk size.
  pub find_gaps_partition :
      (fuel max_slots max_size : ℕ)
      → Ordered start end q
      → 0 < max_size
      → end + max_size < 2 ^ 64
      → end + 1 < fuel
      → (gaps : List ChunkRange) × (find_gaps fuel
            (record { queue = q; max_slots = max_slots })
            start
            end
            max_size
          ≡ some gaps)
        × ((x : ℕ) → hits x gaps + hits x (ranges q) ≡ inside start end x)
        × All (Sized max_size) gaps
  unfolding find_gaps
  find_gaps_partition fuel max_slots max_size o p room enough =
      let (ds, run, same, sized) =
        divide_gaps_lem fuel max_size (undivided_gaps q start end) p
          (divisible (undivided_gaps q start end) (undivided_gaps-Within o)) in
      (ds, run, λ x. rw (same x) (hits-undivided_gaps x o), sized)
    where
      divisible : (gs : List ChunkRange) → All (Within end) gs → All (Divisible fuel max_size) gs
      divisible [] a = tt
      divisible (g ∷ gs) a = (omega arith, divisible gs a.1)
