-- ===== src/Graph/Resolvers/Blocks.antt =====
-- What getBlocks answers, against a store whose iterators list the blocks of a range.
use tx_indexer.Base.{
  keep, ℕ, ◌+◌, ◌-◌, ◌%◌, ◌^◌, ◌≤◌, ◌<◌, ◌≡◌, refl, ap, subst, ◌∙◌, Bool, true, false, ◌&&◌, ◌||◌,
  Option, none, some, List, [], ok, ◌⊎◌, inl, inr, ◌==◌, leb, String, map, length, arith,
  Bool-cases,
}
use tx_indexer.Base.Int.{to_uint, pos, ◌≤ℤ◌}
use tx_indexer.Graph.Where.{Where, IntPtr}
use tx_indexer.Graph.Where.Range.Sound.{AtMost, AtLeast}
use tx_indexer.Graph.Model.{Block}
use tx_indexer.Graph.Filters.Roots.{BlockFields, eval_block, min_max_height}
use tx_indexer.Graph.Filters.Roots.Ranges.{BoundedBy, min_max_height_range}
use tx_indexer.Graph.Query.{max_elements_per_query}
use tx_indexer.Graph.Query.Answers.{keep_range, keep_shorter, Yields, expected, query_loop-keep}
use tx_indexer.Graph.Resolvers.{
  Reader, Order, deref, same_place, bounds, is_desc, opened, open_blocks, get_blocks,
}

-- What an iterator from `from` to `to` shows: 0 stands for no upper bound.
unfoldable pub in_range : ℕ → ℕ → ℕ → Bool
in_range from to h = leb from h && (to == 0 || leb h to)

-- A bound that is not negative, within an int.
abbrev pub Fits : Option IntPtr → Type 0
Fits none = Unit
Fits (some p) = (n : ℕ) × (p.value ≡ pos n) × (n < 2 ^ 63)

lower-Fits :
    (from : Option IntPtr) (h : ℕ) → Fits from → AtMost from (pos h) → to_uint 64 (deref from) ≤ h
unfolding to_uint deref
lower-Fits none h fits at = omega arith
lower-Fits (some p) h (n, v, small) at =
    let low = subst (λ x. x ≤ℤ pos h) v at in rw v (omega arith)

upper-Fits :
    (p : IntPtr) (h : ℕ)
    → Fits (some p)
    → pos h ≤ℤ p.value
    → (to_uint 64 p.value < 2 ^ 63) × (h ≤ to_uint 64 p.value)
unfolding to_uint
upper-Fits p h (n, v, small) at =
    let high = subst (λ x. pos h ≤ℤ x) v at in rw v (omega arith, omega arith)

in_range_lem : (from to h : ℕ) → from ≤ h → (to ≡ 0) ⊎ (h ≤ to) → in_range from to h ≡ true
unfolding in_range
in_range_lem from to h low (inl z) = ground arith
in_range_lem from to h low (inr l) = ground arith

-- The bounds that are passed to the store let every height within the range through.
pub range_lem :
    (from to : Option IntPtr) (h : ℕ)
    → Fits from
    → Fits to
    → AtMost from (pos h)
    → AtLeast to (pos h)
    → in_range (bounds 64 (from, to)).0 (bounds 64 (from, to)).1 h ≡ true
unfolding bounds same_place to_uint deref
range_lem none none h ff ft low high = in_range_lem 0 0 h (lower-Fits none h tt tt) (inl refl)
range_lem (some p) none h ff ft low high =
    in_range_lem (to_uint 64 p.value) 0 h (lower-Fits (some p) h ff low) (inl refl)
range_lem none (some q) h ff ft low high =
    in_range_lem 0 (to_uint 64 q.value) h (lower-Fits none h tt tt) (inr (upper-Fits q h ft high).1)
range_lem (some p) (some q) h ff ft low high =
    let l = lower-Fits (some p) h ff low in
    let u = upper-Fits q h ft high in
    elim (Bool-cases (p.address == q.address)) [
      | inl y ↦ rw y (
          in_range_lem (to_uint 64 p.value) ((to_uint 64 q.value + 1) % 2 ^ 64) h l
            (inr (omega (arith, u.0, u.1))))
      | inr n ↦ rw n (in_range_lem (to_uint 64 p.value) (to_uint 64 q.value) h l (inr u.1))
    ]

small-Fits : (p : IntPtr) → Fits (some p) → to_uint 64 p.value < 2 ^ 63
unfolding to_uint
small-Fits p (n, v, small) = rw v (omega arith)

-- The bounds stay below those that the keys can hold.
pub bounds_small :
    (from to : Option IntPtr)
    → Fits from
    → Fits to
    → ((bounds 64 (from, to)).0 < 2 ^ 64) × ((bounds 64 (from, to)).1 < 2 ^ 64 - 1)
unfolding bounds same_place to_uint deref
bounds_small none none ff ft = (omega arith, omega arith)
bounds_small none (some q) ff ft = (omega arith, let u = small-Fits q ft in omega (arith, u))
bounds_small (some p) none ff ft = (let l = small-Fits p ff in omega (arith, l), omega arith)
bounds_small (some p) (some q) ff ft =
    let l = small-Fits p ff in
    let u = small-Fits q ft in
    elim (Bool-cases (p.address == q.address)) [
      | inl y ↦ rw y (omega (arith, l), omega (arith, u))
      | inr n ↦ rw n (omega (arith, l), omega (arith, u))
    ]

module _ {BI TI E B T : Type 0} (store : Reader BI TI E B T) (new_block : B → Block)
    (height_of : B → ℕ) where
  -- The iterators list the stored blocks of the range that they are opened for, each in its order, for
  -- bounds that the store does not wrap around: the last block asked for, plus one, is a uint64.
  pub record Listing : Type 0 where
    pub listed : Bool → List B
    pub height_lem : (b : B) → (new_block b).height ≡ pos (height_of b)
    pub forward :
        (from to : ℕ)
        → from < 2 ^ 64
        → to < 2 ^ 64 - 1
        → (s : BI) × (store.block_iterator from to ≡ ok s)
          × Yields store.blocks
              (map ok (keep (λ b. in_range from to (height_of b)) (listed false)))
              none
              s
    pub backward :
        (from to : ℕ)
        → from < 2 ^ 64
        → to < 2 ^ 64 - 1
        → (s : BI) × (store.block_reverse_iterator from to ≡ ok s)
          × Yields store.blocks
              (map ok (keep (λ b. in_range from to (height_of b)) (listed true)))
              none
              s

  open_lem :
      (l : Listing) (w : Where BlockFields) (order : Option Order)
      → Fits (min_max_height w).0
      → Fits (min_max_height w).1
      → (s : BI) × (open_blocks store w order ≡ ok s)
        × Yields store.blocks
            (map ok (
              keep
                (λ b.
                  in_range
                    (bounds 64 (min_max_height w)).0
                    (bounds 64 (min_max_height w)).1
                    (height_of b))
                (l.listed (is_desc order))))
            none
            s
  unfolding open_blocks
  open_lem l w order low high =
      let (from, to) = bounds 64 (min_max_height w) in
      let small = bounds_small (min_max_height w).0 (min_max_height w).1 low high in
      elim (Bool-cases (is_desc order)) [
        | inl y ↦ rw y (l.backward from to small.0 small.1)
        | inr n ↦ rw n (l.forward from to small.0 small.1)
      ]

  module _ (match_string : String → String → Option Bool) (l : Listing) where
    -- Over iterators that list the stored blocks of each range that does not wrap around, the range that
    -- getBlocks reads off its filter loses nothing: if every alternative of the filter names both bounds
    -- of the height and no bound is negative, then with more fuel than there are blocks and no
    -- cancellation it answers the blocks of the whole store that the filter accepts, in the order asked
    -- for and up to the limit, and reports nothing but the limit.
    pub get_blocks-whole :
        (fuel : ℕ) (w : Where BlockFields) (order : Option Order)
        → BoundedBy (λ f. f.height) w
        → Fits (min_max_height w).0
        → Fits (min_max_height w).1
        → length (l.listed (is_desc order)) < fuel
        → get_blocks store match_string new_block (λ _. false) fuel w order
          ≡ some (
              expected store.blocks new_block
                (eval_block match_string w)
                max_elements_per_query
                0
                []
                (keep (eval_block match_string w) (map new_block (l.listed (is_desc order))))
                none)
    unfolding get_blocks opened
    get_blocks-whole fuel w order bounded low high f =
        let (s, opens, y) = open_lem l w order low high in
        rw (opens) (
          query_loop-keep store.blocks new_block (eval_block match_string w) max_elements_per_query
            fuel 0 [] (keep inside (l.listed (is_desc order))) none s y
            (omega (arith, f, keep_shorter inside (l.listed (is_desc order)))) (omega arith)
          ∙ ap
              (λ ks. some (
                expected store.blocks new_block (eval_block match_string w) max_elements_per_query 0
                  [] ks none))
              (keep_range (eval_block match_string w) new_block inside inside_lem
                (l.listed (is_desc order))))
      where
        inside : B → Bool
        inside b =
            in_range (bounds 64 (min_max_height w)).0 (bounds 64 (min_max_height w)).1 (height_of b)

        inside_lem : (b : B) → eval_block match_string w (new_block b) ≡ true → inside b ≡ true
        inside_lem b e =
            let (low_b, high_b) = min_max_height_range match_string w (new_block b) bounded e in
            range_lem (min_max_height w).0 (min_max_height w).1 (height_of b) low high
              (subst (AtMost (min_max_height w).0) (l.height_lem b) low_b)
              (subst (AtLeast (min_max_height w).1) (l.height_lem b) high_b)
