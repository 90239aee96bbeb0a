-- ===== src/Graph/Where/Range.antt =====
-- The MinMax functions of serve/graph/model/filter_methods_gen.go: the smallest lower bound and the
-- largest upper bound that a filter mentions, as pointers to them.
pub mod Sound
use tx_indexer.Base.{
  ◌≢◌, ℕ, List, [], ◌∷◌, Option, none, some, Bool, true, false, if◌then◌else◌, not,
}
use tx_indexer.Base.Int.{ℤ, leb_ℤ}
use tx_indexer.Graph.Where.{Where, Wheres, plain, negated, nil, cons, IntPtr, FilterInt}

-- The tests *s < *min and *s > *max.
abbrev pub less : ℤ → ℤ → Bool
less s m = not (leb_ℤ m s)

abbrev pub greater : ℤ → ℤ → Bool
greater s m = not (leb_ℤ s m)

-- One end of the range, with its test; `own` lists what the filter's own field says of that end.
module _ {F : Type 0} (replaces : ℤ → ℤ → Bool) (own : F → List (Option IntPtr)) where
  -- if s != nil && (best == nil || *s replaces *best) { best = s }
  unfoldable pub pick : Option IntPtr → Option IntPtr → Option IntPtr
  pick best none = best
  pick none (some s) = some s
  pick (some m) (some s) = if replaces s.value m.value then some s else some m

  unfoldable pub pick_own : Option IntPtr → List (Option IntPtr) → Option IntPtr
  pick_own best [] = best
  pick_own best (s ∷ ss) = pick_own (pick best s) ss

  unfoldable mutual
    pub extreme : Where F → Option IntPtr
    extreme (plain conj disj fields) =
        pick_own (extreme_over (extreme_over none conj) disj) (own fields)
    extreme (negated conj disj inverse fields) =
        pick_own (extreme_over (extreme_over none conj) disj) (own fields)

    pub extreme_over : Option IntPtr → Wheres F → Option IntPtr
    extreme_over best nil = best
    extreme_over best (cons w ws) = extreme_over (pick best (extreme w)) ws

  unfoldable mutual
    -- Every alternative of every disjunction, at any depth, names a bound.
    pub Bounded : Where F → Type 0
    Bounded (plain conj disj fields) = BoundedConj conj × BoundedDisj disj
    Bounded (negated conj disj inverse fields) = BoundedConj conj × BoundedDisj disj

    pub BoundedConj : Wheres F → Type 0
    BoundedConj nil = Unit
    BoundedConj (cons w ws) = Bounded w × BoundedConj ws

    pub BoundedDisj : Wheres F → Type 0
    BoundedDisj nil = Unit
    BoundedDisj (cons w ws) = Bounded w × (extreme w ≢ none) × BoundedDisj ws

-- The ends of a field with an optional filter of numbers.
unfoldable pub lower_ends : Option FilterInt → List (Option IntPtr)
lower_ends none = []
lower_ends (some f) = f.gt ∷ f.eq ∷ []

unfoldable pub upper_ends : Option FilterInt → List (Option IntPtr)
upper_ends none = []
upper_ends (some f) = f.lt ∷ f.eq ∷ []

-- (min, max)
unfoldable pub min_max :
    {F : Type 0} → (F → Option FilterInt) → Where F → Option IntPtr × Option IntPtr
min_max of w = (extreme less (λ f. lower_ends (of f)) w, extreme greater (λ f. upper_ends (of f)) w)
