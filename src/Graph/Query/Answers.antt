-- ===== src/Graph/Query/Answers.antt =====
-- What the resolvers' loop answers.
use mathlib.Core.List.{append-nil, append_assoc}
use tx_indexer.Base.{
  ℕ, zero, suc, ◌+◌, ◌-◌, ◌≤◌, ◌<◌, ◌≡◌, refl, sym, ap, subst, ◌∙◌, Bool, true, false, Option, none,
  some, List, [], ◌∷◌, ◌++◌, Result, ok, err, ◌==◌, leb, inl, inr, if◌then◌else◌, Bool-cases, arith,
  map, keep, take, length, All, All-append,
}
use tx_indexer.Graph.Query.{
  Iterator, max_reached, Answer, Round, returns, goes_on, collect, read_value, query_round,
  query_loop,
}

rejected :
    {A C : Type 0} (accept : C → Bool) (convert : A → C) (inside : A → Bool)
    → ((a : A) → accept (convert a) ≡ true → inside a ≡ true)
    → (x : A) → inside x ≡ false
    → accept (convert x) ≡ false
rejected accept convert inside f x n = elim (Bool-cases (accept (convert x))) [
  | inl y ↦ absurd (let i = f x y in ground arith)
  | inr m ↦ m
]

pub keep_range :
    {A C : Type 0} (accept : C → Bool) (convert : A → C) (inside : A → Bool)
    → ((a : A) → accept (convert a) ≡ true → inside a ≡ true)
    → (xs : List A) → keep accept (map convert (keep inside xs)) ≡ keep accept (map convert xs)
unfolding keep
keep_range accept convert inside f [] = refl
keep_range {C = C} accept convert inside f (x ∷ xs) = elim (Bool-cases (inside x)) [
  | inl y ↦
      rw (y, keep)
        (elim (Bool-cases (accept (convert x))) [
          | inl hit ↦
              rw hit (ap {B = List C} (λ r. convert x ∷ r) (keep_range accept convert inside f xs))
          | inr miss ↦ rw miss (keep_range accept convert inside f xs)
        ])
  | inr n ↦ rw (n, rejected accept convert inside f x n) (keep_range accept convert inside f xs)
]

pub keep_shorter : {A : Type 0} (p : A → Bool) (xs : List A) → length (keep p xs) ≤ length xs
unfolding keep
keep_shorter p [] = omega arith
keep_shorter p (x ∷ xs) = ground (arith, keep_shorter p xs)

module _ {I E A : Type 0} (it : Iterator I E A) where
  -- From this state the iterator gives these values and then ends with this error.
  unfoldable pub Yields : List (Result E A) → Option E → I → Type 0
  Yields [] e s = ((it.next s).0 ≡ false) × (it.error (it.next s).1 ≡ e)
  Yields (v ∷ vs) e s =
      ((it.next s).0 ≡ true) × (it.value (it.next s).1 ≡ v) × Yields vs e (it.next s).1

module _ {I E A B : Type 0} (it : Iterator I E A) (convert : A → B) (accept : B → Bool)
    (max_elements : ℕ) where
  abbrev pub Accepted : Answer E B → Type 0
  Accepted a = (length a.elements ≤ max_elements) × All (λ b. accept b ≡ true) a.elements

  -- A round of an iterator that has a value leaves the answer within its limits.
  abbrev Within : Round I E B → I → Type 0
  Within (returns a) s = Accepted a
  Within (goes_on i out s') s =
      (length out ≡ i) × (i ≤ max_elements) × All (λ b. accept b ≡ true) out × (s' ≡ s)

  append_length : (out : List B) (b : B) → length (out ++ (b ∷ [])) ≡ length out + 1
  append_length [] b = refl
  append_length (x ∷ xs) b = ground (arith, append_length xs b)

  collect-Within :
      (i : ℕ) (out : List B) (b : B) (s : I)
      → length out ≡ i
      → i < max_elements
      → All (λ x. accept x ≡ true) out
      → Within (collect it convert accept max_elements i out b s) s
  unfolding collect
  collect-Within i out b s len room all = elim (Bool-cases (accept b)) [
    | inl y ↦ rw y (
      append_length out b ∙ ap (λ n. n + 1) len,
      omega arith,
      All-append (λ x. accept x ≡ true) out (b ∷ []) all (y, tt),
      refl,
    )
    | inr n ↦ rw n (len, omega arith, all, refl)
  ]

  read-Within :
      (done : Bool) (v : Result E A) (i : ℕ) (out : List B) (s : I)
      → it.value s ≡ v
      → length out ≡ i
      → i < max_elements
      → All (λ x. accept x ≡ true) out
      → Within (read_value it convert accept max_elements done i out s) s
  unfolding read_value
  read-Within true v i out s h len room all = (omega (arith, len), all)
  read-Within false (err e) i out s h len room all = rw (h, Within) (omega (arith, len), all)
  read-Within false (ok a) i out s h len room all =
      rw (h, Within) (collect-Within i out (convert a) s len room all)

  round_end :
      (done : Bool) (i : ℕ) (out : List B) (s : I)
      → (it.next s).0 ≡ false
      → length out ≡ i
      → i ≤ max_elements
      → All (λ x. accept x ≡ true) out
      → (a : Answer E B) × (query_round it convert accept max_elements done i out s ≡ returns a)
        × Accepted a
  unfolding query_round
  round_end done i out s h len room all = elim (Bool-cases (i == max_elements)) [
    | inl y ↦ rw y (
      record { elements = out; error = none; report = some max_reached },
      refl,
      (omega (arith, len), all),
    )
    | inr n ↦
        rw (n, h)
          (
            record { elements = out; error = it.error (it.next s).1; report = none },
            refl,
            (omega (arith, len), all),
          )
  ]

  round_step :
      (done : Bool) (v : Result E A) (i : ℕ) (out : List B) (s : I)
      → (it.next s).0 ≡ true
      → it.value (it.next s).1 ≡ v
      → length out ≡ i
      → i ≤ max_elements
      → All (λ x. accept x ≡ true) out
      → Within (query_round it convert accept max_elements done i out s) (it.next s).1
  unfolding query_round
  round_step done v i out s h hv len room all = elim (Bool-cases (i == max_elements)) [
    | inl y ↦ rw y (omega (arith, len), all)
    | inr n ↦ rw (n, h) (read-Within done v i out (it.next s).1 hv len (ground arith) all)
  ]

  -- Whatever values an iterator gives before it ends, whatever error it ends with, and whenever the
  -- context is cancelled: with more fuel than there are values the loop returns, and it returns at
  -- most the limit, only elements that pass the filter.
  pub query_loop-Accepted :
      (done : ℕ → Bool) (n i : ℕ) (out : List B) (vs : List (Result E A)) (e : Option E) (s : I)
      → Yields it vs e s
      → length vs < n
      → length out ≡ i
      → i ≤ max_elements
      → All (λ x. accept x ≡ true) out
      → (a : Answer E B) × (query_loop it convert accept max_elements done n i out s ≡ some a)
        × Accepted a
  unfolding query_loop Yields
  query_loop-Accepted done zero i out vs e s y f len room all = absurd (omega arith)
  query_loop-Accepted done (suc n) i out [] e s y f len room all =
      let (a, r, ok_a) = round_end (done n) i out s y.0 len room all in
      (a, rw (r, query_loop) refl, ok_a)
  query_loop-Accepted done (suc n) i out (v ∷ vs) e s y f len room all =
      go (query_round it convert accept max_elements (done n) i out s) refl
        (round_step (done n) v i out s y.0 y.1 len room all)
        (λ i' out' s'. query_loop-Accepted done n i' out' vs e s')
    where
      go :
          (r : Round I E B)
          → query_round it convert accept max_elements (done n) i out s ≡ r
          → Within r (it.next s).1
          → ((i' : ℕ) (out' : List B) (s' : I)
              → Yields it vs e s'
              → length vs < n
              → length out' ≡ i'
              → i' ≤ max_elements
              → All (λ x. accept x ≡ true) out'
              → (a : Answer E B) × (query_loop it convert accept max_elements done n i' out' s'
                  ≡ some a)
                × Accepted a)
          → (a : Answer E B) × (query_loop it convert accept max_elements done (suc n) i out s
              ≡ some a)
            × Accepted a
      go (returns a) h w ih = (a, rw (h, query_loop) refl, w)
      go (goes_on i' out' s') h w ih =
          rw (h, query_loop)
            (ih i' out' s' (subst (Yields it vs e) (sym w.3) y.2) (omega (arith, f)) w.0 w.1 w.2)

  -- What is to be answered once `i` elements are in `out` and those that pass from here on are `kept`.
  abbrev pub expected : ℕ → List B → List B → Option E → Answer E B
  expected i out kept e = record {
    elements = out ++ take (max_elements - i) kept;
    error = if leb max_elements (i + length kept) then none else e;
    report = if leb max_elements (i + length kept) then some max_reached else none;
  }

  take-nil : (n : ℕ) → take {A = B} n [] ≡ []
  take-nil zero = refl
  take-nil (suc n) = refl

  expected_full :
      (i : ℕ) (out kept : List B) (e : Option E)
      → i ≡ max_elements
      → expected i out kept e ≡ record { elements = out; error = none; report = some max_reached }
  expected_full i out kept e h =
      rw (zero_left, leb_full)
        (ap (λ o. record { elements = o; error = none; report = some max_reached })
          (append-nil out))
    where
      zero_left : max_elements - i ≡ 0
      zero_left = omega arith

      leb_full : leb max_elements (i + length kept) ≡ true
      leb_full = ground arith

  expected_end :
      (i : ℕ) (out : List B) (e : Option E)
      → i < max_elements
      → expected i out [] e ≡ record { elements = out; error = e; report = none }
  expected_end i out e h =
      rw (leb_short, take-nil (max_elements - i))
        (ap (λ o. record { elements = o; error = e; report = none }) (append-nil out))
    where
      leb_short : leb max_elements (i + 0) ≡ false
      leb_short = ground arith

  expected_hit :
      (i : ℕ) (out kept : List B) (b : B) (e : Option E)
      → i < max_elements
      → expected (i + 1) (out ++ (b ∷ [])) kept e ≡ expected i out (b ∷ kept) e
  expected_hit i out kept b e h =
      rw (one_more, same_count, append_assoc out (b ∷ []) (take (max_elements - (i + 1)) kept)) refl
    where
      one_more : max_elements - i ≡ suc (max_elements - (i + 1))
      one_more = omega arith

      same_count : i + 1 + length kept ≡ i + suc (length kept)
      same_count = omega arith

  -- With more fuel than the iterator has values, each of which can be read, and a context that is
  -- not cancelled, the answer is the elements that pass the filter, in order, cut off at the limit;
  -- if there are fewer than the limit, nothing is reported and the iterator's error is returned, and
  -- else the limit is reported.
  pub query_loop-keep :
      (n i : ℕ) (out : List B) (xs : List A) (e : Option E) (s : I)
      → Yields it (map ok xs) e s
      → length xs < n
      → i ≤ max_elements
      → query_loop it convert accept max_elements (λ _. false) n i out s
        ≡ some (expected i out (keep accept (map convert xs)) e)
  unfolding query_loop Yields query_round read_value collect keep
  query_loop-keep zero i out xs e s y f room = absurd (omega arith)
  query_loop-keep (suc n) i out [] e s y f room = elim (Bool-cases (i == max_elements)) [
    | inl full ↦ rw (full, query_loop) (ap some (sym (expected_full i out [] e (ground arith))))
    | inr miss ↦
        rw (miss, y.0, y.1, query_loop) (ap some (sym (expected_end i out e (ground arith))))
  ]
  query_loop-keep (suc n) i out (x ∷ xs) e s y f room = elim (Bool-cases (i == max_elements)) [
    | inl full ↦
        rw (full, query_loop)
          (ap some
            (sym (expected_full i out (keep accept (map convert (x ∷ xs))) e (ground arith))))
    | inr miss ↦ elim (Bool-cases (accept (convert x))) [
      | inl hit ↦
          rw (miss, y.0, y.1, hit, query_loop)
            (query_loop-keep n (i + 1) (out ++ (convert x ∷ [])) xs e (it.next s).1 y.2
                (omega (arith, f)) (ground arith)
              ∙ ap some
                  (expected_hit i out (keep accept (map convert xs)) (convert x) e (ground arith)))
      | inr no_hit ↦
          rw (miss, y.0, y.1, no_hit, query_loop)
            (query_loop-keep n i out xs e (it.next s).1 y.2 (omega (arith, f)) room)
    ]
  ]
