-- ===== src/Storage/Pebble/Visits.antt =====
-- The callers' loop over a transaction iterator, `for it.Next()`: the entries that it visits.
use tx_indexer.Base.{
  ℕ, zero, suc, ◌<◌, ◌≡◌, refl, sym, ap, subst, ◌∙◌, Bool, true, false, List, [], ◌∷◌, Option, none,
  some, inl, inr, arith, if◌then◌else◌, Bool-cases, length, All, is_cons, tail, map,
}
use tx_indexer.Storage.Encode.{Bytes}
use tx_indexer.Storage.Engine.{Entry, WalkLaws}
use tx_indexer.Storage.Pebble.{TxIter, tx_iter_move}
use tx_indexer.Storage.Pebble.Next.{
  in_index_range, drop_until, drop_until_hit, drop_until_skip, HasIndex, upcoming, upcoming_started,
  Stops, tx_iter_move-Stops,
}

-- The entries that pass.
pub keep : (Entry → Bool) → List Entry → List Entry
keep p [] = []
keep p (x ∷ xs) = if p x then x ∷ keep p xs else keep p xs

-- What a stop at the first entry that passes leaves to the next call.
record Splits (p : Entry → Bool) (xs : List Entry) (x : Entry) (r : List Entry) : Type 0 where
  kept : keep p xs ≡ x ∷ keep p r
  shorter : length r < length xs
  indexed : All HasIndex xs → All HasIndex r

Splits-here :
    (p : Entry → Bool) (y : Entry) (ys : List Entry) (x : Entry) (r : List Entry)
    → p y ≡ true
    → ◌≡◌ {A = List Entry} (y ∷ ys) (x ∷ r)
    → Splits p (y ∷ ys) x r
unfolding keep
Splits-here p y ys x r hit e = record {
  kept = ground arith;
  shorter = ground arith;
  indexed = λ a. subst (All HasIndex) (ap tail e) a.1;
}

Splits-later :
    (p : Entry → Bool) (y : Entry) (ys : List Entry) (x : Entry) (r : List Entry)
    → p y ≡ false
    → Splits p ys x r
    → Splits p (y ∷ ys) x r
unfolding keep
Splits-later p y ys x r miss s = record {
  kept = rw miss s.kept;
  shorter = omega (arith, s.shorter);
  indexed = λ a. s.indexed a.1;
}

keep-Splits :
    (p : Entry → Bool) (xs : List Entry) (x : Entry) (r : List Entry)
    → drop_until p xs ≡ x ∷ r
    → Splits p xs x r
unfolding drop_until keep
keep-Splits p [] x r h = absurd (cc)
keep-Splits p (y ∷ ys) x r h = elim (Bool-cases (p y)) [
  | inl hit ↦ Splits-here p y ys x r hit (sym (drop_until_hit p y ys hit) ∙ h)
  | inr miss ↦
      Splits-later p y ys x r miss (keep-Splits p ys x r (sym (drop_until_skip p y ys miss) ∙ h))
]

keep_none : (p : Entry → Bool) (xs : List Entry) → drop_until p xs ≡ [] → keep p xs ≡ []
unfolding drop_until keep
keep_none p [] h = refl
keep_none p (y ∷ ys) h = ground (arith, keep_none p ys)

module _ {I : Type 0} (start step : I → Bool × I) (key : I → Bytes) (fuel : ℕ) where
  -- The keys at which the loop stops, for at most so many rounds.
  pub visits : ℕ → TxIter I → Option (List Bytes)
  visits zero it = none
  visits (suc n) it = elim (tx_iter_move start step key fuel it) [
    | none ↦ none
    | some (false, it') ↦ some []
    | some (true, it') ↦ elim (visits n it') [ none ↦ none | some ks ↦ some (key it'.i ∷ ks) ]
  ]

module _ {I : Type 0} {start step : I → Bool × I} {valid : I → Bool} {key value : I → Bytes}
    {listed : I → List Entry} (w : WalkLaws I start step valid key value listed) (fuel : ℕ) where
  abbrev keys_kept : TxIter I → List Bytes
  keys_kept it = map (λ x. x.0) (keep (in_index_range it.from_index it.to_index) (upcoming w it))

  abbrev passing : TxIter I → Entry → Bool
  passing it = in_index_range it.from_index it.to_index

  upcoming_hit :
      (it it' : TxIter I) (found : Bool) (x : Entry) (r : List Entry)
      → Stops w it found it'
      → drop_until (passing it) (upcoming w it) ≡ x ∷ r
      → upcoming w it' ≡ r
  upcoming_hit it it' found x r s d =
      upcoming_started w it' (s.started (s.found_lem ∙ ap is_cons d)) ∙ ap tail (s.ahead ∙ d)

  visits_end :
      (n : ℕ) (it it' : TxIter I) (found : Bool)
      → tx_iter_move start step key fuel it ≡ some (found, it')
      → Stops w it found it'
      → drop_until (passing it) (upcoming w it) ≡ []
      → visits start step key fuel (suc n) it ≡ some (keys_kept it)
  unfolding visits
  visits_end n it it' found run s d =
      rw (run ∙ ap (λ b. some (b, it')) (s.found_lem ∙ ap is_cons d), visits)
        (rw (keep_none (passing it) (upcoming w it) d))

  visits_hit :
      (n : ℕ) (it it' : TxIter I) (found : Bool) (x : Entry) (r : List Entry)
      → tx_iter_move start step key fuel it ≡ some (found, it')
      → Stops w it found it'
      → drop_until (passing it) (upcoming w it) ≡ x ∷ r
      → visits start step key fuel n it' ≡ some (keys_kept it')
      → visits start step key fuel (suc n) it ≡ some (keys_kept it)
  unfolding visits
  visits_hit n it it' found x r run s d rest =
      rw (run ∙ ap (λ b. some (b, it')) (s.found_lem ∙ ap is_cons d), visits)
        (rw (
          rest,
          same_key,
          up,
          s.from_index,
          s.to_index,
          (keep-Splits (passing it) (upcoming w it) x r d).kept,
        ))
    where
      same_key : key it'.i ≡ x.0
      same_key = (w.at_entry it'.i x.0 x.1 r (s.ahead ∙ d)).0

      up : upcoming w it' ≡ r
      up = upcoming_hit it it' found x r s d

  -- With enough fuel for the walk, the loop over Next ends, and it visits the upcoming entries whose
  -- index is in range, each once and in their order.
  pub visits-keep :
      (n : ℕ) (it : TxIter I)
      → length (upcoming w it) < n
      → length (upcoming w it) < fuel
      → All HasIndex (upcoming w it)
      → visits start step key fuel n it ≡ some (keys_kept it)
  visits-keep zero it h f a = absurd (omega arith)
  visits-keep (suc n) it h f a =
      let (found, it', run, s) = tx_iter_move-Stops w fuel it f a in
      go found it' run s (drop_until (passing it) (upcoming w it)) refl (visits-keep n it')
    where
      go :
          (found : Bool) (it' : TxIter I)
          → tx_iter_move start step key fuel it ≡ some (found, it')
          → Stops w it found it'
          → (xs : List Entry) → drop_until (passing it) (upcoming w it) ≡ xs
          → (length (upcoming w it') < n
              → length (upcoming w it') < fuel
              → All HasIndex (upcoming w it')
              → visits start step key fuel n it' ≡ some (keys_kept it'))
          → visits start step key fuel (suc n) it ≡ some (keys_kept it)
      go found it' run s [] d ih = visits_end n it it' found run s d
      go found it' run s (x ∷ r) d ih =
          let sp = keep-Splits (passing it) (upcoming w it) x r d in
          let up = upcoming_hit it it' found x r s d in
          visits_hit n it it' found x r run s d (
            ih (omega (arith, sp.shorter, ap length up)) (omega (arith, sp.shorter, ap length up))
              (subst (All HasIndex) (sym up) (sp.indexed a)))
