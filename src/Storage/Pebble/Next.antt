-- ===== src/Storage/Pebble/Next.antt =====
-- Next of the transaction iterators of storage/pebble.go, in either direction: where it stops, and
-- that its loop ends.
use tx_indexer.Base.{
  ℕ, zero, suc, ◌<◌, ◌≡◌, refl, sym, ap, ◌∙◌, Bool, true, false, ◌&&◌, List, [], ◌∷◌, some, ok, err,
  inl, inr, arith, ltb, leb, if◌then◌else◌, Bool-cases, length, All, is_cons, tail,
}
use tx_indexer.Storage.Encode.{Bytes}
use tx_indexer.Storage.Engine.{Entry, WalkLaws}
use tx_indexer.Storage.Pebble.{TxIter, key_tx_index, tx_iter_position, tx_iter_move}

-- The first entry that passes, and all that follow it; and the entries that pass.
unfoldable pub drop_until : (Entry → Bool) → List Entry → List Entry
drop_until p [] = []
drop_until p (x ∷ xs) = if p x then x ∷ xs else drop_until p xs

-- The index test of Next, on an entry.
pub in_index_range : ℕ → ℕ → Entry → Bool
in_index_range from to x = elim (key_tx_index x.0) [
  | err _ ↦ false
  | ok idx ↦ leb from idx && ltb idx to
]

pub drop_until_hit :
    (p : Entry → Bool) (x : Entry) (xs : List Entry) → p x ≡ true → drop_until p (x ∷ xs) ≡ x ∷ xs
unfolding drop_until
drop_until_hit p x xs h = rw h

pub drop_until_skip :
    (p : Entry → Bool) (x : Entry) (xs : List Entry)
    → p x ≡ false
    → drop_until p (x ∷ xs) ≡ drop_until p xs
unfolding drop_until
drop_until_skip p x xs h = rw h

pub in_index_range_lem :
    (from to : ℕ) (k v : Bytes) (j : ℕ)
    → key_tx_index k ≡ ok j
    → in_index_range from to (k, v) ≡ (leb from j && ltb j to)
unfolding in_index_range
in_index_range_lem from to k v j q = rw (q, in_index_range)

abbrev pub HasIndex : Entry → Type 0
HasIndex x = (j : ℕ) × (key_tx_index x.0 ≡ ok j)

module _ {I : Type 0} {start step : I → Bool × I} {valid : I → Bool} {key value : I → Bytes}
    {listed : I → List Entry} (w : WalkLaws I start step valid key value listed) where
  -- What is still to come: everything before the first call, and then what stands behind the
  -- position.
  unfoldable pub upcoming : TxIter I → List Entry
  upcoming it = if it.init then tail (w.ahead it.i) else listed it.i

  abbrev moved : TxIter I → Bool × TxIter I
  moved = tx_iter_position start step key

  pub upcoming_started : (it : TxIter I) → it.init ≡ true → upcoming it ≡ tail (w.ahead it.i)
  unfolding upcoming
  upcoming_started it h = rw h

  position-ahead : (it : TxIter I) → w.ahead (moved it).1.i ≡ upcoming it
  unfolding tx_iter_position upcoming
  position-ahead it = ground (arith, w.step_ahead it.i, w.start_ahead it.i)

  position-found : (it : TxIter I) → (moved it).0 ≡ is_cons (upcoming it)
  unfolding tx_iter_position upcoming
  position-found it = ground (arith, w.step_found it.i, w.start_found it.i)

  position-init : (it : TxIter I) → (moved it).0 ≡ true → (moved it).1.init ≡ true
  unfolding tx_iter_position
  position-init it h = ground arith

  upcoming-moved :
      (it : TxIter I) (x : Entry) (r : List Entry) → upcoming it ≡ x ∷ r → upcoming (moved it).1 ≡ r
  upcoming-moved it x r e =
      rw (upcoming_started (moved it).1 (position-init it (position-found it ∙ ap is_cons e)))
        (ap tail (position-ahead it ∙ e))

  position-bounds :
      (it : TxIter I)
      → ((moved it).1.from_index ≡ it.from_index) × ((moved it).1.to_index ≡ it.to_index)
  unfolding tx_iter_position
  position-bounds it = ground arith

  -- Next stops at `it'`, at the first upcoming entry whose index is in range, or past the end.
  pub record Stops (it : TxIter I) (found : Bool) (it' : TxIter I) : Type 0 where
    pub ahead : w.ahead it'.i ≡ drop_until (in_index_range it.from_index it.to_index) (upcoming it)
    pub found_lem :
        found ≡ is_cons (drop_until (in_index_range it.from_index it.to_index) (upcoming it))
    pub started : found ≡ true → it'.init ≡ true
    pub from_index : it'.from_index ≡ it.from_index
    pub to_index : it'.to_index ≡ it.to_index

  move_end :
      (fuel : ℕ) (it : TxIter I)
      → (moved it).0 ≡ false
      → tx_iter_move start step key (suc fuel) it ≡ some (false, (moved it).1)
  unfolding tx_iter_move
  move_end fuel it h = rw h

  move_hit :
      (fuel : ℕ) (it : TxIter I) (j : ℕ)
      → (moved it).0 ≡ true
      → key_tx_index (key (moved it).1.i) ≡ ok j
      → (leb it.from_index j && ltb j it.to_index) ≡ true
      → tx_iter_move start step key (suc fuel) it ≡ some (true, (moved it).1)
  unfolding tx_iter_move
  move_hit fuel it j h q t = rw h (rw q (rw t))

  move_skip :
      (fuel : ℕ) (it : TxIter I) (j : ℕ)
      → (moved it).0 ≡ true
      → key_tx_index (key (moved it).1.i) ≡ ok j
      → (leb it.from_index j && ltb j it.to_index) ≡ false
      → tx_iter_move start step key (suc fuel) it ≡ tx_iter_move start step key fuel (moved it).1
  unfolding tx_iter_move
  move_skip fuel it j h q t = rw h (rw q (rw t))

  abbrev passes : TxIter I → Entry → Bool
  passes it = in_index_range it.from_index it.to_index

  abbrev Stopped : ℕ → TxIter I → Type 0
  Stopped fuel it =
      (found : Bool) × (it' : TxIter I) × (tx_iter_move start step key fuel it ≡ some (found, it'))
      × Stops it found it'

  stops_at_end : (fuel : ℕ) (it : TxIter I) → upcoming it ≡ [] → Stopped (suc fuel) it
  unfolding drop_until
  stops_at_end fuel it e = (
    false,
    (moved it).1,
    move_end fuel it (position-found it ∙ ap is_cons e),
    record {
      ahead = position-ahead it ∙ rw e;
      found_lem = rw e;
      started = λ h. cc;
      from_index = (position-bounds it).0;
      to_index = (position-bounds it).1;
    },
  )

  stops_at_hit :
      (fuel : ℕ) (it : TxIter I) (k v : Bytes) (r : List Entry) (j : ℕ)
      → upcoming it ≡ (k, v) ∷ r
      → key_tx_index k ≡ ok j
      → (leb it.from_index j && ltb j it.to_index) ≡ true
      → Stopped (suc fuel) it
  stops_at_hit fuel it k v r j e q t = (
    true,
    (moved it).1,
    move_hit fuel it j found key_index t,
    record {
      ahead = position-ahead it ∙ e ∙ sym kept;
      found_lem = ap is_cons (sym kept);
      started = λ h. position-init it found;
      from_index = (position-bounds it).0;
      to_index = (position-bounds it).1;
    },
  )
    where
      found : (moved it).0 ≡ true
      found = position-found it ∙ ap is_cons e

      key_index : key_tx_index (key (moved it).1.i) ≡ ok j
      key_index = ap key_tx_index (w.at_entry (moved it).1.i k v r (position-ahead it ∙ e)).0 ∙ q

      kept : drop_until (passes it) (upcoming it) ≡ (k, v) ∷ r
      kept =
          ap (drop_until (passes it)) e
          ∙ drop_until_hit (passes it) (k, v) r
              (in_index_range_lem it.from_index it.to_index k v j q ∙ t)

  stops_later :
      (fuel : ℕ) (it : TxIter I) (k v : Bytes) (r : List Entry) (j : ℕ)
      → upcoming it ≡ (k, v) ∷ r
      → key_tx_index k ≡ ok j
      → (leb it.from_index j && ltb j it.to_index) ≡ false
      → Stopped fuel (moved it).1
      → Stopped (suc fuel) it
  stops_later fuel it k v r j e q t (found', it', run, s) = (
    found',
    it',
    move_skip fuel it j found key_index t ∙ run,
    record {
      ahead = s.ahead ∙ same;
      found_lem = s.found_lem ∙ ap is_cons same;
      started = s.started;
      from_index = s.from_index ∙ (position-bounds it).0;
      to_index = s.to_index ∙ (position-bounds it).1;
    },
  )
    where
      found : (moved it).0 ≡ true
      found = position-found it ∙ ap is_cons e

      key_index : key_tx_index (key (moved it).1.i) ≡ ok j
      key_index = ap key_tx_index (w.at_entry (moved it).1.i k v r (position-ahead it ∙ e)).0 ∙ q

      same :
          drop_until (passes (moved it).1) (upcoming (moved it).1)
          ≡ drop_until (passes it) (upcoming it)
      same =
          rw ((position-bounds it).0, (position-bounds it).1, upcoming-moved it (k, v) r e, e)
            (sym (
              drop_until_skip (passes it) (k, v) r
                (in_index_range_lem it.from_index it.to_index k v j q ∙ t)))

  stops_by :
      (fuel : ℕ) (it : TxIter I) (xs : List Entry)
      → upcoming it ≡ xs
      → length xs < fuel
      → All HasIndex xs
      → Stopped fuel it
  stops_by zero it xs e h a = absurd (omega arith)
  stops_by (suc fuel) it [] e h a = stops_at_end fuel it e
  stops_by (suc fuel) it ((k, v) ∷ r) e h ((j, q), a) =
      elim (Bool-cases (leb it.from_index j && ltb j it.to_index)) [
        | inl t ↦ stops_at_hit fuel it k v r j e q t
        | inr t ↦
            stops_later fuel it k v r j e q t
              (stops_by fuel (moved it).1 r (upcoming-moved it (k, v) r e) (omega arith) a)
      ]

  -- With fuel for one round more than there are entries to come, and a transaction's key on each,
  -- Next returns. It answers true and stands at the first upcoming entry whose index is in the
  -- range of the iterator, if there is one, and answers false at the end if there is none. The
  -- range stays as it was.
  pub tx_iter_move-Stops :
      (fuel : ℕ) (it : TxIter I)
      → length (upcoming it) < fuel
      → All HasIndex (upcoming it)
      → (found : Bool) × (it' : TxIter I) × (tx_iter_move start step key fuel it
          ≡ some (found, it'))
        × Stops it found it'
  tx_iter_move-Stops fuel it h a = stops_by fuel it (upcoming it) refl h a
