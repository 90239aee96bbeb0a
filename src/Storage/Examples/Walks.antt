-- ===== src/Storage/Examples/Walks.antt =====
-- The theorems about iterators, at concrete inputs: an engine whose database is at most one entry.
pub mod Queries
use Prim.Native.Nat.{Ordering, lt, eq, gt}
use mathlib.Core.List.{reverse}
use tx_indexer.Base.{
  ◌≤◌, ◌≡◌, ◌≢◌, ◌↔◌, subst, refl, sym, ap, ap₂, ◌∙◌, List, [], ◌∷◌, Option, none, some, Result, ok,
  err, Bool, true, false, if◌then◌else◌, Bool-cases, is_cons, tail, inl, inr, arith, In,
}
use tx_indexer.Base.Lex.{bytes_compare}
use tx_indexer.Storage.Encode.{Bytes}
use tx_indexer.Storage.Keys.{key_block, key_tx}
use tx_indexer.Storage.Engine.{GetError, missing, Entry, Engine, WalkLaws, IterLaws}
use tx_indexer.Storage.Examples.{same, same_self, same_sound, NoReason, list_codec}
use tx_indexer.Storage.Pebble.{BlockIter, TxIter, block_iterator, tx_iterator, tx_iter_move}
use tx_indexer.Storage.Pebble.Iterators.{block_iterator_range, tx_iterator_range, Shown, InRange}
use mathlib.Core.List.{map}
use tx_indexer.Storage.Pebble.Iterators.{key_tx_index-key_tx}
use tx_indexer.Storage.Pebble.Visits.{visits, keep, visits-keep}
use tx_indexer.Storage.Pebble.Next.{upcoming, in_index_range, Stops, tx_iter_move-Stops}

get_entry : Option Entry → Bytes → Result (GetError NoReason) Bytes
get_entry none k = err missing
get_entry (some (j, v)) k = if same j k then ok v else err missing

-- The entry, and whether the iterator stands at it.
abbrev Cursor : Type 0
Cursor = Option Entry × Bool

shown : Option Entry → List Entry
shown none = []
shown (some e) = e ∷ []

is_lt : Ordering → Bool
is_lt lt = true
is_lt eq = false
is_lt gt = false

abbrev inside : Entry → Bytes → Bytes → Bool
inside e lower upper =
    if is_lt (bytes_compare e.0 lower) then false else is_lt (bytes_compare e.0 upper)

bounded : Option Entry → Bytes → Bytes → Option Entry
bounded none lower upper = none
bounded (some e) lower upper = if inside e lower upper then some e else none

at_key : Option Entry → Bytes
at_key none = []
at_key (some e) = e.0

at_value : Option Entry → Bytes
at_value none = []
at_value (some e) = e.1

ahead_of : Option Entry → Bool → List Entry
ahead_of o true = shown o
ahead_of o false = []

abbrev entry_engine : Engine
entry_engine = record {
  Db = Option Entry;
  Batch = Unit {0};
  Iter = Cursor;
  Failure = NoReason;
  get = get_entry;
  new_batch = λ db. tt;
  set = λ b k v. (some tt, b);
  commit = λ db b. ok db;
  close = λ b. none;
  new_iter = λ db lower upper. ok (bounded db lower upper, false);
  first = λ i. (is_cons (shown i.0), (i.0, true));
  last = λ i. (is_cons (shown i.0), (i.0, true));
  next = λ i. (false, (i.0, false));
  prev = λ i. (false, (i.0, false));
  valid = λ i. is_cons (ahead_of i.0 i.1);
  key = λ i. at_key i.0;
  value = λ i. at_value i.0;
}

tail_ahead : (o : Option Entry) (b : Bool) → [] ≡ tail (ahead_of o b)
unfolding ahead_of shown
tail_ahead none true = refl
tail_ahead none false = refl
tail_ahead (some e) true = refl
tail_ahead (some e) false = refl

ahead_entry :
    (o : Option Entry) (b : Bool) (k v : Bytes) (r : List Entry)
    → ahead_of o b ≡ (k, v) ∷ r
    → (at_key o ≡ k) × (at_value o ≡ v)
unfolding ahead_of shown at_key at_value
ahead_entry none true k v r h = absurd (ground arith)
ahead_entry o false k v r h = absurd (ground arith)
ahead_entry (some e) true k v r h = (ground arith, ground arith)

reverse-shown : (o : Option Entry) → reverse (shown o) ≡ shown o
unfolding shown
reverse-shown none = refl
reverse-shown (some e) = refl

forward_laws :
    WalkLaws Cursor
      (λ i. (is_cons (shown i.0), (i.0, true)))
      (λ i. (false, (i.0, false)))
      (λ i. is_cons (ahead_of i.0 i.1))
      (λ i. at_key i.0)
      (λ i. at_value i.0)
      (λ i. shown i.0)
unfolding ahead_of
forward_laws = record {
  ahead = λ i. ahead_of i.0 i.1;
  start_ahead = λ i. refl;
  start_found = λ i. refl;
  step_ahead = λ i. tail_ahead i.0 i.1;
  step_found = λ i. ap is_cons (tail_ahead i.0 i.1);
  valid_ahead = λ i. refl;
  at_entry = λ i k v r h. ahead_entry i.0 i.1 k v r h;
}

backward_laws :
    WalkLaws Cursor
      (λ i. (is_cons (shown i.0), (i.0, true)))
      (λ i. (false, (i.0, false)))
      (λ i. is_cons (ahead_of i.0 i.1))
      (λ i. at_key i.0)
      (λ i. at_value i.0)
      (λ i. reverse (shown i.0))
unfolding ahead_of
backward_laws = record {
  ahead = λ i. ahead_of i.0 i.1;
  start_ahead = λ i. sym (reverse-shown i.0);
  start_found = λ i. ap is_cons (sym (reverse-shown i.0));
  step_ahead = λ i. tail_ahead i.0 i.1;
  step_found = λ i. ap is_cons (tail_ahead i.0 i.1);
  valid_ahead = λ i. refl;
  at_entry = λ i k v r h. ahead_entry i.0 i.1 k v r h;
}

inside_iff :
    (o p : Ordering) → ((if is_lt o then false else is_lt p) ≡ true) ↔ ((o ≢ lt) × (p ≡ lt))
unfolding is_lt
inside_iff lt p = (λ h. absurd (ground arith), λ h. absurd (h.0 refl))
inside_iff eq lt = (λ h. (λ e. absurd (ground arith), refl), λ h. refl)
inside_iff eq eq = (λ h. absurd (ground arith), λ h. absurd (ground (arith, h.1)))
inside_iff eq gt = (λ h. absurd (ground arith), λ h. absurd (ground (arith, h.1)))
inside_iff gt lt = (λ h. (λ e. absurd (ground arith), refl), λ h. refl)
inside_iff gt eq = (λ h. absurd (ground arith), λ h. absurd (ground (arith, h.1)))
inside_iff gt gt = (λ h. absurd (ground arith), λ h. absurd (ground (arith, h.1)))

kept_iff :
    (b : Bool) (e d : Entry) → In d (shown (if b then some e else none)) ↔ ((b ≡ true) × (d ≡ e))
unfolding shown
kept_iff true e d = (λ m. elim m [ inl q ↦ (refl, q) | inr n ↦ absurd n ], λ h. inl h.1)
kept_iff false e d = (λ m. absurd m, λ h. absurd (ground (arith, h.0)))

iter_of : Result NoReason Cursor → Cursor
iter_of (ok i) = i
iter_of (err e) = (none, false)

get_entry_self : (k v : Bytes) → get_entry (some (k, v)) k ≡ ok v
unfolding get_entry
get_entry_self k v = rw (same_self k)

bounded_sound :
    (db : Option Entry) (lower upper k v : Bytes)
    → In (k, v) (shown (bounded db lower upper))
    → (get_entry db k ≡ ok v) × (bytes_compare k lower ≢ lt) × (bytes_compare k upper ≡ lt)
unfolding bounded shown get_entry
bounded_sound none lower upper k v m = absurd m
bounded_sound (some e) lower upper k v m =
    let kept = (kept_iff (inside e lower upper) e (k, v)).0 m in
    let here = ap (λ d. d.0) kept.1 in
    let (low, high) = (inside_iff (bytes_compare e.0 lower) (bytes_compare e.0 upper)).0 kept.0 in
    (
      ap (λ j. if same e.0 j then ok e.1 else err missing) here
          ∙ rw (same_self e.0) (ap (λ d. ok d.1) (sym kept.1)),
      (λ q. low (ap (λ j. bytes_compare j lower) (sym here) ∙ q)),
      ap (λ j. bytes_compare j upper) here ∙ high,
    )

bounded_complete :
    (db : Option Entry) (lower upper k v : Bytes)
    → get_entry db k ≡ ok v
    → bytes_compare k lower ≢ lt
    → bytes_compare k upper ≡ lt
    → In (k, v) (shown (bounded db lower upper))
unfolding bounded shown get_entry
bounded_complete none lower upper k v g a b = absurd (ground arith)
bounded_complete (some e) lower upper k v g a b = elim (Bool-cases (same e.0 k)) [
  | inl y ↦
      let here = same_sound e.0 k y in
      let stored : e.1 ≡ v = ground arith in
      (kept_iff (inside e lower upper) e (k, v)).1 (
        (inside_iff (bytes_compare e.0 lower) (bytes_compare e.0 upper)).1 (
          (λ q. a (ap (λ j. bytes_compare j lower) (sym here) ∙ q)),
          ap (λ j. bytes_compare j upper) here ∙ b,
        ),
        ap₂ (λ x y. (x, y)) (sym here) (sym stored),
      )
  | inr n ↦ absurd (ground arith)
]

entry_laws : IterLaws entry_engine
unfolding iter_of
entry_laws = record {
  listed = λ i. shown i.0;
  listed_sound = λ db lower upper i h k v m.
      bounded_sound db lower upper k v (subst (λ j. In (k, v) (shown j.0)) (sym (ap iter_of h)) m);
  listed_complete = λ db lower upper i h k v g a b.
      subst (λ j. In (k, v) (shown j.0)) (ap iter_of h) (bounded_complete db lower upper k v g a b);
  forward = forward_laws;
  backward = backward_laws;
}

abbrev one_block : Option Entry
one_block = some (key_block 4, 1 ∷ [])

abbrev block_walk : BlockIter Cursor
block_walk = record { i = (bounded one_block (key_block 2) (key_block 6), false); init = false }

abbrev one_tx : Option Entry
one_tx = some (key_tx 6 3, 1 ∷ [])

abbrev tx_walk : TxIter Cursor
tx_walk = record {
  next_error = none;
  i = (bounded one_tx (key_tx 2 0) (key_tx 6 10), false);
  from_index = 0;
  to_index = 10;
  init = false;
}

tx_iterator_range_example :
    Shown list_codec entry_laws one_tx 2 5 0 9 6 3 (1 ∷ []) tx_walk
    ↔ InRange list_codec entry_laws one_tx 2 5 0 9 6 3 (1 ∷ [])
unfolding tx_iterator
tx_iterator_range_example =
    tx_iterator_range list_codec entry_laws one_tx 2 5 0 9 6 3 (1 ∷ []) tx_walk refl
      (get_entry_self (key_tx 6 3) (1 ∷ [])) (omega arith, omega arith, omega arith, omega arith)
      (omega arith, omega arith) (omega arith, omega arith)

abbrev from_start : TxIter Cursor
from_start = record {
  next_error = none;
  i = (one_tx, false);
  from_index = 0;
  to_index = 10;
  init = false;
}

visits-keep_example :
    visits
      (λ i. (is_cons (shown i.0), (i.0, true)))
      (λ i. (false, (i.0, false)))
      (λ i. at_key i.0)
      5
      3
      from_start
    ≡ some (map (λ x. x.0) (keep (in_index_range 0 10) ((key_tx 6 3, 1 ∷ []) ∷ [])))
unfolding forward_laws shown upcoming
visits-keep_example =
    visits-keep forward_laws 5 3 from_start (omega arith) (omega arith)
      ((3, key_tx_index-key_tx 6 3 (omega arith) (omega arith)), tt)
