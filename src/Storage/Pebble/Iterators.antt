-- ===== src/Storage/Pebble/Iterators.antt =====
-- What the iterators of storage/pebble.go show: the bounds that they open, and the entries at which
-- Next stops.
use Prim.Native.Nat.{compare, Ordering}
use mathlib.Core.List.{append-nil, append_assoc}
use tx_indexer.Base.{
  refl, ℕ, ◌+◌, ◌-◌, ◌^◌, ◌≤◌, ◌<◌, ◌≡◌, ◌≢◌, ◌↔◌, sym, ap, ap₂, ◌∙◌, true, false, ◌&&◌, [], ◌++◌,
  ok, inl, inr, arith, ltb, leb, Result-cases, In,
}
use tx_indexer.Base.Lex.{bytes_compare, then_compare}
use tx_indexer.Storage.Encode.{
  Bytes, encode_string_ascending, encode_uint64_ascending, encode_uint32_ascending,
}
use tx_indexer.Storage.Encode.Strings.{decode_unsafe_string_ascending-encode_string_ascending}
use tx_indexer.Storage.Encode.Uints.{
  decode_uint64_ascending-encode_uint64_ascending, decode_uint32_ascending-encode_uint32_ascending,
  encode_uint64_ascending-append, encode_uint32_ascending-append,
}
use tx_indexer.Storage.Keys.{prefix_key_txs, key_block, key_tx}
use tx_indexer.Storage.Keys.Order.{bytes_compare-key_block, bytes_compare-key_tx}
use tx_indexer.Storage.Engine.{Engine, Codec, IterLaws}
use tx_indexer.Storage.Pebble.Next.{in_index_range, in_index_range_lem}
use tx_indexer.Storage.Pebble.{
  BlockIter, TxIter, key_tx_index, to_block_bound, to_index_bound, block_reverse_iterator,
  load_block_iterator, block_iterator, tx_iterator,
}

-- The bounds decide by the order of the keys, which is that of the heights.
compare_range :
    (a h b : ℕ)
    → ((compare h a ≢ Ordering.lt) × (compare h (b + 1) ≡ Ordering.lt)) ↔ ((a ≤ h) × (h ≤ b))
compare_range a h b = (λ p. ground arith, λ p. ground arith)

abbrev Bounds : (e : Engine) → e.Db → Bytes → Bytes → e.Iter → Type 0
Bounds e db lower upper i = e.new_iter db lower upper ≡ ok i

module _ (e : Engine) (c : Codec) (db : e.Db) where
  block_iterator-Bounds :
      (from to : ℕ) (it : BlockIter e.Iter)
      → block_iterator e c db from to ≡ ok it
      → 0 < to
      → to < 2 ^ 64 - 1
      → Bounds e db (key_block from) (key_block (to + 1)) it.i
  unfolding block_iterator to_block_bound
  block_iterator-Bounds from to it opened positive fits =
      ap (λ k. e.new_iter db (key_block from) (key_block k)) (sym bound) ∙ engine_ok
    where
      bound : to_block_bound to ≡ to + 1
      bound = ground arith

      engine_ok : e.new_iter db (key_block from) (key_block (to_block_bound to)) ≡ ok it.i
      engine_ok =
          elim (Result-cases (e.new_iter db (key_block from) (key_block (to_block_bound to)))) [
            | inl (i, q) ↦ ground arith
            | inr (f, q) ↦ absurd (ground arith)
          ]

  tx_iterator-Bounds :
      (from to from_index to_index : ℕ) (it : TxIter e.Iter)
      → tx_iterator e c db from to from_index to_index ≡ ok it
      → Bounds e db
          (key_tx from from_index)
          (key_tx (to_block_bound to) (to_index_bound to_index))
          it.i
        × (it.from_index ≡ from_index)
        × (it.to_index ≡ to_index_bound to_index)
        × (it.init ≡ false)
  unfolding tx_iterator
  tx_iterator-Bounds from to from_index to_index it opened =
      elim (Result-cases (
        e.new_iter db (key_tx from from_index)
          (key_tx (to_block_bound to) (to_index_bound to_index)))) [
            | inl (i, q) ↦ (ground arith, ground arith, ground arith, ground arith)
            | inr (f, q) ↦ absurd (ground arith)
          ]

module _ {e : Engine} (c : Codec) (w : IterLaws e) (db : e.Db) (from to h : ℕ) (v : Bytes) where
  -- A stored block is among the entries of a block iterator exactly if its height is at least
  -- `from` and at most `to`, for a bound `to` that is not 0.
  pub block_iterator_range :
      (it : BlockIter e.Iter)
      → block_iterator e c db from to ≡ ok it
      → e.get db (key_block h) ≡ ok v
      → from < 2 ^ 64
      → h < 2 ^ 64
      → 0 < to
      → to < 2 ^ 64 - 1
      → In (key_block h, v) (w.listed it.i) ↔ ((from ≤ h) × (h ≤ to))
  block_iterator_range it opened stored from_fits h_fits positive to_fits = (sound, complete)
    where
      bounds : Bounds e db (key_block from) (key_block (to + 1)) it.i
      bounds = block_iterator-Bounds e c db from to it opened positive to_fits

      low : bytes_compare (key_block h) (key_block from) ≡ compare h from
      low = bytes_compare-key_block h from h_fits from_fits

      high : bytes_compare (key_block h) (key_block (to + 1)) ≡ compare h (to + 1)
      high = bytes_compare-key_block h (to + 1) h_fits (omega arith)

      sound : In (key_block h, v) (w.listed it.i) → (from ≤ h) × (h ≤ to)
      sound m =
          let found =
            w.listed_sound db (key_block from) (key_block (to + 1)) it.i bounds (key_block h) v m in
          (compare_range from h to).0 (rw low at (found.1), sym high ∙ found.2)

      complete : (from ≤ h) × (h ≤ to) → In (key_block h, v) (w.listed it.i)
      complete r =
          let inside = (compare_range from h to).1 r in
          w.listed_complete db (key_block from) (key_block (to + 1)) it.i bounds (key_block h) v
            stored (rw low inside.0) (high ∙ inside.1)

-- A transaction's key holds its index where the iterators look for it.
key_tx_parts :
    (p : Bytes) (h i : ℕ)
    → encode_uint32_ascending (encode_uint64_ascending p h) i
      ≡ p ++ (encode_uint64_ascending [] h ++ encode_uint32_ascending [] i)
key_tx_parts p h i =
    encode_uint32_ascending-append (encode_uint64_ascending p h) i
    ∙ ap (λ k. k ++ encode_uint32_ascending [] i) (encode_uint64_ascending-append p h)
    ∙ append_assoc p (encode_uint64_ascending [] h) (encode_uint32_ascending [] i)

-- The index read from the key of a transaction is its index.
pub key_tx_index-key_tx : (h i : ℕ) → h < 2 ^ 64 → i < 2 ^ 32 → key_tx_index (key_tx h i) ≡ ok i
unfolding key_tx_index key_tx
key_tx_index-key_tx h i hh hi =
    rw
      (
        key_tx_parts (encode_string_ascending [] prefix_key_txs) h i,
        decode_unsafe_string_ascending-encode_string_ascending prefix_key_txs
            (encode_uint64_ascending [] h ++ encode_uint32_ascending [] i) [],
      )
      (rw (decode_uint64_ascending-encode_uint64_ascending h (encode_uint32_ascending [] i) hh) (
        rw (← append-nil (encode_uint32_ascending [] i))
          (rw (decode_uint32_ascending-encode_uint32_ascending i [] hi))))

tx_iterator-Bounds_pos :
    (e : Engine) (c : Codec) (db : e.Db) (from to from_index to_index : ℕ) (it : TxIter e.Iter)
    → tx_iterator e c db from to from_index to_index ≡ ok it
    → (0 < to) × (to < 2 ^ 64 - 1)
    → (0 < to_index) × (to_index < 2 ^ 32 - 1)
    → Bounds e db (key_tx from from_index) (key_tx (to + 1) (to_index + 1)) it.i
      × (it.from_index ≡ from_index)
      × (it.to_index ≡ to_index + 1)
tx_iterator-Bounds_pos e c db from to from_index to_index it opened p q =
    let b = tx_iterator-Bounds e c db from to from_index to_index it opened in
    (
      ap₂ (λ m n. e.new_iter db (key_tx from from_index) (key_tx m n)) (sym block_bound)
            (sym index_bound)
          ∙ b.0,
      b.1,
      b.2 ∙ index_bound,
    )
  where
    block_bound : to_block_bound to ≡ to + 1
    block_bound = unfold to_block_bound in ground arith

    index_bound : to_index_bound to_index ≡ to_index + 1
    index_bound = unfold to_index_bound in ground arith

-- The bounds of a transaction iterator in terms of heights and indexes.
compare_tx_range :
    (from to from_index to_index h i : ℕ)
    → ((then_compare (compare h from) (compare i from_index) ≢ Ordering.lt)
        × (then_compare (compare h (to + 1)) (compare i (to_index + 1)) ≡ Ordering.lt)
        × ((leb from_index i && ltb i (to_index + 1)) ≡ true))
      ↔ ((from ≤ h) × (h ≤ to + 1) × (from_index ≤ i) × (i ≤ to_index))
compare_tx_range from to from_index to_index h i = (λ p. ground arith, λ p. ground arith)

module _ {e : Engine} (c : Codec) (w : IterLaws e) (db : e.Db) (from to from_index to_index h i : ℕ)
    (v : Bytes) where
  abbrev pub Shown : TxIter e.Iter → Type 0
  Shown it =
      In (key_tx h i, v) (w.listed it.i)
      × (in_index_range it.from_index it.to_index (key_tx h i, v) ≡ true)

  abbrev pub InRange : Type 0
  InRange = (from ≤ h) × (h ≤ to + 1) × (from_index ≤ i) × (i ≤ to_index)

  -- For bounds that are not 0, Next of a transaction iterator can stop at a stored transaction
  -- exactly if its height is at least `from` and at most `to + 1`, and its index is between the
  -- index bounds: the block behind the last one asked for is shown too.
  pub tx_iterator_range :
      (it : TxIter e.Iter)
      → tx_iterator e c db from to from_index to_index ≡ ok it
      → e.get db (key_tx h i) ≡ ok v
      → (from < 2 ^ 64) × (h < 2 ^ 64) × (from_index < 2 ^ 32) × (i < 2 ^ 32)
      → (0 < to) × (to < 2 ^ 64 - 1)
      → (0 < to_index) × (to_index < 2 ^ 32 - 1)
      → Shown it ↔ InRange
  tx_iterator_range it opened stored fits to_fits index_fits = (sound, complete)
    where
      bounds :
          Bounds e db (key_tx from from_index) (key_tx (to + 1) (to_index + 1)) it.i
          × (it.from_index ≡ from_index)
          × (it.to_index ≡ to_index + 1)
      bounds =
          tx_iterator-Bounds_pos e c db from to from_index to_index it opened to_fits index_fits

      low :
          bytes_compare (key_tx h i) (key_tx from from_index)
          ≡ then_compare (compare h from) (compare i from_index)
      low = bytes_compare-key_tx h i from from_index fits.1 fits.0 fits.3 fits.2

      high :
          bytes_compare (key_tx h i) (key_tx (to + 1) (to_index + 1))
          ≡ then_compare (compare h (to + 1)) (compare i (to_index + 1))
      high =
          bytes_compare-key_tx h i (to + 1) (to_index + 1) fits.1 (omega arith) fits.3 (omega arith)

      test :
          in_index_range it.from_index it.to_index (key_tx h i, v)
          ≡ (leb from_index i && ltb i (to_index + 1))
      test =
          rw (bounds.1, bounds.2)
            (in_index_range_lem from_index (to_index + 1) (key_tx h i) v i
              (key_tx_index-key_tx h i fits.1 fits.3))

      sound : Shown it → InRange
      sound m =
          let found =
            w.listed_sound db (key_tx from from_index) (key_tx (to + 1) (to_index + 1)) it.i
              bounds.0 (key_tx h i) v m.0 in
          (compare_tx_range from to from_index to_index h i).0
            (rw low at (found.1), sym high ∙ found.2, sym test ∙ m.1)

      complete : InRange → Shown it
      complete r =
          let inside = (compare_tx_range from to from_index to_index h i).1 r in
          (
            w.listed_complete db (key_tx from from_index) (key_tx (to + 1) (to_index + 1)) it.i
                bounds.0 (key_tx h i) v stored (rw low inside.0) (high ∙ inside.1),
            test ∙ inside.2,
          )

-- Both directions open the same bounds.
pub block_reverse_iterator_lem :
    (e : Engine) (c : Codec) (db : e.Db) (from to : ℕ)
    → block_reverse_iterator e c db from to ≡ block_iterator e c db from to
unfolding block_reverse_iterator block_iterator load_block_iterator
block_reverse_iterator_lem e c db from to = refl
