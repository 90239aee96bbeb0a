-- ===== src/Storage/Keys/Disjoint.antt =====
-- No two keys of different kinds are the same, and the keys of one kind are told apart by what they
-- are made of.
use Prim.Native.Nat.{compare, Ordering}
use tx_indexer.Base.{
  ℕ, ◌+◌, ◌*◌, ◌^◌, ◌<◌, ◌≡◌, ◌≢◌, refl, sym, ap, ◌∙◌, [], ◌∷◌, ◌++◌, arith, get_or,
}
use tx_indexer.Base.Lex.{then_compare, bytes_compare_self}
use tx_indexer.Storage.Encode.{
  Bytes, encode_string_ascending, encode_uint64_ascending, encode_uint32_ascending,
}
use tx_indexer.Storage.Encode.Strings.{escaped, encode_string_ascending-escaped}
use tx_indexer.Storage.Keys.{
  prefix_key_tx_by_hash, key_block, key_tx, key_hash_tx, key_latest_height,
}
use tx_indexer.Storage.Keys.Order.{bytes_compare-key_block, bytes_compare-key_tx}

-- Three bytes that differ between the kinds of keys.
tag : Bytes → ℕ
tag k = get_or k 0 0 * 65536 + get_or k 2 0 * 256 + get_or k 7 0

tag-key_block : (a : ℕ) → tag (key_block a) ≡ 0x126462
unfolding tag key_block encode_string_ascending encode_uint64_ascending
tag-key_block a = refl

tag-key_tx : (h i : ℕ) → tag (key_tx h i) ≡ 0x126474
unfolding tag key_tx encode_string_ascending encode_uint64_ascending encode_uint32_ascending
tag-key_tx h i = refl

tag_closed : (t : Bytes) → tag (encode_string_ascending [] prefix_key_tx_by_hash ++ t) ≡ 0x12692f
unfolding tag encode_string_ascending
tag_closed t = refl

tag-key_hash_tx : (s : Bytes) → tag (key_hash_tx s) ≡ 0x12692f
unfolding key_hash_tx
tag-key_hash_tx s =
    rw (encode_string_ascending-escaped (encode_string_ascending [] prefix_key_tx_by_hash) s)
      (tag_closed (0x12 ∷ (escaped s ++ 0 ∷ 1 ∷ [])))

tag-key_latest_height : tag key_latest_height ≡ 0x2f6568
unfolding tag
tag-key_latest_height = refl

pub key_block-ne-key_tx : (a h i : ℕ) → key_block a ≢ key_tx h i
key_block-ne-key_tx a h i e = omega (arith, ap tag e, tag-key_block a, tag-key_tx h i)

pub key_block-ne-key_hash_tx : (a : ℕ) (s : Bytes) → key_block a ≢ key_hash_tx s
key_block-ne-key_hash_tx a s e = omega (arith, ap tag e, tag-key_block a, tag-key_hash_tx s)

pub key_tx-ne-key_hash_tx : (h i : ℕ) (s : Bytes) → key_tx h i ≢ key_hash_tx s
key_tx-ne-key_hash_tx h i s e = omega (arith, ap tag e, tag-key_tx h i, tag-key_hash_tx s)

pub key_latest_height-ne-key_block : (a : ℕ) → key_latest_height ≢ key_block a
key_latest_height-ne-key_block a e = omega (arith, ap tag e, tag-key_block a, tag-key_latest_height)

pub key_latest_height-ne-key_tx : (h i : ℕ) → key_latest_height ≢ key_tx h i
key_latest_height-ne-key_tx h i e = omega (arith, ap tag e, tag-key_tx h i, tag-key_latest_height)

pub key_latest_height-ne-key_hash_tx : (s : Bytes) → key_latest_height ≢ key_hash_tx s
key_latest_height-ne-key_hash_tx s e =
    omega (arith, ap tag e, tag-key_hash_tx s, tag-key_latest_height)

compare-eq : (a b : ℕ) → compare a b ≡ Ordering.eq → a ≡ b
compare-eq a b h = ground arith

-- Two heights have one key only if they are one height.
pub key_block-injective : (a b : ℕ) → a < 2 ^ 64 → b < 2 ^ 64 → key_block a ≡ key_block b → a ≡ b
key_block-injective a b ha hb e =
    compare-eq a b
      (sym (bytes_compare-key_block a b ha hb) ∙ rw e (bytes_compare_self (key_block b)))

both_ties :
    (o p : Ordering) → then_compare o p ≡ Ordering.eq → (o ≡ Ordering.eq) × (p ≡ Ordering.eq)
both_ties Ordering.lt p h = absurd (cc)
both_ties Ordering.eq p h = (refl, h)
both_ties Ordering.gt p h = absurd (cc)

pub key_tx-injective :
    (h i k j : ℕ)
    → h < 2 ^ 64
    → k < 2 ^ 64
    → i < 2 ^ 32
    → j < 2 ^ 32
    → key_tx h i ≡ key_tx k j
    → (h ≡ k) × (i ≡ j)
key_tx-injective h i k j hh hk hi hj e =
    let (first, second) =
      both_ties (compare h k) (compare i j)
        (sym (bytes_compare-key_tx h i k j hh hk hi hj) ∙ rw e (bytes_compare_self (key_tx k j))) in
    (compare-eq h k first, compare-eq i j second)

-- The keys of blocks, of transactions and of hashes and the key of the latest height are four
-- disjoint sets of keys, whatever the heights, indices and hashes are.
pub families_disjoint :
    (a h i : ℕ) (s : Bytes)
    → (key_block a ≢ key_tx h i)
      × (key_block a ≢ key_hash_tx s)
      × (key_tx h i ≢ key_hash_tx s)
      × (key_latest_height ≢ key_block a)
      × (key_latest_height ≢ key_tx h i)
      × (key_latest_height ≢ key_hash_tx s)
families_disjoint a h i s = (
  key_block-ne-key_tx a h i,
  key_block-ne-key_hash_tx a s,
  key_tx-ne-key_hash_tx h i s,
  key_latest_height-ne-key_block a,
  key_latest_height-ne-key_tx h i,
  key_latest_height-ne-key_hash_tx s,
)
