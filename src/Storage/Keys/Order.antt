-- ===== src/Storage/Keys/Order.antt =====
-- The order of the keys in the store, which the iterators walk along.
use Prim.Native.Nat.{compare, Ordering}
use mathlib.Core.List.{append-nil}
use tx_indexer.Base.{ℕ, ap, ◌^◌, ◌<◌, ◌≡◌, refl, sym, ap₂, ◌∙◌, []}
use tx_indexer.Base.Lex.{bytes_compare, then_compare}
use tx_indexer.Storage.Encode.{
  Bytes, encode_string_ascending, encode_uint64_ascending, encode_uint32_ascending,
}
use tx_indexer.Storage.Encode.Uints.{
  bytes_compare-encode_uint64_ascending, bytes_compare-encode_uint32_ascending,
  encode_uint32_ascending-append,
}
use tx_indexer.Storage.Keys.{prefix_key_blocks, prefix_key_txs, key_block, key_tx}

compare-then_eq : (o : Ordering) → then_compare o Ordering.eq ≡ o
compare-then_eq Ordering.lt = refl
compare-then_eq Ordering.eq = refl
compare-then_eq Ordering.gt = refl

-- Blocks are stored in the order of their heights.
pub bytes_compare-key_block :
    (a b : ℕ) → a < 2 ^ 64 → b < 2 ^ 64 → bytes_compare (key_block a) (key_block b) ≡ compare a b
unfolding key_block bytes_compare
bytes_compare-key_block a b ha hb =
    ap₂ bytes_compare (sym (append-nil (key_block a))) (sym (append-nil (key_block b)))
    ∙ bytes_compare-encode_uint64_ascending (encode_string_ascending [] prefix_key_blocks) a b [] []
        ha hb
    ∙ compare-then_eq (compare a b)

-- Behind one prefix of uint64, an encoded uint32 decides.
bytes_compare-uint32 :
    (i j : ℕ)
    → i < 2 ^ 32
    → j < 2 ^ 32
    → bytes_compare (encode_uint32_ascending [] i) (encode_uint32_ascending [] j) ≡ compare i j
unfolding bytes_compare
bytes_compare-uint32 i j hi hj =
    ap₂ bytes_compare (sym (append-nil (encode_uint32_ascending [] i)))
      (sym (append-nil (encode_uint32_ascending [] j)))
    ∙ bytes_compare-encode_uint32_ascending [] i j [] [] hi hj
    ∙ compare-then_eq (compare i j)

-- Transactions are stored in the order of their heights, and by index within one block.
pub bytes_compare-key_tx :
    (h i k j : ℕ)
    → h < 2 ^ 64
    → k < 2 ^ 64
    → i < 2 ^ 32
    → j < 2 ^ 32
    → bytes_compare (key_tx h i) (key_tx k j) ≡ then_compare (compare h k) (compare i j)
unfolding key_tx bytes_compare
bytes_compare-key_tx h i k j hh hk hi hj =
    ap₂ bytes_compare (encode_uint32_ascending-append (encode_uint64_ascending prefix h) i)
      (encode_uint32_ascending-append (encode_uint64_ascending prefix k) j)
    ∙ bytes_compare-encode_uint64_ascending prefix h k (encode_uint32_ascending [] i)
        (encode_uint32_ascending [] j) hh hk
    ∙ ap (then_compare (compare h k)) (bytes_compare-uint32 i j hi hj)
  where
    prefix : Bytes
    prefix = encode_string_ascending [] prefix_key_txs
