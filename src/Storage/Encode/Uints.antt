-- ===== src/Storage/Encode/Uints.antt =====
-- The integer encodings of storage/encode.go: round trips, and the order of the encoded bytes.
use Prim.Native.Nat.{compare, Ordering, bit_or}
use mathlib.Core.List.{append_assoc}
use native.Mathlib.Nat.{pow-suc}
use tx_indexer.Base.{
  ℕ, zero, suc, ◌+◌, ◌*◌, ◌/◌, ◌%◌, ◌^◌, ◌<◌, ◌≡◌, refl, sym, ap, ◌∙◌, [], ◌∷◌, ◌++◌, ok, arith,
  length, length-append,
}
use tx_indexer.Base.Bits.{bit_or-shift}
use tx_indexer.Base.Lex.{bytes_compare, then_compare, bytes_compare-append, bytes_compare_self}
use tx_indexer.Storage.Encode.{
  Bytes, encode_uint32_ascending, decode_uint32_ascending, encode_uint64_ascending,
  decode_uint64_ascending,
}

-- Four bytes, lowest first, joined as decodeUint32Ascending joins them.
join_bytes :
    (b0 b1 b2 b3 : ℕ)
    → b0 < 256
    → b1 < 256
    → b2 < 256
    → b3 < 256
    → bit_or
        (bit_or (bit_or b0 (b1 * 2 ^ 8 % 2 ^ 32)) (b2 * 2 ^ 16 % 2 ^ 32))
        (b3 * 2 ^ 24 % 2 ^ 32)
      ≡ b0 + b1 * 2 ^ 8 + b2 * 2 ^ 16 + b3 * 2 ^ 24
join_bytes b0 b1 b2 b3 h0 h1 h2 h3 =
    rw
      (
        fits_1,
        fits_2,
        fits_3,
        bit_or-shift 8 b0 b1 h0,
        bit_or-shift 16 (b0 + b1 * 2 ^ 8) b2 (omega arith),
      )
      (bit_or-shift 24 (b0 + b1 * 2 ^ 8 + b2 * 2 ^ 16) b3 (omega arith))
  where
    fits_1 : b1 * 2 ^ 8 % 2 ^ 32 ≡ b1 * 2 ^ 8
    fits_1 = omega arith

    fits_2 : b2 * 2 ^ 16 % 2 ^ 32 ≡ b2 * 2 ^ 16
    fits_2 = omega arith

    fits_3 : b3 * 2 ^ 24 % 2 ^ 32 ≡ b3 * 2 ^ 24
    fits_3 = omega arith

-- A uint32 is read back, and the bytes behind it are what is left.
pub decode_uint32_ascending-encode_uint32_ascending :
    (v : ℕ) (rest : Bytes)
    → v < 2 ^ 32
    → decode_uint32_ascending (encode_uint32_ascending [] v ++ rest) ≡ ok (rest, v)
unfolding decode_uint32_ascending encode_uint32_ascending
decode_uint32_ascending-encode_uint32_ascending v rest h =
    ground (arith, join_bytes (v % 256) (v / 2 ^ 8 % 256) (v / 2 ^ 16 % 256) (v / 2 ^ 24 % 256))

-- A uint64 is read back, and the bytes behind it are what is left.
pub decode_uint64_ascending-encode_uint64_ascending :
    (v : ℕ) (rest : Bytes)
    → v < 2 ^ 64
    → decode_uint64_ascending (encode_uint64_ascending [] v ++ rest) ≡ ok (rest, v)
unfolding decode_uint64_ascending encode_uint64_ascending
decode_uint64_ascending-encode_uint64_ascending v rest h = ground arith

-- The big-endian digits of a number in base 256.
be_bytes : ℕ → ℕ → Bytes
be_bytes zero v = []
be_bytes (suc n) v = be_bytes n (v / 256) ++ v % 256 ∷ []

length-be_bytes : (n v : ℕ) → length (be_bytes n v) ≡ n
unfolding be_bytes
length-be_bytes zero v = refl
length-be_bytes (suc n) v =
    omega (arith, length-append (be_bytes n (v / 256)) (v % 256 ∷ []), length-be_bytes n (v / 256))

compare_digit :
    (a b : ℕ)
    → then_compare
        (compare (a / 256) (b / 256))
        (then_compare (compare (a % 256) (b % 256)) Ordering.eq)
      ≡ compare a b
compare_digit a b = ground arith

bytes_compare-be_bytes :
    (n a b : ℕ)
    → a < 256 ^ n
    → b < 256 ^ n
    → bytes_compare (be_bytes n a) (be_bytes n b) ≡ compare a b
unfolding be_bytes bytes_compare
bytes_compare-be_bytes zero a b ha hb = ground arith
bytes_compare-be_bytes (suc n) a b ha hb =
    bytes_compare-append (be_bytes n (a / 256)) (be_bytes n (b / 256)) (a % 256 ∷ []) (b % 256 ∷ [])
      (length-be_bytes n (a / 256) ∙ sym (length-be_bytes n (b / 256)))
    ∙ rw
        (bytes_compare-be_bytes n (a / 256) (b / 256) (omega (arith, pow-suc 256 n))
          (omega (arith, pow-suc 256 n)))
        (compare_digit a b)

encode_uint64_ascending-be_bytes :
    (p : Bytes) (v : ℕ) → encode_uint64_ascending p v ≡ p ++ be_bytes 8 v
unfolding encode_uint64_ascending be_bytes
encode_uint64_ascending-be_bytes p v = ap (◌++◌ p) (ground arith)

encode_uint32_ascending-be_bytes :
    (p : Bytes) (v : ℕ) → encode_uint32_ascending p v ≡ p ++ be_bytes 4 v
unfolding encode_uint32_ascending be_bytes
encode_uint32_ascending-be_bytes p v = ap (◌++◌ p) (ground arith)

-- Behind one prefix, digits of one width are compared as numbers, before what follows them.
bytes_compare-fixed :
    (n : ℕ) (p : Bytes) (v w : ℕ) (s t : Bytes)
    → v < 256 ^ n
    → w < 256 ^ n
    → bytes_compare ((p ++ be_bytes n v) ++ s) ((p ++ be_bytes n w) ++ t)
      ≡ then_compare (compare v w) (bytes_compare s t)
bytes_compare-fixed n p v w s t hv hw =
    rw
      (
        append_assoc p (be_bytes n v) s,
        append_assoc p (be_bytes n w) t,
        bytes_compare-append p p (be_bytes n v ++ s) (be_bytes n w ++ t) refl,
        bytes_compare_self p,
        bytes_compare-append (be_bytes n v) (be_bytes n w) s t
            (length-be_bytes n v ∙ sym (length-be_bytes n w)),
      )
      (rw (bytes_compare-be_bytes n v w hv hw))

-- Behind one prefix, the order of two encoded uint64 is that of the numbers, and what follows
-- decides only where they are equal.
pub bytes_compare-encode_uint64_ascending :
    (p : Bytes) (v w : ℕ) (s t : Bytes)
    → v < 2 ^ 64
    → w < 2 ^ 64
    → bytes_compare (encode_uint64_ascending p v ++ s) (encode_uint64_ascending p w ++ t)
      ≡ then_compare (compare v w) (bytes_compare s t)
bytes_compare-encode_uint64_ascending p v w s t hv hw =
    rw (encode_uint64_ascending-be_bytes p v, encode_uint64_ascending-be_bytes p w)
      (bytes_compare-fixed 8 p v w s t hv hw)

pub bytes_compare-encode_uint32_ascending :
    (p : Bytes) (v w : ℕ) (s t : Bytes)
    → v < 2 ^ 32
    → w < 2 ^ 32
    → bytes_compare (encode_uint32_ascending p v ++ s) (encode_uint32_ascending p w ++ t)
      ≡ then_compare (compare v w) (bytes_compare s t)
bytes_compare-encode_uint32_ascending p v w s t hv hw =
    rw (encode_uint32_ascending-be_bytes p v, encode_uint32_ascending-be_bytes p w)
      (bytes_compare-fixed 4 p v w s t hv hw)

-- What is encoded is appended to the buffer.
pub encode_uint64_ascending-append :
    (p : Bytes) (v : ℕ) → encode_uint64_ascending p v ≡ p ++ encode_uint64_ascending [] v
unfolding encode_uint64_ascending
encode_uint64_ascending-append p v = refl

pub encode_uint32_ascending-append :
    (p : Bytes) (v : ℕ) → encode_uint32_ascending p v ≡ p ++ encode_uint32_ascending [] v
unfolding encode_uint32_ascending
encode_uint32_ascending-append p v = refl
