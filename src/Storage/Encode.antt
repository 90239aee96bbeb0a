-- ===== src/Storage/Encode.antt =====
-- storage/encode.go: order-preserving byte encodings of integers and strings, and their decoders.
-- A []byte is a list of numbers below 256; nil and the empty slice are one list.
pub mod Uints
pub mod Strings
use Prim.Native.Nat.{bit_or}
use tx_indexer.Base.{
  ℕ, zero, suc, ◌+◌, ◌*◌, ◌/◌, ◌%◌, ◌^◌, List, [], ◌∷◌, ◌++◌, Option, none, some, Result, ok, err,
  ◌>>=◌, Bool, true, false, ltb, ◌==◌, if◌then◌else◌, length, get_or, drop, map, String,
}

abbrev pub Bytes : Type 0
Bytes = List ℕ

-- One constructor for each message of the decoders.
pub data DecodeError : Type 0 where
  insufficient_bytes : DecodeError
  no_marker : DecodeError
  no_terminator : DecodeError
  malformed_escape : DecodeError
  unknown_escape : DecodeError

-- byte(v), uint32(b) << k, and v >> k
abbrev byte : ℕ → ℕ
byte v = v % 256

abbrev shl_32 : ℕ → ℕ → ℕ
shl_32 b k = b * 2 ^ k % 2 ^ 32

abbrev shr : ℕ → ℕ → ℕ
shr v k = v / 2 ^ k

unfoldable pub encode_uint32_ascending : Bytes → ℕ → Bytes
encode_uint32_ascending b v = b ++ byte (shr v 24) ∷ byte (shr v 16) ∷ byte (shr v 8) ∷ byte v ∷ []

unfoldable pub decode_uint32_ascending : Bytes → Result DecodeError (Bytes × ℕ)
decode_uint32_ascending b =
    if ltb (length b) 4
    then err insufficient_bytes
    else ok (
      drop 4 b,
      bit_or (bit_or (bit_or (get_or b 3 0) (shl_32 (get_or b 2 0) 8)) (shl_32 (get_or b 1 0) 16))
          (shl_32 (get_or b 0 0) 24),
    )

unfoldable pub encode_uint64_ascending : Bytes → ℕ → Bytes
encode_uint64_ascending b v =
    b
    ++ byte (shr v 56)
      ∷ byte (shr v 48)
      ∷ byte (shr v 40)
      ∷ byte (shr v 32)
      ∷ byte (shr v 24)
      ∷ byte (shr v 16)
      ∷ byte (shr v 8)
      ∷ byte v
      ∷ []

-- binary.BigEndian.Uint64 on the first eight bytes
big_endian_uint64 : Bytes → ℕ
big_endian_uint64 b =
    get_or b 7 0
    + get_or b 6 0 * 2 ^ 8
    + get_or b 5 0 * 2 ^ 16
    + get_or b 4 0 * 2 ^ 24
    + get_or b 3 0 * 2 ^ 32
    + get_or b 2 0 * 2 ^ 40
    + get_or b 1 0 * 2 ^ 48
    + get_or b 0 0 * 2 ^ 56

unfoldable pub decode_uint64_ascending : Bytes → Result DecodeError (Bytes × ℕ)
unfolding big_endian_uint64
decode_uint64_ascending b =
    if ltb (length b) 8 then err insufficient_bytes else ok (drop 8 b, big_endian_uint64 b)

abbrev pub bytes_marker : ℕ
bytes_marker = 0x12

abbrev pub escape : ℕ
escape = 0x00

abbrev pub escaped_term : ℕ
escaped_term = 0x01

abbrev pub escaped_00 : ℕ
escaped_00 = 0xff

abbrev pub escaped_ff : ℕ
escaped_ff = 0x00

pub record Escapes : Type 0 where
  pub escape : ℕ
  pub escaped_term : ℕ
  pub escaped_00 : ℕ
  pub escaped_ff : ℕ
  pub marker : ℕ

abbrev pub ascending_bytes_escapes : Escapes
ascending_bytes_escapes = record {
  escape = escape;
  escaped_term = escaped_term;
  escaped_00 = escaped_00;
  escaped_ff = escaped_ff;
  marker = bytes_marker;
}

-- bytes.IndexByte with the slices around the index: what stands before the first `c`, and what
-- stands behind it. `none` is the index -1.
pub split_at_byte : ℕ → Bytes → Option (Bytes × Bytes)
split_at_byte c [] = none
split_at_byte c (x ∷ xs) =
    let rest = split_at_byte c xs in
    if x == c
    then some ([], xs)
    else elim rest [ none ↦ none | some (before, after) ↦ some (x ∷ before, after) ]

-- The loop ends within one round for each byte of `data`, so the callers give that much fuel.
escape_loop : ℕ → Bytes → Bytes → Bytes
escape_loop zero b rest = b ++ rest
escape_loop (suc fuel) b rest = elim (split_at_byte escape rest) [
  | none ↦ b ++ rest
  | some (before, after) ↦ escape_loop fuel ((b ++ before) ++ escape ∷ escaped_00 ∷ []) after
]

unfoldable pub encode_bytes_ascending_without_terminator_or_prefix : Bytes → Bytes → Bytes
unfolding escape_loop split_at_byte
encode_bytes_ascending_without_terminator_or_prefix b content =
    escape_loop (suc (length content)) b content

unfoldable pub encode_bytes_ascending_with_terminator : Bytes → Bytes → ℕ → Bytes
unfolding encode_bytes_ascending_without_terminator_or_prefix
encode_bytes_ascending_with_terminator b content terminator =
    encode_bytes_ascending_without_terminator_or_prefix b content ++ escape ∷ terminator ∷ []

unfoldable pub encode_bytes_ascending_with_terminator_and_prefix : Bytes → Bytes → ℕ → ℕ → Bytes
unfolding encode_bytes_ascending_with_terminator
encode_bytes_ascending_with_terminator_and_prefix b content terminator prefix =
    encode_bytes_ascending_with_terminator (b ++ prefix ∷ []) content terminator

-- A Go string is its bytes, so the unsafe conversions between the two are the identity.
unfoldable pub encode_string_ascending_with_terminator_and_prefix : Bytes → Bytes → ℕ → ℕ → Bytes
unfolding encode_bytes_ascending_with_terminator_and_prefix
encode_string_ascending_with_terminator_and_prefix b s terminator prefix =
    encode_bytes_ascending_with_terminator_and_prefix b s terminator prefix

unfoldable pub encode_string_ascending : Bytes → Bytes → Bytes
unfolding encode_string_ascending_with_terminator_and_prefix
encode_string_ascending b s =
    encode_string_ascending_with_terminator_and_prefix b s ascending_bytes_escapes.escaped_term
      bytes_marker

-- The loop of decodeBytesInternal: `b` falls by two bytes at least in each round.
decode_loop : ℕ → Escapes → Bytes → Bytes → Result DecodeError (Bytes × Bytes)
decode_loop zero e b r = err no_terminator
decode_loop (suc fuel) e b r = elim (split_at_byte e.escape b) [
  | none ↦ err no_terminator
  | some (before, []) ↦ err malformed_escape
  | some (before, v ∷ after) ↦
      let rest = decode_loop fuel e after ((r ++ before) ++ e.escaped_ff ∷ []) in
      if v == e.escaped_term
      then ok (after, r ++ before)
      else if v == e.escaped_00
      then rest
      else err unknown_escape
]

-- The marker test in front of the loop.
expect : ℕ → Bytes → Result DecodeError Bytes
expect marker [] = err no_marker
expect marker (x ∷ xs) = if x == marker then ok xs else err no_marker

-- The deepCopy flag is about sharing memory only, and is left out.
pub decode_bytes_internal : Bytes → Bytes → Escapes → Bool → Result DecodeError (Bytes × Bytes)
unfolding expect decode_loop split_at_byte
decode_bytes_internal b r e expect_marker = do
  body ← (if expect_marker then expect e.marker b else ok b)
  decode_loop (suc (length body)) e body r

unfoldable pub decode_bytes_ascending : Bytes → Bytes → Result DecodeError (Bytes × Bytes)
unfolding decode_bytes_internal
decode_bytes_ascending b r = decode_bytes_internal b r ascending_bytes_escapes true

unfoldable pub decode_unsafe_string_ascending : Bytes → Bytes → Result DecodeError (Bytes × Bytes)
unfolding decode_bytes_ascending
decode_unsafe_string_ascending b r = decode_bytes_ascending b r
