-- ===== src/Storage/Encode/Strings.antt =====
-- The escape-based string encoding of storage/encode.go: round trip and order.
use mathlib.Core.List.{append_assoc, append-nil}
use tx_indexer.Base.{
  ℕ, zero, false, true, suc, ◌≤◌, ◌<◌, ◌≡◌, refl, ap, ◌∙◌, [], ◌∷◌, ◌++◌, ok, inl, inr, arith, ◌==◌,
  if◌then◌else◌, Bool-cases, Option-cases, length, length-append,
}
use tx_indexer.Base.Lex.{bytes_compare, then_compare, bytes_compare-append, bytes_compare_self}
use tx_indexer.Storage.Encode.{
  Bytes, Escapes, ascending_bytes_escapes, split_at_byte, escape_loop, decode_loop,
  encode_string_ascending, decode_unsafe_string_ascending,
}

-- The escaped bytes, one at a time: every \x00 gets an \xff behind it.
pub escaped : Bytes → Bytes
escaped [] = []
escaped (x ∷ xs) = if x == 0 then 0 ∷ 0xff ∷ escaped xs else x ∷ escaped xs

escape_loop-skip :
    (fuel : ℕ) (b : Bytes) (x : ℕ) (xs : Bytes)
    → (x == 0) ≡ false
    → escape_loop (suc fuel) b (x ∷ xs) ≡ escape_loop (suc fuel) (b ++ x ∷ []) xs
unfolding escape_loop split_at_byte
escape_loop-skip fuel b x xs h = elim (Option-cases (split_at_byte 0 xs)) [
  | inl e ↦ ground (arith, append_assoc b (x ∷ []) xs)
  | inr (p, e) ↦ ground (arith, append_assoc b (x ∷ []) p.0)
]

escape_loop-zero :
    (fuel : ℕ) (b : Bytes) (x : ℕ) (xs : Bytes)
    → (x == 0) ≡ true
    → escape_loop (suc fuel) b (x ∷ xs) ≡ escape_loop fuel (b ++ 0 ∷ 0xff ∷ []) xs
unfolding escape_loop split_at_byte
escape_loop-zero fuel b x xs h = ground (arith, append-nil b)

escape_loop-escaped :
    (fuel : ℕ) (b s : Bytes) → length s < fuel → escape_loop fuel b s ≡ b ++ escaped s
unfolding escaped
escape_loop-escaped zero b s h = absurd (omega arith)
escape_loop-escaped (suc fuel) b [] h = unfold escape_loop split_at_byte in refl
escape_loop-escaped (suc fuel) b (x ∷ xs) h = elim (Bool-cases (x == 0)) [
  | inl zero_byte ↦
      escape_loop-zero fuel b x xs zero_byte
      ∙ escape_loop-escaped fuel (b ++ 0 ∷ 0xff ∷ []) xs (omega arith)
      ∙ rw zero_byte (append_assoc b (0 ∷ 0xff ∷ []) (escaped xs))
  | inr other ↦
      escape_loop-skip fuel b x xs other
      ∙ escape_loop-escaped (suc fuel) (b ++ x ∷ []) xs (omega arith)
      ∙ rw other (append_assoc b (x ∷ []) (escaped xs))
]

decode_loop-skip :
    (fuel : ℕ) (e : Escapes) (x : ℕ) (b r : Bytes)
    → (x == e.escape) ≡ false
    → decode_loop (suc fuel) e (x ∷ b) r ≡ decode_loop (suc fuel) e b (r ++ x ∷ [])
unfolding decode_loop split_at_byte
decode_loop-skip fuel e x b r h = elim (Option-cases (split_at_byte e.escape b)) [
  | inl q ↦ ground arith
  | inr ((before, []), q) ↦ ground arith
  | inr ((before, v ∷ after), q) ↦ ground (arith, append_assoc r (x ∷ []) before)
]

-- The encoding is the bytewise escaping between the marker and the terminator.
pub encode_string_ascending-escaped :
    (p s : Bytes) → encode_string_ascending p s ≡ p ++ 0x12 ∷ (escaped s ++ 0 ∷ 1 ∷ [])
unfolding encode_string_ascending
encode_string_ascending-escaped p s =
    rw (escape_loop-escaped (suc (length s)) (p ++ 0x12 ∷ []) s (omega arith)) (
      ap (λ t. t ++ 0 ∷ 1 ∷ []) (append_assoc p (0x12 ∷ []) (escaped s))
      ∙ append_assoc p (0x12 ∷ escaped s) (0 ∷ 1 ∷ []))

pub encode_string_ascending-append :
    (p s rest : Bytes)
    → encode_string_ascending p s ++ rest ≡ p ++ 0x12 ∷ (escaped s ++ 0 ∷ 1 ∷ rest)
encode_string_ascending-append p s rest = rw (encode_string_ascending-escaped p s) (
    append_assoc p (0x12 ∷ (escaped s ++ 0 ∷ 1 ∷ [])) rest
    ∙ ap (λ t. p ++ 0x12 ∷ t) (append_assoc (escaped s) (0 ∷ 1 ∷ []) rest))

decode_loop-zero :
    (fuel : ℕ) (b r : Bytes)
    → decode_loop (suc fuel) ascending_bytes_escapes (0 ∷ 0xff ∷ b) r
      ≡ decode_loop fuel ascending_bytes_escapes b (r ++ 0 ∷ [])
unfolding decode_loop split_at_byte
decode_loop-zero fuel b r = rw append-nil refl

decode_loop-escaped :
    (fuel : ℕ) (s rest r : Bytes)
    → length s < fuel
    → decode_loop fuel ascending_bytes_escapes (escaped s ++ 0 ∷ 1 ∷ rest) r ≡ ok (rest, r ++ s)
unfolding escaped
decode_loop-escaped zero s rest r h = absurd (omega arith)
decode_loop-escaped (suc fuel) [] rest r h = unfold decode_loop split_at_byte in refl
decode_loop-escaped (suc fuel) (x ∷ xs) rest r h = elim (Bool-cases (x == 0)) [
  | inl zero_byte ↦ rw zero_byte (
      decode_loop-zero fuel (escaped xs ++ 0 ∷ 1 ∷ rest) r
      ∙ decode_loop-escaped fuel xs rest (r ++ 0 ∷ []) (omega arith)
      ∙ ground (arith, append_assoc r (0 ∷ []) xs))
  | inr other ↦ rw other (
      decode_loop-skip fuel ascending_bytes_escapes x (escaped xs ++ 0 ∷ 1 ∷ rest) r other
      ∙ decode_loop-escaped (suc fuel) xs rest (r ++ x ∷ []) (omega arith)
      ∙ rw append_assoc)
]

length-escaped : (s : Bytes) → length s ≤ length (escaped s)
unfolding escaped
length-escaped [] = omega arith
length-escaped (x ∷ xs) = ground (arith, length-escaped xs)

-- A string is read back behind `r`, whatever bytes it has, and the bytes behind its encoding are
-- what is left.
pub decode_unsafe_string_ascending-encode_string_ascending :
    (s rest r : Bytes)
    → decode_unsafe_string_ascending (encode_string_ascending [] s ++ rest) r ≡ ok (rest, r ++ s)
decode_unsafe_string_ascending-encode_string_ascending s rest r =
    rw (encode_string_ascending-append [] s rest) (
      unfold decode_unsafe_string_ascending in
      decode_loop-escaped (suc (length (escaped s ++ 0 ∷ 1 ∷ rest))) s rest r
        (omega (arith, length-append (escaped s) (0 ∷ 1 ∷ rest), length-escaped s)))

bytes_compare-escaped :
    (xs ys s t : Bytes)
    → bytes_compare (escaped xs ++ 0 ∷ 1 ∷ s) (escaped ys ++ 0 ∷ 1 ∷ t)
      ≡ then_compare (bytes_compare xs ys) (bytes_compare s t)
unfolding bytes_compare escaped
bytes_compare-escaped [] [] s t = refl
bytes_compare-escaped [] (y ∷ ys) s t = ground arith
bytes_compare-escaped (x ∷ xs) [] s t = ground arith
bytes_compare-escaped (x ∷ xs) (y ∷ ys) s t = ground (arith, bytes_compare-escaped xs ys s t)

-- Behind one prefix, the order of two encoded strings is that of the strings, and what follows
-- decides only where they are equal.
pub bytes_compare-encode_string_ascending :
    (p v w s t : Bytes)
    → bytes_compare (encode_string_ascending p v ++ s) (encode_string_ascending p w ++ t)
      ≡ then_compare (bytes_compare v w) (bytes_compare s t)
unfolding bytes_compare
bytes_compare-encode_string_ascending p v w s t =
    rw (encode_string_ascending-append p v s, encode_string_ascending-append p w t)
      (bytes_compare-append p p (0x12 ∷ (escaped v ++ 0 ∷ 1 ∷ s)) (0x12 ∷ (escaped w ++ 0 ∷ 1 ∷ t))
          refl
        ∙ rw (bytes_compare_self p) (bytes_compare-escaped v w s t))
