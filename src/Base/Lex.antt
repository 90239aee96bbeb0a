-- ===== src/Base/Lex.antt =====
-- The order of byte strings: bytes.Compare, by which the key-value store sorts its keys.
use Prim.Native.Nat.{ℕ, compare, Ordering}
use mathlib.Core.Path.{◌≡◌, refl}
use mathlib.Core.List.{List, [], ◌∷◌, ◌++◌}
use native.Mathlib.Omega.{arith}
use tx_indexer.Base.Lists.{length}

-- The second answer decides where the first is a tie.
abbrev pub then_compare : Ordering → Ordering → Ordering
then_compare Ordering.lt o = Ordering.lt
then_compare Ordering.eq o = o
then_compare Ordering.gt o = Ordering.gt

unfoldable pub bytes_compare : List ℕ → List ℕ → Ordering
bytes_compare [] [] = Ordering.eq
bytes_compare [] (y ∷ ys) = Ordering.lt
bytes_compare (x ∷ xs) [] = Ordering.gt
bytes_compare (x ∷ xs) (y ∷ ys) = then_compare (compare x y) (bytes_compare xs ys)

-- Behind prefixes of one length the prefixes are compared first.
pub bytes_compare-append :
    (xs ys s t : List ℕ)
    → length xs ≡ length ys
    → bytes_compare (xs ++ s) (ys ++ t) ≡ then_compare (bytes_compare xs ys) (bytes_compare s t)
unfolding bytes_compare
bytes_compare-append [] [] s t h = refl
bytes_compare-append [] (y ∷ ys) s t h = absurd (omega arith)
bytes_compare-append (x ∷ xs) [] s t h = absurd (omega arith)
bytes_compare-append (x ∷ xs) (y ∷ ys) s t h = ground (arith, bytes_compare-append xs ys s t)

pub bytes_compare_self : (xs : List ℕ) → bytes_compare xs xs ≡ Ordering.eq
unfolding bytes_compare
bytes_compare_self [] = refl
bytes_compare_self (x ∷ xs) = ground (arith, bytes_compare_self xs)
