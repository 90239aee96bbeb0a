-- ===== src/Base/Dict.antt =====
-- A Go map with string keys, as the list of its entries in some order.
use Prim.Native.String.{String}
use text.Mathlib.Text.{◌==◌ as str_eq}
use text.Mathlib.TextEquality.{eq_iff}
use mathlib.Core.Path.{◌≡◌, refl, sym, ap, subst, ◌∙◌}
use mathlib.Core.Logic.{◌≢◌, inl, inr}
use mathlib.Core.Bool.{Bool, true, false}
use mathlib.Core.List.{List, [], ◌∷◌}
use mathlib.Core.Option.{Option, none, some}
use native.Mathlib.Omega.{arith}
use tx_indexer.Base.Tests.{if◌then◌else◌, Bool-cases}
use tx_indexer.Base.Lists.{In, All, keep}

differs : (a b : String) → str_eq a b ≡ false → a ≢ b
differs a b n e = let y = (eq_iff a b).1 e in absurd (cc)

pub not_both : (m a b : String) → str_eq m a ≡ false → str_eq m b ≡ true → str_eq a b ≡ false
not_both m a b n y = elim (Bool-cases (str_eq a b)) [
  | inl z ↦
      absurd
        (let e = (eq_iff m a).1 ((eq_iff m b).0 y ∙ sym ((eq_iff a b).0 z)) in ground (arith, e, n))
  | inr k ↦ k
]

module _ {V : Type 0} where
  unfoldable pub find : String → List (String × V) → Option V
  find id [] = none
  find id ((key, v) ∷ m) = let rest = find id m in if str_eq key id then some v else rest

  -- delete(m, id)
  unfoldable pub remove : String → List (String × V) → List (String × V)
  remove id [] = []
  remove id ((key, v) ∷ m) =
      let rest = remove id m in if str_eq key id then rest else (key, v) ∷ rest

  -- m[id] = v
  unfoldable pub insert : String → V → List (String × V) → List (String × V)
  insert id v m = (id, v) ∷ remove id m

  -- No two entries have the same key.
  abbrev pub Unique : List (String × V) → Type 0
  Unique [] = Unit
  Unique ((key, v) ∷ m) = All (λ e. e.0 ≢ key) m × Unique m

  keep-All :
      (P : String × V → Type 0) (p : String × V → Bool) (m : List (String × V))
      → All P m
      → All P (keep p m)
  unfolding keep
  keep-All P p [] a = tt
  keep-All P p (e ∷ m) a = elim (Bool-cases (p e)) [
    | inl y ↦ rw y (a.0, keep-All P p m a.1)
    | inr n ↦ rw n (keep-All P p m a.1)
  ]

  pub keep-Unique : (p : String × V → Bool) (m : List (String × V)) → Unique m → Unique (keep p m)
  unfolding keep
  keep-Unique p [] u = tt
  keep-Unique p ((key, v) ∷ m) u = elim (Bool-cases (p (key, v))) [
    | inl y ↦ rw y (keep-All _ p m u.0, keep-Unique p m u.1)
    | inr n ↦ rw n (keep-Unique p m u.1)
  ]

  All-In :
      (P : String × V → Type 0) (e : String × V) (m : List (String × V)) → All P m → In e m → P e
  All-In P e [] a i = absurd i
  All-In P e (d ∷ m) a (inl q) = subst P (sym q) a.0
  All-In P e (d ∷ m) a (inr i) = All-In P e m a.1 i

  -- A key has one value.
  pub In-Unique :
      (d e : String × V) (m : List (String × V)) → Unique m → In d m → In e m → d.0 ≡ e.0 → d ≡ e
  In-Unique d e [] u i j q = absurd i
  In-Unique d e (c ∷ m) u (inl i) (inl j) q = i ∙ sym j
  In-Unique d e (c ∷ m) u (inl i) (inr j) q = absurd (All-In _ e m u.0 j (sym q ∙ ap (λ x. x.0) i))
  In-Unique d e (c ∷ m) u (inr i) (inl j) q = absurd (All-In _ d m u.0 i (q ∙ ap (λ x. x.0) j))
  In-Unique d e (c ∷ m) u (inr i) (inr j) q = In-Unique d e m u.1 i j q

  -- What is found after a key is deleted, and after one is set.
  pub find-remove :
      (id asked : String) (m : List (String × V))
      → find asked (remove id m) ≡ (if str_eq id asked then none else find asked m)
  unfolding find remove
  find-remove id asked [] = elim (Bool-cases (str_eq id asked)) [
    | inl y ↦ rw y refl
    | inr n ↦ rw n refl
  ]
  find-remove id asked ((key, v) ∷ m) =
      let later = find-remove id asked m in
      elim (Bool-cases (str_eq key id)) [
        | inl y ↦
            subst
              (λ x. find asked (remove id ((key, v) ∷ m)) ≡ (
                if str_eq x asked
                then none
                else (if str_eq key asked then some v else find asked m)))
              ((eq_iff key id).0 y)
              (rw (y, remove)
                (elim (Bool-cases (str_eq key asked)) [
                  | inl z ↦ rw z (later ∙ rw (sym ((eq_iff key id).0 y), z) refl)
                  | inr k ↦ rw k (later ∙ rw (sym ((eq_iff key id).0 y), k) refl)
                ]))
        | inr n ↦ elim (Bool-cases (str_eq key asked)) [
          | inl z ↦ rw (n, z, remove, find) (rw (not_both key id asked n z) refl)
          | inr k ↦ rw (n, k, remove, find) later
        ]
      ]

  pub find-insert :
      (id asked : String) (v : V) (m : List (String × V))
      → find asked (insert id v m) ≡ (if str_eq id asked then some v else find asked m)
  unfolding find insert
  find-insert id asked v m = elim (Bool-cases (str_eq id asked)) [
    | inl y ↦ rw y refl
    | inr n ↦ rw n (find-remove id asked m ∙ rw n refl)
  ]
