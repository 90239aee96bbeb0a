-- ===== src/Graph/Resolvers/Walks.antt =====
-- Walks of the block iterators of storage/pebble.go: what is still to come, and what it decodes to.
use mathlib.Core.List.{reverse, reverse_aux}
use tx_indexer.Base.{
  ◌⊎◌, keep, ℕ, zero, suc, ◌≤◌, ◌≡◌, refl, sym, ap, ◌∙◌, Bool, true, false, List, [], ◌∷◌, ok,
  if◌then◌else◌, map, length, take, In, is_cons, tail, arith, Bool-cases, inl, inr,
}
use tx_indexer.Chain.{Block}
use tx_indexer.Storage.Encode.{Bytes}
use tx_indexer.Storage.Engine.{Codec, Entry, WalkLaws}
use tx_indexer.Storage.Pebble.{BlockIter, block_iter_move}

is_cons-tail : {A : Type 0} (xs : List A) (x : A) (r : List A) → tail xs ≡ x ∷ r → is_cons xs ≡ true
is_cons-tail [] x r h = absurd (cc)
is_cons-tail (y ∷ ys) x r h = refl

module _ {I : Type 0} {start step : I → Bool × I} {valid : I → Bool} {key value : I → Bytes}
    {listed : I → List Entry} (w : WalkLaws I start step valid key value listed) where
  -- What is still to come.
  unfoldable pub upcoming : BlockIter I → List Entry
  upcoming it = if it.init then tail (w.ahead it.i) else listed it.i

  abbrev move : BlockIter I → Bool × BlockIter I
  move = block_iter_move start step valid

  pub move_end : (it : BlockIter I) → upcoming it ≡ [] → (move it).0 ≡ false
  unfolding block_iter_move upcoming
  move_end it e = ground (arith, w.step_found it.i, w.start_found it.i)

  pending_old : (it : BlockIter I) → it.init ≡ true → tail (w.ahead it.i) ≡ upcoming it
  unfolding upcoming
  pending_old it h = rw h refl

  pending_new : (it : BlockIter I) → it.init ≡ false → listed it.i ≡ upcoming it
  unfolding upcoming
  pending_new it h = rw h refl

  -- Next goes to the first upcoming entry, and leaves the others.
  pub move_step :
      (it : BlockIter I) (x : Entry) (r : List Entry)
      → upcoming it ≡ x ∷ r
      → ((move it).0 ≡ true) × (w.ahead (move it).1.i ≡ x ∷ r) × (upcoming (move it).1 ≡ r)
  unfolding block_iter_move upcoming
  move_step it x r e = elim (Bool-cases it.init) [
    | inr fresh ↦ rw fresh (
      w.start_found it.i ∙ ap is_cons (pending_new it fresh ∙ e),
      w.start_ahead it.i ∙ pending_new it fresh ∙ e,
      ap tail (w.start_ahead it.i ∙ pending_new it fresh ∙ e),
    )
    | inl started ↦
        rw
          (
            started,
            w.valid_ahead it.i,
            is_cons-tail (w.ahead it.i) x r (pending_old it started ∙ e),
          )
          (
            w.step_found it.i ∙ ap is_cons (pending_old it started ∙ e),
            w.step_ahead it.i ∙ pending_old it started ∙ e,
            ap tail (w.step_ahead it.i ∙ pending_old it started ∙ e),
          )
  ]

-- Each value decodes to its block.
abbrev pub Decodes : Codec → List Entry → List Block → Type 0
Decodes c [] [] = Unit
Decodes c [] (b ∷ bs) = ⊥
Decodes c (x ∷ xs) [] = ⊥
Decodes c (x ∷ xs) (b ∷ bs) = (c.decode_block x.1 ≡ ok b) × Decodes c xs bs

pub In-Decodes :
    (c : Codec) (xs : List Entry) (bs : List Block) (k v : Bytes) (b : Block)
    → Decodes c xs bs
    → In (k, v) xs
    → c.decode_block v ≡ ok b
    → In b bs
In-Decodes c [] bs k v b d i e = absurd i
In-Decodes c (x ∷ xs) [] k v b d i e = absurd d
In-Decodes c (x ∷ xs) (y ∷ ys) k v b d (inl i) e =
    inl (let same = ap (λ p. c.decode_block p.1) i in let h = d.0 in cc)
In-Decodes c (x ∷ xs) (y ∷ ys) k v b d (inr i) e = inr (In-Decodes c xs ys k v b d.1 i e)

pub In-map : {A B : Type 0} (f : A → B) (x : A) (xs : List A) → In x xs → In (f x) (map f xs)
In-map f x [] i = absurd i
In-map f x (y ∷ ys) (inl i) = inl (ap f i)
In-map f x (y ∷ ys) (inr i) = inr (In-map f x ys i)

pub In-keep :
    {A : Type 0} (p : A → Bool) (x : A) (xs : List A) → p x ≡ true → In x xs → In x (keep p xs)
unfolding keep
In-keep p x [] h i = absurd i
In-keep p x (y ∷ ys) h (inl i) = let q = sym (ap p i) ∙ h in rw (q, keep) (inl i)
In-keep p x (y ∷ ys) h (inr i) = elim (Bool-cases (p y)) [
  | inl q ↦ rw (q, keep) (inr (In-keep p x ys h i))
  | inr q ↦ rw (q, keep) (In-keep p x ys h i)
]

pub take_all : {A : Type 0} (n : ℕ) (xs : List A) → length xs ≤ n → take n xs ≡ xs
take_all zero [] h = refl
take_all zero (x ∷ xs) h = absurd (omega arith)
take_all (suc n) [] h = refl
take_all {A = A} (suc n) (x ∷ xs) h =
    ap {B = List A} (λ r. x ∷ r) (take_all n xs (omega (arith, h)))

In-reverse_aux : {A : Type 0} (x : A) (l r : List A) → (In x l ⊎ In x r) → In x (reverse_aux l r)
In-reverse_aux x [] r (inl i) = absurd i
In-reverse_aux x [] r (inr i) = i
In-reverse_aux x (y ∷ l) r (inl (inl q)) = In-reverse_aux x l (y ∷ r) (inr (inl q))
In-reverse_aux x (y ∷ l) r (inl (inr i)) = In-reverse_aux x l (y ∷ r) (inl i)
In-reverse_aux x (y ∷ l) r (inr i) = In-reverse_aux x l (y ∷ r) (inr (inr i))

pub In-reverse : {A : Type 0} (x : A) (l : List A) → In x l → In x (reverse l)
In-reverse x l i = In-reverse_aux x l [] (inl i)
