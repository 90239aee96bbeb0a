-- ===== src/Fetch/Slots/SetChunk.antt =====
-- setChunk of fetch/slots.go does not move a slot.
use tx_indexer.Base.{ℕ, zero, suc, ◌≡◌, List, [], ◌∷◌, some, arith, Option-cases, inl, inr, length}
use tx_indexer.Fetch.Slots.{Chunk, Slot, set_at}
use tx_indexer.Fetch.Slots.Gaps.{ranges}

pub ranges-set_at :
    (q r : List Slot) (i : ℕ) (c : Chunk) → set_at q i c ≡ some r → ranges r ≡ ranges q
unfolding set_at
ranges-set_at [] r i c h = cc
ranges-set_at (x ∷ xs) r zero c h = ground arith
ranges-set_at (x ∷ xs) r (suc i) c h = elim (Option-cases (set_at xs i c)) [
  | inl e ↦ absurd (ground arith)
  | inr (ys, e) ↦ ground (arith, ranges-set_at xs ys i c e)
]

pub length-set_at :
    (q r : List Slot) (i : ℕ) (c : Chunk) → set_at q i c ≡ some r → length r ≡ length q
unfolding set_at
length-set_at [] r i c h = cc
length-set_at (x ∷ xs) r zero c h = ground arith
length-set_at (x ∷ xs) r (suc i) c h = elim (Option-cases (set_at xs i c)) [
  | inl e ↦ absurd (ground arith)
  | inr (ys, e) ↦ ground (arith, length-set_at xs ys i c e)
]
