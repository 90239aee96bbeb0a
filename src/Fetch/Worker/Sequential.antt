-- ===== src/Fetch/Worker/Sequential.antt =====
-- Fetching results one block after another (getTxResultsSequentially of fetch/worker.go): the
-- results stand where their blocks stand.
use tx_indexer.Base.{
  subst, ℕ, zero, suc, ◌+◌, ◌-◌, ◌%◌, ◌^◌, ◌≤◌, ◌<◌, ◌≡◌, ◌↔◌, ◌⊎◌, refl, sym, ap, ◌∙◌, List, [],
  ◌∷◌, none, some, ok, err, inl, inr, arith, ℕ_discrete, Bool-cases, Option-cases, Result-cases,
  ◌==◌, In, ==_iff, length, get_elem?,
}
use tx_indexer.Chain.{Tx, Block, DeliverTx, TxResult}
use tx_indexer.Fetch.Slots.{ChunkRange}
use tx_indexer.Fetch.Worker.{
  Client, Error, BlockResults, results_failed, tx_results, block_results, count_from, heights,
  get_tx_results_sequentially, entry,
}

in_range :
    (k n x : ℕ) {M : Type 0}
    → (M → (suc n ≤ x) × (x < suc n + k))
    → (x ≡ n) ⊎ M
    → (n ≤ x) × (x < n + suc k)
in_range k n x f (inl e) = omega arith
in_range k n x f (inr m) = let p = f m in omega arith

from_range :
    (k n x : ℕ) {M : Type 0}
    → ((suc n ≤ x) × (x < suc n + k) → M)
    → (n ≤ x) × (x < n + suc k)
    → (x ≡ n) ⊎ M
from_range k n x f p = elim (ℕ_discrete x n) [ yes e ↦ inl e | no ne ↦ inr (f (omega arith)) ]

count_from_range : (k n x : ℕ) → In x (count_from k n) ↔ ((n ≤ x) × (x < n + k))
unfolding count_from
count_from_range zero n x = (λ m. absurd m, λ p. absurd (omega arith))
count_from_range (suc k) n x = (
  λ m. in_range k n x ((count_from_range k (suc n) x).0) m,
  λ p. from_range k n x ((count_from_range k (suc n) x).1) p,
)

-- Exactly the heights of the range are requested.
pub heights_range : (r : ChunkRange) (x : ℕ) → In x (heights r) ↔ ((r.from ≤ x) × (x ≤ r.to))
unfolding heights
heights_range r x = (
  λ m. omega (arith, (count_from_range (r.to + 1 - r.from) r.from x).0 m),
  λ p. (count_from_range (r.to + 1 - r.from) r.from x).1 (omega arith),
)

from_some : {A : Type 0} (x y : A) → some x ≡ some y → y ≡ x
from_some x y h = sym (ap (λ o. elim o [ none ↦ y | some z ↦ z ]) h)

-- The entry of a block that the node has answered: as many results as transactions, and the result at
-- a position has the block's height, that position (a uint32), the transaction at it, and the answer
-- at it.
pub record Holds (block : Block) (answers : List DeliverTx) (txs : List TxResult) : Type 0 where
  pub count : length txs ≡ length block.txs
  pub at :
      (i : ℕ) (r : TxResult)
      → get_elem? txs i ≡ some r
      → (r.height ≡ block.height)
        × (r.index ≡ i % 2 ^ 32)
        × (get_elem? block.txs i ≡ some r.tx)
        × (get_elem? answers i ≡ some r.response)

-- The results from position `k` on.
abbrev At : ℕ → ℕ → List DeliverTx → List Tx → List TxResult → Type 0
At height k answers txs results =
    (i : ℕ) (r : TxResult)
    → get_elem? results i ≡ some r
    → (r.height ≡ height)
      × (r.index ≡ (k + i) % 2 ^ 32)
      × (get_elem? txs i ≡ some r.tx)
      × (get_elem? answers i ≡ some r.response)

abbrev Placed : ℕ → ℕ → List DeliverTx → List Tx → List TxResult → Type 0
Placed height k answers txs results =
    (length results ≡ length txs) × At height k answers txs results

placed_later :
    (height k : ℕ) (d : DeliverTx) (ds : List DeliverTx) (tx : Tx) (txs : List Tx)
    (rest : List TxResult)
    → At height (suc k) ds txs rest
    → At height k
        (d ∷ ds)
        (tx ∷ txs)
        (record { height = height; index = k % 2 ^ 32; tx = tx; response = d } ∷ rest)
placed_later height k d ds tx txs rest at zero r g = (
  sym (ap (λ o. elim o [ none ↦ height | some x ↦ x.height ]) g),
  sym (ap (λ o. elim o [ none ↦ k % 2 ^ 32 | some x ↦ x.index ]) g) ∙ omega arith,
  ap (λ o. elim o [ none ↦ none | some x ↦ some x.tx ]) g,
  ap (λ o. elim o [ none ↦ none | some x ↦ some x.response ]) g,
)
placed_later height k d ds tx txs rest at (suc i) r g =
    let (h, index, t, a) = at i r g in (h, index ∙ omega arith, t, a)

tx_results-Holds :
    (height k : ℕ) (answers : List DeliverTx) (txs : List Tx) (results : List TxResult)
    → tx_results height k answers txs ≡ some results
    → Placed height k answers txs results
unfolding tx_results
tx_results-Holds height k answers [] results h =
    subst (Placed height k answers []) (sym (from_some [] results h)) (refl, λ i r g. absurd (cc))
tx_results-Holds height k [] (tx ∷ txs) results h = absurd (cc)
tx_results-Holds height k (d ∷ ds) (tx ∷ txs) results h =
    elim (Option-cases (tx_results height (suc k) ds txs)) [
      | inl n ↦ absurd (let q = rw (n, tx_results) at h in cc)
      | inr (rest, e) ↦
          let q = rw (e, tx_results) at h in
          let (count, at) = tx_results-Holds height (suc k) ds txs rest e in
          subst (Placed height k (d ∷ ds) (tx ∷ txs)) (sym (from_some _ results q))
            (ap suc count, placed_later height k d ds tx txs rest at)
    ]

module _ (c : Client) where
  -- The entry of a block: empty for a block without transactions or, with an error that is reported,
  -- for one whose results the node does not give, and else the node's results of its transactions.
  abbrev pub Fetched : List (Error c) → Block → List TxResult → Type 0
  Fetched errs block txs =
      ((block.num_txs ≡ 0) × (txs ≡ []))
      ⊎ ((e : c.Failure) × (c.get_block_results block.height ≡ err e)
          × (txs ≡ [])
          × In (results_failed block.height e) errs)
      ⊎ ((a : BlockResults) × (c.get_block_results block.height ≡ ok a)
          × Holds block a.deliver_txs txs)

  -- Blocks and entries, one by one.
  abbrev pub Aligned : List (Error c) → List Block → List (List TxResult) → Type 0
  Aligned errs [] [] = Unit {0}
  Aligned errs [] (txs ∷ rest) = ⊥
  Aligned errs (block ∷ blocks) [] = ⊥
  Aligned errs (block ∷ blocks) (txs ∷ rest) = Fetched errs block txs × Aligned errs blocks rest

  -- More errors do not matter.
  Aligned-more :
      (errs : List (Error c)) (e : Error c) (blocks : List Block) (results : List (List TxResult))
      → Aligned errs blocks results
      → Aligned (e ∷ errs) blocks results
  Aligned-more errs e [] [] a = tt
  Aligned-more errs e [] (txs ∷ rest) a = absurd a
  Aligned-more errs e (block ∷ blocks) [] a = absurd a
  Aligned-more errs e (block ∷ blocks) (txs ∷ rest) (inl quiet, a) =
      (inl quiet, Aligned-more errs e blocks rest a)
  Aligned-more errs e (block ∷ blocks) (txs ∷ rest) (inr (inl (f, up, nothing, told)), a) =
      (inr (inl (f, up, nothing, inr told)), Aligned-more errs e blocks rest a)
  Aligned-more errs e (block ∷ blocks) (txs ∷ rest) (inr (inr got), a) =
      (inr (inr got), Aligned-more errs e blocks rest a)

  block_results-Holds :
      (block : Block) (answers : List DeliverTx) (txs : List TxResult)
      → block_results block.height answers block ≡ some txs
      → Holds block answers txs
  unfolding block_results
  block_results-Holds block answers txs h = elim (Bool-cases (length block.txs == block.num_txs)) [
    | inl y ↦
        let (count, at) = tx_results-Holds block.height 0 answers block.txs txs (rw y at h) in
        record {
          count = count;
          at = λ i r g. let (h, index, t, a) = at i r g in (h, index ∙ omega arith, t, a);
        }
    | inr n ↦ absurd (let q = rw n at h in cc)
  ]

  entry-Aligned :
      (block : Block) (blocks : List Block) (rest : List (List TxResult)) (es : List (Error c))
      (results : List (List TxResult)) (errs : List (Error c))
      → entry c block (some (rest, es)) ≡ some (results, errs)
      → Aligned es blocks rest
      → Aligned errs (block ∷ blocks) results
  unfolding entry
  entry-Aligned block blocks rest es results errs h a = elim (Bool-cases (block.num_txs == 0)) [
    | inl z ↦
        moved _ (from_some _ (results, errs) (rw z at h))
          (inl ((==_iff block.num_txs 0).0 z, refl), a)
    | inr nz ↦ elim (Result-cases (c.get_block_results block.height)) [
      | inr (e, up) ↦ moved _ (from_some _ (results, errs) (rw (nz, up) at h)) (
        inr (inl (e, up, refl, inl refl)),
        Aligned-more es (results_failed block.height e) blocks rest a,
      )
      | inl (answer, up) ↦
          elim (Option-cases (block_results block.height answer.deliver_txs block)) [
            | inl gone ↦ absurd (let q = rw (nz, up, gone) at h in cc)
            | inr (txs, got) ↦
                moved _ (from_some _ (results, errs) (rw (nz, up, got) at h))
                  (inr (inr (answer, up, block_results-Holds block answer.deliver_txs txs got)), a)
          ]
    ]
  ]
    where
      moved :
          (p : List (List TxResult) × List (Error c))
          → (results, errs) ≡ p
          → Aligned p.1 (block ∷ blocks) p.0
          → Aligned errs (block ∷ blocks) results
      moved p e b = subst (λ x. Aligned x.1 (block ∷ blocks) x.0) (sym e) b

  -- If fetching one after another returns, each block's entry stands at its block's place. It is empty
  -- for a block without transactions and for a block whose results the node fails to give, and that
  -- failure is then among the errors; else it holds one result for each transaction, in order, with
  -- the block's height, the transaction's position, the transaction and the node's answer to it.
  pub get_tx_results_sequentially-Aligned :
      (blocks : List Block) (results : List (List TxResult)) (errs : List (Error c))
      → get_tx_results_sequentially c blocks ≡ some (results, errs)
      → Aligned errs blocks results
  unfolding get_tx_results_sequentially entry
  get_tx_results_sequentially-Aligned [] results errs h =
      subst (λ p. Aligned p.1 [] p.0) (sym (from_some _ (results, errs) h)) tt
  get_tx_results_sequentially-Aligned (block ∷ blocks) results errs h =
      elim (Option-cases (get_tx_results_sequentially c blocks)) [
        | inl n ↦ absurd (let q = rw (n, entry) at h in cc)
        | inr ((rest, es), e) ↦
            entry-Aligned block blocks rest es results errs (rw e at h)
              (get_tx_results_sequentially-Aligned blocks rest es e)
      ]
