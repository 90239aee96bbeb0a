-- ===== src/Fetch/Store/Items.antt =====
-- The store of storage/pebble.go keeps the blocks and transactions of a batch.
use tx_indexer.Base.{ℕ, ◌≡◌, ◌≢◌, sym, ◌∙◌, none, some, ok, inl, inr, arith, Result-cases}
use tx_indexer.Chain.{Block}
use tx_indexer.Storage.Encode.{Bytes}
use tx_indexer.Storage.Engine.{Engine, Codec, WriteLaws, CodecLaws}
use tx_indexer.Storage.Keys.{key_block, key_tx}
use tx_indexer.Storage.Keys.Disjoint.{
  key_block-injective, key_tx-injective, key_block-ne-key_tx, key_block-ne-key_hash_tx,
  key_tx-ne-key_hash_tx, key_latest_height-ne-key_block, key_latest_height-ne-key_tx,
}
use tx_indexer.Storage.Pebble.{set_block}
use tx_indexer.Storage.Pebble.Writes.{
  staged-set_block, staged-set_tx, staged-set_tx_ne, staged-set_latest_height_ne, get-commit,
  get_block_of, get_tx_of,
}
use tx_indexer.Fetch.Store.{
  Item, block_of, tx_of, Apart, FitsKey, ItemLaws, Stored, put, pebble_store,
}

module _ {e : Engine} {c : Codec} (w : WriteLaws e) (l : CodecLaws c) where
  staged-set_block_ne :
      (b : e.Batch) (block : Block) (k : Bytes)
      → (set_block e c b block).0 ≡ none
      → key_block block.height ≢ k
      → w.staged (set_block e c b block).1 k ≡ w.staged b k
  unfolding set_block
  staged-set_block_ne b block k h n = elim (Result-cases (c.encode_block block)) [
    | inl (x, q) ↦ ground (arith, w.staged-set_ne b (key_block block.height) x k)
    | inr (f, q) ↦ absurd (ground arith)
  ]

  abbrev key_of : Item → Bytes
  key_of (block_of b) = key_block b.height
  key_of (tx_of t) = key_tx t.height t.index

  -- The item's encoding stands under its key.
  abbrev HasEncoded : e.Batch → Item → Type 0
  HasEncoded b (block_of x) =
      (v : Bytes) × (c.encode_block x ≡ ok v) × (w.staged b (key_block x.height) ≡ some v)
  HasEncoded b (tx_of t) =
      (v : Bytes) × (c.encode_tx t ≡ ok v) × (w.staged b (key_tx t.height t.index) ≡ some v)

  moved :
      (b b' : e.Batch) (i : Item)
      → w.staged b' (key_of i) ≡ w.staged b (key_of i)
      → HasEncoded b i
      → HasEncoded b' i
  moved b b' (block_of x) same (v, q, at) = (v, q, same ∙ at)
  moved b b' (tx_of t) same (v, q, at) = (v, q, same ∙ at)

  put-HasEncoded :
      (b : e.Batch) (i : Item)
      → (put (pebble_store e c) b i).0 ≡ none
      → HasEncoded (put (pebble_store e c) b i).1 i
  put-HasEncoded b (block_of x) h = staged-set_block w l b x h
  put-HasEncoded b (tx_of t) h = staged-set_tx w l b t h

  put-keeps :
      (b : e.Batch) (i j : Item)
      → FitsKey i
      → FitsKey j
      → Apart i j
      → (put (pebble_store e c) b j).0 ≡ none
      → HasEncoded b i
      → HasEncoded (put (pebble_store e c) b j).1 i
  put-keeps b (block_of x) (block_of y) f g n h has =
      moved b _ (block_of x)
        (staged-set_block_ne b y (key_block x.height) h
          (λ q. n (sym (key_block-injective y.height x.height g f q))))
        has
  put-keeps b (block_of x) (tx_of t) f g n h has =
      moved b _ (block_of x)
        (staged-set_tx_ne w l b t (key_block x.height) h
          (λ q. key_block-ne-key_tx x.height t.height t.index (sym q))
          (λ q. key_block-ne-key_hash_tx x.height (c.tx_hash t.tx) (sym q)))
        has
  put-keeps b (tx_of t) (block_of y) f g n h has =
      moved b _ (tx_of t)
        (staged-set_block_ne b y (key_tx t.height t.index) h
          (key_block-ne-key_tx y.height t.height t.index))
        has
  put-keeps b (tx_of t) (tx_of u) f g n h has =
      moved b _ (tx_of t)
        (staged-set_tx_ne w l b u (key_tx t.height t.index) h
          (λ q. n (key_tx-injective t.height t.index u.height u.index f.0 g.0 f.1 g.1 (sym q)))
          (λ q. key_tx-ne-key_hash_tx t.height t.index (c.tx_hash u.tx) (sym q)))
        has

  -- A batch of the pebble store holds what it is given, whatever else it is given after it, and a
  -- commit makes it readable.
  pub pebble_item_laws : ItemLaws (pebble_store e c)
  pebble_item_laws = record {
    Has = HasEncoded;
    put-Has = put-HasEncoded;
    put-keeps = put-keeps;
    set_latest_height-keeps = λ b h i set has. moved b _ i (height_elsewhere b h i set) has;
    commit-Stored = committed;
  }
    where
      height_elsewhere :
          (b : e.Batch) (h : ℕ) (i : Item)
          → ((pebble_store e c).set_latest_height b h).0 ≡ none
          → w.staged ((pebble_store e c).set_latest_height b h).1 (key_of i) ≡ w.staged b (key_of i)
      height_elsewhere b h (block_of x) set =
          staged-set_latest_height_ne w l b h (key_block x.height) set
            (key_latest_height-ne-key_block x.height)
      height_elsewhere b h (tx_of t) set =
          staged-set_latest_height_ne w l b h (key_tx t.height t.index) set
            (key_latest_height-ne-key_tx t.height t.index)

      committed :
          (db db' : e.Db) (b : e.Batch) (i : Item)
          → (pebble_store e c).commit db b ≡ ok db'
          → HasEncoded b i
          → Stored (pebble_store e c) db' i
      committed db db' b (block_of x) done (v, q, at) =
          get_block_of w l db' x v q (get-commit w l db db' b (key_block x.height) v done at)
      committed db db' b (tx_of t) done (v, q, at) =
          get_tx_of w l db' t v q (get-commit w l db db' b (key_tx t.height t.index) v done at)
