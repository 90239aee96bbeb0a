-- ===== src/Storage/Pebble/Writes.antt =====
-- What a committed batch makes readable.
use mathlib.Core.List.{append-nil}
use tx_indexer.Base.{ℕ, ◌^◌, ◌<◌, ◌≡◌, ◌≢◌, [], none, some, ok, inl, inr, arith, Result-cases}
use tx_indexer.Chain.{Block, TxResult}
use tx_indexer.Storage.Encode.{Bytes, encode_uint64_ascending}
use tx_indexer.Storage.Encode.Uints.{decode_uint64_ascending-encode_uint64_ascending}
use tx_indexer.Storage.Keys.{key_latest_height, key_block, key_tx, key_hash_tx}
use tx_indexer.Storage.Keys.Disjoint.{key_tx-ne-key_hash_tx}
use tx_indexer.Storage.Engine.{Engine, Codec, WriteLaws, CodecLaws}
use tx_indexer.Storage.Pebble.{
  set_block, set_tx, set_latest_height, commit, get_block, get_tx, get_tx_by_hash,
  get_latest_height,
}

module _ {e : Engine} {c : Codec} (w : WriteLaws e) (l : CodecLaws c) where
  open w use {staged, staged-set_self, staged-set_ne, get-commit_staged, get-commit_unstaged}

  -- What a successful SetBlock leaves in the batch.
  pub staged-set_block :
      (b : e.Batch) (block : Block)
      → (set_block e c b block).0 ≡ none
      → (x : Bytes) × (c.encode_block block ≡ ok x)
        × (staged (set_block e c b block).1 (key_block block.height) ≡ some x)
  unfolding set_block
  staged-set_block b block h = elim (Result-cases (c.encode_block block)) [
    | inl (x, q) ↦ (x, q, ground (arith, staged-set_self b (key_block block.height) x))
    | inr (f, q) ↦ absurd (ground arith)
  ]

  -- A successful SetTx writes the index entry and the transaction, and no third key.
  pub staged-set_tx_index :
      (b : e.Batch) (t : TxResult)
      → (set_tx e c b t).0 ≡ none
      → staged (set_tx e c b t).1 (key_hash_tx (c.tx_hash t.tx)) ≡ some (key_tx t.height t.index)
  unfolding set_tx
  staged-set_tx_index b t h = elim (Result-cases (c.encode_tx t)) [
    | inl (x, q) ↦ ground (
      arith,
      staged-set_self b (key_hash_tx (c.tx_hash t.tx)) (key_tx t.height t.index),
      staged-set_ne (index_set t) (key_tx t.height t.index) x (key_hash_tx (c.tx_hash t.tx)),
      key_tx-ne-key_hash_tx t.height t.index (c.tx_hash t.tx),
    )
    | inr (f, q) ↦ absurd (ground arith)
  ]
    where
      index_set : TxResult → e.Batch
      index_set t = (e.set b (key_hash_tx (c.tx_hash t.tx)) (key_tx t.height t.index)).1

  pub staged-set_tx :
      (b : e.Batch) (t : TxResult)
      → (set_tx e c b t).0 ≡ none
      → (x : Bytes) × (c.encode_tx t ≡ ok x)
        × (staged (set_tx e c b t).1 (key_tx t.height t.index) ≡ some x)
  unfolding set_tx
  staged-set_tx b t h = elim (Result-cases (c.encode_tx t)) [
    | inl (x, q) ↦ (
      x,
      q,
      ground (
        arith,
        staged-set_self (e.set b (key_hash_tx (c.tx_hash t.tx)) (key_tx t.height t.index)).1
            (key_tx t.height t.index) x,
      ),
    )
    | inr (f, q) ↦ absurd (ground arith)
  ]

  pub staged-set_tx_ne :
      (b : e.Batch) (t : TxResult) (k : Bytes)
      → (set_tx e c b t).0 ≡ none
      → key_tx t.height t.index ≢ k
      → key_hash_tx (c.tx_hash t.tx) ≢ k
      → staged (set_tx e c b t).1 k ≡ staged b k
  unfolding set_tx
  staged-set_tx_ne b t k h p q = elim (Result-cases (c.encode_tx t)) [
    | inl (x, r) ↦ ground (
      arith,
      staged-set_ne b (key_hash_tx (c.tx_hash t.tx)) (key_tx t.height t.index) k,
      staged-set_ne (e.set b (key_hash_tx (c.tx_hash t.tx)) (key_tx t.height t.index)).1
          (key_tx t.height t.index) x k,
    )
    | inr (f, r) ↦ absurd (ground arith)
  ]

  pub staged-set_latest_height :
      (b : e.Batch) (h : ℕ)
      → (set_latest_height e c b h).0 ≡ none
      → staged (set_latest_height e c b h).1 key_latest_height ≡ some (encode_uint64_ascending [] h)
  unfolding set_latest_height
  staged-set_latest_height b h q =
      ground (arith, staged-set_self b key_latest_height (encode_uint64_ascending [] h))

  pub staged-set_latest_height_ne :
      (b : e.Batch) (h : ℕ) (k : Bytes)
      → (set_latest_height e c b h).0 ≡ none
      → key_latest_height ≢ k
      → staged (set_latest_height e c b h).1 k ≡ staged b k
  unfolding set_latest_height
  staged-set_latest_height_ne b h k q r =
      ground (arith, staged-set_ne b key_latest_height (encode_uint64_ascending [] h) k)

  -- Reading from what a commit has made of a staged entry.
  pub get-commit :
      (db db' : e.Db) (b : e.Batch) (k v : Bytes)
      → commit e c db b ≡ ok db'
      → staged b k ≡ some v
      → e.get db' k ≡ ok v
  unfolding commit
  get-commit db db' b k v h s = get-commit_staged db db' b k v (ground arith) s

  pub get_block_of :
      (db : e.Db) (block : Block) (x : Bytes)
      → c.encode_block block ≡ ok x
      → e.get db (key_block block.height) ≡ ok x
      → get_block e c db block.height ≡ ok block
  unfolding get_block
  get_block_of db block x q g = rw g (rw (l.decode_block-encode_block block x q))

  pub get_tx_of :
      (db : e.Db) (t : TxResult) (x : Bytes)
      → c.encode_tx t ≡ ok x
      → e.get db (key_tx t.height t.index) ≡ ok x
      → get_tx e c db t.height t.index ≡ ok t
  unfolding get_tx
  get_tx_of db t x q g = rw g (rw (l.decode_tx-encode_tx t x q))

  pub get_tx_by_hash_of :
      (db : e.Db) (t : TxResult) (x : Bytes)
      → c.encode_tx t ≡ ok x
      → e.get db (key_hash_tx (c.tx_hash t.tx)) ≡ ok (key_tx t.height t.index)
      → e.get db (key_tx t.height t.index) ≡ ok x
      → get_tx_by_hash e c db (c.tx_hash t.tx) ≡ ok t
  unfolding get_tx_by_hash
  get_tx_by_hash_of db t x q g k = rw (g, k) (rw (l.decode_tx-encode_tx t x q))

  pub get_latest_height_of :
      (db : e.Db) (h : ℕ)
      → h < 2 ^ 64
      → e.get db key_latest_height ≡ ok (encode_uint64_ascending [] h)
      → get_latest_height e c db ≡ ok h
  unfolding get_latest_height
  get_latest_height_of db h p g =
      rw (g, ← append-nil (encode_uint64_ascending [] h))
        (rw (decode_uint64_ascending-encode_uint64_ascending h [] p))
