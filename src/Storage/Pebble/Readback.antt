-- ===== src/Storage/Pebble/Readback.antt =====
-- A batch of storage/pebble.go as a whole: what the readers see after its commit.
use tx_indexer.Base.{
  ℕ, ◌^◌, ◌<◌, ◌≡◌, ◌≢◌, refl, sym, ◌∙◌, [], none, some, ok, err, arith, Option, inl, inr,
  Result-cases,
}
use tx_indexer.Chain.{Block, TxResult}
use tx_indexer.Storage.Encode.{Bytes, encode_uint64_ascending}
use tx_indexer.Storage.Keys.{key_latest_height, key_block, key_tx, key_hash_tx}
use tx_indexer.Storage.Keys.Disjoint.{
  key_block-injective, key_block-ne-key_tx, key_block-ne-key_hash_tx,
  key_latest_height-ne-key_block, key_latest_height-ne-key_tx, key_latest_height-ne-key_hash_tx,
}
use tx_indexer.Storage.Engine.{Engine, Codec, WriteLaws, CodecLaws, missing}
use tx_indexer.Storage.Pebble.{
  StorageError, not_found, write_batch, set_block, set_tx, set_latest_height, commit, get_block,
  get_tx, get_tx_by_hash, get_latest_height,
}
use tx_indexer.Storage.Pebble.Writes.{
  staged-set_block, staged-set_tx_index, staged-set_tx, staged-set_tx_ne, staged-set_latest_height,
  staged-set_latest_height_ne, get-commit, get_block_of, get_tx_of, get_tx_by_hash_of,
  get_latest_height_of,
}

module _ {e : Engine} {c : Codec} (w : WriteLaws e) (l : CodecLaws c) (db db' : e.Db) (b : e.Batch)
    (block : Block) (t : TxResult) (h : ℕ) where
  abbrev with_block : Option (StorageError e.Failure c.CodecFailure) × e.Batch
  with_block = set_block e c b block

  abbrev with_tx : Option (StorageError e.Failure c.CodecFailure) × e.Batch
  with_tx = set_tx e c with_block.1 t

  abbrev with_height : Option (StorageError e.Failure c.CodecFailure) × e.Batch
  with_height = set_latest_height e c with_tx.1 h

  -- If a block, a transaction and the height are set without error and the batch is committed, then
  -- the block is found by its height, the transaction by its height and index and by its hash, and
  -- the height is the latest one.
  pub batch_readback :
      with_block.0 ≡ none
      → with_tx.0 ≡ none
      → with_height.0 ≡ none
      → commit e c db with_height.1 ≡ ok db'
      → h < 2 ^ 64
      → (get_block e c db' block.height ≡ ok block)
        × (get_tx e c db' t.height t.index ≡ ok t)
        × (get_tx_by_hash e c db' (c.tx_hash t.tx) ≡ ok t)
        × (get_latest_height e c db' ≡ ok h)
  batch_readback p q r s fits = (block_read, tx_read, hash_read, height_read)
    where
      stored_block :
          (x : Bytes) × (c.encode_block block ≡ ok x)
          × (w.staged with_block.1 (key_block block.height) ≡ some x)
      stored_block = staged-set_block w l b block p

      stored_tx :
          (x : Bytes) × (c.encode_tx t ≡ ok x)
          × (w.staged with_tx.1 (key_tx t.height t.index) ≡ some x)
      stored_tx = staged-set_tx w l with_block.1 t q

      tx_in_db : e.get db' (key_tx t.height t.index) ≡ ok stored_tx.0
      tx_in_db = get-commit w l db db' with_height.1 (key_tx t.height t.index) stored_tx.0 s (
          staged-set_latest_height_ne w l with_tx.1 h (key_tx t.height t.index) r
            (key_latest_height-ne-key_tx t.height t.index)
          ∙ stored_tx.2)

      block_read : get_block e c db' block.height ≡ ok block
      block_read = get_block_of w l db' block stored_block.0 stored_block.1 (
          get-commit w l db db' with_height.1 (key_block block.height) stored_block.0 s (
            staged-set_latest_height_ne w l with_tx.1 h (key_block block.height) r
              (key_latest_height-ne-key_block block.height)
            ∙ staged-set_tx_ne w l with_block.1 t (key_block block.height) q
                (λ eq. key_block-ne-key_tx block.height t.height t.index (sym eq))
                (λ eq. key_block-ne-key_hash_tx block.height (c.tx_hash t.tx) (sym eq))
            ∙ stored_block.2))

      tx_read : get_tx e c db' t.height t.index ≡ ok t
      tx_read = get_tx_of w l db' t stored_tx.0 stored_tx.1 tx_in_db

      hash_read : get_tx_by_hash e c db' (c.tx_hash t.tx) ≡ ok t
      hash_read =
          get_tx_by_hash_of w l db' t stored_tx.0 stored_tx.1
            (get-commit w l db db' with_height.1 (key_hash_tx (c.tx_hash t.tx))
              (key_tx t.height t.index) s
              (staged-set_latest_height_ne w l with_tx.1 h (key_hash_tx (c.tx_hash t.tx)) r
                  (key_latest_height-ne-key_hash_tx (c.tx_hash t.tx))
                ∙ staged-set_tx_index w l with_block.1 t q))
            tx_in_db

      height_read : get_latest_height e c db' ≡ ok h
      height_read = get_latest_height_of w l db' h fits (
          get-commit w l db db' with_height.1 key_latest_height (encode_uint64_ascending [] h) s
            (staged-set_latest_height w l with_tx.1 h r))

-- A commit of one block leaves every other height as it was.
pub get_block-commit_ne :
    {e : Engine} (c : Codec) (w : WriteLaws e) (db db' : e.Db) (block : Block) (h : ℕ)
    → (set_block e c (write_batch e c db) block).0 ≡ none
    → commit e c db (set_block e c (write_batch e c db) block).1 ≡ ok db'
    → block.height ≢ h
    → block.height < 2 ^ 64
    → h < 2 ^ 64
    → get_block e c db' h ≡ get_block e c db h
unfolding get_block set_block commit write_batch
get_block-commit_ne {e} c w db db' block h p q other fits fits' =
    elim (Result-cases (c.encode_block block)) [
      | inl (x, r) ↦ rw (unchanged x r)
      | inr (f, r) ↦ absurd (ground arith)
    ]
  where
    key_ne : key_block block.height ≢ key_block h
    key_ne = λ eq. other (key_block-injective block.height h fits fits' eq)

    unchanged :
        (x : Bytes) → c.encode_block block ≡ ok x → e.get db' (key_block h) ≡ e.get db (key_block h)
    unchanged x r =
        w.get-commit_unstaged db db' (e.set (e.new_batch db) (key_block block.height) x).1
          (key_block h) (ground arith)
          (w.staged-set_ne (e.new_batch db) (key_block block.height) x (key_block h) (ground arith)
              key_ne
            ∙ w.staged-new_batch db (key_block h))

-- A transaction whose key is missing is not found.
pub get_tx_absent :
    (e : Engine) (c : Codec) (db : e.Db) (block_num index : ℕ)
    → e.get db (key_tx block_num index) ≡ err missing
    → get_tx e c db block_num index ≡ err not_found
unfolding get_tx
get_tx_absent e c db block_num index m = rw m refl
