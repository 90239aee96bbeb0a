-- ===== src/Fetch/Store.antt =====
-- What the fetcher uses of storage/types.go: the reader of the latest height and a write batch; and the
-- readers of blocks and transactions, for what was saved.
-- `pebble_store` is the store of storage/pebble.go behind this interface.
pub mod Items
use tx_indexer.Base.{ℕ, ◌^◌, ◌<◌, ◌≡◌, ◌≢◌, Bool, true, false, Option, none, some, Result, ok, []}
use tx_indexer.Chain.{Block, TxResult}
use tx_indexer.Storage.Keys.{key_latest_height}
use tx_indexer.Storage.Encode.{encode_uint64_ascending}
use tx_indexer.Storage.Engine.{Engine, Codec, WriteLaws, CodecLaws}
use tx_indexer.Storage.Pebble.{
  StorageError, not_found, engine_error, codec_error, key_error, get_latest_height, write_batch,
  set_block, set_tx, set_latest_height, commit, rollback, get_block, get_tx,
}
use tx_indexer.Storage.Pebble.Writes.{staged-set_latest_height, get-commit, get_latest_height_of}

pub record Store : Type 1 where
  pub Db : Type 0
  pub Batch : Type 0
  pub Error : Type 0
  pub is_not_found : Error → Bool
  pub get_latest_height : Db → Result Error ℕ
  pub write_batch : Db → Batch
  pub set_block : Batch → Block → Option Error × Batch
  pub set_tx : Batch → TxResult → Option Error × Batch
  pub set_latest_height : Batch → ℕ → Option Error × Batch
  pub commit : Db → Batch → Result Error Db
  pub rollback : Batch → Option Error
  pub get_block : Db → ℕ → Result Error Block
  pub get_tx : Db → ℕ → ℕ → Result Error TxResult

-- After a commit of a batch in which the height was set last, it is the latest height.
pub record StoreLaws (s : Store) : Type 0 where
  pub get_latest_height-commit :
      (db db' : s.Db) (b : s.Batch) (h : ℕ)
      → h < 2 ^ 64
      → (s.set_latest_height b h).0 ≡ none
      → s.commit db (s.set_latest_height b h).1 ≡ ok db'
      → s.get_latest_height db' ≡ ok h

-- What a batch is given.
pub data Item : Type 0 where
  block_of : Block → Item
  tx_of : TxResult → Item

-- Two items that are not saved in one place.
abbrev pub Apart : Item → Item → Type 0
Apart (block_of a) (block_of b) = a.height ≢ b.height
Apart (block_of a) (tx_of t) = Unit
Apart (tx_of t) (block_of b) = Unit
Apart (tx_of t) (tx_of u) = ¬ ((t.height ≡ u.height) × (t.index ≡ u.index))

abbrev pub FitsKey : Item → Type 0
FitsKey (block_of b) = b.height < 2 ^ 64
FitsKey (tx_of t) = (t.height < 2 ^ 64) × (t.index < 2 ^ 32)

module _ (s : Store) where
  abbrev pub put : s.Batch → Item → Option s.Error × s.Batch
  put b (block_of block) = s.set_block b block
  put b (tx_of tx) = s.set_tx b tx

  -- The item is read back.
  abbrev pub Stored : s.Db → Item → Type 0
  Stored db (block_of block) = s.get_block db block.height ≡ ok block
  Stored db (tx_of tx) = s.get_tx db tx.height tx.index ≡ ok tx

-- `Has`: the batch holds the item. Other items and the height leave it there, and a commit stores it.
pub record ItemLaws (s : Store) : Type 1 where
  pub Has : s.Batch → Item → Type 0
  pub put-Has : (b : s.Batch) (i : Item) → (put s b i).0 ≡ none → Has (put s b i).1 i
  pub put-keeps :
      (b : s.Batch) (i j : Item)
      → FitsKey i
      → FitsKey j
      → Apart i j
      → (put s b j).0 ≡ none
      → Has b i
      → Has (put s b j).1 i
  pub set_latest_height-keeps :
      (b : s.Batch) (h : ℕ) (i : Item)
      → (s.set_latest_height b h).0 ≡ none
      → Has b i
      → Has (s.set_latest_height b h).1 i
  pub commit-Stored :
      (db db' : s.Db) (b : s.Batch) (i : Item) → s.commit db b ≡ ok db' → Has b i → Stored s db' i

-- errors.Is(err, storageErrors.ErrNotFound)
abbrev is_missing : {F C : Type 0} → StorageError F C → Bool
is_missing not_found = true
is_missing (engine_error f) = false
is_missing (codec_error f) = false
is_missing (key_error f) = false

abbrev engine_failure : (F C : Type 0) → Option F → Option (StorageError F C)
engine_failure F C none = none
engine_failure F C (some f) = some (engine_error f)

abbrev pub pebble_store : Engine → Codec → Store
pebble_store e c = record {
  Db = e.Db;
  Batch = e.Batch;
  Error = StorageError e.Failure c.CodecFailure;
  is_not_found = is_missing;
  get_latest_height = get_latest_height e c;
  write_batch = write_batch e c;
  set_block = set_block e c;
  set_tx = set_tx e c;
  get_block = get_block e c;
  get_tx = get_tx e c;
  set_latest_height = set_latest_height e c;
  commit = commit e c;
  rollback = λ b. engine_failure e.Failure c.CodecFailure (rollback e c b);
}

-- The store of storage/pebble.go keeps what the fetcher relies on.
pub pebble_store_laws :
    {e : Engine} {c : Codec} (w : WriteLaws e) (l : CodecLaws c) → StoreLaws (pebble_store e c)
pebble_store_laws w l = record {
  get_latest_height-commit = λ db db' b h fits set done. get_latest_height_of w l db' h fits (
      get-commit w l db db' _ key_latest_height (encode_uint64_ascending [] h) done
        (staged-set_latest_height w l b h set));
}
