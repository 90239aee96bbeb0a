-- ===== src/Storage/Pebble.antt =====
-- storage/pebble.go: the store over the engine. A function takes the database that it reads, and
-- a commit gives the new one. Closing a value or an iterator has no effect on what is read.
pub mod Writes
pub mod Readback
pub mod Iterators
pub mod Next
pub mod Visits
use tx_indexer.Base.{
  ℕ, zero, suc, ◌+◌, ◌-◌, ◌%◌, ◌^◌, ◌≡◌, Bool, true, false, ◌&&◌, List, [], Option, none, some,
  Result, ok, err, ◌>>=◌, ltb, leb, ◌==◌, if◌then◌else◌,
}
use tx_indexer.Chain.{Block, TxResult}
use tx_indexer.Storage.Encode.{
  Bytes, DecodeError, encode_uint64_ascending, decode_uint64_ascending, decode_uint32_ascending,
  decode_unsafe_string_ascending,
}
use tx_indexer.Storage.Keys.{key_latest_height, key_block, key_tx, key_hash_tx}
use tx_indexer.Storage.Engine.{Engine, Codec, GetError, missing, failed}

-- storageErrors.ErrNotFound, and the errors that are passed on.
pub data StorageError (F C : Type 0) : Type 0 where
  not_found : StorageError F C
  engine_error : F → StorageError F C
  codec_error : C → StorageError F C
  key_error : DecodeError → StorageError F C

abbrev pub max_int64 : ℕ
max_int64 = 2 ^ 63 - 1

abbrev pub max_uint32 : ℕ
max_uint32 = 2 ^ 32 - 1

-- The upper bounds of the iterators: 0 stands for no bound, and the bound is exclusive.
unfoldable pub to_block_bound : ℕ → ℕ
to_block_bound to_block_num = if to_block_num == 0 then max_int64 else (to_block_num + 1) % 2 ^ 64

pub to_index_bound : ℕ → ℕ
to_index_bound to_tx_index = if to_tx_index == 0 then max_uint32 else (to_tx_index + 1) % 2 ^ 32

pub record BlockIter (I : Type 0) : Type 0 where
  pub i : I
  pub init : Bool

pub record TxIter (I : Type 0) : Type 0 where
  pub next_error : Option DecodeError
  pub i : I
  pub from_index : ℕ
  pub to_index : ℕ
  pub init : Bool

-- The transaction index in a key, as Next reads it.
pub key_tx_index : Bytes → Result DecodeError ℕ
key_tx_index k = do
  (k1, prefix) ← decode_unsafe_string_ascending k []
  (k2, block_num) ← decode_uint64_ascending k1
  (k3, tx_index) ← decode_uint32_ascending k2
  ok tx_index

module _ {I : Type 0} (start step : I → Bool × I) (valid : I → Bool) where
  -- Next of the block iterators: First or Last once, then Next or Prev.
  unfoldable pub block_iter_move : BlockIter I → Bool × BlockIter I
  block_iter_move it =
      if it.init
      then (if valid it.i
          then (let (found, i') = step it.i in (found, record it { i = i' }))
          else (false, it))
      else (let (found, i') = start it.i in (found, record it { i = i'; init = true }))

module _ {I : Type 0} (start step : I → Bool × I) (key : I → Bytes) where
  -- The first lines of the loop in Next of the transaction iterators.
  pub tx_iter_position : TxIter I → Bool × TxIter I
  tx_iter_position it =
      if it.init
      then (let (found, i') = step it.i in (found, record it { i = i' }))
      else (let (found, i') = start it.i in (found, record it { i = i'; init = found }))

  -- The loop: it ends at an entry whose index is in range, at an error, or with the entries; `none`
  -- means that the fuel ran out.
  pub tx_iter_move : ℕ → TxIter I → Option (Bool × TxIter I)
  tx_iter_move zero it = none
  tx_iter_move (suc fuel) it =
      let moved = tx_iter_position it in
      let rest = tx_iter_move fuel moved.1 in
      if moved.0
      then elim (key_tx_index (key moved.1.i)) [
        | err e ↦ some (false, record moved.1 { next_error = some e })
        | ok tx_idx ↦
            if leb it.from_index tx_idx && ltb tx_idx it.to_index
            then some (true, moved.1)
            else rest
      ]
      else some (false, moved.1)

module _ (e : Engine) (c : Codec) where
  abbrev pub Error : Type 0
  Error = StorageError e.Failure c.CodecFailure

  abbrev lift_get : Result (GetError e.Failure) Bytes → Result Error Bytes
  lift_get (ok v) = ok v
  lift_get (err missing) = err not_found
  lift_get (err (failed f)) = err (engine_error f)

  abbrev lift_engine {ℓ} : {A : Type ℓ} → Result e.Failure A → Result Error A
  lift_engine (ok a) = ok a
  lift_engine (err f) = err (engine_error f)

  abbrev pub lift_codec {ℓ} : {A : Type ℓ} → Result c.CodecFailure A → Result Error A
  lift_codec (ok a) = ok a
  lift_codec (err f) = err (codec_error f)

  abbrev lift_decode : Result DecodeError (Bytes × ℕ) → Result Error ℕ
  lift_decode (ok (rest, n)) = ok n
  lift_decode (err f) = err (key_error f)

  unfoldable pub get_latest_height : e.Db → Result Error ℕ
  get_latest_height db = do
    height ← lift_get (e.get db key_latest_height)
    lift_decode (decode_uint64_ascending height)

  pub get_block : e.Db → ℕ → Result Error Block
  get_block db block_num = do
    block ← lift_get (e.get db (key_block block_num))
    lift_codec (c.decode_block block)

  pub get_tx : e.Db → ℕ → ℕ → Result Error TxResult
  get_tx db block_num index = do
    tx ← lift_get (e.get db (key_tx block_num index))
    lift_codec (c.decode_tx tx)

  pub get_tx_by_hash : e.Db → Bytes → Result Error TxResult
  get_tx_by_hash db tx_hash = do
    tx_key ← lift_get (e.get db (key_hash_tx tx_hash))
    tx ← lift_get (e.get db tx_key)
    lift_codec (c.decode_tx tx)

  pub load_block_iterator : e.Db → ℕ → ℕ → Result Error e.Iter
  unfolding to_block_bound
  load_block_iterator db from_block_num to_block_num =
      lift_engine
        (e.new_iter db (key_block from_block_num) (key_block (to_block_bound to_block_num)))

  -- Both directions open the same bounds.
  unfoldable pub block_iterator : e.Db → ℕ → ℕ → Result Error (BlockIter e.Iter)
  unfolding load_block_iterator
  block_iterator db from_block_num to_block_num = do
    it ← load_block_iterator db from_block_num to_block_num
    ok (record { i = it; init = false })

  pub block_reverse_iterator : e.Db → ℕ → ℕ → Result Error (BlockIter e.Iter)
  unfolding to_block_bound
  block_reverse_iterator db from_block_num to_block_num = do
    it ←
        lift_engine
          (e.new_iter db (key_block from_block_num) (key_block (to_block_bound to_block_num)))
    ok (record { i = it; init = false })

  pub load_tx_iterator : e.Db → ℕ → ℕ → ℕ → ℕ → Result Error e.Iter
  load_tx_iterator db from_block_num to_block_num from_tx_index to_tx_index =
      lift_engine
        (e.new_iter db (key_tx from_block_num from_tx_index) (key_tx to_block_num to_tx_index))

  unfoldable pub tx_iterator : e.Db → ℕ → ℕ → ℕ → ℕ → Result Error (TxIter e.Iter)
  unfolding load_tx_iterator to_block_bound to_index_bound
  tx_iterator db from_block_num to_block_num from_tx_index to_tx_index = do
    it ←
        load_tx_iterator db from_block_num (to_block_bound to_block_num) from_tx_index
          (to_index_bound to_tx_index)
    ok (record {
      next_error = none;
      i = it;
      from_index = from_tx_index;
      to_index = to_index_bound to_tx_index;
      init = false;
    })

  pub tx_reverse_iterator : e.Db → ℕ → ℕ → ℕ → ℕ → Result Error (TxIter e.Iter)
  unfolding load_tx_iterator to_block_bound to_index_bound
  tx_reverse_iterator db from_block_num to_block_num from_tx_index to_tx_index = do
    it ←
        load_tx_iterator db from_block_num (to_block_bound to_block_num) from_tx_index
          (to_index_bound to_tx_index)
    ok (record {
      next_error = none;
      i = it;
      from_index = from_tx_index;
      to_index = to_index_bound to_tx_index;
      init = false;
    })

  -- Value and Next of the four iterators.
  unfoldable pub block_value : BlockIter e.Iter → Result Error Block
  block_value it = lift_codec (c.decode_block (e.value it.i))

  pub tx_value : TxIter e.Iter → Result Error TxResult
  tx_value it = lift_codec (c.decode_tx (e.value it.i))

  unfoldable pub block_iter_next : BlockIter e.Iter → Bool × BlockIter e.Iter
  block_iter_next = block_iter_move e.first e.next e.valid

  unfoldable pub block_reverse_iter_next : BlockIter e.Iter → Bool × BlockIter e.Iter
  block_reverse_iter_next = block_iter_move e.last e.prev e.valid

  pub tx_iter_next : ℕ → TxIter e.Iter → Option (Bool × TxIter e.Iter)
  tx_iter_next = tx_iter_move e.first e.next e.key

  pub tx_reverse_iter_next : ℕ → TxIter e.Iter → Option (Bool × TxIter e.Iter)
  tx_reverse_iter_next = tx_iter_move e.last e.prev e.key

  unfoldable pub write_batch : e.Db → e.Batch
  write_batch db = e.new_batch db

  abbrev lift_set : Option e.Failure × e.Batch → Option Error × e.Batch
  lift_set (none, b) = (none, b)
  lift_set (some f, b) = (some (engine_error f), b)

  -- A setter gives its error, if any, and the batch that it leaves behind, also after an error.
  unfoldable pub set_latest_height : e.Batch → ℕ → Option Error × e.Batch
  set_latest_height b h = lift_set (e.set b key_latest_height (encode_uint64_ascending [] h))

  unfoldable pub set_block : e.Batch → Block → Option Error × e.Batch
  set_block b block = elim (c.encode_block block) [
    | err f ↦ (some (codec_error f), b)
    | ok eb ↦ lift_set (e.set b (key_block block.height) eb)
  ]

  -- The hash index is written first; the transaction follows only if that succeeded.
  abbrev set_after : Option e.Failure × e.Batch → Bytes → Bytes → Option Error × e.Batch
  set_after (some f, b) k v = (some (engine_error f), b)
  set_after (none, b) k v = lift_set (e.set b k v)

  unfoldable pub set_tx : e.Batch → TxResult → Option Error × e.Batch
  set_tx b tx = elim (c.encode_tx tx) [
    | err f ↦ (some (codec_error f), b)
    | ok encoded_tx ↦
        set_after (e.set b (key_hash_tx (c.tx_hash tx.tx)) (key_tx tx.height tx.index))
          (key_tx tx.height tx.index) encoded_tx
  ]

  unfoldable pub commit : e.Db → e.Batch → Result Error e.Db
  commit db b = lift_engine (e.commit db b)

  pub rollback : e.Batch → Option e.Failure
  rollback b = e.close b
