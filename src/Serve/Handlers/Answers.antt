-- ===== src/Serve/Handlers/Answers.antt =====
-- The handlers of blocks and transactions over the store of storage/pebble.go.
use tx_indexer.Base.{
  ℕ, ◌+◌, ◌%◌, ◌^◌, ◌<◌, ◌≡◌, refl, Bool, true, false, Option, none, some, List, [], ◌∷◌, Result,
  ok, err, String, codes, arith, Option-cases, inl, inr,
}
use tx_indexer.Chain.{Block, TxResult}
use tx_indexer.Serve.Handlers.{
  Json, Storage, Encoder, to_uint64, answer_with, fetched, get_block_handler, get_tx_handler,
  get_tx_by_hash_handler,
}
use tx_indexer.Storage.Engine.{Engine, Codec, WriteLaws, CodecLaws, missing}
use tx_indexer.Storage.Keys.{key_tx}
use tx_indexer.Storage.Pebble.{
  Error, StorageError, not_found, engine_error, codec_error, key_error, set_block, set_tx,
  set_latest_height, commit, get_block, get_tx, get_tx_by_hash,
}
use tx_indexer.Storage.Pebble.Readback.{batch_readback, get_tx_absent}

abbrev found : {E A : Type 0} → Result E A → Result E (Option A)
found (ok a) = ok (some a)
found (err e) = err e

abbrev is_absent : {F C : Type 0} → StorageError F C → Bool
is_absent not_found = true
is_absent (engine_error f) = false
is_absent (codec_error f) = false
is_absent (key_error f) = false

-- The store as the handlers see it, on one database.
abbrev pub pebble_storage :
    (e : Engine) (c : Codec) → (Error e c → String) → e.Db → Storage (Error e c)
pebble_storage e c message db = record {
  get_block = λ n. found (get_block e c db n);
  get_tx = λ n i. found (get_tx e c db n i);
  get_tx_by_hash = λ hash. found (get_tx_by_hash e c db (codes hash));
  is_not_found = is_absent;
  message = message;
}

module _ {V : Type 0} (json : Json V) (encoder : Encoder) where
  -- An index and the index plus 2 ^ 32 are answered alike.
  pub get_tx_handler_wraps :
      {E : Type 0} (storage : Storage E) (p q r : V) (ps : List V) (i : ℕ)
      → to_uint64 json q ≡ some i
      → to_uint64 json r ≡ some (i + 2 ^ 32)
      → get_tx_handler json storage encoder (p ∷ q ∷ ps)
        ≡ get_tx_handler json storage encoder (p ∷ r ∷ ps)
  unfolding get_tx_handler
  get_tx_handler_wraps storage p q r ps i h k =
      let same : (i + 2 ^ 32) % 2 ^ 32 ≡ i % 2 ^ 32 = omega arith in
      elim (Option-cases (to_uint64 json p)) [
        | inl e ↦ rw (e, get_tx_handler) refl
        | inr (n, e) ↦ rw (e, get_tx_handler) (rw (h, k, same) refl)
      ]

  module _ (e : Engine) (c : Codec) (message : Error e c → String) where
    -- What was never stored is answered with nil and no error.
    pub get_tx_handler_absent :
        (db : e.Db) (p q : V) (ps : List V) (h i : ℕ)
        → to_uint64 json p ≡ some h
        → to_uint64 json q ≡ some i
        → i < 2 ^ 32
        → e.get db (key_tx h i) ≡ err missing
        → get_tx_handler json (pebble_storage e c message db) encoder (p ∷ q ∷ ps) ≡ (none, none)
    unfolding get_tx_handler fetched answer_with
    get_tx_handler_absent db p q ps h i hp hq small m =
        let same : i % 2 ^ 32 ≡ i = omega (arith, small) in
        rw (hp, get_tx_handler) (rw (hq, same, get_tx_absent e c db h i m) refl)

    -- If a block, a transaction and the height are set without error and the batch is committed, then
    -- getBlock by the height, getTxResult by the height and the index, and getTxResultByHash by the hash
    -- answer with the encoded block and the encoded transaction, if the parameters are read as that
    -- height, index and hash, the index fits 32 bits, and both can be encoded.
    pub committed_answers :
        (w : WriteLaws e) (l : CodecLaws c) (db db' : e.Db) (b : e.Batch) (block : Block)
        (t : TxResult) (h : ℕ) (p q r x : V) (num hash block_text tx_text : String)
        → (set_block e c b block).0 ≡ none
        → (set_tx e c (set_block e c b block).1 t).0 ≡ none
        → (set_latest_height e c (set_tx e c (set_block e c b block).1 t).1 h).0 ≡ none
        → commit e c db (set_latest_height e c (set_tx e c (set_block e c b block).1 t).1 h).1
          ≡ ok db'
        → h < 2 ^ 64
        → json.as_string p ≡ some num
        → json.parse_uint num ≡ some block.height
        → to_uint64 json q ≡ some t.height
        → to_uint64 json r ≡ some t.index
        → t.index < 2 ^ 32
        → json.as_string x ≡ some hash
        → codes hash ≡ c.tx_hash t.tx
        → encoder.prepare_block block ≡ some block_text
        → encoder.prepare_tx t ≡ some tx_text
        → (get_block_handler json (pebble_storage e c message db') encoder (p ∷ [])
            ≡ (some (json.of_string block_text), none))
          × (get_tx_handler json (pebble_storage e c message db') encoder (q ∷ r ∷ [])
              ≡ (some (json.of_string tx_text), none))
          × (get_tx_by_hash_handler json (pebble_storage e c message db') encoder (x ∷ [])
              ≡ (some (json.of_string tx_text), none))
    unfolding get_block_handler get_tx_handler get_tx_by_hash_handler fetched answer_with
    committed_answers w l db db' b block t h p q r x num hash block_text tx_text s1 s2 s3 s4 fits hp
          hn hq hr small hx hc pb pt =
        let (gb, gt, gh, gl) = batch_readback w l db db' b block t h s1 s2 s3 s4 fits in
        let same : t.index % 2 ^ 32 ≡ t.index = omega (arith, small) in
        (
          rw (hp, hn, gb, pb, get_block_handler) refl,
          rw (hq, hr, same, gt, pt, get_tx_handler) refl,
          rw (hx, hc, gh, pt, get_tx_by_hash_handler) refl,
        )
