-- ===== src/Storage/Engine.antt =====
-- What the storage uses of the pebble key-value engine and of the Amino codec, neither of which is
-- in the repository: their operations as parameters, and the documented behaviour that the
-- theorems rely on as named laws.
use mathlib.Core.List.{reverse}
use Prim.Native.Nat.{Ordering}
use tx_indexer.Base.{◌≡◌, ◌≢◌, Bool, List, ◌∷◌, Option, none, some, Result, ok, In, is_cons, tail}
use tx_indexer.Base.Lex.{bytes_compare}
use tx_indexer.Chain.{Tx, Block, TxResult}
use tx_indexer.Storage.Encode.{Bytes}

-- pebble.ErrNotFound, or any other error of the engine.
pub data GetError (F : Type 0) : Type 0 where
  missing : GetError F
  failed : F → GetError F

abbrev pub Entry : Type 0
Entry = Bytes × Bytes

-- pebble.DB with its batches and iterators. An iterator is opened on a snapshot, so it does not
-- see later commits.
pub record Engine : Type 1 where
  pub Db : Type 0
  pub Batch : Type 0
  pub Iter : Type 0
  pub Failure : Type 0
  pub get : Db → Bytes → Result (GetError Failure) Bytes
  pub new_batch : Db → Batch
  -- the error, if any, and the batch afterwards
  pub set : Batch → Bytes → Bytes → Option Failure × Batch
  pub commit : Db → Batch → Result Failure Db
  pub close : Batch → Option Failure
  pub new_iter : Db → Bytes → Bytes → Result Failure Iter
  pub first : Iter → Bool × Iter
  pub last : Iter → Bool × Iter
  pub next : Iter → Bool × Iter
  pub prev : Iter → Bool × Iter
  pub valid : Iter → Bool
  pub key : Iter → Bytes
  pub value : Iter → Bytes

-- Writes: a batch holds what was set in it, the last write of a key counts, and a commit makes it
-- readable and leaves every other key as it was. `staged` is what a batch holds.
pub record WriteLaws (e : Engine) : Type 0 where
  pub staged : e.Batch → Bytes → Option Bytes
  pub staged-new_batch : (db : e.Db) (k : Bytes) → staged (e.new_batch db) k ≡ none
  pub staged-set_self :
      (b : e.Batch) (k v : Bytes) → (e.set b k v).0 ≡ none → staged (e.set b k v).1 k ≡ some v
  pub staged-set_ne :
      (b : e.Batch) (k v j : Bytes)
      → (e.set b k v).0 ≡ none
      → k ≢ j
      → staged (e.set b k v).1 j ≡ staged b j
  pub get-commit_staged :
      (db db' : e.Db) (b : e.Batch) (k v : Bytes)
      → e.commit db b ≡ ok db'
      → staged b k ≡ some v
      → e.get db' k ≡ ok v
  pub get-commit_unstaged :
      (db db' : e.Db) (b : e.Batch) (k : Bytes)
      → e.commit db b ≡ ok db'
      → staged b k ≡ none
      → e.get db' k ≡ e.get db k

-- A walk of an iterator in one direction: `listed` is all that it will show, `ahead` is what it
-- shows from its position on.
pub record WalkLaws (I : Type 0) (start step : I → Bool × I) (valid : I → Bool)
    (key value : I → Bytes) (listed : I → List Entry) : Type 0 where
  pub ahead : I → List Entry
  pub start_ahead : (i : I) → ahead (start i).1 ≡ listed i
  pub start_found : (i : I) → (start i).0 ≡ is_cons (listed i)
  pub step_ahead : (i : I) → ahead (step i).1 ≡ tail (ahead i)
  pub step_found : (i : I) → (step i).0 ≡ is_cons (tail (ahead i))
  pub valid_ahead : (i : I) → valid i ≡ is_cons (ahead i)
  pub at_entry :
      (i : I) (k v : Bytes) (r : List Entry) → ahead i ≡ (k, v) ∷ r → (key i ≡ k) × (value i ≡ v)

-- What a bounded iterator shows: the stored entries from the lower bound on and below the upper
-- bound, in the order of their keys going forward and in the reverse order going backward.
pub record IterLaws (e : Engine) : Type 0 where
  pub listed : e.Iter → List Entry
  pub listed_sound :
      (db : e.Db) (lower upper : Bytes) (i : e.Iter)
      → e.new_iter db lower upper ≡ ok i
      → (k v : Bytes) → In (k, v) (listed i)
      → (e.get db k ≡ ok v)
        × (bytes_compare k lower ≢ Ordering.lt)
        × (bytes_compare k upper ≡ Ordering.lt)
  pub listed_complete :
      (db : e.Db) (lower upper : Bytes) (i : e.Iter)
      → e.new_iter db lower upper ≡ ok i
      → (k v : Bytes) → e.get db k ≡ ok v
      → bytes_compare k lower ≢ Ordering.lt
      → bytes_compare k upper ≡ Ordering.lt
      → In (k, v) (listed i)
  pub forward : WalkLaws e.Iter e.first e.next e.valid e.key e.value listed
  pub backward : WalkLaws e.Iter e.last e.prev e.valid e.key e.value (λ i. reverse (listed i))

-- amino.Marshal and amino.Unmarshal at the two stored types, and the base64 text of Tx.Hash().
pub record Codec : Type 1 where
  pub CodecFailure : Type 0
  pub encode_block : Block → Result CodecFailure Bytes
  pub decode_block : Bytes → Result CodecFailure Block
  pub encode_tx : TxResult → Result CodecFailure Bytes
  pub decode_tx : Bytes → Result CodecFailure TxResult
  pub tx_hash : Tx → Bytes

-- What was encoded decodes to itself.
pub record CodecLaws (c : Codec) : Type 0 where
  pub decode_block-encode_block :
      (b : Block) (x : Bytes) → c.encode_block b ≡ ok x → c.decode_block x ≡ ok b
  pub decode_tx-encode_tx : (t : TxResult) (x : Bytes) → c.encode_tx t ≡ ok x → c.decode_tx x ≡ ok t
