-- ===== src/Storage/Examples.antt =====
-- The theorems about storage, at concrete inputs: an engine whose database is a function from keys
-- to values, one whose database is at most one entry and has iterators, and a codec for one block
-- and one transaction.
pub mod Walks
pub mod Answers
pub mod Saved
use Prim.Native.Nat.{Ordering}
use mathlib.Core.List.{reverse}
use tx_indexer.Base.{
  ℕ, zero, suc, ◌+◌, ◌≤◌, ◌<◌, ◌≡◌, ◌≢◌, refl, sym, ap, ap₂, ◌∙◌, List, [], ◌∷◌, ◌++◌, Option, none,
  some, Result, ok, err, Bool, true, false, if◌then◌else◌, ◌&&◌, Bool-cases, ◌==◌, ==_iff, is_cons,
  tail, inl, inr, arith, length, take, drop, drop-append,
}
use tx_indexer.Base.Int.{ℤ, pos, negsuc}
use tx_indexer.Base.Lex.{bytes_compare}
use tx_indexer.Chain.{Tx, Header, Block, DeliverTx, TxResult}
use tx_indexer.Storage.Encode.{Bytes}
use tx_indexer.Storage.Engine.{
  GetError, missing, failed, Entry, Engine, WriteLaws, WalkLaws, IterLaws, Codec, CodecLaws,
}
use Prim.Native.Nat.{compare}
use tx_indexer.Base.Lex.{then_compare}
use tx_indexer.Storage.Encode.{
  encode_string_ascending, decode_unsafe_string_ascending, encode_uint32_ascending,
  decode_uint32_ascending, encode_uint64_ascending, decode_uint64_ascending,
}
use tx_indexer.Storage.Encode.Uints.{
  decode_uint32_ascending-encode_uint32_ascending, decode_uint64_ascending-encode_uint64_ascending,
  bytes_compare-encode_uint64_ascending,
}
use tx_indexer.Storage.Encode.Strings.{
  decode_unsafe_string_ascending-encode_string_ascending, bytes_compare-encode_string_ascending,
}
use tx_indexer.Storage.Keys.{key_block, key_tx, key_hash_tx, key_latest_height}
use tx_indexer.Storage.Keys.Order.{bytes_compare-key_block, bytes_compare-key_tx}
use tx_indexer.Storage.Keys.Disjoint.{families_disjoint}
use tx_indexer.Storage.Pebble.{
  set_block, set_tx, set_latest_height, commit, write_batch, get_block, get_tx, get_tx_by_hash,
  get_latest_height, key_tx_index,
}
use tx_indexer.Storage.Pebble.Readback.{batch_readback, get_block-commit_ne}
use tx_indexer.Storage.Pebble.Iterators.{key_tx_index-key_tx}

same : Bytes → Bytes → Bool
same [] [] = true
same [] (y ∷ ys) = false
same (x ∷ xs) [] = false
same (x ∷ xs) (y ∷ ys) = let rest = same xs ys in if x == y then rest else false

same_self : (k : Bytes) → same k k ≡ true
unfolding same
same_self [] = refl
same_self (x ∷ xs) = let rest = same_self xs in ground arith

same_sound : (k j : Bytes) → same k j ≡ true → k ≡ j
unfolding same
same_sound [] [] h = refl
same_sound [] (y ∷ ys) h = absurd (ground arith)
same_sound (x ∷ xs) [] h = absurd (ground arith)
same_sound (x ∷ xs) (y ∷ ys) h = elim (Bool-cases (x == y)) [
  | inl e ↦ let rest = same_sound xs ys (ground arith) in ground arith
  | inr n ↦ absurd (ground arith)
]

abbrev pub NoReason : Type 0
NoReason = Unit

-- Keys to values.
abbrev pub Table : Type 0
Table = Bytes → Option Bytes

pub get_table : Table → Bytes → Result (GetError NoReason) Bytes
get_table db k = elim (db k) [ none ↦ err missing | some v ↦ ok v ]

pub set_table : Table → Bytes → Bytes → Table
set_table b k v j = if same k j then some v else b j

pub over_table : Option Bytes → Option Bytes → Option Bytes
over_table none old = old
over_table (some v) old = some v

abbrev pub table_engine : Engine
table_engine = record {
  Db = Table;
  Batch = Table;
  Iter = Unit {0};
  Failure = NoReason;
  get = get_table;
  new_batch = λ db k. none;
  set = λ b k v. (none, set_table b k v);
  commit = λ db b. ok (λ k. over_table (b k) (db k));
  close = λ b. none;
  new_iter = λ db lower upper. err tt;
  first = λ i. (false, i);
  last = λ i. (false, i);
  next = λ i. (false, i);
  prev = λ i. (false, i);
  valid = λ i. false;
  key = λ i. [];
  value = λ i. [];
}

table_of : Result NoReason Table → Table
table_of (ok db) = db
table_of (err e) = λ k. none

pub table_laws : WriteLaws table_engine
unfolding get_table set_table over_table table_of
table_laws = record {
  staged = λ b. b;
  staged-new_batch = λ db k. refl;
  staged-set_self = λ b k v h. rw (same_self k);
  staged-set_ne = λ b k v j h ne. elim (Bool-cases (same k j)) [
    | inl e ↦ absurd (ne (same_sound k j e))
    | inr n ↦ rw n
  ];
  get-commit_staged = λ db db' b k v h s.
      sym (ap (λ r. get_table (table_of r) k) h) ∙ rw (s, get_table, table_of, over_table);
  get-commit_unstaged = λ db db' b k h s.
      sym (ap (λ r. get_table (table_of r) k) h) ∙ rw (s, get_table, table_of, over_table);
}

-- A codec: lists are behind their lengths.
take-length : (xs ys : Bytes) → take (length xs) (xs ++ ys) ≡ xs
take-length [] ys = refl
take-length (x ∷ xs) ys = ap (λ t. x ∷ t) (take-length xs ys)

put_txs : List Tx → Bytes
put_txs [] = []
put_txs (t ∷ ts) = length t ∷ (t ++ put_txs ts)

read_txs : ℕ → Bytes → List Tx
read_txs zero x = []
read_txs (suc n) [] = []
read_txs (suc n) (k ∷ x) = take k x ∷ read_txs n (drop k x)

read_txs-put_txs : (ts : List Tx) → read_txs (length ts) (put_txs ts) ≡ ts
unfolding read_txs put_txs
read_txs-put_txs [] = refl
read_txs-put_txs (t ∷ ts) =
    ap₂ (λ u x. u ∷ read_txs (length ts) x) (take-length t (put_txs ts))
      (drop-append t (put_txs ts))
    ∙ ap (λ r. t ∷ r) (read_txs-put_txs ts)

pub put_block : Block → Bytes
put_block b =
    b.height
    ∷ b.num_txs
    ∷ b.total_txs
    ∷ b.time
    ∷ length b.txs
    ∷ length b.chain_id
    ∷ (b.chain_id ++ put_txs b.txs)

pub read_block : Bytes → Result NoReason Block
read_block (h ∷ n ∷ total ∷ time ∷ count ∷ k ∷ x) = ok (record {
  header = record { height = h; num_txs = n; total_txs = total; time = time; chain_id = take k x };
  txs = read_txs count (drop k x);
})
read_block _ = err tt

read_block-put_block : (b : Block) → read_block (put_block b) ≡ ok b
unfolding read_block put_block
read_block-put_block b = rw (
  take-length b.chain_id (put_txs b.txs),
  drop-append b.chain_id (put_txs b.txs),
  read_txs-put_txs b.txs,
)

sign : ℤ → ℕ
sign (pos n) = 0
sign (negsuc n) = 1

digits : ℤ → ℕ
digits (pos n) = n
digits (negsuc n) = n

read_int : ℕ → ℕ → ℤ
read_int zero n = pos n
read_int (suc s) n = negsuc n

pub put_tx : TxResult → Bytes
put_tx t =
    t.height
    ∷ t.index
    ∷ sign t.response.gas_wanted
    ∷ digits t.response.gas_wanted
    ∷ sign t.response.gas_used
    ∷ digits t.response.gas_used
    ∷ length t.tx
    ∷ (t.tx ++ t.response.payload)

read_int-digits : (z : ℤ) → read_int (sign z) (digits z) ≡ z
unfolding read_int sign digits
read_int-digits (pos n) = refl
read_int-digits (negsuc n) = refl

pub read_tx : Bytes → Result NoReason TxResult
read_tx (h ∷ i ∷ s ∷ wanted ∷ s' ∷ used ∷ k ∷ x) = ok (record {
  height = h;
  index = i;
  tx = take k x;
  response = record {
    gas_wanted = read_int s wanted;
    gas_used = read_int s' used;
    payload = drop k x;
  };
})
read_tx _ = err tt

read_tx-put_tx : (t : TxResult) → read_tx (put_tx t) ≡ ok t
unfolding read_tx put_tx
read_tx-put_tx t = rw (
  read_int-digits t.response.gas_wanted,
  read_int-digits t.response.gas_used,
  take-length t.tx t.response.payload,
  drop-append t.tx t.response.payload,
)

abbrev pub list_codec : Codec
list_codec = record {
  CodecFailure = NoReason;
  encode_block = λ b. ok (put_block b);
  decode_block = read_block;
  encode_tx = λ t. ok (put_tx t);
  decode_tx = read_tx;
  tx_hash = λ t. 1 ∷ t;
}

bytes_of : Result NoReason Bytes → Bytes
bytes_of (ok x) = x
bytes_of (err e) = []

pub list_codec_laws : CodecLaws list_codec
unfolding bytes_of
list_codec_laws = record {
  decode_block-encode_block = λ b x h. ap read_block (sym (ap bytes_of h)) ∙ read_block-put_block b;
  decode_tx-encode_tx = λ t x h. ap read_tx (sym (ap bytes_of h)) ∙ read_tx-put_tx t;
}

abbrev pub sample_block : Block
sample_block = record {
  header = record { height = 3; num_txs = 1; total_txs = 4; time = 9; chain_id = 100 ∷ [] };
  txs = (7 ∷ 8 ∷ []) ∷ [];
}

abbrev pub sample_tx : TxResult
sample_tx = record {
  height = 3;
  index = 0;
  tx = 7 ∷ 8 ∷ [];
  response = record { gas_wanted = pos 5; gas_used = pos 4; payload = [] };
}

abbrev pub no_keys : Table
no_keys k = none

abbrev written_block : Table
written_block = (set_block table_engine list_codec no_keys sample_block).1

abbrev written_tx : Table
written_tx = (set_tx table_engine list_codec written_block sample_tx).1

abbrev written_height : Table
written_height = (set_latest_height table_engine list_codec written_tx 3).1

abbrev committed : Table
committed k = over_table (written_height k) none

abbrev committed_block : Table
committed_block k = over_table (written_block k) none

batch_readback_example :
    (get_block table_engine list_codec committed 3 ≡ ok sample_block)
    × (get_tx table_engine list_codec committed 3 0 ≡ ok sample_tx)
    × (get_tx_by_hash table_engine list_codec committed (1 ∷ 7 ∷ 8 ∷ []) ≡ ok sample_tx)
    × (get_latest_height table_engine list_codec committed ≡ ok 3)
unfolding set_block set_tx set_latest_height commit
batch_readback_example =
    batch_readback table_laws list_codec_laws no_keys committed no_keys sample_block sample_tx 3
      refl refl refl refl (omega arith)

decode_unsafe_string_ascending-encode_string_ascending_example :
    decode_unsafe_string_ascending (encode_string_ascending [] (97 ∷ 0 ∷ 98 ∷ []) ++ 5 ∷ []) []
    ≡ ok (5 ∷ [], 97 ∷ 0 ∷ 98 ∷ [])
decode_unsafe_string_ascending-encode_string_ascending_example =
    decode_unsafe_string_ascending-encode_string_ascending (97 ∷ 0 ∷ 98 ∷ []) (5 ∷ []) []

decode_uint64_ascending-encode_uint64_ascending_example :
    decode_uint64_ascending (encode_uint64_ascending [] 70000 ++ 1 ∷ []) ≡ ok (1 ∷ [], 70000)
decode_uint64_ascending-encode_uint64_ascending_example =
    decode_uint64_ascending-encode_uint64_ascending 70000 (1 ∷ []) (omega arith)

bytes_compare-key_tx_example :
    bytes_compare (key_tx 9 5) (key_tx 9 300) ≡ then_compare (compare 9 9) (compare 5 300)
bytes_compare-key_tx_example =
    bytes_compare-key_tx 9 5 9 300 (omega arith) (omega arith) (omega arith) (omega arith)
