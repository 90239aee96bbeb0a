-- ===== src/Storage/Keys.antt =====
-- storage/pebble.go: the keys under which blocks, transactions and the hash index are stored.
pub mod Order
pub mod Disjoint
use tx_indexer.Base.{ℕ, [], codes}
use tx_indexer.Storage.Encode.{
  Bytes, encode_string_ascending, encode_uint64_ascending, encode_uint32_ascending,
}

abbrev pub key_latest_height : Bytes
key_latest_height = codes "/meta/lh"

abbrev pub prefix_key_blocks : Bytes
prefix_key_blocks = codes "/data/blocks/"

abbrev pub prefix_key_txs : Bytes
prefix_key_txs = codes "/data/txs/"

abbrev pub prefix_key_tx_by_hash : Bytes
prefix_key_tx_by_hash = codes "/index/txh/"

unfoldable pub key_tx : ℕ → ℕ → Bytes
key_tx block_num tx_index =
    encode_uint32_ascending
      (encode_uint64_ascending (encode_string_ascending [] prefix_key_txs) block_num) tx_index

unfoldable pub key_hash_tx : Bytes → Bytes
key_hash_tx hash = encode_string_ascending (encode_string_ascending [] prefix_key_tx_by_hash) hash

unfoldable pub key_block : ℕ → Bytes
key_block block_num =
    encode_uint64_ascending (encode_string_ascending [] prefix_key_blocks) block_num
