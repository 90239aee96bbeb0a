-- ===== src/Storage/Examples/Answers.antt =====
-- The JSON-RPC handlers over the store of storage/pebble.go, with a concrete engine.
use Prim.Native.Char.{char}
use tx_indexer.Base.{◌≡◌, refl, none, some, [], ◌∷◌, String, str_eq, if◌then◌else◌, arith}
use tx_indexer.Serve.Handlers.{
  Json, Encoder, to_uint64, get_block_handler, get_tx_handler, get_tx_by_hash_handler,
}
use tx_indexer.Serve.Handlers.Answers.{pebble_storage, committed_answers}
use tx_indexer.Storage.Examples.{
  table_engine, table_laws, list_codec, list_codec_laws, sample_block, sample_tx, no_keys,
  committed,
}
use tx_indexer.Storage.Pebble.{set_block, set_tx, set_latest_height, commit}

-- A text as a value: true and a list are their text.
abbrev text_json : Json String
text_json = record {
  as_string = λ v. some v;
  print = λ v. v;
  print_int = λ n. "n";
  parse_uint = λ v. if str_eq v "3" then some 3 else if str_eq v "0" then some 0 else none;
  parse_object = λ v. none;
  of_string = λ v. v;
  of_bool = λ b. if b then "true" else "false";
  of_strings = λ texts. "texts";
}

abbrev constant_encoder : Encoder
constant_encoder = record {
  prepare_block = λ b. some "block";
  prepare_header = λ h. some "header";
  prepare_tx = λ t. some "tx";
}

abbrev hash_of_sample : String
hash_of_sample = String.◌∷◌ (char 1 tt) (String.◌∷◌ (char 7 tt) (String.◌∷◌ (char 8 tt) String.[]))

committed_answers_example :
    (get_block_handler text_json
        (pebble_storage table_engine list_codec (λ e. "error") committed)
        constant_encoder
        ("3" ∷ [])
      ≡ (some "block", none))
    × (get_tx_handler text_json
          (pebble_storage table_engine list_codec (λ e. "error") committed)
          constant_encoder
          ("3" ∷ "0" ∷ [])
        ≡ (some "tx", none))
    × (get_tx_by_hash_handler text_json
          (pebble_storage table_engine list_codec (λ e. "error") committed)
          constant_encoder
          (hash_of_sample ∷ [])
        ≡ (some "tx", none))
unfolding set_block set_tx set_latest_height commit to_uint64
committed_answers_example =
    committed_answers text_json constant_encoder table_engine list_codec (λ e. "error") table_laws
      list_codec_laws no_keys committed no_keys sample_block sample_tx 3 "3" "3" "0" hash_of_sample
      "3" hash_of_sample "block" "tx" refl refl refl refl (omega arith) refl refl refl refl
      (omega arith) refl refl refl refl
