-- ===== src/Storage/Examples/Saved.antt =====
-- What the fetcher saves in the store of storage/pebble.go, at concrete inputs: an empty table, and one
-- chunk with a block and its transaction.
use tx_indexer.Base.{◌≡◌, ◌++◌, refl, List, [], ◌∷◌, some, none, ok, arith, All}
use tx_indexer.Fetch.Slots.{Chunk, ChunkRange, Slot, set_at, set_chunk}
use tx_indexer.Fetch.Store.{Stored, pebble_store, pebble_store_laws}
use tx_indexer.Fetch.Store.Items.{pebble_item_laws}
use tx_indexer.Fetch.Fetcher.{
  Fetcher, latest_local, write_txs, write_blocks, write_slot, finish_slot, drain, search_slot,
  handle_response,
}
use tx_indexer.Fetch.Fetcher.Sync.{Synced, Drained}
use tx_indexer.Fetch.Fetcher.Saved.{items, events, write_slot-Stored}
use tx_indexer.Fetch.Fetcher.InOrder.{Storable, SavedInOrder, handle_response-SavedInOrder}
use tx_indexer.Storage.Pebble.{set_block, set_tx, set_latest_height, commit, get_latest_height}
use tx_indexer.Storage.Examples.{
  get_table, table_engine, table_laws, list_codec, list_codec_laws, sample_block, sample_tx,
  no_keys,
}

abbrev one_block : Chunk
one_block = record { blocks = sample_block ∷ []; results = (sample_tx ∷ []) ∷ [] }

abbrev to_three : ChunkRange
to_three = record { from = 1; to = 3 }

abbrev starting : Fetcher (pebble_store table_engine list_codec)
starting = record {
  db = no_keys;
  chunk_buffer = record {
    queue = record { chunk = none; chunk_range = to_three } ∷ [];
    max_slots = 5;
  };
  max_slots = 5;
  max_chunk_size = 3;
  latest_chunk_size = 0;
  signalled = [];
}

abbrev after_slot : Fetcher (pebble_store table_engine list_codec)
after_slot = (write_slot (pebble_store table_engine list_codec) starting one_block to_three).1

abbrev after_response : Fetcher (pebble_store table_engine list_codec)
after_response =
    (handle_response (pebble_store table_engine list_codec) starting one_block to_three).1

one_block-Storable :
    Storable
      (pebble_store_laws table_laws list_codec_laws)
      (pebble_item_laws table_laws list_codec_laws)
      one_block
unfolding set_block set_tx
one_block-Storable = record {
  keys = (omega arith, ((omega arith, omega arith), tt));
  apart = ((tt, tt), (tt, tt));
  accepted = ((λ b. refl), ((λ b. refl), tt));
}

starting-Synced : Synced (pebble_store table_engine list_codec) starting 0 3
unfolding latest_local get_latest_height get_table
starting-Synced = record {
  height = refl;
  chained = (omega arith, omega arith, omega arith, omega arith);
  within = omega arith;
  same_max = refl;
  fits = omega arith;
}

write_slot-Stored_example :
    All (Stored (pebble_store table_engine list_codec) after_slot.db) (items one_block)
    × (after_slot.signalled ≡ [] ++ events one_block)
    × (get_latest_height table_engine list_codec after_slot.db ≡ ok 3)
unfolding write_slot write_blocks write_txs finish_slot set_block set_tx set_latest_height commit
write_slot-Stored_example =
    write_slot-Stored (pebble_store_laws table_laws list_codec_laws)
      (pebble_item_laws table_laws list_codec_laws) starting after_slot one_block to_three
      (omega arith) one_block-Storable.keys one_block-Storable.apart one_block-Storable.accepted
      refl

handle_response-SavedInOrder_example :
    Drained (pebble_store_laws table_laws list_codec_laws) 0 3 after_response
    × (written : List Slot) × (set_at starting.chunk_buffer.queue 0 one_block
        ≡ some (written ++ after_response.chunk_buffer.queue))
    × SavedInOrder
        (pebble_store_laws table_laws list_codec_laws)
        (pebble_item_laws table_laws list_codec_laws)
        written
        starting
        after_response
unfolding handle_response drain search_slot set_chunk set_at write_slot write_blocks write_txs
    finish_slot set_block set_tx set_latest_height commit
handle_response-SavedInOrder_example =
    handle_response-SavedInOrder (pebble_store_laws table_laws list_codec_laws)
      (pebble_item_laws table_laws list_codec_laws) starting after_response one_block to_three 0 3
      starting-Synced one_block-Storable (tt, tt) refl
