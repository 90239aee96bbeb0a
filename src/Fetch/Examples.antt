-- ===== src/Fetch/Examples.antt =====
-- The theorems about fetching, at concrete inputs: a store that keeps the latest height, a queue
-- that puts a new slot behind the others, and a node with two blocks.
use tx_indexer.Base.{
  ℕ, ◌+◌, ◌≤◌, ◌≡◌, ◌↔◌, refl, sym, ap, List, [], ◌∷◌, ◌++◌, map, Option, none, some, Result, ok,
  err, true, arith, All, In,
}
use tx_indexer.Base.Int.{pos}
use tx_indexer.Chain.{Block, DeliverTx, TxResult}
use tx_indexer.Fetch.Slots.{Chunk, ChunkRange, Slot, Slots, find_gaps, reserve_chunk_ranges}
use tx_indexer.Fetch.Slots.Divide.{hits, inside, Sized}
use tx_indexer.Fetch.Slots.Gaps.{ranges, find_gaps_partition}
use tx_indexer.Fetch.Slots.Reserve.{PushLaws, Reserved, reserve_chunk_ranges-Reserved}
use tx_indexer.Fetch.Store.{Store, StoreLaws}
use tx_indexer.Fetch.Fetcher.{Fetcher, attempt_range_fetch, latest_local}
use tx_indexer.Fetch.Fetcher.Sync.{Synced}
use tx_indexer.Fetch.Fetcher.Attempts.{Continues, attempt_range_fetch-Continues}
use tx_indexer.Fetch.Worker.{
  Client, BlockResults, block_results, tx_results, entry, get_tx_results_sequentially,
  get_tx_result_from_batch, heights,
}
use tx_indexer.Fetch.Worker.Sequential.{heights_range, Aligned, get_tx_results_sequentially-Aligned}
use tx_indexer.Fetch.Worker.Batched.{batch_shifts_results}

abbrev push_back : Slot → List Slot → List Slot
push_back x q = q ++ x ∷ []

push_back_laws : PushLaws push_back
push_back_laws = record { push_last = λ x q a. refl }

abbrev slot : ℕ → ℕ → Slot
slot from to = record { chunk = none; chunk_range = record { from = from; to = to } }

find_gaps_partition_example :
    (gaps : List ChunkRange) × (find_gaps 50
        (record { queue = slot 4 6 ∷ slot 9 12 ∷ []; max_slots = 8 })
        1
        20
        3
      ≡ some gaps)
    × ((x : ℕ) → hits x gaps + hits x (ranges (slot 4 6 ∷ slot 9 12 ∷ [])) ≡ inside 1 20 x)
    × All (Sized 3) gaps
find_gaps_partition_example =
    find_gaps_partition (slot 4 6 ∷ slot 9 12 ∷ []) 1 20 (omega arith) (omega arith) (omega arith)
      50 8 3
      (omega arith, omega arith, omega arith, (omega arith, omega arith, omega arith, omega arith))
      (omega arith) (omega arith) (omega arith)

abbrev two_slots : Slots
two_slots = record { queue = slot 1 3 ∷ slot 4 6 ∷ []; max_slots = 8 }

reserve_chunk_ranges-Reserved_example :
    (rs : List ChunkRange) × (s : Slots) × (reserve_chunk_ranges push_back 50 two_slots 1 20 3
      ≡ some (rs, s))
    × Reserved push_back_laws two_slots 1 6 20 3 rs s
reserve_chunk_ranges-Reserved_example =
    reserve_chunk_ranges-Reserved push_back_laws 50 3 1 6 20 two_slots (omega arith) (omega arith)
      (omega arith) (omega arith) (omega arith) (omega arith)
      (omega arith, omega arith, omega arith, (omega arith, omega arith, omega arith, omega arith))
      (omega arith)

abbrev NoHeight : Type 0
NoHeight = Unit

stored_height : Option ℕ → Result NoHeight ℕ
stored_height none = err tt
stored_height (some h) = ok h

abbrev height_store : Store
height_store = record {
  Db = Option ℕ;
  Batch = Option ℕ;
  Error = NoHeight;
  is_not_found = λ e. true;
  get_latest_height = stored_height;
  write_batch = λ db. db;
  set_block = λ b block. (none, b);
  set_tx = λ b t. (none, b);
  set_latest_height = λ b h. (none, some h);
  commit = λ db b. ok b;
  rollback = λ b. none;
  get_block = λ db h. err tt;
  get_tx = λ db h i. err tt;
}

height_of : Result NoHeight (Option ℕ) → Option ℕ
height_of (ok h) = h
height_of (err e) = none

height_store_laws : StoreLaws height_store
unfolding stored_height height_of
height_store_laws = record {
  get_latest_height-commit =
      λ db db' b h fits set done. sym (ap (λ r. stored_height (height_of r)) done);
}

-- Height 3 is saved, 4 to 6 is being fetched, and 7 to 8 has been fetched.
abbrev fetching : Option Chunk → Option Chunk → Fetcher height_store
fetching c d = record {
  db = some 3;
  chunk_buffer = record {
    queue =
        record { chunk = c; chunk_range = record { from = 4; to = 6 } }
        ∷ record { chunk = d; chunk_range = record { from = 7; to = 8 } }
        ∷ [];
    max_slots = 5;
  };
  max_slots = 5;
  max_chunk_size = 3;
  latest_chunk_size = 3;
  signalled = [];
}

fetching-Synced : (c d : Option Chunk) → Synced height_store (fetching c d) 3 8
unfolding latest_local stored_height
fetching-Synced c d = record {
  height = refl;
  chained =
      (omega arith, omega arith, omega arith, (omega arith, omega arith, omega arith, omega arith));
  within = omega arith;
  same_max = refl;
  fits = omega arith;
}

attempt_range_fetch-Continues_example :
    Continues height_store push_back_laws
      (fetching none none)
      3
      8
      20
      (attempt_range_fetch height_store push_back 50 (fetching none none) (some 20))
attempt_range_fetch-Continues_example =
    attempt_range_fetch-Continues height_store push_back_laws 50 (fetching none none) 3 8 20
      (fetching-Synced none none) (omega arith) (omega arith) (omega arith) (omega arith)

empty_block : ℕ → Block
empty_block n = record {
  header = record { height = n; num_txs = 0; total_txs = 0; time = 0; chain_id = [] };
  txs = [];
}

heights_range_example : In 5 (heights (record { from = 3; to = 9 })) ↔ ((3 ≤ 5) × (5 ≤ 9))
heights_range_example = heights_range (record { from = 3; to = 9 }) 5

abbrev quiet_block : Block
quiet_block = empty_block 4

abbrev full_block : Block
full_block = record {
  header = record { height = 5; num_txs = 1; total_txs = 1; time = 0; chain_id = [] };
  txs = (7 ∷ []) ∷ [];
}

abbrev full_response : DeliverTx
full_response = record { gas_wanted = pos 5; gas_used = pos 4; payload = [] }

abbrev full_results : BlockResults
full_results = record { height = 5; deliver_txs = full_response ∷ [] }

abbrev result_of_full : List TxResult
result_of_full = record { height = 5; index = 0; tx = 7 ∷ []; response = full_response } ∷ []

abbrev node : Client
node = record {
  Failure = NoHeight;
  get_block = λ n. ok full_block;
  get_block_results = λ n. ok full_results;
  add_block_request = λ n. none;
  add_block_results_request = λ n. none;
  execute_blocks = λ ns. ok (map (λ n. some full_block) ns);
  execute_results = λ ns. ok (map (λ n. some full_results) ns);
}

batch_shifts_results_example :
    (get_tx_result_from_batch node (quiet_block ∷ full_block ∷ [])
      ≡ some (result_of_full ∷ [] ∷ [], []))
    × (get_tx_results_sequentially node (quiet_block ∷ full_block ∷ [])
        ≡ some ([] ∷ result_of_full ∷ [], []))
unfolding empty_block block_results tx_results
batch_shifts_results_example =
    batch_shifts_results node quiet_block full_block full_results result_of_full refl
      (λ e. omega (arith, e)) (λ e. omega (arith, e)) refl refl refl refl refl

both_fetched :
    get_tx_results_sequentially node (quiet_block ∷ full_block ∷ [])
    ≡ some ([] ∷ result_of_full ∷ [], [])
unfolding empty_block block_results tx_results get_tx_results_sequentially entry
both_fetched = refl

get_tx_results_sequentially-Aligned_example :
    Aligned node [] (quiet_block ∷ full_block ∷ []) ([] ∷ result_of_full ∷ [])
get_tx_results_sequentially-Aligned_example =
    get_tx_results_sequentially-Aligned node (quiet_block ∷ full_block ∷ [])
      ([] ∷ result_of_full ∷ []) [] both_fetched
