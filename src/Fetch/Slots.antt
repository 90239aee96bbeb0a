-- ===== src/Fetch/Slots.antt =====
-- fetch/slots.go: the queue of reserved chunk ranges and the search for the gaps between them.
-- uint64 arithmetic wraps; the numbers of ranges and slots are ints that stay small.
pub mod Gaps
pub mod Divide
pub mod Reserve
pub mod SetChunk
use Prim.Native.Nat.{min}
use tx_indexer.Base.{
  ℕ, zero, suc, Bool, ◌+◌, ◌-◌, ◌%◌, ◌^◌, List, [], ◌∷◌, ◌++◌, Option, none, some, ltb, leb, ◌==◌,
  if◌then◌else◌, length, get_elem?, take,
}
use tx_indexer.Chain.{Block, TxResult}

pub record Chunk : Type 0 where
  pub blocks : List Block
  pub results : List (List TxResult)

-- Both ends are inclusive.
pub record ChunkRange : Type 0 where
  pub from : ℕ
  pub to : ℕ

abbrev pub less : ChunkRange → ChunkRange → Bool
less c other = ltb c.from other.from

pub record Slot : Type 0 where
  pub chunk : Option Chunk
  pub chunk_range : ChunkRange

-- uint64 a + b and a - b
abbrev pub add_64 : ℕ → ℕ → ℕ
add_64 a b = (a + b) % 2 ^ 64

abbrev pub sub_64 : ℕ → ℕ → ℕ
sub_64 a b = (a + 2 ^ 64 - b) % 2 ^ 64

-- The queue's items in order. Its Push (of the insertion-queue module, not in the repository) is an
-- argument of the operations that use it.
pub record Slots : Type 0 where
  pub queue : List Slot
  pub max_slots : ℕ

abbrev pub size : Slots → ℕ
size s = length s.queue

pub get_slot : Slots → ℕ → Option Slot
get_slot s index = get_elem? s.queue index

-- A write behind the end of the queue is a panic: `none`.
unfoldable pub set_at : List Slot → ℕ → Chunk → Option (List Slot)
set_at [] index chunk = none
set_at (x ∷ xs) zero chunk = some (record x { chunk = some chunk } ∷ xs)
set_at (x ∷ xs) (suc index) chunk = elim (set_at xs index chunk) [
  | none ↦ none
  | some ys ↦ some (x ∷ ys)
]

unfoldable pub set_chunk : Slots → ℕ → Chunk → Option Slots
set_chunk s index chunk = elim (set_at s.queue index chunk) [
  | none ↦ none
  | some q ↦ some (record s { queue = q })
]

-- The loop over the queue: the gap in front of each part, and the last end.
gaps_between : ℕ → List Slot → List ChunkRange × ℕ
gaps_between prev_to [] = ([], prev_to)
gaps_between prev_to (part ∷ parts) =
    let (gaps, last_to) = gaps_between part.chunk_range.to parts in
    (
      if ltb (add_64 prev_to 1) part.chunk_range.from
          then record { from = add_64 prev_to 1; to = sub_64 part.chunk_range.from 1 } ∷ gaps
          else gaps,
      last_to,
    )

-- The gap behind the last part.
last_gap : ℕ → ℕ → List ChunkRange
last_gap prev_to end =
    if ltb prev_to end then record { from = add_64 prev_to 1; to = end } ∷ [] else []

-- The gaps, before they are divided.
pub undivided_gaps : List Slot → ℕ → ℕ → List ChunkRange
undivided_gaps [] start end = record { from = start; to = end } ∷ []
undivided_gaps (part ∷ parts) start end =
    let (gaps, last_to) = gaps_between (sub_64 start 1) (part ∷ parts) in
    gaps ++ last_gap last_to end

-- The inner loop that divides one gap; `none` means that the fuel ran out.
pub divide_gap : ℕ → ℕ → ChunkRange → ℕ → Option (List ChunkRange)
divide_gap zero max_size gap i = none
divide_gap (suc fuel) max_size gap i =
    let new_to = sub_64 (add_64 i max_size) 1 in
    let rest = divide_gap fuel max_size gap (add_64 i max_size) in
    if leb i gap.to
    then elim rest [
      | none ↦ none
      | some gaps ↦
          some (record { from = i; to = if ltb gap.to new_to then gap.to else new_to } ∷ gaps)
    ]
    else some []

-- One round of the loop over the gaps.
pub divide_one : ℕ → ℕ → ChunkRange → Option (List ChunkRange)
divide_one fuel max_size gap =
    if leb (add_64 (sub_64 gap.to gap.from) 1) max_size
    then some (gap ∷ [])
    else divide_gap fuel max_size gap gap.from

pub divide_gaps : ℕ → ℕ → List ChunkRange → Option (List ChunkRange)
divide_gaps fuel max_size [] = some []
divide_gaps fuel max_size (gap ∷ gaps) = elim (divide_one fuel max_size gap) [
  | none ↦ none
  | some ds ↦ elim (divide_gaps fuel max_size gaps) [ none ↦ none | some rest ↦ some (ds ++ rest) ]
]

pub find_gaps : ℕ → Slots → ℕ → ℕ → ℕ → Option (List ChunkRange)
find_gaps fuel s start end max_size = divide_gaps fuel max_size (undivided_gaps s.queue start end)

-- `free` is an int: `max_slots` is at least the size of the queue, by the invariant.
module _ (push : Slot → List Slot → List Slot) where
  push_all : List ChunkRange → List Slot → List Slot
  push_all [] queue = queue
  push_all (gap ∷ gaps) queue =
      push_all gaps (push (record { chunk = none; chunk_range = gap }) queue)

  pub reserve_chunk_ranges : ℕ → Slots → ℕ → ℕ → ℕ → Option (List ChunkRange × Slots)
  reserve_chunk_ranges fuel s start end max_chunk_size =
      elim (find_gaps fuel s start end max_chunk_size) [
        | none ↦ none
        | some gaps ↦
            let ranges = take (min (length gaps) (s.max_slots - size s)) gaps in
            some (ranges, record s { queue = push_all ranges s.queue })
      ]
