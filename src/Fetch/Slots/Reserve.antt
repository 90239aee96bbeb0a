-- ===== src/Fetch/Slots/Reserve.antt =====
-- reserveChunkRanges of fetch/slots.go on a queue without holes: what it reserves follows the last
-- slot, and the queue stays without holes and within its size.
use Prim.Native.Nat.{min}
use mathlib.Core.List.{map, append_assoc, append-nil, map-append}
use tx_indexer.Base.{
  ℕ, zero, suc, ◌+◌, ◌-◌, ◌^◌, ◌≤◌, ◌<◌, ◌≡◌, refl, sym, ap, subst, ◌∙◌, List, [], ◌∷◌, ◌++◌, none,
  some, true, inl, inr, arith, leb, ltb, if◌then◌else◌, Bool-cases, length, length-append,
  length-map, length-take, take, All, dec_lt, dec_le, ◌⊎◌,
}
use tx_indexer.Fetch.Slots.{
  ChunkRange, Slot, Slots, less, size, sub_64, gaps_between, last_gap, undivided_gaps, divide_one,
  divide_gaps, find_gaps, push_all, reserve_chunk_ranges,
}
use tx_indexer.Fetch.Slots.Divide.{
  Chain, Chain-append, Chain-le, Sized, Divisible, divide_gap-Chain, short_gap,
}
use tx_indexer.Fetch.Slots.Gaps.{ranges}

gaps_between-Chain :
    (prev m : ℕ) (q : List Slot)
    → m + 1 < 2 ^ 64
    → Chain (prev + 1) m (ranges q)
    → gaps_between prev q ≡ ([], m)
unfolding gaps_between
gaps_between-Chain prev m [] f c = ap (λ n. ([], n)) (omega arith)
gaps_between-Chain prev m (p ∷ ps) f c = ground (
  arith,
  gaps_between-Chain p.chunk_range.to m ps f c.3,
  Chain-le (p.chunk_range.to + 1) m (ranges ps) c.3,
)

-- Where the queue goes on from `start` without a hole up to `m`, only what lies behind is a gap.
abbrev behind : ℕ → ℕ → List ChunkRange
behind m end = if ltb m end then record { from = m + 1; to = end } ∷ [] else []

undivided_Chain :
    (q : List Slot) (start m end : ℕ)
    → 0 < start
    → start ≤ end
    → end + 1 < 2 ^ 64
    → m ≤ end
    → Chain start m (ranges q)
    → undivided_gaps q start end ≡ behind m end
unfolding undivided_gaps last_gap
undivided_Chain [] start m end p le f me c = ground arith
undivided_Chain (x ∷ xs) start m end p le f me c = ground (
  arith,
  gaps_between-Chain (sub_64 start 1) m (x ∷ xs) (omega arith)
      (subst (λ n. Chain n m (ranges (x ∷ xs))) (sym back) c),
)
  where
    back : sub_64 start 1 + 1 ≡ start
    back = omega arith

divide_one-Chain :
    (fuel max_size : ℕ) (g : ChunkRange)
    → 0 < max_size
    → Divisible fuel max_size g
    → (ds : List ChunkRange) × (divide_one fuel max_size g ≡ some ds)
      × Chain g.from g.to ds
      × All (Sized max_size) ds
unfolding divide_one
divide_one-Chain fuel max_size g p a = elim (Bool-cases (leb (g.to - g.from + 1) max_size)) [
  | inl short ↦ (
    g ∷ [],
    rw (short_gap max_size g a.0 (omega arith) ∙ short) refl,
    (refl, a.0, omega arith, refl),
    ((a.0, ground arith), tt),
  )
  | inr long ↦
      let (ds, cut, chain, small) =
        divide_gap-Chain max_size g p a.1 fuel g.from a.0 (omega arith) in
      (ds, rw (short_gap max_size g a.0 (omega arith) ∙ long) cut, chain, small)
]

divide_gaps_single :
    (fuel max_size : ℕ) (g : ChunkRange) (ds : List ChunkRange)
    → divide_one fuel max_size g ≡ some ds
    → divide_gaps fuel max_size (g ∷ []) ≡ some ds
unfolding divide_gaps
divide_gaps_single fuel max_size g ds h = rw (h, divide_gaps) (rw append-nil)

-- The gaps behind a queue without holes follow it without holes.
find_gaps-Chain :
    (fuel max_size start m end : ℕ) (s : Slots)
    → 0 < max_size
    → 0 < start
    → start ≤ end
    → m ≤ end
    → end + max_size < 2 ^ 64
    → end + 1 < fuel
    → Chain start m (ranges s.queue)
    → (gaps : List ChunkRange) × (find_gaps fuel s start end max_size ≡ some gaps)
      × Chain (m + 1) end gaps
      × All (Sized max_size) gaps
unfolding find_gaps
find_gaps-Chain fuel max_size start m end s pm p le me f enough c = elim (dec_lt m end) [
  | yes more ↦
      let (ds, run, chain, small) =
        divide_one-Chain fuel max_size (record { from = m + 1; to = end }) pm
          (omega arith, f, enough) in
      (
        ds,
        ap (divide_gaps fuel max_size) (gaps ∙ one_gap more)
            ∙ divide_gaps_single fuel max_size (record { from = m + 1; to = end }) ds run,
        chain,
        small,
      )
  | no full ↦ ([], ap (divide_gaps fuel max_size) (gaps ∙ no_gap full) ∙ none_left, omega arith, tt)
]
  where
    gaps : undivided_gaps s.queue start end ≡ behind m end
    gaps = undivided_Chain s.queue start m end p le (omega arith) me c

    one_gap : m < end → behind m end ≡ record { from = m + 1; to = end } ∷ []
    one_gap h = ground arith

    no_gap : ¬ (m < end) → behind m end ≡ []
    no_gap h = ground arith

    none_left : divide_gaps fuel max_size [] ≡ some []
    none_left = unfold divide_gaps in refl

abbrev pub fresh : ChunkRange → Slot
fresh gap = record { chunk = none; chunk_range = gap }

-- Push of the insertion queue keeps it sorted by Less; so an item that every queued one is less
-- than goes to its end.
pub record PushLaws (push : Slot → List Slot → List Slot) : Type 0 where
  pub push_last :
      (x : Slot) (q : List Slot)
      → All (λ y. less y.chunk_range x.chunk_range ≡ true) q
      → push x q ≡ q ++ x ∷ []

Chain-before :
    (i m : ℕ) (g : ChunkRange) (q : List Slot)
    → Chain i m (ranges q)
    → m < g.from
    → All (λ y. less y.chunk_range g ≡ true) q
Chain-before i m g [] c h = tt
Chain-before i m g (x ∷ xs) c h = (ground arith, Chain-before (x.chunk_range.to + 1) m g xs c.3 h)

Chain-take :
    (k m end : ℕ) (gs : List ChunkRange)
    → Chain (m + 1) end gs
    → (m' : ℕ) × Chain (m + 1) m' (take k gs) × (m ≤ m') × (m' ≤ end) × (length gs ≤ k → m' ≡ end)
Chain-take zero m end [] c = (m, refl, omega arith, omega arith, λ h. omega arith)
Chain-take zero m end (g ∷ gs) c = (
  m,
  refl,
  omega arith,
  omega (arith, Chain-le (m + 1) end (g ∷ gs) c),
  λ h. absurd (omega arith),
)
Chain-take (suc k) m end [] c = (m, refl, omega arith, omega arith, λ h. omega arith)
Chain-take (suc k) m end (g ∷ gs) c =
    let (m', rest, le, le', whole) = Chain-take k g.to end gs c.3 in
    (m', (c.0, c.1, le, rest), omega arith, le', λ h. whole (omega (arith, h)))

All-take {ℓ} :
    (P : ChunkRange → Type ℓ) (k : ℕ) (gs : List ChunkRange) → All P gs → All P (take k gs)
All-take P zero gs a = tt
All-take P (suc k) [] a = tt
All-take P (suc k) (g ∷ gs) a = (a.0, All-take P k gs a.1)

module _ {push : Slot → List Slot → List Slot} (w : PushLaws push) where
  push_all-append :
      (i m m' : ℕ) (gs : List ChunkRange) (q : List Slot)
      → Chain i m (ranges q)
      → Chain (m + 1) m' gs
      → (push_all push gs q ≡ q ++ map fresh gs) × Chain i m' (ranges (q ++ map fresh gs))
  unfolding push_all
  push_all-append i m m' [] q c d =
      (sym (append-nil q), rw (append-nil q) (subst (λ n. Chain i n (ranges q)) (omega arith) c))
  push_all-append i m m' (g ∷ gs) q c d =
      let (queue, chain) = push_all-append i g.to m' gs (q ++ fresh g ∷ []) one_more d.3 in
      let regroup = append_assoc q (fresh g ∷ []) (map fresh gs) in
      (
        ap (push_all push gs) (w.push_last (fresh g) q (Chain-before i m g q c (omega arith)))
            ∙ queue
            ∙ regroup,
        subst (λ t. Chain i m' (ranges t)) regroup chain,
      )
    where
      one_more : Chain i g.to (ranges (q ++ fresh g ∷ []))
      one_more =
          rw map-append (Chain-append i m g.to (ranges q) (g ∷ []) c (d.0, d.1, omega arith, refl))

  reserve_lem :
      (fuel : ℕ) (s : Slots) (start end max_size : ℕ) (gaps : List ChunkRange)
      → find_gaps fuel s start end max_size ≡ some gaps
      → reserve_chunk_ranges push fuel s start end max_size
        ≡ some (
          take (min (length gaps) (s.max_slots - size s)) gaps,
          record s {
            queue = push_all push (take (min (length gaps) (s.max_slots - size s)) gaps) s.queue;
          },
        )
  unfolding reserve_chunk_ranges
  reserve_lem fuel s start end max_size gaps h = rw (h, reserve_chunk_ranges)

  -- What a reservation gives: ranges behind the last slot without a hole, none longer than the chunk
  -- size, up to the end asked for or until no slot is free, and a queue that goes on without a hole
  -- and within its size.
  pub record Reserved (s : Slots) (start m end max_size : ℕ) (rs : List ChunkRange) (s' : Slots)
      : Type 0 where
    pub up_to : ℕ
    pub behind_last : Chain (m + 1) up_to rs
    pub small : All (Sized max_size) rs
    pub queued : s'.queue ≡ s.queue ++ map fresh rs
    pub chained : Chain start up_to (ranges s'.queue)
    pub not_past : up_to ≤ end
    pub all_or_full : (up_to ≡ end) ⊎ (size s' ≡ s'.max_slots)
    pub within : size s' ≤ s'.max_slots
    pub same_max : s'.max_slots ≡ s.max_slots

  -- On a queue without holes from `start` up to `m`, with a positive chunk size, heights within a uint64
  -- and enough fuel, a reservation up to `end` returns, and gives ranges that go on from `m` without a
  -- hole, each within the chunk size, and that reach `end` unless all slots are then taken; they are
  -- queued behind the slots that were there, and the queue keeps to its size.
  pub reserve_chunk_ranges-Reserved :
      (fuel max_size start m end : ℕ) (s : Slots)
      → 0 < max_size
      → 0 < start
      → start ≤ end
      → m ≤ end
      → end + max_size < 2 ^ 64
      → end + 1 < fuel
      → Chain start m (ranges s.queue)
      → size s ≤ s.max_slots
      → (rs : List ChunkRange) × (s' : Slots) × (reserve_chunk_ranges push fuel s start end max_size
          ≡ some (rs, s'))
        × Reserved s start m end max_size rs s'
  reserve_chunk_ranges-Reserved fuel max_size start m end s pm p le me f enough c fits =
      let (gaps, run, chain, small) =
        find_gaps-Chain fuel max_size start m end s pm p le me f enough c in
      let (m', taken, low, high, whole) = Chain-take (count gaps) m end gaps chain in
      (
        take (count gaps) gaps,
        record s { queue = push_all push (take (count gaps) gaps) s.queue },
        reserve_lem fuel s start end max_size gaps run,
        record {
          up_to = m';
          behind_last = taken;
          small = All-take (Sized max_size) (count gaps) gaps small;
          queued = (push_all-append start m m' (take (count gaps) gaps) s.queue c taken).0;
          chained =
              subst (λ q. Chain start m' (ranges q))
                (sym (push_all-append start m m' (take (count gaps) gaps) s.queue c taken).0)
                (push_all-append start m m' (take (count gaps) gaps) s.queue c taken).1;
          not_past = high;
          all_or_full = elim (dec_le (length gaps) (s.max_slots - size s)) [
            | yes all ↦ inl (whole (omega (arith, all)))
            | no few ↦ inr (omega (arith, grown gaps m' taken, few))
          ];
          within = omega (arith, grown gaps m' taken);
          same_max = refl;
        },
      )
    where
      count : List ChunkRange → ℕ
      count gaps = min (length gaps) (s.max_slots - size s)

      grown :
          (gaps : List ChunkRange) (m' : ℕ)
          → Chain (m + 1) m' (take (count gaps) gaps)
          → length (push_all push (take (count gaps) gaps) s.queue) ≡ size s + count gaps
      grown gaps m' taken = omega (
        arith,
        ap length (push_all-append start m m' (take (count gaps) gaps) s.queue c taken).0,
        length-append s.queue (map fresh (take (count gaps) gaps)),
        length-map (take (count gaps) gaps) fresh,
        length-take (count gaps) gaps,
      )
