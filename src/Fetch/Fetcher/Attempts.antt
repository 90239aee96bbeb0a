-- ===== src/Fetch/Fetcher/Attempts.antt =====
-- A tick of the fetcher (attemptRangeFetch of fetch/fetch.go): which ranges it starts workers for.
use tx_indexer.Base.{
  ℕ, ◌+◌, ◌^◌, ◌≤◌, ◌<◌, ◌≡◌, refl, sym, ap, subst, ◌∙◌, List, [], some, ok, inl, inr, arith, true,
  false, Bool-cases, All, leb, ◌==◌, ==_iff, ◌⊎◌,
}
use tx_indexer.Fetch.Slots.{ChunkRange, Slot, Slots, size, add_64, reserve_chunk_ranges}
use tx_indexer.Fetch.Slots.Divide.{Chain, Chain-le, Sized}
use tx_indexer.Fetch.Slots.Gaps.{ranges}
use tx_indexer.Fetch.Slots.Reserve.{PushLaws, reserve_chunk_ranges-Reserved}
use tx_indexer.Fetch.Store.{Store}
use tx_indexer.Fetch.Fetcher.{Fetcher, starts, latest_local, attempt_range_fetch, reserve, Attempt}
use tx_indexer.Fetch.Fetcher.Sync.{Synced}

module _ (s : Store) {push : Slot → List Slot → List Slot} (w : PushLaws push) where
  -- The ranges follow what was reserved before, up to `up_to`, which is the node's height unless all
  -- slots are taken, and the fetcher stays in step.
  pub record Continues (f : Fetcher s) (h m remote : ℕ) (a : Attempt s) : Type 0 where
    pub gaps : List ChunkRange
    pub after : Fetcher s
    pub result : a ≡ starts gaps after
    pub up_to : ℕ
    pub follows : Chain (m + 1) up_to gaps
    pub small : All (Sized f.max_chunk_size) gaps
    pub all_or_full : (up_to ≡ remote) ⊎ (size after.chunk_buffer ≡ after.max_slots)
    pub synced : Synced s after h up_to

  nothing :
      (f : Fetcher s) (h m remote : ℕ) (a : Attempt s)
      → Synced s f h m
      → (m ≡ remote) ⊎ (size f.chunk_buffer ≡ f.max_slots)
      → a ≡ starts [] f
      → Continues f h m remote a
  nothing f h m remote a sy done e = record {
    gaps = [];
    after = f;
    result = e;
    up_to = m;
    follows = refl;
    small = tt;
    all_or_full = done;
    synced = sy;
  }

  reserve_lem :
      (fuel : ℕ) (f : Fetcher s) (h remote : ℕ) (rs : List ChunkRange) (buffer : Slots)
      → reserve_chunk_ranges push fuel f.chunk_buffer (add_64 h 1) remote f.max_chunk_size
        ≡ some (rs, buffer)
      → reserve s push fuel f h remote ≡ starts rs (record f { chunk_buffer = buffer })
  unfolding reserve
  reserve_lem fuel f h remote rs buffer e = rw (e, reserve)

  module _ (fuel : ℕ) (f : Fetcher s) (h remote : ℕ) where
    full_lem :
        (size f.chunk_buffer == f.max_slots) ≡ true
        → attempt_range_fetch s push fuel f (some remote) ≡ starts [] f
    unfolding attempt_range_fetch
    full_lem e = rw e

    level_lem :
        (size f.chunk_buffer == f.max_slots) ≡ false
        → latest_local s (s.get_latest_height f.db) ≡ ok h
        → leb remote h ≡ true
        → attempt_range_fetch s push fuel f (some remote) ≡ starts [] f
    unfolding attempt_range_fetch
    level_lem e q r = rw e (rw q (rw r))

    gap_lem :
        (size f.chunk_buffer == f.max_slots) ≡ false
        → latest_local s (s.get_latest_height f.db) ≡ ok h
        → leb remote h ≡ false
        → attempt_range_fetch s push fuel f (some remote) ≡ reserve s push fuel f h remote
    unfolding attempt_range_fetch
    gap_lem e q r = rw e (rw q (rw r))

  reserves :
      (fuel : ℕ) (f : Fetcher s) (h m remote : ℕ)
      → Synced s f h m
      → h < remote
      → m ≤ remote
      → 0 < f.max_chunk_size
      → remote + f.max_chunk_size < 2 ^ 64
      → remote + 1 < fuel
      → Continues f h m remote (reserve s push fuel f h remote)
  reserves fuel f h m remote sy lt le pos room enough =
      let (rs, buffer, run, r) =
        reserve_chunk_ranges-Reserved w fuel f.max_chunk_size (h + 1) m remote f.chunk_buffer pos
          (omega arith) (omega arith) le room enough sy.chained sy.within in
      record {
        gaps = rs;
        after = record f { chunk_buffer = buffer };
        result = reserve_lem fuel f h remote rs buffer (
            ap (λ k. reserve_chunk_ranges push fuel f.chunk_buffer k remote f.max_chunk_size) next
            ∙ run);
        up_to = r.up_to;
        follows = r.behind_last;
        small = r.small;
        all_or_full = elim r.all_or_full [
          | inl reached ↦ inl reached
          | inr full ↦ inr (full ∙ r.same_max ∙ sy.same_max)
        ];
        synced = record {
          height = sy.height;
          chained = r.chained;
          within = r.within;
          same_max = r.same_max ∙ sy.same_max;
          fits = omega (arith, r.not_past);
        };
      }
    where
      next : add_64 h 1 ≡ h + 1
      next = omega arith

  -- A tick of a fetcher in step, with a positive chunk size, heights within a uint64 and enough fuel,
  -- that finds the node at height `remote`, not below what is reserved, returns. It starts workers for
  -- ranges that go on from the last reserved one without a hole, each within the chunk size, and that
  -- reach `remote` unless all slots are then taken; the fetcher stays in step. So no height is fetched
  -- twice, none is passed over, and none waits while a slot is free.
  pub attempt_range_fetch-Continues :
      (fuel : ℕ) (f : Fetcher s) (h m remote : ℕ)
      → Synced s f h m
      → m ≤ remote
      → 0 < f.max_chunk_size
      → remote + f.max_chunk_size < 2 ^ 64
      → remote + 1 < fuel
      → Continues f h m remote (attempt_range_fetch s push fuel f (some remote))
  attempt_range_fetch-Continues fuel f h m remote sy le pos room enough =
      elim (Bool-cases (size f.chunk_buffer == f.max_slots)) [
        | inl full ↦
            nothing f h m remote (attempt_range_fetch s push fuel f (some remote)) sy
              (inr ((==_iff (size f.chunk_buffer) f.max_slots).0 full))
              (full_lem fuel f h remote full)
        | inr free ↦ elim (Bool-cases (leb remote h)) [
          | inl level ↦
              nothing f h m remote (attempt_range_fetch s push fuel f (some remote)) sy
                (inl (level_reached level)) (level_lem fuel f h remote free sy.height level)
          | inr gap ↦
              subst (Continues f h m remote) (sym (gap_lem fuel f h remote free sy.height gap))
                (reserves fuel f h m remote sy (ground arith) le pos room enough)
        ]
      ]
    where
      level_reached : leb remote h ≡ true → m ≡ remote
      level_reached level =
          let below : remote ≤ h = ground arith in
          omega (arith, below, Chain-le (h + 1) m (ranges f.chunk_buffer.queue) sy.chained)
