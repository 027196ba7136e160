-- ===== src/Cache/Clear.antt =====
-- `clear_unpinned` and `stats`.
use light_bridge_engine.Base.{
  ℕ, zero, suc, ◌+◌, List, [], ◌∷◌, true, false, Option, none, some, Result, ok, err, length,
  checked_sub,
}
use light_bridge_engine.Base.Table.{find, erase}
use light_bridge_engine.Cache.Types.{
  State, Entry, loading, ready, CacheConfig, CacheError, CacheStats, arithmetic_overflow,
}

-- The keys of the ready entries without a pin.
unfoldable pub unpinned_keys : {K : Type 0} → List (K × Entry) → List K
unpinned_keys [] = []
unpinned_keys ((k, loading expected resident) ∷ m) = unpinned_keys m
unpinned_keys ((k, ready bytes zero last_used resident) ∷ m) = k ∷ unpinned_keys m
unpinned_keys ((k, ready bytes (suc pins) last_used resident) ∷ m) = unpinned_keys m

module _ {K : Type 0} (dec : Discrete K) where
  -- One round of the loop over the keys, with the entries that are removed so far.
  unfoldable pub clear_entry :
      (State K → ℕ → State K × Result CacheError ℕ)
      → State K
      → ℕ
      → K
      → Option Entry
      → State K × Result CacheError ℕ
  clear_entry next s removed key none = next s removed
  clear_entry next s removed key (some (loading expected resident)) =
      next (record s { entries = erase dec key s.entries }) removed
  clear_entry next s removed key (some (ready bytes pins last_used resident)) =
      let s' = record s { entries = erase dec key s.entries } in
      elim (checked_sub s.used_bytes (length bytes)) [
        | none ↦ (s', err arithmetic_overflow)
        | some used ↦ next (record s' { used_bytes = used }) (removed + 1)
      ]

  unfoldable pub clear_keys : List K → State K → ℕ → State K × Result CacheError ℕ
  unfolding clear_entry
  clear_keys [] s removed = (s, ok removed)
  clear_keys (key ∷ keys) s removed =
      clear_entry (clear_keys keys) s removed key (find dec key s.entries)

  unfoldable pub clear_unpinned : State K → State K × Result CacheError ℕ
  unfolding clear_keys unpinned_keys
  clear_unpinned s = clear_keys (unpinned_keys s.entries) s 0

-- The entries that `stats` counts.
unfoldable pub count_loading : {K : Type 0} → List (K × Entry) → ℕ
count_loading [] = 0
count_loading ((k, loading expected resident) ∷ m) = count_loading m + 1
count_loading ((k, ready bytes pins last_used resident) ∷ m) = count_loading m

unfoldable pub count_pinned : {K : Type 0} → List (K × Entry) → ℕ
count_pinned [] = 0
count_pinned ((k, loading expected resident) ∷ m) = count_pinned m
count_pinned ((k, ready bytes zero last_used resident) ∷ m) = count_pinned m
count_pinned ((k, ready bytes (suc pins) last_used resident) ∷ m) = count_pinned m + 1

unfoldable pub count_resident : {K : Type 0} → List (K × Entry) → ℕ
count_resident [] = 0
count_resident ((k, loading expected resident) ∷ m) = count_resident m
count_resident ((k, ready bytes pins last_used true) ∷ m) = count_resident m + 1
count_resident ((k, ready bytes pins last_used false) ∷ m) = count_resident m

unfoldable pub stats : {K : Type 0} → CacheConfig → State K → CacheStats
unfolding count_loading count_pinned count_resident
stats c s = record {
  capacity_bytes = c.capacity_bytes;
  used_bytes = s.used_bytes;
  reserved_bytes = s.reserved_bytes;
  resident_entries = count_resident s.entries;
  pinned_entries = count_pinned s.entries;
  loading_entries = count_loading s.entries;
  heat_entries = length s.heat;
  hits = s.hits;
  misses = s.misses;
  loads = s.loads;
  waits = s.waits;
  evictions = s.evictions;
}
