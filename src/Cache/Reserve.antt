-- ===== src/Cache/Reserve.antt =====
-- `reserve_capacity`: unpinned entries are evicted, least recently used first, until the request
-- fits. The loop takes fuel; one round more than there are entries is enough.
pub mod Oldest
pub mod Loop
use light_bridge_engine.Base.{
  ℕ, zero, suc, ◌+◌, ◌-◌, ◌≤◌, ◌<◌, List, [], ◌∷◌, Bool, true, false, Option, none, some, ltb, leb,
  ◌==◌, if◌then◌else◌, Result, ok, err, length, checked_add, checked_sub, saturating_add,
}
use light_bridge_engine.Base.Table.{erase, find}
use light_bridge_engine.Cache.Types.{
  State, Entry, loading, ready, CacheError, capacity_pinned, arithmetic_overflow,
}

-- The tick of the last use of an entry that may be evicted.
unfoldable pub candidate_tick : Entry → Option ℕ
candidate_tick (loading expected resident) = none
candidate_tick (ready bytes zero last_used resident) = some last_used
candidate_tick (ready bytes (suc pins) last_used resident) = none

-- One round of the loop: it returns, or goes on in another state.
pub data Round (K : Type 0) : Type 0 where
  returns : State K → Result CacheError (Unit {0}) → Round K
  again : State K → Round K

module _ {K : Type 0} where
  -- The earlier of two candidates; `min_by_key` keeps the first of equals.
  pub older : Option (K × ℕ) → Option (K × ℕ) → Option (K × ℕ)
  older none d = d
  older (some c) none = some c
  older (some c) (some d) = if leb c.1 d.1 then some c else some d

  pub candidate_of : K → Option ℕ → Option (K × ℕ)
  candidate_of k none = none
  candidate_of k (some tick) = some (k, tick)

  unfoldable pub oldest : List (K × Entry) → Option (K × ℕ)
  unfolding older candidate_of candidate_tick
  oldest [] = none
  oldest ((k, e) ∷ m) = older (candidate_of k (candidate_tick e)) (oldest m)

  -- `used_bytes + reserved_bytes + requested`, each sum checked.
  unfoldable pub committed : State K → ℕ → Option ℕ
  committed s requested = elim (checked_add s.used_bytes s.reserved_bytes) [
    | none ↦ none
    | some bytes ↦ checked_add bytes requested
  ]

module _ {K : Type 0} (dec : Discrete K) where
  -- `state.entries.remove(&candidate)`, and what the loop counts of the removed entry.
  unfoldable pub evict : State K → K → Option Entry → Round K
  evict s key none = again s
  evict s key (some (loading expected resident)) =
      again (record s { entries = erase dec key s.entries })
  evict s key (some (ready bytes pins last_used resident)) =
      elim (checked_sub s.used_bytes (length bytes)) [
        | none ↦ returns (record s { entries = erase dec key s.entries }) (err arithmetic_overflow)
        | some used ↦ again (record s {
          entries = erase dec key s.entries;
          used_bytes = used;
          evictions = saturating_add s.evictions 1;
        })
      ]

  unfoldable pub make_room : State K → ℕ → Option (K × ℕ) → Round K
  unfolding evict
  make_room s requested none = returns s (err (capacity_pinned requested))
  make_room s requested (some (key, _)) = evict s key (find dec key s.entries)

  unfoldable pub reserve_round : State K → ℕ → ℕ → Round K
  reserve_round s capacity requested = elim (committed s requested) [
    | none ↦ returns s (err arithmetic_overflow)
    | some bytes ↦
        if leb bytes capacity then returns s (ok tt) else make_room s requested (oldest s.entries)
  ]

  -- Without fuel the loop stops as if nothing could be evicted.
  unfoldable pub reserve_loop : ℕ → State K → ℕ → ℕ → State K × Result CacheError (Unit {0})
  reserve_loop zero s capacity requested = (s, err (capacity_pinned requested))
  reserve_loop (suc fuel) s capacity requested = elim (reserve_round s capacity requested) [
    | returns s' r ↦ (s', r)
    | again s' ↦ reserve_loop fuel s' capacity requested
  ]

  unfoldable pub reserve_capacity : State K → ℕ → ℕ → State K × Result CacheError (Unit {0})
  reserve_capacity s capacity requested = reserve_loop (suc (length s.entries)) s capacity requested
