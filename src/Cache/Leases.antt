-- ===== src/Cache/Leases.antt =====
-- `get`, the critical sections of `get_or_try_insert`, and what dropping a lease or a reservation
-- does. Ticks and counters saturate at 64 bits.
use light_bridge_engine.Base.{
  ℕ, List, Bool, ◌&&◌, not, Option, none, some, ltb, leb, ◌==◌, if◌then◌else◌, Result, ok, err,
  length, checked_add, checked_sub, saturating_add, saturating_sub,
}
use light_bridge_engine.Base.Table.{erase, find, insert}
use light_bridge_engine.Cache.Types.{
  State, Entry, loading, ready, CacheLease, CacheConfig, CacheError, LoadError, loader, cache,
  empty_entry, entry_too_large, loaded_size_mismatch, reservation_lost, arithmetic_overflow,
}
use light_bridge_engine.Cache.Reserve.{reserve_capacity}

-- What the first critical section of `get_or_try_insert` decides.
pub data Request (K : Type 0) : Type 0 where
  hit : CacheLease K → Request K
  -- Another caller loads the key: wait for a change and start over.
  wait : Request K
  -- This caller is to load the key.
  reserve : Request K

-- The size checks before the loop.
unfoldable pub check_size : CacheConfig → ℕ → Result CacheError (Unit {0})
check_size c expected =
    if expected == 0
    then err empty_entry
    else (if ltb c.capacity_bytes expected
        then err (entry_too_large expected c.capacity_bytes)
        else ok tt)

unfoldable pub next_tick : {K : Type 0} → State K → State K
next_tick s = record s { tick = saturating_add s.tick 1 }

module _ {K : Type 0} (dec : Discrete K) where
  -- A use of a ready entry: one pin more, and the current tick.
  unfoldable pub pin : State K → K → List ℕ → ℕ → Bool → State K × Result CacheError (CacheLease K)
  pin s key bytes pins resident = elim (checked_add pins 1) [
    | none ↦ (s, err arithmetic_overflow)
    | some pins' ↦ (
      record s {
        entries = insert dec key (ready bytes pins' s.tick resident) s.entries;
        hits = saturating_add s.hits 1;
      },
      ok (record { key = key; bytes = bytes }),
    )
  ]

  unfoldable pub get_entry :
      State K → K → Option Entry → State K × Result CacheError (Option (CacheLease K))
  unfolding pin
  get_entry s key none = (record s { misses = saturating_add s.misses 1 }, ok none)
  get_entry s key (some (loading expected resident)) = (s, ok none)
  get_entry s key (some (ready bytes pins last_used resident)) =
      let (s', r) = pin s key bytes pins resident in
      (s', elim r [ ok lease ↦ ok (some lease) | err e ↦ err e ])

  unfoldable pub get : State K → K → State K × Result CacheError (Option (CacheLease K))
  unfolding get_entry next_tick
  get s key = get_entry (next_tick s) key (find dec key s.entries)

  -- The requests for a key so far, this one included.
  unfoldable pub count_request : State K → K → ℕ
  count_request s key = elim (find dec key s.heat) [ none ↦ 1 | some n ↦ saturating_add n 1 ]

  -- The reservation, once the capacity is there.
  unfoldable pub reserve_entry : State K → K → ℕ → Bool → State K × Result CacheError (Request K)
  reserve_entry s key expected resident = elim (checked_add s.reserved_bytes expected) [
    | none ↦ (s, err arithmetic_overflow)
    | some reserved ↦ (
      record s {
        reserved_bytes = reserved;
        loads = saturating_add s.loads 1;
        entries = insert dec key (loading expected resident) s.entries;
      },
      ok reserve,
    )
  ]

  -- What follows `reserve_capacity`.
  unfoldable pub after_reserve :
      K
      → ℕ
      → Bool
      → State K × Result CacheError (Unit {0})
      → State K × Result CacheError (Request K)
  after_reserve key expected resident (s, ok _) = reserve_entry s key expected resident
  after_reserve key expected resident (s, err e) = (s, err e)

  -- A miss: the request is counted, room is made, and the key is reserved.
  unfoldable pub miss : CacheConfig → State K → K → ℕ → State K × Result CacheError (Request K)
  miss c s key expected =
      let requests = count_request s key in
      let counted = record s {
        misses = saturating_add s.misses 1;
        heat = insert dec key requests s.heat;
      } in
      after_reserve key expected (leb c.admit_after_requests requests)
        (reserve_capacity dec counted c.capacity_bytes expected)

  unfoldable pub request_entry :
      CacheConfig → State K → K → ℕ → Option Entry → State K × Result CacheError (Request K)
  unfolding pin miss
  request_entry c s key expected none = miss c s key expected
  request_entry c s key expected (some (loading reserved resident)) =
      (record s { waits = saturating_add s.waits 1 }, ok wait)
  request_entry c s key expected (some (ready bytes pins last_used resident)) =
      let (s', r) = pin s key bytes pins resident in
      (s', elim r [ ok lease ↦ ok (hit lease) | err e ↦ err e ])

  -- The first critical section of `get_or_try_insert`.
  unfoldable pub request : CacheConfig → State K → K → ℕ → State K × Result CacheError (Request K)
  unfolding request_entry next_tick
  request c s key expected = request_entry c (next_tick s) key expected (find dec key s.entries)

  -- Dropping an armed reservation: its entry goes, if it is still the one that was reserved.
  unfoldable pub cancel_entry : State K → K → ℕ → Option Entry → State K
  cancel_entry s key expected none = s
  cancel_entry s key expected (some (ready bytes pins last_used resident)) = s
  cancel_entry s key expected (some (loading reserved resident)) =
      if reserved == expected
      then record s {
        entries = erase dec key s.entries;
        reserved_bytes = saturating_sub s.reserved_bytes expected;
      }
      else s

  unfoldable pub cancel : State K → K → ℕ → State K
  unfolding cancel_entry
  cancel s key expected = cancel_entry s key expected (find dec key s.entries)

  -- The reserved entry becomes ready, with one pin for the lease that is returned.
  unfoldable pub publish :
      State K → K → ℕ → List ℕ → Bool → State K × Result CacheError (CacheLease K)
  unfolding next_tick
  publish s key expected bytes resident = elim (checked_sub s.reserved_bytes expected) [
    | none ↦ (s, err arithmetic_overflow)
    | some reserved ↦ elim (checked_add s.used_bytes expected) [
      | none ↦ (s, err arithmetic_overflow)
      | some used ↦
          let s' = next_tick (record s { reserved_bytes = reserved; used_bytes = used }) in
          (
            record s' { entries = insert dec key (ready bytes 1 s'.tick resident) s'.entries },
            ok (record { key = key; bytes = bytes }),
          )
    ]
  ]

  unfoldable pub commit_entry :
      State K → K → ℕ → List ℕ → Option Entry → State K × Result CacheError (CacheLease K)
  unfolding publish
  commit_entry s key expected bytes none = (s, err reservation_lost)
  commit_entry s key expected bytes (some (ready other pins last_used resident)) =
      (s, err reservation_lost)
  commit_entry s key expected bytes (some (loading reserved resident)) =
      if reserved == expected
      then publish s key expected bytes resident
      else (s, err reservation_lost)

  -- The second critical section of `get_or_try_insert`.
  unfoldable pub commit : State K → K → ℕ → List ℕ → State K × Result CacheError (CacheLease K)
  unfolding commit_entry
  commit s key expected bytes = commit_entry s key expected bytes (find dec key s.entries)

  -- What follows the second critical section: on an error the reservation is dropped.
  unfoldable pub after_commit :
      {E : Type 0}
      → K
      → ℕ
      → State K × Result CacheError (CacheLease K)
      → State K × Result (LoadError E) (CacheLease K)
  after_commit key expected (s, ok lease) = (s, ok lease)
  after_commit key expected (s, err e) = (cancel s key expected, err (cache e))

  -- All that follows the loader's return. On every error the reservation is dropped.
  unfoldable pub finish :
      {E : Type 0}
      → State K
      → K
      → ℕ
      → Result E (List ℕ)
      → State K × Result (LoadError E) (CacheLease K)
  unfolding after_commit
  finish s key expected (err e) = (cancel s key expected, err (loader e))
  finish s key expected (ok bytes) =
      if length bytes == expected
      then after_commit key expected (commit s key expected bytes)
      else (cancel s key expected, err (cache (loaded_size_mismatch expected (length bytes))))

  -- Dropping a lease: one pin less, and the entry goes with its last pin unless it is resident.
  unfoldable pub release_entry : State K → K → Option Entry → State K
  release_entry s key none = s
  release_entry s key (some (loading expected resident)) = s
  release_entry s key (some (ready bytes pins last_used resident)) =
      let pins' = saturating_sub pins 1 in
      if (pins' == 0) && not resident
      then record s {
        entries = erase dec key s.entries;
        used_bytes = saturating_sub s.used_bytes (length bytes);
      }
      else record s { entries = insert dec key (ready bytes pins' last_used resident) s.entries }

  unfoldable pub release : State K → K → State K
  unfolding release_entry
  release s key = release_entry s key (find dec key s.entries)
