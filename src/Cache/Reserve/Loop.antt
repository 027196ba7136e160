-- ===== src/Cache/Reserve/Loop.antt =====
-- What `reserve_capacity` does: it evicts victims, in order, and returns by its own tests.
use light_bridge_engine.Base.{
  ℕ, zero, suc, ◌+◌, ◌-◌, ◌≤◌, ◌<◌, ◌≡◌, refl, ◌∙◌, ◌⊎◌, inl, inr, List, Bool, true, none, some,
  arith, length, Option-cases, Bool-cases, Result, ok, err, leb, leb→le, le→leb, word_modulus,
  checked_add, checked_sub, saturating_add, ap,
}
use light_bridge_engine.Base.Table.{find, erase, total-erase, erase-Distinct, length-erase}
use light_bridge_engine.Cache.Types.{State, ready, CacheError, capacity_pinned, arithmetic_overflow}
use light_bridge_engine.Cache.Accounts.{Accounts, ready_weight, loading_weight}
use light_bridge_engine.Cache.Reserve.{
  Round, returns, again, committed, oldest, evict, make_room, reserve_round, reserve_loop,
  reserve_capacity,
}
use light_bridge_engine.Cache.Reserve.Oldest.{
  AllHeld, NoneOlder, Victim, oldest-none, oldest-Victim, candidate_tick-ready,
}

module _ {K : Type 0} (dec : Discrete K) where
  -- One eviction: an unpinned entry goes, no other that may go was used before it, and the
  -- counter of used bytes falls by its size.
  pub record EvictsOne (s t : State K) : Type 0 where
    pub key : K
    pub tick : ℕ
    pub bytes : List ℕ
    pub resident : Bool
    pub found : find dec key s.entries ≡ some (ready bytes 0 tick resident)
    pub none_older : NoneOlder tick s.entries
    pub fits : length bytes ≤ s.used_bytes
    pub after : t ≡ record s {
      entries = erase dec key s.entries;
      used_bytes = s.used_bytes - length bytes;
      evictions = saturating_add s.evictions 1;
    }

  pub data Evicts : State K → State K → Type 0 where
    nothing : {s : State K} → Evicts s s
    more : {s t u : State K} → EvictsOne s t → Evicts t u → Evicts s u

  -- How the loop returns: with the room, with nothing left to evict, or on an overflow.
  abbrev pub Ends : State K → ℕ → ℕ → Result CacheError (Unit {0}) → Type 0
  Ends s capacity requested (ok _) = s.used_bytes + s.reserved_bytes + requested ≤ capacity
  Ends s capacity requested (err e) =
      ((e ≡ capacity_pinned requested)
        × AllHeld s.entries
        × (capacity < s.used_bytes + s.reserved_bytes + requested))
      ⊎ ((e ≡ arithmetic_overflow) × (word_modulus ≤ s.used_bytes + s.reserved_bytes + requested))

  abbrev RoundOf : State K → ℕ → ℕ → Round K → Type 0
  RoundOf s capacity requested (returns t r) = (t ≡ s) × Ends s capacity requested r
  RoundOf s capacity requested (again t) =
      EvictsOne s t × (capacity < s.used_bytes + s.reserved_bytes + requested)

  evict-RoundOf :
      (s : State K) (capacity requested : ℕ) (key : K) (tick : ℕ)
      → Accounts dec s
      → capacity < s.used_bytes + s.reserved_bytes + requested
      → Victim dec s.entries key tick
      → RoundOf s capacity requested (evict dec s key (find dec key s.entries))
  unfolding evict checked_sub
  evict-RoundOf s capacity requested key tick a full v =
      let (bytes, resident, e) = candidate_tick-ready v.entry tick v.candidate in
      let found : find dec key s.entries ≡ some (ready bytes 0 tick resident) =
        v.found ∙ ap some e in
      let weight = total-erase dec ready_weight key s.entries _ found in
      let fits : leb (length bytes) s.used_bytes ≡ true =
        le→leb (length bytes) s.used_bytes (omega (arith, a.used)) in
      rw (found, evict, checked_sub, fits)
        (
          record {
            key = key;
            tick = tick;
            bytes = bytes;
            resident = resident;
            found = found;
            none_older = v.none_older;
            fits = omega (arith, a.used);
            after = refl;
          },
          full,
        )

  committed-cases :
      (s : State K) (requested : ℕ)
      → ((committed s requested ≡ some (s.used_bytes + s.reserved_bytes + requested)))
        ⊎ ((committed s requested ≡ none)
            × (word_modulus ≤ s.used_bytes + s.reserved_bytes + requested))
  unfolding committed checked_add
  committed-cases s requested = ground arith

  make_room-RoundOf :
      (s : State K) (capacity requested : ℕ)
      → Accounts dec s
      → capacity < s.used_bytes + s.reserved_bytes + requested
      → RoundOf s capacity requested (make_room dec s requested (oldest s.entries))
  unfolding make_room
  make_room-RoundOf s capacity requested a full = elim (Option-cases (oldest s.entries)) [
    | inl held ↦ rw (held, make_room) (refl, inl (refl, oldest-none s.entries held, full))
    | inr ((key, tick), e) ↦
        rw (e, make_room)
          (evict-RoundOf s capacity requested key tick a full
            (oldest-Victim dec s.entries key tick a.distinct e))
  ]

  reserve_round-RoundOf :
      (s : State K) (capacity requested : ℕ)
      → Accounts dec s
      → RoundOf s capacity requested (reserve_round dec s capacity requested)
  unfolding reserve_round
  reserve_round-RoundOf s capacity requested a =
      let sum : ℕ = s.used_bytes + s.reserved_bytes + requested in
      elim (committed-cases s requested) [
        | inl e ↦ elim (Bool-cases (leb sum capacity)) [
          | inl fits ↦ rw (e, reserve_round, fits) (refl, leb→le sum capacity fits)
          | inr full ↦
              rw (e, reserve_round, full) (make_room-RoundOf s capacity requested a (ground arith))
        ]
        | inr (e, over) ↦ rw (e, reserve_round) (refl, inr (refl, over))
      ]

  -- An eviction keeps the accounts.
  pub EvictsOne-Accounts : {s t : State K} → EvictsOne s t → Accounts dec s → Accounts dec t
  EvictsOne-Accounts {s} {t} v a =
      let used = total-erase dec ready_weight v.key s.entries _ v.found in
      let reserved = total-erase dec loading_weight v.key s.entries _ v.found in
      rw v.after (record {
        distinct = erase-Distinct dec v.key s.entries a.distinct;
        used = omega (arith, a.used, v.fits);
        reserved = omega (arith, a.reserved);
      })

  EvictsOne-length : {s t : State K} → EvictsOne s t → length t.entries + 1 ≡ length s.entries
  EvictsOne-length {s} {t} v = rw v.after (length-erase dec v.key s.entries v.found)

  -- The fuel is enough, and the loop ends after a run of evictions by one of its own tests.
  reserve_loop-Ends :
      (fuel : ℕ) (s : State K) (capacity requested : ℕ)
      → Accounts dec s
      → length s.entries < fuel
      → let out = reserve_loop dec fuel s capacity requested in
        Evicts s out.0 × Ends out.0 capacity requested out.1
  unfolding reserve_loop
  reserve_loop-Ends zero s capacity requested a h = absurd (omega arith)
  reserve_loop-Ends (suc fuel) s capacity requested a h =
      split (reserve_round dec s capacity requested) refl
        (reserve_round-RoundOf s capacity requested a) (reserve_loop-Ends fuel)
    where
      Goal : State K × Result CacheError (Unit {0}) → Type 0
      Goal out = Evicts s out.0 × Ends out.0 capacity requested out.1

      split :
          (round : Round K)
          → reserve_round dec s capacity requested ≡ round
          → RoundOf s capacity requested round
          → ((t : State K) (capacity requested : ℕ)
              → Accounts dec t
              → length t.entries < fuel
              → let out = reserve_loop dec fuel t capacity requested in
                Evicts t out.0 × Ends out.0 capacity requested out.1)
          → Goal (reserve_loop dec (suc fuel) s capacity requested)
      split (returns t r) e o ih = rw (e, reserve_loop, o.0) (nothing, o.1)
      split (again t) e o ih =
          let rest =
            ih t capacity requested (EvictsOne-Accounts o.0 a)
              (omega (arith, EvictsOne-length o.0)) in
          rw (e, reserve_loop) (more o.0 rest.0, rest.1)

  -- With the accounts in order, reserving ends by its own tests: it evicts unpinned entries only,
  -- the least recently used first, until the request fits; it gives up only when every entry left
  -- is pinned or loading and the request still does not fit, or where a sum leaves the word.
  pub reserve_capacity-Ends :
      (s : State K) (capacity requested : ℕ)
      → Accounts dec s
      → Evicts s (reserve_capacity dec s capacity requested).0
        × Ends
            (reserve_capacity dec s capacity requested).0
            capacity
            requested
            (reserve_capacity dec s capacity requested).1
  unfolding reserve_capacity
  reserve_capacity-Ends s capacity requested a =
      reserve_loop-Ends (suc (length s.entries)) s capacity requested a (omega arith)
