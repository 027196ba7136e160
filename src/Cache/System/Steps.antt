-- ===== src/Cache/System/Steps.antt =====
-- Every critical section keeps the invariant, and so does every interleaving of them.
use light_bridge_engine.Base.{
  ℕ, ◌≡◌, refl, inl, inr, List, [], ◌∷◌, Bool, Option, none, some, arith, Result, ok, err, length,
  Bool-cases, Result-cases, get_elem?, leb, saturating_add, ◌==◌, ==_iff,
}
use light_bridge_engine.Base.Table.{find, insert, erase}
use light_bridge_engine.Cache.Types.{
  State, CacheConfig, Entry, loading, ready, CacheLease, CacheError,
}
use light_bridge_engine.Cache.Leases.{
  Request, hit, reserve, check_size, next_tick, get, get_entry, pin, miss, count_request, request,
  request_entry, reserve_entry, after_reserve, after_commit, finish, commit,
}
use light_bridge_engine.Cache.Reserve.{reserve_capacity}
use light_bridge_engine.Cache.Reserve.Loop.{Evicts, Ends, reserve_capacity-Ends}
use light_bridge_engine.Cache.System.{
  Sys, Event, gets, requests, finishes, drops, clears, step, run, after_get, after_request,
  after_finish, finish_load, drop_lease,
}
use light_bridge_engine.Cache.System.Invariant.{Inv, Pinned, pin-Pinned}
use light_bridge_engine.Cache.System.Loads.{
  Evicts-Inv, Evicts-absent, reserve_entry-Inv, cancel-Inv, commit-Inv,
}
use light_bridge_engine.Cache.System.Clears.{clear_unpinned-Cleared}
use light_bridge_engine.Cache.System.Drops.{release-Inv}

module _ {K : Type 0} (dec : Discrete K) (c : CacheConfig) where
  abbrev pub IsSound : Sys K → Type 0
  IsSound y = Inv dec c y.state y.leases y.loads

  -- Counters and heat are no part of the invariant.
  Inv-same :
      (s t : State K) (ls : List (CacheLease K)) (loads : List (K × ℕ))
      → t.entries ≡ s.entries
      → t.used_bytes ≡ s.used_bytes
      → t.reserved_bytes ≡ s.reserved_bytes
      → Inv dec c s ls loads
      → Inv dec c t ls loads
  Inv-same s t ls loads e u r v = record {
    word = v.word;
    accounts = record {
      distinct = rw e v.accounts.distinct;
      used = rw (e, u) v.accounts.used;
      reserved = rw (e, r) v.accounts.reserved;
    };
    bounded = rw (u, r) v.bounded;
    loads_distinct = v.loads_distinct;
    agree = rw e v.agree;
  }

  get_entry-IsSound :
      (y : Sys K) (s : State K) (k : K) (o : Option Entry)
      → find dec k s.entries ≡ o
      → Inv dec c s y.leases y.loads
      → IsSound (after_get y (get_entry dec s k o))
  unfolding get_entry after_get
  get_entry-IsSound y s k none e v = Inv-same s _ y.leases y.loads refl refl refl v
  get_entry-IsSound y s k (some (loading n r)) e v = v
  get_entry-IsSound y s k (some (ready bytes pins t r)) e v =
      split (pin dec s k bytes pins r) (pin-Pinned dec c s y.leases y.loads k bytes pins t r e v)
    where
      split :
          (out : State K × Result CacheError (CacheLease K))
          → Pinned dec c y.leases y.loads out
          → IsSound (after_get y (out.0, elim out.1 [ ok lease ↦ ok (some lease) | err x ↦ err x ]))
      split (s', ok lease) p = p
      split (s', err x) p = p

  after_reserve-IsSound :
      (y : Sys K) (s : State K) (k : K) (n : ℕ) (resident : Bool)
      (out : State K × Result CacheError (Unit {0}))
      → find dec k s.entries ≡ none
      → Inv dec c s y.leases y.loads
      → Evicts dec s out.0
      → Ends dec out.0 c.capacity_bytes n out.1
      → IsSound (after_request y k n (after_reserve dec k n resident out))
  unfolding after_reserve after_request
  after_reserve-IsSound y s k n resident (t, err x) absent v evicts ends =
      Evicts-Inv dec c y.leases y.loads evicts v
  after_reserve-IsSound y s k n resident (t, ok _) absent v evicts ends =
      let sound = Evicts-Inv dec c y.leases y.loads evicts v in
      let still = Evicts-absent dec c k evicts v.accounts absent in
      let done = reserve_entry-Inv dec c t y.leases y.loads k n resident still ends sound in
      reserved (reserve_entry dec t k n resident) done.0 done.1
    where
      reserved :
          (out : State K × Result CacheError (Request K))
          → out.1 ≡ ok reserve
          → Inv dec c out.0 y.leases ((k, n) ∷ y.loads)
          → IsSound (after_request y k n out)
      reserved (u, r) e w = rw (e, after_request) w

  miss-IsSound :
      (y : Sys K) (s : State K) (k : K) (n : ℕ)
      → find dec k s.entries ≡ none
      → Inv dec c s y.leases y.loads
      → IsSound (after_request y k n (miss dec c s k n))
  unfolding miss
  miss-IsSound y s k n absent v =
      let requests = count_request dec s k in
      let counted : State K = record s {
        misses = saturating_add s.misses 1;
        heat = insert dec k requests s.heat;
      } in
      let sound = Inv-same s counted y.leases y.loads refl refl refl v in
      let (evicts, ends) = reserve_capacity-Ends dec counted c.capacity_bytes n sound.accounts in
      after_reserve-IsSound y counted k n (leb c.admit_after_requests requests)
        (reserve_capacity dec counted c.capacity_bytes n) absent sound evicts ends

  request_entry-IsSound :
      (y : Sys K) (s : State K) (k : K) (expected : ℕ) (o : Option Entry)
      → find dec k s.entries ≡ o
      → Inv dec c s y.leases y.loads
      → IsSound (after_request y k expected (request_entry dec c s k expected o))
  unfolding request_entry after_request
  request_entry-IsSound y s k expected none e v = miss-IsSound y s k expected e v
  request_entry-IsSound y s k expected (some (loading n r)) e v =
      Inv-same s _ y.leases y.loads refl refl refl v
  request_entry-IsSound y s k expected (some (ready bytes pins t r)) e v =
      split (pin dec s k bytes pins r) (pin-Pinned dec c s y.leases y.loads k bytes pins t r e v)
    where
      split :
          (out : State K × Result CacheError (CacheLease K))
          → Pinned dec c y.leases y.loads out
          → IsSound (
              after_request y k expected
                (out.0, elim out.1 [ ok lease ↦ ok (hit lease) | err x ↦ err x ]))
      split (s', ok lease) p = p
      split (s', err x) p = p

  next_tick-Inv :
      (s : State K) (ls : List (CacheLease K)) (loads : List (K × ℕ))
      → Inv dec c s ls loads
      → Inv dec c (next_tick s) ls loads
  unfolding next_tick
  next_tick-Inv s ls loads v = Inv-same s _ ls loads refl refl refl v

  get-IsSound : (y : Sys K) (k : K) → IsSound y → IsSound (after_get y (get dec y.state k))
  unfolding get
  get-IsSound y k v =
      get_entry-IsSound y (next_tick y.state) k (find dec k y.state.entries) refl
        (next_tick-Inv y.state y.leases y.loads v)

  request-IsSound :
      (y : Sys K) (k : K) (expected : ℕ)
      → IsSound y
      → IsSound (after_request y k expected (request dec c y.state k expected))
  unfolding request
  request-IsSound y k expected v =
      request_entry-IsSound y (next_tick y.state) k expected (find dec k y.state.entries) refl
        (next_tick-Inv y.state y.leases y.loads v)

  finish_load-IsSound :
      {E : Type 0} (y : Sys K) (k : K) (loaded : Result E (List ℕ)) (o : Option ℕ)
      → find dec k y.loads ≡ o
      → IsSound y
      → IsSound (finish_load dec y k loaded o)
  unfolding finish_load finish after_finish
  finish_load-IsSound {E} y k loaded none e v = v
  finish_load-IsSound {E} y k (err x) (some n) e v =
      cancel-Inv dec c y.state y.leases y.loads k n e v
  finish_load-IsSound {E} y k (ok bytes) (some n) e v = elim (Bool-cases (length bytes == n)) [
    | inl sized ↦
        let done = commit-Inv dec c y.state y.leases y.loads k n bytes ((==_iff _ _).0 sized) e v in
        rw sized (finished (commit dec y.state k n bytes) done.0 done.1)
    | inr other ↦ rw other (cancel-Inv dec c y.state y.leases y.loads k n e v)
  ]
    where
      finished :
          (out : State K × Result CacheError (CacheLease K))
          → out.1 ≡ ok (record { key = k; bytes = bytes })
          → Inv dec c out.0 (record { key = k; bytes = bytes } ∷ y.leases) (erase dec k y.loads)
          → IsSound (after_finish {E = E} dec y k (after_commit dec k n out))
      finished (s, err x) same w = cc
      finished (s, ok lease) same w =
          let e : lease ≡ record { key = k; bytes = bytes } = ground arith in rw e w

  drop_lease-IsSound :
      (y : Sys K) (i : ℕ) (o : Option (CacheLease K))
      → get_elem? y.leases i ≡ o
      → IsSound y
      → IsSound (drop_lease dec y i o)
  unfolding drop_lease
  drop_lease-IsSound y i none e v = v
  drop_lease-IsSound y i (some l) e v = release-Inv dec c y.state y.leases y.loads i l e v

  -- Every event keeps the accounts, the byte bound, and the agreement of the entries with the
  -- leases and the loads.
  pub step-IsSound : {E : Type 0} (y : Sys K) (e : Event K E) → IsSound y → IsSound (step dec c y e)
  unfolding step
  step-IsSound y (gets k) v = get-IsSound y k v
  step-IsSound y (requests k n) v = elim (Result-cases (check_size c n)) [
    | inl (_, fits) ↦ rw (fits, step) (request-IsSound y k n v)
    | inr (x, refused) ↦ rw (refused, step) v
  ]
  step-IsSound y (finishes k loaded) v = finish_load-IsSound y k loaded _ refl v
  step-IsSound y (drops i) v = drop_lease-IsSound y i _ refl v
  step-IsSound y clears v = (clear_unpinned-Cleared dec c y.state y.leases y.loads v).sound

  pub run-IsSound :
      {E : Type 0} (y : Sys K) (events : List (Event K E))
      → IsSound y
      → IsSound (run dec c y events)
  unfolding run
  run-IsSound y [] v = v
  run-IsSound y (e ∷ es) v = run-IsSound (step dec c y e) es (step-IsSound y e v)
