-- ===== src/Cache/System/Guarantees.antt =====
-- What every history of a new cache guarantees to its callers.
use light_bridge_engine.Base.{
  ℕ, ◌+◌, ◌≤◌, ◌<◌, ◌≡◌, refl, subst, List, [], Bool, some, arith, Result, ok, err, length,
  word_modulus, get_elem?, ==_iff, checked_add-fits,
}
use light_bridge_engine.Base.Table.{find}
use light_bridge_engine.Cache.Types.{State, CacheConfig, ready, CacheLease, CacheError, new}
use light_bridge_engine.Cache.Leases.{get, get_entry, pin, next_tick, finish, commit, after_commit}
use light_bridge_engine.Cache.System.{Sys, Event, run}
use light_bridge_engine.Cache.System.Clears.{Cleared, clear_unpinned-Cleared}
use light_bridge_engine.Cache.Clear.{clear_unpinned}
use light_bridge_engine.Cache.System.Pins.{Agrees, pins_of, pins_of-nil, lease-entry}
use light_bridge_engine.Cache.System.Loads.{commit-Inv}
use light_bridge_engine.Cache.System.Steps.{IsSound, run-IsSound}

-- A new cache that nobody uses yet.
abbrev pub start : {K : Type 0} → State K → Sys K
start s = record { state = s; leases = []; loads = [] }

module _ {K : Type 0} (dec : Discrete K) (c : CacheConfig) where
  new-IsSound :
      (s : State K) → c.capacity_bytes < word_modulus → new c ≡ ok s → IsSound dec c (start s)
  unfolding new find
  new-IsSound s word e =
      let fresh : State K = record {
        entries = [];
        heat = [];
        used_bytes = 0;
        reserved_bytes = 0;
        tick = 0;
        hits = 0;
        misses = 0;
        loads = 0;
        waits = 0;
        evictions = 0;
      } in
      let same : s ≡ fresh = ground arith in
      rw same (record {
        word = word;
        accounts = record { distinct = tt; used = refl; reserved = refl };
        bounded = omega arith;
        loads_distinct = tt;
        agree = λ q. (pins_of-nil dec q, refl);
      })

  -- A hit on a ready entry.
  get-hit :
      (s : State K) (k : K) (bytes : List ℕ) (pins t : ℕ) (resident : Bool)
      → find dec k s.entries ≡ some (ready bytes pins t resident)
      → pins + 1 < word_modulus
      → (get dec s k).1 ≡ ok (some (record { key = k; bytes = bytes }))
  unfolding get next_tick get_entry pin
  get-hit s k bytes pins t resident found fits =
      let counted = checked_add-fits pins 1 fits in rw (found, get_entry, pin, counted) refl

module _ {K E : Type 0} (dec : Discrete K) (c : CacheConfig) where
  module _ (s : State K) (word : c.capacity_bytes < word_modulus) (made : new c ≡ ok s)
      (events : List (Event K E)) where
    -- After any interleaving of the callers of a new cache, whose capacity fits a word, the counters
    -- are the sums over the entries, and the bytes in use and on order stay within the capacity.
    pub run-bounded :
        let y = run dec c (start s) events in
        IsSound dec c y × (y.state.used_bytes + y.state.reserved_bytes ≤ c.capacity_bytes)
    run-bounded =
        let v = run-IsSound dec c (start s) events (new-IsSound dec c s word made) in (v, v.bounded)

    -- After any interleaving of the callers of a new cache, whose capacity fits a word, a lease that
    -- is held keeps its entry: the key is ready with the bytes of the lease, and it is pinned.
    pub run-lease_stays :
        (i : ℕ) (l : CacheLease K)
        → get_elem? (run dec c (start s) events).leases i ≡ some l
        → (pins : ℕ) × (t : ℕ) × (resident : Bool) × (find dec l.key
              (run dec c (start s) events).state.entries
            ≡ some (ready l.bytes pins t resident))
          × (0 < pins)
    run-lease_stays i l held =
        let v = run-IsSound dec c (start s) events (new-IsSound dec c s word made) in
        lease-entry dec i _ l _ _ held (v.agree l.key)

    -- After any interleaving of the callers of a new cache, whose capacity fits a word, a load in
    -- flight whose loader brings as many bytes as it reserved returns a lease on them.
    pub run-finish_ok :
        (k : K) (n : ℕ) (bytes : List ℕ)
        → find dec k (run dec c (start s) events).loads ≡ some n
        → length bytes ≡ n
        → (finish dec {E = E} (run dec c (start s) events).state k n (ok bytes)).1
          ≡ ok (record { key = k; bytes = bytes })
    unfolding finish
    run-finish_ok k n bytes flying sized =
        let y = run dec c (start s) events in
        let v = run-IsSound dec c (start s) events (new-IsSound dec c s word made) in
        let done = commit-Inv dec c y.state y.leases y.loads k n bytes sized flying v in
        rw ((==_iff (length bytes) n).1 sized) (delivered (commit dec y.state k n bytes) done.0)
      where
        delivered :
            (out : State K × Result CacheError (CacheLease K))
            → out.1 ≡ ok (record { key = k; bytes = bytes })
            → (after_commit dec {E = E} k n out).1 ≡ ok (record { key = k; bytes = bytes })
        delivered (t, ok lease) e = ground arith
        delivered (t, err x) e = cc

    -- After any interleaving of the callers of a new cache, whose capacity fits a word, a caller that
    -- asks for a key on which a lease is held gets the bytes of the lease, if the leases on the key
    -- and one more can be counted in a word.
    pub run-get_held :
        (i : ℕ) (l : CacheLease K)
        → get_elem? (run dec c (start s) events).leases i ≡ some l
        → pins_of dec l.key (run dec c (start s) events).leases + 1 < word_modulus
        → (get dec (run dec c (start s) events).state l.key).1 ≡ ok (some l)
    run-get_held i l held few =
        let y = run dec c (start s) events in
        let v = run-IsSound dec c (start s) events (new-IsSound dec c s word made) in
        let (pins, t, resident, found, pinned) = lease-entry dec i _ l _ _ held (v.agree l.key) in
        let here =
          subst (λ o. Agrees dec l.key o y.leases (find dec l.key y.loads)) found (v.agree l.key) in
        get-hit dec c y.state l.key l.bytes pins t resident found
          (subst (λ n. n + 1 < word_modulus) here.0 few)

    -- After any interleaving of the callers of a new cache, whose capacity fits a word, clearing
    -- succeeds: it returns a count, keeps the counters the sums over the entries and the bytes within
    -- the capacity, and leaves every entry that is pinned or loading as it was.
    pub run-clear_unpinned :
        let y = run dec c (start s) events in
        Cleared dec c y.state y.leases y.loads (clear_unpinned dec y.state)
    run-clear_unpinned =
        let y = run dec c (start s) events in
        clear_unpinned-Cleared dec c y.state y.leases y.loads
          (run-IsSound dec c (start s) events (new-IsSound dec c s word made))
