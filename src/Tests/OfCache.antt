-- ===== src/Tests/OfCache.antt =====
-- The cache of crates/bridge-cache at concrete inputs.
use light_bridge_engine.Base.{
  ℕ, suc, ◌+◌, ◌≤◌, ◌<◌, ◌≡◌, refl, List, [], ◌∷◌, Bool, true, false, Option, none, some, Result,
  ok, err, get_elem?, ℕ_discrete, word_modulus, arith, subst, sym,
}
use light_bridge_engine.Base.Table.{Distinct, find}
use light_bridge_engine.Cache.Types.{CacheConfig, State, CacheLease, ready, new}
use light_bridge_engine.Cache.System.{Event, requests, finishes, run}
use light_bridge_engine.Base.{ltb, All, length, map}
use light_bridge_engine.Cache.System.Clears.{Cleared}
use light_bridge_engine.Cache.Clear.{clear_unpinned, stats}
use light_bridge_engine.Cache.System.Guarantees.{
  run-clear_unpinned, start, run-bounded, run-lease_stays, run-finish_ok, run-get_held,
}
use light_bridge_engine.Cache.System.Steps.{IsSound}
use light_bridge_engine.Cache.System.Pins.{pins_of}
use light_bridge_engine.Cache.Leases.{get, finish}
use light_bridge_engine.Cache.Accounts.{Accounts}
use light_bridge_engine.Cache.Reserve.{reserve_capacity}
use light_bridge_engine.Cache.Reserve.Loop.{Evicts, Ends, reserve_capacity-Ends}

abbrev small : CacheConfig
small = record { capacity_bytes = 8; admit_after_requests = 1 }

abbrev pub fresh : State ℕ
fresh = record {
  entries = [];
  heat = [];
  used_bytes = 0;
  reserved_bytes = 0;
  tick = 0;
  hits = 0;
  misses = 0;
  loads = 0;
  waits = 0;
  evictions = 0;
}

fresh_is_new : new small ≡ ok fresh
unfolding new
fresh_is_new = refl

-- One caller loads key 7; another one reserves key 9 and is still loading.
abbrev busy : List (Event ℕ (Unit {0}))
busy = requests 7 3 ∷ finishes 7 (ok (1 ∷ 2 ∷ 3 ∷ [])) ∷ requests 9 2 ∷ []

abbrev lease : CacheLease ℕ
lease = record { key = 7; bytes = 1 ∷ 2 ∷ 3 ∷ [] }

busy_holds : get_elem? (run ℕ_discrete small (start fresh) busy).leases 0 ≡ some lease
unfolding run light_bridge_engine.Cache.Leases.check_size light_bridge_engine.Cache.Leases.request
    find light_bridge_engine.Cache.Leases.after_reserve
    light_bridge_engine.Cache.Reserve.reserve_capacity
    light_bridge_engine.Cache.Reserve.reserve_loop light_bridge_engine.Cache.Reserve.reserve_round
    light_bridge_engine.Cache.Reserve.committed light_bridge_engine.Base.checked_add
    light_bridge_engine.Cache.Leases.reserve_entry ℕ_discrete
    light_bridge_engine.Cache.Leases.finish light_bridge_engine.Cache.Leases.commit
    light_bridge_engine.Base.Table.insert light_bridge_engine.Base.checked_sub
busy_holds = refl

small_fits : small.capacity_bytes < word_modulus
small_fits = omega arith

busy_loads : find ℕ_discrete 9 (run ℕ_discrete small (start fresh) busy).loads ≡ some 2
unfolding run find light_bridge_engine.Cache.Leases.check_size
    light_bridge_engine.Cache.Leases.request light_bridge_engine.Cache.Leases.after_reserve
    reserve_capacity light_bridge_engine.Cache.Reserve.reserve_loop
    light_bridge_engine.Cache.Reserve.reserve_round light_bridge_engine.Cache.Reserve.committed
    light_bridge_engine.Base.checked_add light_bridge_engine.Cache.Leases.reserve_entry ℕ_discrete
    finish light_bridge_engine.Cache.Leases.commit light_bridge_engine.Base.Table.insert
    light_bridge_engine.Base.checked_sub
busy_loads = refl

busy_pins : pins_of ℕ_discrete 7 (run ℕ_discrete small (start fresh) busy).leases ≡ 1
unfolding run pins_of light_bridge_engine.Cache.Leases.check_size
    light_bridge_engine.Cache.Leases.request find light_bridge_engine.Cache.Leases.after_reserve
    reserve_capacity light_bridge_engine.Cache.Reserve.reserve_loop
    light_bridge_engine.Cache.Reserve.reserve_round light_bridge_engine.Cache.Reserve.committed
    light_bridge_engine.Base.checked_add light_bridge_engine.Cache.Leases.reserve_entry ℕ_discrete
    finish light_bridge_engine.Cache.Leases.commit light_bridge_engine.Base.Table.insert
    light_bridge_engine.Base.checked_sub
busy_pins = refl

run-bounded_example :
    let y = run ℕ_discrete small (start fresh) busy in
    IsSound ℕ_discrete small y × (y.state.used_bytes + y.state.reserved_bytes ≤ 8)
run-bounded_example = run-bounded ℕ_discrete small fresh small_fits fresh_is_new busy

run-lease_stays_example :
    (pins : ℕ) × (t : ℕ) × (resident : Bool) × (find ℕ_discrete 7
        (run ℕ_discrete small (start fresh) busy).state.entries
      ≡ some (ready (1 ∷ 2 ∷ 3 ∷ []) pins t resident))
    × (0 < pins)
run-lease_stays_example =
    run-lease_stays ℕ_discrete small fresh small_fits fresh_is_new busy 0 lease busy_holds

run-finish_ok_example :
    (finish ℕ_discrete {E = Unit {0}}
      (run ℕ_discrete small (start fresh) busy).state
      9
      2
      (ok (4 ∷ 5 ∷ []))).1
    ≡ ok (record { key = 9; bytes = 4 ∷ 5 ∷ [] })
run-finish_ok_example =
    run-finish_ok ℕ_discrete small fresh small_fits fresh_is_new busy 9 2 (4 ∷ 5 ∷ []) busy_loads
      refl

busy_pins_fit :
    pins_of ℕ_discrete 7 (run ℕ_discrete small (start fresh) busy).leases + 1 < word_modulus
busy_pins_fit = subst (λ n. n + 1 < word_modulus) (sym busy_pins) (omega arith)

run-get_held_example :
    (get ℕ_discrete (run ℕ_discrete small (start fresh) busy).state 7).1 ≡ ok (some lease)
run-get_held_example =
    run-get_held ℕ_discrete small fresh small_fits fresh_is_new busy 0 lease busy_holds
      busy_pins_fit

-- Two entries that nobody uses and one that is pinned.
abbrev full : State ℕ
full = record fresh {
  entries =
      (1, ready (0 ∷ 0 ∷ []) 0 5 true)
      ∷ (2, ready (0 ∷ 0 ∷ 0 ∷ []) 0 4 true)
      ∷ (3, ready (0 ∷ []) 1 3 false)
      ∷ [];
  used_bytes = 6;
}

full-Accounts : Accounts ℕ_discrete full
unfolding find ℕ_discrete
full-Accounts = record { distinct = (refl, (refl, (refl, tt))); used = refl; reserved = refl }

reserve_capacity-Ends_example :
    Evicts ℕ_discrete full (reserve_capacity ℕ_discrete full 8 4).0
    × Ends ℕ_discrete
        (reserve_capacity ℕ_discrete full 8 4).0
        8
        4
        (reserve_capacity ℕ_discrete full 8 4).1
reserve_capacity-Ends_example = reserve_capacity-Ends ℕ_discrete full 8 4 full-Accounts

-- The older one goes, and the newer one stays.
reserve_evicts_the_oldest :
    find ℕ_discrete 2 (reserve_capacity ℕ_discrete full 8 4).0.entries ≡ none
unfolding find reserve_capacity light_bridge_engine.Cache.Reserve.reserve_loop
    light_bridge_engine.Cache.Reserve.reserve_round light_bridge_engine.Cache.Reserve.committed
    light_bridge_engine.Base.checked_add light_bridge_engine.Cache.Reserve.make_room
    light_bridge_engine.Cache.Reserve.oldest ℕ_discrete light_bridge_engine.Base.checked_sub
    light_bridge_engine.Base.Table.erase
reserve_evicts_the_oldest = refl

run-clear_unpinned_example :
    let y = run ℕ_discrete small (start fresh) busy in
    Cleared ℕ_discrete small y.state y.leases y.loads (clear_unpinned ℕ_discrete y.state)
run-clear_unpinned_example = run-clear_unpinned ℕ_discrete small fresh small_fits fresh_is_new busy

full_clears : (clear_unpinned ℕ_discrete full).1 ≡ ok 2
unfolding clear_unpinned find ℕ_discrete light_bridge_engine.Base.checked_sub
    light_bridge_engine.Base.Table.erase
full_clears = refl

full_pinned : (stats small full).pinned_entries ≡ 1
unfolding stats
full_pinned = refl
