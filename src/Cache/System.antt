-- ===== src/Cache/System.antt =====
-- The cache with its callers: the state behind the mutex, the leases that callers hold, and the
-- loads in flight. An event is one critical section, so a list of events is an interleaving of any
-- number of callers, and a loader may take any time between its two sections.
pub mod Pins
pub mod Invariant
pub mod Guarantees
pub mod Steps
pub mod Drops
pub mod Clears
pub mod Loads
use light_bridge_engine.Base.{
  ℕ, zero, suc, List, [], ◌∷◌, Option, none, some, Result, ok, err, get_elem?,
}
use light_bridge_engine.Base.Table.{find, insert, erase}
use light_bridge_engine.Cache.Types.{State, CacheConfig, CacheLease, CacheError, LoadError}
use light_bridge_engine.Cache.Clear.{clear_unpinned}
use light_bridge_engine.Cache.Leases.{
  Request, hit, wait, reserve, check_size, get, request, finish, release,
}

pub record Sys (K : Type 0) : Type 0 where
  pub state : State K
  pub leases : List (CacheLease K)
  -- The keys with a loader at work, and the bytes that each is to bring.
  pub loads : List (K × ℕ)

pub data Event (K E : Type 0) : Type 0 where
  gets : K → Event K E
  requests : K → ℕ → Event K E
  -- The loader of the key returns.
  finishes : K → Result E (List ℕ) → Event K E
  -- The lease at the position is dropped.
  drops : ℕ → Event K E
  clears : Event K E

-- The list without its element at the position.
pub remove_at {ℓ} : {A : Type ℓ} → ℕ → List A → List A
remove_at i [] = []
remove_at zero (x ∷ xs) = xs
remove_at (suc i) (x ∷ xs) = x ∷ remove_at i xs

module _ {K : Type 0} where
  pub after_get : Sys K → State K × Result CacheError (Option (CacheLease K)) → Sys K
  after_get y (s, ok (some lease)) = record y { state = s; leases = lease ∷ y.leases }
  after_get y (s, ok none) = record y { state = s }
  after_get y (s, err e) = record y { state = s }

  pub after_request : Sys K → K → ℕ → State K × Result CacheError (Request K) → Sys K
  after_request y key expected (s, ok (hit lease)) = record y {
    state = s;
    leases = lease ∷ y.leases;
  }
  after_request y key expected (s, ok wait) = record y { state = s }
  after_request y key expected (s, ok reserve) = record y {
    state = s;
    loads = (key, expected) ∷ y.loads;
  }
  after_request y key expected (s, err e) = record y { state = s }

module _ {K : Type 0} (dec : Discrete K) where
  pub drop_lease : Sys K → ℕ → Option (CacheLease K) → Sys K
  unfolding remove_at
  drop_lease y i none = y
  drop_lease y i (some lease) = record y {
    state = release dec y.state lease.key;
    leases = remove_at i y.leases;
  }

module _ {K E : Type 0} (dec : Discrete K) where
  pub after_finish : Sys K → K → State K × Result (LoadError E) (CacheLease K) → Sys K
  after_finish y key (s, ok lease) = record {
    state = s;
    leases = lease ∷ y.leases;
    loads = erase dec key y.loads;
  }
  after_finish y key (s, err e) = record y { state = s; loads = erase dec key y.loads }

  pub finish_load : Sys K → K → Result E (List ℕ) → Option ℕ → Sys K
  unfolding after_finish
  finish_load y key loaded none = y
  finish_load y key loaded (some expected) =
      after_finish y key (finish dec y.state key expected loaded)

  unfoldable pub step : CacheConfig → Sys K → Event K E → Sys K
  unfolding after_get after_request finish_load drop_lease
  step c y (gets key) = after_get y (get dec y.state key)
  step c y (requests key expected) = elim (check_size c expected) [
    | ok _ ↦ after_request y key expected (request dec c y.state key expected)
    | err e ↦ y
  ]
  step c y (finishes key loaded) = finish_load y key loaded (find dec key y.loads)
  step c y (drops i) = drop_lease dec y i (get_elem? y.leases i)
  step c y clears = record y { state = (clear_unpinned dec y.state).0 }

  unfoldable pub run : CacheConfig → Sys K → List (Event K E) → Sys K
  unfolding step
  run c y [] = y
  run c y (e ∷ es) = run c (step c y e) es
