-- ===== src/Cache/Types.antt =====
-- crates/bridge-cache/src/lib.rs: the configuration, the entries, the state behind the mutex and
-- the errors. A `HashMap` is a list of pairs in its order of iteration; `Arc<[u8]>` is its bytes.
use light_bridge_engine.Base.{ℕ, List, [], Bool, ◌==◌, if◌then◌else◌, Result, ok, err, ◌>>◌}

pub record CacheConfig : Type 0 where
  pub capacity_bytes : ℕ
  pub admit_after_requests : ℕ

pub data CacheError : Type 0 where
  zero_capacity zero_admission_threshold empty_entry : CacheError
  -- The size that was asked for, and the capacity.
  entry_too_large : ℕ → ℕ → CacheError
  capacity_pinned : ℕ → CacheError
  -- The expected and the actual size.
  loaded_size_mismatch : ℕ → ℕ → CacheError
  reservation_lost poisoned arithmetic_overflow : CacheError

-- `LoadError<E>`.
pub data LoadError (E : Type 0) : Type 0 where
  loader : E → LoadError E
  cache : CacheError → LoadError E

pub data Entry : Type 0 where
  -- The expected bytes, and whether the entry stays when its last lease is dropped.
  loading : ℕ → Bool → Entry
  -- The bytes, the pins, the tick of the last use, and whether the entry stays.
  ready : List ℕ → ℕ → ℕ → Bool → Entry

pub record State (K : Type 0) : Type 0 where
  pub entries : List (K × Entry)
  pub heat : List (K × ℕ)
  pub used_bytes : ℕ
  pub reserved_bytes : ℕ
  pub tick : ℕ
  pub hits : ℕ
  pub misses : ℕ
  pub loads : ℕ
  pub waits : ℕ
  pub evictions : ℕ

-- A lease on the bytes of a key; dropping it releases its pin.
pub record CacheLease (K : Type 0) : Type 0 where
  pub key : K
  pub bytes : List ℕ

pub record CacheStats : Type 0 where
  pub capacity_bytes : ℕ
  pub used_bytes : ℕ
  pub reserved_bytes : ℕ
  pub resident_entries : ℕ
  pub pinned_entries : ℕ
  pub loading_entries : ℕ
  pub heat_entries : ℕ
  pub hits : ℕ
  pub misses : ℕ
  pub loads : ℕ
  pub waits : ℕ
  pub evictions : ℕ

unfoldable pub validate : CacheConfig → Result CacheError (Unit {0})
validate c =
    if c.capacity_bytes == 0
    then err zero_capacity
    else (if c.admit_after_requests == 0 then err zero_admission_threshold else ok tt)

unfoldable pub new : {K : Type 0} → CacheConfig → Result CacheError (State K)
unfolding validate
new c = do
  validate c
  ok (record {
    entries = [];
    heat = [];
    used_bytes = 0;
    reserved_bytes = 0;
    tick = 0;
    hits = 0;
    misses = 0;
    loads = 0;
    waits = 0;
    evictions = 0;
  })
