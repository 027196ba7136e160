-- ===== src/Kv/Types.antt =====
-- crates/bridge-kv-gqa/src/error.rs, and the data of cache.rs. An f32 is the word of its 32 bits,
-- so `to_bits` and `from_bits` change nothing.
use light_bridge_engine.Base.{
  ℕ, ◌/◌, ◌%◌, ◌^◌, List, Bool, not, Option, String, ◌==◌, Result, ok, err,
}

pub data KvError : Type 0 where
  zero_parameter : String → KvError
  arithmetic_overflow : String → KvError
  -- The field and the elements.
  allocation_failed : String → ℕ → KvError
  -- The layer and the number of layers.
  layer_out_of_range : ℕ → ℕ → KvError
  head_out_of_range : ℕ → ℕ → KvError
  token_out_of_range : ℕ → ℕ → KvError
  -- The field, and the lengths expected and given.
  length_mismatch : String → ℕ → ℕ → KvError
  -- The layer, the tokens stored and added, and the capacity.
  capacity_exhausted : ℕ → ℕ → ℕ → ℕ → KvError
  -- The layer, and the tokens asked for and stored.
  rewind_beyond_stored : ℕ → ℕ → ℕ → KvError
  -- The field, the index and the bits.
  non_finite_value : String → ℕ → ℕ → KvError
  zero_snapshot_limit : KvError
  -- The bytes and the limit.
  snapshot_too_large : ℕ → ℕ → KvError
  -- The offset, and the bytes that are missing.
  snapshot_truncated : ℕ → ℕ → KvError
  snapshot_magic : KvError
  -- The version expected and read.
  snapshot_version : ℕ → ℕ → KvError
  snapshot_checksum : KvError
  snapshot_binding : KvError
  snapshot_configuration : String → ℕ → ℕ → KvError
  snapshot_layer_length : ℕ → ℕ → ℕ → KvError
  snapshot_trailing_bytes : ℕ → KvError

-- A call returns an error, or it panics at an index or a slice that is out of bounds.
pub data Fault : Type 0 where
  refused : KvError → Fault
  panicked : Fault

abbrev pub F32 : Type 0
F32 = ℕ

-- `is_finite`: the eight bits of the exponent are not all ones.
unfoldable pub is_finite : F32 → Bool
is_finite bits = not (bits / 2 ^ 23 % 256 == 255)

pub record KvPage : Type 0 where
  pub keys : List F32
  pub values : List F32

pub record PagedKvCache : Type 0 where
  pub layer_count : ℕ
  pub kv_head_count : ℕ
  pub key_dimension : ℕ
  pub value_dimension : ℕ
  pub page_tokens : ℕ
  pub page_count : ℕ
  pub token_capacity : ℕ
  pub lengths : List ℕ
  pub pages : List (List (Option KvPage))

-- The sizes that a cache is made with, and keeps.
pub record Sizes : Type 0 where
  pub layers : ℕ
  pub heads : ℕ
  pub key_size : ℕ
  pub value_size : ℕ
  pub page_tokens : ℕ
  pub capacity : ℕ

abbrev pub sizes : PagedKvCache → Sizes
sizes c = record {
  layers = c.layer_count;
  heads = c.kv_head_count;
  key_size = c.key_dimension;
  value_size = c.value_dimension;
  page_tokens = c.page_tokens;
  capacity = c.token_capacity;
}

-- The half of a page that a row belongs to.
pub data Part : Type 0 where
  of_keys of_values : Part

abbrev pub rows : Part → KvPage → List F32
rows of_keys p = p.keys
rows of_values p = p.values

abbrev pub with_rows : Part → KvPage → List F32 → KvPage
with_rows of_keys p xs = record p { keys = xs }
with_rows of_values p xs = record p { values = xs }

abbrev pub pick : Part → ℕ → ℕ → ℕ
pick of_keys k v = k
pick of_values k v = v

abbrev pub dimension : Part → PagedKvCache → ℕ
dimension part c = pick part c.key_dimension c.value_dimension

-- A call that may change the cache: the cache after it, and its result.
abbrev pub Outcome : Type 0 → Type 0
Outcome A = PagedKvCache × Result Fault A

abbrev pub after : {A B : Type 0} → Outcome A → (PagedKvCache → A → Outcome B) → Outcome B
after (c, err e) next = (c, err e)
after (c, ok a) next = next c a

abbrev pub refuse : {A : Type 0} → KvError → Result Fault A
refuse e = err (refused e)

abbrev pub overflow : String → Fault
overflow operation = refused (arithmetic_overflow operation)
