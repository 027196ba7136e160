-- ===== src/Kv/Snapshots/Restore.antt =====
-- crates/bridge-kv-gqa/src/cache.rs: how a cache is restored from a snapshot.
use light_bridge_engine.Base.{
  ℕ, zero, suc, ◌-◌, ◌*◌, List, [], ◌∷◌, ◌++◌, Bool, true, false, not, String, leb, ◌==◌,
  if◌then◌else◌, Result, ok, err, ok_or, guard, ◌>>=◌, ◌>>◌, length, take, drop, slice, checked_add,
  checked_mul, get_or,
}
use light_bridge_engine.Base.Bytes.{from_le_bytes, same_bytes}
use light_bridge_engine.Kv.Types.{
  Fault, refused, overflow, zero_snapshot_limit, snapshot_too_large, snapshot_truncated,
  snapshot_magic, snapshot_version, snapshot_checksum, snapshot_binding, snapshot_configuration,
  snapshot_layer_length, snapshot_trailing_bytes, allocation_failed, capacity_exhausted,
  PagedKvCache, Sizes, sizes, F32, Outcome,
}
use light_bridge_engine.Kv.Pages.{zeroed_vec, new_lazy}
use light_bridge_engine.Kv.Rows.{append, copy_row}
use light_bridge_engine.Kv.Snapshots.Export.{
  kv_snapshot_version, kv_snapshot_magic, kv_snapshot_digest_bytes, snapshot_size, configuration,
  snapshot_payload,
}

-- A cursor over the bytes that are hashed.
pub record SnapshotCursor : Type 0 where
  pub bytes : List ℕ
  pub offset : ℕ

abbrev pub Read : Type 0 → Type 0
Read A = Result Fault (A × SnapshotCursor)

unfoldable pub cursor_take : SnapshotCursor → ℕ → Read (List ℕ)
cursor_take cur n = do
  end ← ok_or (checked_add cur.offset n) (overflow "KV snapshot cursor")
  guard (leb end (length cur.bytes))
      (refused (snapshot_truncated cur.offset (end - length cur.bytes)))
  ok (slice cur.offset end cur.bytes, record cur { offset = end })

-- `u32` and `u64`, an integer of so many bytes.
unfoldable pub cursor_word : SnapshotCursor → ℕ → Read ℕ
unfolding cursor_take
cursor_word cur n = do (bytes, cur) ← cursor_take cur n; ok (from_le_bytes bytes, cur)

-- So many floats.
unfoldable pub cursor_lanes : SnapshotCursor → ℕ → Read (List F32)
unfolding cursor_word
cursor_lanes cur zero = ok ([], cur)
cursor_lanes cur (suc n) = do
  (x, cur) ← cursor_word cur 4
  (xs, cur) ← cursor_lanes cur n
  ok (x ∷ xs, cur)

unfoldable pub check_configuration : SnapshotCursor → List (String × ℕ) → Read (Unit {0})
unfolding cursor_word
check_configuration cur [] = ok (tt, cur)
check_configuration cur ((name, expected) ∷ fields) = do
  (actual, cur) ← cursor_word cur 8
  guard (actual == expected) (refused (snapshot_configuration name expected actual))
  check_configuration cur fields

-- The lengths of the layers from one on, with so many left.
unfoldable pub read_lengths : ℕ → SnapshotCursor → ℕ → ℕ → Read (List ℕ)
unfolding cursor_word
read_lengths capacity cur layer zero = ok ([], cur)
read_lengths capacity cur layer (suc left) = do
  (n, cur) ← cursor_word cur 8
  guard (leb n capacity) (refused (capacity_exhausted layer 0 n capacity))
  (rest, cur) ← read_lengths capacity cur (suc layer) left
  ok (n ∷ rest, cur)

-- The first layer whose length is not the one that is expected.
unfoldable pub check_uniform : ℕ → ℕ → List ℕ → Result Fault (Unit {0})
check_uniform expected layer [] = ok tt
check_uniform expected layer (n ∷ lengths) = do
  guard (n == expected) (refused (snapshot_layer_length layer expected n))
  check_uniform expected (suc layer) lengths

-- The floats of a token, head by head, in the two buffers.
unfoldable pub read_heads :
    Sizes → SnapshotCursor → List F32 → List F32 → ℕ → ℕ → Read (List F32 × List F32)
unfolding cursor_lanes copy_row
read_heads d cur keys values head zero = ok ((keys, values), cur)
read_heads d cur keys values head (suc left) = do
  (k, cur) ← cursor_lanes cur d.key_size
  keys' ← copy_row (head * d.key_size) d.key_size k keys
  (v, cur) ← cursor_lanes cur d.value_size
  values' ← copy_row (head * d.value_size) d.value_size v values
  read_heads d cur keys' values' (suc head) left

-- The result of a call on a cache that is under construction.
abbrev pub finished : {A : Type 0} → Outcome A → Result Fault PagedKvCache
finished (c, err e) = err e
finished (c, ok a) = ok c

-- The cache that is restored, the buffers and the cursor.
abbrev pub Restoring : Type 0
Restoring = Read (PagedKvCache × List F32 × List F32)

-- The magic, the version, the binding and the configuration.
unfoldable pub read_header : Sizes → List ℕ → SnapshotCursor → Read (Unit {0})
unfolding cursor_take cursor_word check_configuration
read_header d binding cur = do
  (magic, cur) ← cursor_take cur (length kv_snapshot_magic)
  guard (same_bytes magic kv_snapshot_magic) (refused snapshot_magic)
  (version, cur) ← cursor_word cur 4
  guard (version == kv_snapshot_version) (refused (snapshot_version kv_snapshot_version version))
  (bound, cur) ← cursor_take cur (length binding)
  guard (same_bytes bound binding) (refused snapshot_binding)
  check_configuration cur (configuration d)

module _ (has_room : String → ℕ → Bool) where
  -- The tokens that are left of a layer are appended to the cache that is restored.
  unfoldable pub read_tokens :
      Sizes → PagedKvCache → SnapshotCursor → List F32 → List F32 → ℕ → ℕ → Restoring
  unfolding read_heads append
  read_tokens d restored cur keys values layer zero = ok ((restored, keys, values), cur)
  read_tokens d restored cur keys values layer (suc left) = do
    ((keys', values'), cur') ← read_heads d cur keys values 0 d.heads
    restored' ← finished (append has_room restored layer keys' values')
    read_tokens d restored' cur' keys' values' layer left

  unfoldable pub read_layers :
      Sizes → PagedKvCache → SnapshotCursor → List F32 → List F32 → ℕ → List ℕ → Restoring
  unfolding read_tokens
  read_layers d restored cur keys values layer [] = ok ((restored, keys, values), cur)
  read_layers d restored cur keys values layer (tokens ∷ lengths) = do
    ((restored', keys', values'), cur') ← read_tokens d restored cur keys values layer tokens
    read_layers d restored' cur' keys' values' (suc layer) lengths

  -- The rows of a new cache.
  unfoldable pub read_rows : Sizes → List ℕ → SnapshotCursor → Result Fault PagedKvCache
  unfolding new_lazy zeroed_vec read_layers
  read_rows d lengths cur = do
    restored ← new_lazy has_room d.layers d.heads d.key_size d.value_size d.page_tokens d.capacity
    keys_per_token ← ok_or (checked_mul d.heads d.key_size) (overflow "KV snapshot keys per token")
    values_per_token ←
        ok_or (checked_mul d.heads d.value_size) (overflow "KV snapshot values per token")
    keys ← zeroed_vec has_room keys_per_token "KV snapshot token keys"
    values ← zeroed_vec has_room values_per_token "KV snapshot token values"
    ((restored', keys', values'), cur') ← read_layers d restored cur keys values 0 lengths
    guard (length cur'.bytes - cur'.offset == 0)
        (refused (snapshot_trailing_bytes (length cur'.bytes - cur'.offset)))
    ok restored'

  unfoldable pub read_payload : Sizes → List ℕ → Bool → List ℕ → Result Fault PagedKvCache
  unfolding read_header read_lengths check_uniform read_rows
  read_payload d binding uniform payload = do
    (u, cur) ← read_header d binding (record { bytes = payload; offset = 0 })
    guard (has_room "KV snapshot layer lengths" d.layers)
        (refused (allocation_failed "KV snapshot layer lengths" d.layers))
    (lengths, cur) ← read_lengths d.capacity cur 0 d.layers
    if uniform then check_uniform (get_or lengths 0 0) 0 lengths else ok tt
    read_rows d lengths cur

  module _ (digest : List ℕ → List ℕ) where
    unfoldable pub export_snapshot : PagedKvCache → List ℕ → ℕ → Result Fault (List ℕ)
    unfolding snapshot_size snapshot_payload
    export_snapshot c binding maximum_bytes = do
      guard (not (maximum_bytes == 0)) (refused zero_snapshot_limit)
      size ← snapshot_size c binding
      guard (leb size maximum_bytes) (refused (snapshot_too_large size maximum_bytes))
      guard (has_room "KV snapshot bytes" size)
          (refused (allocation_failed "KV snapshot bytes" size))
      payload ← snapshot_payload c binding
      ok (payload ++ digest payload)

    -- The checks on the whole snapshot, and the bytes that are hashed.
    unfoldable pub verified_payload : List ℕ → ℕ → Result Fault (List ℕ)
    verified_payload bytes maximum_bytes =
        let n = length bytes in
        do
          guard (not (maximum_bytes == 0)) (refused zero_snapshot_limit)
          guard (leb n maximum_bytes) (refused (snapshot_too_large n maximum_bytes))
          guard (leb kv_snapshot_digest_bytes n)
              (refused (snapshot_truncated n (kv_snapshot_digest_bytes - n)))
          let payload = take (n - kv_snapshot_digest_bytes) bytes
          guard (same_bytes (digest payload) (drop (n - kv_snapshot_digest_bytes) bytes))
              (refused snapshot_checksum)
          ok payload

    -- The cache is replaced at the end, if nothing fails.
    unfoldable pub restore_snapshot_internal :
        PagedKvCache → List ℕ → List ℕ → ℕ → Bool → Outcome (Unit {0})
    unfolding verified_payload read_payload
    restore_snapshot_internal c binding bytes maximum_bytes uniform =
        elim (verified_payload bytes maximum_bytes >>= read_payload (sizes c) binding uniform) [
          | err e ↦ (c, err e)
          | ok restored ↦ (restored, ok tt)
        ]

    unfoldable pub restore_snapshot : PagedKvCache → List ℕ → List ℕ → ℕ → Outcome (Unit {0})
    unfolding restore_snapshot_internal
    restore_snapshot c binding bytes maximum_bytes =
        restore_snapshot_internal c binding bytes maximum_bytes false

    unfoldable pub restore_uniform_snapshot :
        PagedKvCache → List ℕ → List ℕ → ℕ → Outcome (Unit {0})
    unfolding restore_snapshot_internal
    restore_uniform_snapshot c binding bytes maximum_bytes =
        restore_snapshot_internal c binding bytes maximum_bytes true
