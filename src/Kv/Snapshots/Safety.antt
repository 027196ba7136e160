-- ===== src/Kv/Snapshots/Safety.antt =====
-- Whatever its bytes are, a snapshot is restored to a valid cache or refused.
use light_bridge_engine.Base.{
  ℕ, zero, suc, ◌-◌, ◌≤◌, ◌<◌, ◌≡◌, refl, sym, ap, ◌∙◌, List, [], ◌∷◌, ◌++◌, Bool, true, false, not,
  if◌then◌else◌, String, ok, err, length, take, drop, arith, leb, ◌==◌, ◌⊎◌, inl, inr, checked_mul,
  checked_mul-some, get_or, get_elem?-some,
}
use light_bridge_engine.Base.{leb→le, append-take-drop}
use light_bridge_engine.Base.Bytes.{same_bytes, same_bytes_iff}
use light_bridge_engine.Kv.Types.{refused, KvError, PagedKvCache, Sizes, sizes, F32}
use light_bridge_engine.Kv.Pages.{length_at, new_lazy}
use light_bridge_engine.Kv.Rows.{append}
use light_bridge_engine.Kv.Views.{CacheIsValid}
use light_bridge_engine.Kv.Appends.{append_tokens-Ends}
use light_bridge_engine.Kv.Fresh.{new-Valid}
use light_bridge_engine.Kv.Snapshots.Export.{kv_snapshot_magic, kv_snapshot_version, configuration}
use light_bridge_engine.Kv.Snapshots.Restore.{
  SnapshotCursor, read_header, finished, read_tokens, read_layers, read_rows, read_payload,
  check_uniform, verified_payload, restore_snapshot_internal,
}
use light_bridge_engine.Kv.Snapshots.Endings.{
  Ends, ended, failed, Any, Ends-cases, Ends-guard, Ends-ok_or, Ends-bind, cursor_take-Ends,
  cursor_word-Ends, check_configuration-Ends, read_lengths-Ends, check_uniform-Ends,
  zeroed_vec-Ends, new-Ends,
}
use light_bridge_engine.Kv.Snapshots.Buffers.{Buffers, read_heads-Ends}

-- A valid cache of these sizes.
abbrev Restored : Sizes → PagedKvCache → Type 0
Restored d r = CacheIsValid r × (sizes r ≡ d)

read_header-Ends :
    (d : Sizes) (binding : List ℕ) (cur : SnapshotCursor) → Ends Any (read_header d binding cur)
unfolding read_header
read_header-Ends d binding cur = Ends-bind _ _ (cursor_take-Ends cur 8) λ (magic, cur) _.
    Ends-guard (same_bytes magic kv_snapshot_magic) _ _ λ _.
      Ends-bind _ _ (cursor_word-Ends cur 4) λ (version, cur) _.
        Ends-guard (version == kv_snapshot_version) _ _ λ _.
          Ends-bind _ _ (cursor_take-Ends cur (length binding)) λ (bound, cur) _.
            Ends-guard (same_bytes bound binding) _ _
              λ _. check_configuration-Ends cur (configuration d)

uniform_check-Ends :
    (uniform : Bool) (lengths : List ℕ)
    → Ends Any (if uniform then check_uniform (get_or lengths 0 0) 0 lengths else ok tt)
uniform_check-Ends true lengths = check_uniform-Ends (get_or lengths 0 0) 0 lengths
uniform_check-Ends false lengths = ended tt tt

module _ (has_room : String → ℕ → Bool) where
  append-Ends :
      (d : Sizes) (c : PagedKvCache) (layer : ℕ) (keys values : List F32)
      → Restored d c
      → Buffers d keys values
      → Ends (Restored d) (finished (append has_room c layer keys values))
  unfolding append length_at
  append-Ends d c layer keys values (valid, same) buffers =
      elim (append_tokens-Ends has_room c layer 1 keys values valid buffers.keys_small
        buffers.values_small) [
          | inl (given, (c', e, added)) ↦
              let inside : layer < length c'.lengths = omega (
                arith,
                given.layer_in,
                added.keeps.counted,
                ap (λ (s : Sizes). s.layers) added.same_sizes,
              ) in
              let (n, here) = get_elem?-some c'.lengths layer inside in
              rw (append, e, length_at, here) (ended c' (added.keeps, added.same_sizes ∙ same))
          | inr (why, e, lacks) ↦ rw (append, e) (failed why)
        ]

  -- The cache and the buffers between two tokens.
  abbrev Between : Sizes → (PagedKvCache × List F32 × List F32) × SnapshotCursor → Type 0
  Between d r = Restored d r.0.0 × Buffers d r.0.1 r.0.2

  read_tokens-Ends :
      (d : Sizes) (c : PagedKvCache) (cur : SnapshotCursor) (keys values : List F32)
      (layer left : ℕ)
      → Restored d c
      → Buffers d keys values
      → Ends (Between d) (read_tokens has_room d c cur keys values layer left)
  unfolding read_tokens
  read_tokens-Ends d c cur keys values layer zero held buffers = ended _ (held, buffers)
  read_tokens-Ends d c cur keys values layer (suc left) held buffers =
      Ends-bind _ _ (read_heads-Ends d cur keys values 0 d.heads (omega arith) buffers)
        λ ((keys', values'), cur') buffers'.
          Ends-bind _ _ (append-Ends d c layer keys' values' held buffers')
            λ c' held'. read_tokens-Ends d c' cur' keys' values' layer left held' buffers'

  read_layers-Ends :
      (d : Sizes) (c : PagedKvCache) (cur : SnapshotCursor) (keys values : List F32) (layer : ℕ)
      (lengths : List ℕ)
      → Restored d c
      → Buffers d keys values
      → Ends (Between d) (read_layers has_room d c cur keys values layer lengths)
  unfolding read_layers
  read_layers-Ends d c cur keys values layer [] held buffers = ended _ (held, buffers)
  read_layers-Ends d c cur keys values layer (tokens ∷ lengths) held buffers =
      Ends-bind _ _ (read_tokens-Ends d c cur keys values layer tokens held buffers)
        λ ((c', keys', values'), cur') (held', buffers').
          read_layers-Ends d c' cur' keys' values' (suc layer) lengths held' buffers'

  new_lazy-Ends :
      (d : Sizes)
      → Ends
          (Restored d)
          (new_lazy has_room d.layers d.heads d.key_size d.value_size d.page_tokens d.capacity)
  unfolding new_lazy
  new_lazy-Ends d =
      elim (Ends-cases (
        new-Ends has_room d.layers d.heads d.key_size d.value_size d.page_tokens d.capacity
          false)) [
            | inl (c, e, _) ↦
                let (valid, empty, same) =
                  new-Valid has_room d.layers d.heads d.key_size d.value_size d.page_tokens
                    d.capacity false c e in
                rw (new_lazy, e) (ended c (valid, same))
            | inr (why, e) ↦ rw (new_lazy, e) (failed why)
          ]

  read_rows-Ends :
      (d : Sizes) (lengths : List ℕ) (cur : SnapshotCursor)
      → Ends (Restored d) (read_rows has_room d lengths cur)
  unfolding read_rows
  read_rows-Ends d lengths cur = Ends-bind _ _ (new_lazy-Ends d) λ c held.
      Ends-ok_or (checked_mul d.heads d.key_size) _ _ λ ks k_eq.
        Ends-ok_or (checked_mul d.heads d.value_size) _ _ λ vs v_eq.
          Ends-bind _ _ (zeroed_vec-Ends has_room ks "KV snapshot token keys") λ keys k_size.
            Ends-bind _ _ (zeroed_vec-Ends has_room vs "KV snapshot token values") λ values v_size.
              let (ks_eq, ks_small) = checked_mul-some _ _ ks k_eq in
              let (vs_eq, vs_small) = checked_mul-some _ _ vs v_eq in
              let buffers : Buffers d keys values = record {
                keys_whole = k_size ∙ ks_eq;
                values_whole = v_size ∙ vs_eq;
                keys_small = omega (arith, k_size);
                values_small = omega (arith, v_size);
              } in
              Ends-bind _ _ (read_layers-Ends d c cur keys values 0 lengths held buffers)
                λ ((c', keys', values'), cur') (held', buffers').
                  Ends-guard (length cur'.bytes - cur'.offset == 0) _ _ λ _. ended c' held'

  read_payload-Ends :
      (d : Sizes) (binding : List ℕ) (uniform : Bool) (payload : List ℕ)
      → Ends (Restored d) (read_payload has_room d binding uniform payload)
  unfolding read_payload
  read_payload-Ends d binding uniform payload =
      Ends-bind _ _ (read_header-Ends d binding (record { bytes = payload; offset = 0 }))
        λ (u, cur) _. Ends-guard (has_room "KV snapshot layer lengths" d.layers) _ _ λ _.
          Ends-bind _ _ (read_lengths-Ends d.capacity cur 0 d.layers) λ (lengths, cur) _.
            Ends-bind _ _ (uniform_check-Ends uniform lengths) λ _ _. read_rows-Ends d lengths cur

  module _ (digest : List ℕ → List ℕ) where
    verified_payload-Ends :
        (bytes : List ℕ) (limit : ℕ)
        → Ends
            (λ payload. (bytes ≡ payload ++ digest payload) × (length bytes ≤ limit))
            (verified_payload has_room digest bytes limit)
    unfolding verified_payload
    verified_payload-Ends bytes limit =
        let n : ℕ = length bytes in
        let payload : List ℕ = take (n - 32) bytes in
        Ends-guard (not (limit == 0)) _ _ λ _. Ends-guard (leb n limit) _ _ λ fits.
          Ends-guard (leb 32 n) _ _ λ _.
            Ends-guard (same_bytes (digest payload) (drop (n - 32) bytes)) _ _ λ same.
              ended payload (
                sym (append-take-drop (n - 32) bytes)
                    ∙ ap (◌++◌ payload) (sym ((same_bytes_iff _ _).0 same)),
                leb→le _ _ fits,
              )

    -- A restore of any bytes replaces the cache by a valid one of the same sizes, and then the bytes
    -- are within the limit and end with the digest of the others, or it is refused and nothing
    -- changes. It never panics.
    pub restore_snapshot_internal-Ends :
        (c : PagedKvCache) (binding bytes : List ℕ) (limit : ℕ) (uniform : Bool)
        → ((restored : PagedKvCache) × (restore_snapshot_internal has_room digest c binding bytes
                limit uniform
              ≡ (restored, ok tt))
            × CacheIsValid restored
            × (sizes restored ≡ sizes c)
            × (length bytes ≤ limit)
            × (payload : List ℕ) × (bytes ≡ payload ++ digest payload))
          ⊎ ((e : KvError) × (restore_snapshot_internal has_room digest c binding bytes limit
                  uniform
                ≡ (c, err (refused e))))
    unfolding restore_snapshot_internal
    restore_snapshot_internal-Ends c binding bytes limit uniform =
        elim (Ends-cases (verified_payload-Ends bytes limit)) [
          | inr (why, e) ↦ inr (why, rw (restore_snapshot_internal, e) refl)
          | inl (payload, e, (whole, fits)) ↦
              elim (Ends-cases (read_payload-Ends (sizes c) binding uniform payload)) [
                | inr (why, read) ↦ inr (why, rw (restore_snapshot_internal, e, read) refl)
                | inl (restored, read, (valid, same)) ↦ inl (
                  restored,
                  rw (restore_snapshot_internal, e, read) refl,
                  valid,
                  same,
                  fits,
                  payload,
                  whole,
                )
              ]
        ]
