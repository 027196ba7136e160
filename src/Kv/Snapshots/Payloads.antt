-- ===== src/Kv/Snapshots/Payloads.antt =====
-- What was exported is read back.
use light_bridge_engine.Base.{
  ℕ, suc, ◌-◌, ◌*◌, ◌≤◌, ◌<◌, ◌≡◌, refl, sym, ap, ◌∙◌, subst, List, [], ◌∷◌, ◌++◌, Bool, true,
  false, some, String, ok, length, get_elem?, arith, get_elem?-lt, get_elem?-some, word_modulus,
  replicate, length-replicate, All,
}
use light_bridge_engine.Base.{append-nil, length-drop, checked_mul-fits}
use light_bridge_engine.Base.Bytes.{to_le_bytes, same_bytes, same_bytes_iff}
use light_bridge_engine.Kv.Types.{PagedKvCache, Sizes, sizes, of_keys}
use light_bridge_engine.Kv.Pages.{new_lazy, zeroed_vec}
use light_bridge_engine.Kv.Views.{CacheIsValid, per_token}
use light_bridge_engine.Kv.Fresh.{new-Valid, ok_inj}
use light_bridge_engine.Kv.Lazy.{new_lazy-ok}
use light_bridge_engine.Kv.Snapshots.Cursors.{
  At, ReadsTo, take-At, word-At, configuration-At, lengths-At,
}
use light_bridge_engine.Kv.Snapshots.Progress.{Filled, AreRows}
use light_bridge_engine.Kv.Snapshots.Layers.{layers_stream, layers-At}
use light_bridge_engine.Kv.Snapshots.Exports.{payload_lem}
use light_bridge_engine.Kv.Snapshots.Restore.{
  SnapshotCursor, read_header, read_lengths, read_rows, read_payload,
}
use light_bridge_engine.Kv.Snapshots.Export.{
  configuration, configured, encode_words, kv_snapshot_magic, kv_snapshot_version, snapshot_payload,
}

pub same_bytes_refl : (xs : List ℕ) → same_bytes xs xs ≡ true
same_bytes_refl xs = (same_bytes_iff xs xs).1 refl

-- The header is read back.
header-At :
    (d : Sizes) (binding : List ℕ) (cur : SnapshotCursor) (rest : List ℕ)
    → All (λ (f : String × ℕ). f.1 < word_modulus) (configuration d)
    → At cur (
        kv_snapshot_magic
        ++ (to_le_bytes 4 kv_snapshot_version
            ++ (binding ++ (encode_words (configured d) ++ rest))))
    → ReadsTo (read_header d binding cur) tt rest
unfolding read_header
header-At d binding cur rest small at =
    let after_binding : List ℕ = encode_words (configured d) ++ rest in
    let after_version : List ℕ = binding ++ after_binding in
    let (c1, magic, at1) =
      take-At cur 8 kv_snapshot_magic (to_le_bytes 4 kv_snapshot_version ++ after_version) refl
        at in
    let (c2, version, at2) = word-At c1 4 kv_snapshot_version after_version (omega arith) at1 in
    let (c3, bound, at3) = take-At c2 (length binding) binding after_binding refl at2 in
    let (end, rest_read, at4) = configuration-At c3 (configuration d) rest small at3 in
    (
      end,
      rw (magic, same_bytes_refl kv_snapshot_magic, version, bound, same_bytes_refl binding)
          rest_read,
      at4,
    )

factor-lt : (m n : ℕ) {w : ℕ} → 0 < n → m * n < w → m < w
factor-lt m n h k = grind arith

other_factor-lt : (m n : ℕ) {w : ℕ} → 0 < m → m * n < w → n < w
other_factor-lt m n h k = grind arith

module _ (has_room : String → ℕ → Bool) (grants : (name : String) (n : ℕ) → has_room name n ≡ true)
    (c : PagedKvCache) (valid : CacheIsValid c) (are : AreRows c) where
  zeroed-ok : (n : ℕ) (name : String) → zeroed_vec has_room n name ≡ ok (replicate n 0)
  unfolding zeroed_vec
  zeroed-ok n name = rw (grants name n) refl

  start-Filled :
      (r : PagedKvCache)
      → new_lazy has_room c.layer_count c.kv_head_count c.key_dimension c.value_dimension
          c.page_tokens c.token_capacity
        ≡ ok r
      → Filled c 0 0 r
  unfolding new_lazy
  start-Filled r made =
      let (fresh, empty, same) =
        new-Valid has_room c.layer_count c.kv_head_count c.key_dimension c.value_dimension
          c.page_tokens c.token_capacity false r made in
      record {
        valid = fresh;
        same = same;
        earlier = λ i h. absurd (omega arith);
        so_far = empty 0;
        rows_so_far = λ part.
            let a : 0 * per_token part r ≡ 0 = omega arith in
            let b : 0 * per_token part c ≡ 0 = omega arith in rw (empty 0, a, b) refl;
        later = λ i h. empty i;
      }

  -- The rows are read back, all of them.
  rows-read :
      (cur : SnapshotCursor)
      → c.kv_head_count * c.key_dimension < word_modulus
      → c.kv_head_count * c.value_dimension < word_modulus
      → At cur (layers_stream c 0 c.lengths)
      → (r : PagedKvCache) × (read_rows has_room (sizes c) c.lengths cur ≡ ok r)
        × Filled c c.layer_count 0 r
  unfolding read_rows
  rows-read cur k_small v_small at =
      let (r0, made) = new_lazy-ok has_room grants c valid in
      let k : ℕ = c.kv_head_count * c.key_dimension in
      let v : ℕ = c.kv_head_count * c.value_dimension in
      let (r, keys, values, (cur', done, at'), filled) =
        layers-At has_room grants c valid are r0 cur (replicate k 0) (replicate v 0) 0 c.lengths []
          refl (omega (arith, valid.counted)) (start-Filled r0 made) (length-replicate k 0)
          (length-replicate v 0)
          (subst (At cur) (sym (append-nil (layers_stream c 0 c.lengths))) at) in
      let over : length cur'.bytes - cur'.offset ≡ 0 =
        sym (length-drop cur'.offset cur'.bytes) ∙ ap length at'.0 in
      (
        r,
        rw
            (
              made,
              checked_mul-fits c.kv_head_count c.key_dimension k_small,
              checked_mul-fits c.kv_head_count c.value_dimension v_small,
              zeroed-ok k "KV snapshot token keys",
              zeroed-ok v "KV snapshot token values",
              done,
              over,
            )
            refl,
        filled,
      )

  -- The lengths of the layers fit the capacity.
  lengths_fit :
      (xs : List ℕ)
      → ((i n : ℕ) → get_elem? xs i ≡ some n → n ≤ c.token_capacity)
      → All (λ n. n ≤ c.token_capacity) xs
  lengths_fit [] h = tt
  lengths_fit (x ∷ xs) h = (h 0 x refl, lengths_fit xs (λ i n e. h (suc i) n e))

  stored_fit : All (λ n. n ≤ c.token_capacity) c.lengths
  stored_fit = lengths_fit c.lengths (λ i n here.
      let (table, there) =
        get_elem?-some c.pages i
          (omega (arith, get_elem?-lt c.lengths i n here, valid.counted, valid.tabled)) in
      (valid.tables i n table here there).0)

  abbrev ExportFits : Type 0
  ExportFits =
      (c.layer_count < word_modulus)
      × (c.kv_head_count * c.key_dimension < word_modulus)
      × (c.kv_head_count * c.value_dimension < word_modulus)

  configuration_fits :
      ExportFits → All (λ (f : String × ℕ). f.1 < word_modulus) (configuration (sizes c))
  configuration_fits (layers, keys, values) =
      let (ls_pos, hs_pos, cap_pos) = valid.not_empty in
      let rounds = valid.rounds in
      let k_pos : 0 < c.key_dimension = valid.positive of_keys in
      let heads : c.kv_head_count < word_modulus =
        factor-lt c.kv_head_count c.key_dimension k_pos keys in
      let k : c.key_dimension < word_modulus =
        other_factor-lt c.kv_head_count c.key_dimension hs_pos keys in
      let v : c.value_dimension < word_modulus =
        other_factor-lt c.kv_head_count c.value_dimension hs_pos values in
      (layers, (heads, (k, (v, (omega arith, (valid.small, tt))))))

  -- The payload of an export is read back as a cache that is filled to the end.
  pub payload-read :
      (binding payload : List ℕ)
      → ExportFits
      → snapshot_payload c binding ≡ ok payload
      → length payload < word_modulus
      → (r : PagedKvCache) × (read_payload has_room (sizes c) binding false payload ≡ ok r)
        × Filled c c.layer_count 0 r
  unfolding read_payload
  payload-read binding payload fits exported small =
      let lengths_rest : List ℕ = encode_words c.lengths ++ layers_stream c 0 c.lengths in
      let bytes_eq = ok_inj (sym (payload_lem c valid binding) ∙ exported) in
      let (c1, header, at1) =
        header-At (sizes c) binding (record { bytes = payload; offset = 0 }) lengths_rest
          (configuration_fits fits) (sym bytes_eq, omega arith, small) in
      let (c2, lengths, at2) =
        lengths-At c.token_capacity c1 0 c.lengths (layers_stream c 0 c.lengths) valid.small
          stored_fit at1 in
      let lengths' : read_lengths c.token_capacity c1 0 c.layer_count ≡ ok (c.lengths, c2) =
        rw valid.counted at lengths in
      let (r, rows, filled) = rows-read c2 fits.1 fits.2 at2 in
      (
        r,
        rw (header, grants "KV snapshot layer lengths" c.layer_count, lengths', rows) refl,
        filled,
      )
