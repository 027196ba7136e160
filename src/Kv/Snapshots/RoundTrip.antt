-- ===== src/Kv/Snapshots/RoundTrip.antt =====
-- A snapshot restores the rows that were exported.
use light_bridge_engine.Base.{
  ℕ, ◌+◌, ◌-◌, ◌*◌, ◌≤◌, ◌<◌, ◌≡◌, refl, sym, ap, ◌∙◌, subst, List, ◌++◌, Bool, true, false, not,
  some, String, ok, length, arith, word_modulus, inl, inr, >>=-eq-ok, guard-then, ok_or-then, leb,
  ◌==◌,
}
use light_bridge_engine.Base.{
  length-append, checked_mul, checked_mul-some, checked_add, checked_add-some, take-length-append,
  drop-length-append, le→leb, Option-cases,
}
use light_bridge_engine.Kv.Types.{
  refused, zero_snapshot_limit, snapshot_too_large, allocation_failed, PagedKvCache, sizes,
}
use light_bridge_engine.Kv.Views.{CacheIsValid}
use light_bridge_engine.Kv.Fresh.{ok_inj}
use light_bridge_engine.Kv.Snapshots.Progress.{AreRows}
use light_bridge_engine.Kv.Histories.{Agree, contents}
use light_bridge_engine.Kv.Snapshots.Restore.{
  read_payload, verified_payload, export_snapshot, restore_snapshot, restore_snapshot_internal,
}
use light_bridge_engine.Kv.Snapshots.Export.{
  kv_snapshot_digest_bytes, snapshot_size, snapshot_payload, header_size,
}
use light_bridge_engine.Kv.Snapshots.Payloads.{same_bytes_refl, payload-read}

header_size-fits :
    (layers : ℕ) (binding : List ℕ) (n : ℕ)
    → header_size layers binding ≡ some n
    → layers < word_modulus
unfolding header_size
header_size-fits layers binding n h = elim (Option-cases (checked_mul layers 8)) [
  | inl e ↦ absurd (ground arith)
  | inr (m, e) ↦ omega (arith, checked_mul-some layers 8 m e)
]

snapshot_size-fits :
    (c : PagedKvCache) (binding : List ℕ) (size : ℕ)
    → snapshot_size c binding ≡ ok size
    → (c.layer_count < word_modulus)
      × (c.kv_head_count * c.key_dimension < word_modulus)
      × (c.kv_head_count * c.value_dimension < word_modulus)
unfolding snapshot_size
snapshot_size-fits c binding size h =
    let (header, he, h1) = ok_or-then (header_size c.layer_count binding) _ _ h in
    let (dims, de, h2) = ok_or-then (checked_add c.key_dimension c.value_dimension) _ _ h1 in
    let (per, pe, _) = ok_or-then (checked_mul c.kv_head_count dims) _ _ h2 in
    let (dims_eq, _) = checked_add-some _ _ dims de in
    let (per_eq, per_small) = checked_mul-some _ _ per pe in
    let spread : c.kv_head_count * (c.key_dimension + c.value_dimension)
        ≡ c.kv_head_count * c.key_dimension + c.kv_head_count * c.value_dimension =
      grind arith in
    let all : c.kv_head_count * (c.key_dimension + c.value_dimension) < word_modulus =
      rw (← dims_eq, ← per_eq) per_small in
    (header_size-fits c.layer_count binding header he, omega arith, omega arith)

module _ (digest : List ℕ → List ℕ)
    (digest_size : (xs : List ℕ) → length (digest xs) ≡ kv_snapshot_digest_bytes) where
  -- The checks on a whole snapshot pass on what was exported.
  verified-lem :
      (payload : List ℕ) (maximum_bytes : ℕ)
      → 0 < maximum_bytes
      → length (payload ++ digest payload) ≤ maximum_bytes
      → (has_room : String → ℕ → Bool)
      → verified_payload has_room digest (payload ++ digest payload) maximum_bytes ≡ ok payload
  unfolding verified_payload
  verified-lem payload maximum_bytes pos fits has_room =
      let n : ℕ = length (payload ++ digest payload) in
      let whole : n ≡ length payload + 32 =
        length-append payload (digest payload) ∙ omega (arith, digest_size payload) in
      let cut : n - 32 ≡ length payload = omega arith in
      let some_limit : (maximum_bytes == 0) ≡ false = ground arith in
      let small : leb n maximum_bytes ≡ true = le→leb _ _ fits in
      let long : leb 32 n ≡ true = le→leb _ _ (omega arith) in
      rw
        (
          some_limit,
          small,
          long,
          cut,
          take-length-append payload (digest payload),
          drop-length-append payload (digest payload),
          same_bytes_refl (digest payload),
        )
        refl

  restored_lem :
      (has_room : String → ℕ → Bool) (target : PagedKvCache) (binding bytes payload : List ℕ)
      (limit : ℕ) (r : PagedKvCache)
      → verified_payload has_room digest bytes limit ≡ ok payload
      → read_payload has_room (sizes target) binding false payload ≡ ok r
      → restore_snapshot has_room digest target binding bytes limit ≡ (r, ok tt)
  unfolding restore_snapshot restore_snapshot_internal
  restored_lem has_room target binding bytes payload limit r verified read =
      rw (restore_snapshot, restore_snapshot_internal, verified, read) refl

  -- A snapshot that was exported from a valid cache, whose rows are finite words of 32 bits, restores
  -- the tokens and the rows of every layer into any cache of the same sizes, where the allocator
  -- grants every request, the snapshot is within the limit and shorter than a word counts, and the
  -- digest has 32 bytes.
  pub restore-export :
      (had_room has_room : String → ℕ → Bool) (c target : PagedKvCache) (binding bytes : List ℕ)
      (export_limit restore_limit : ℕ)
      → ((name : String) (n : ℕ) → has_room name n ≡ true)
      → CacheIsValid c
      → AreRows c
      → sizes target ≡ sizes c
      → export_snapshot had_room digest c binding export_limit ≡ ok bytes
      → length bytes < word_modulus
      → 0 < restore_limit
      → length bytes ≤ restore_limit
      → (restored : PagedKvCache) × (restore_snapshot has_room digest target binding bytes
            restore_limit
          ≡ (restored, ok tt))
        × CacheIsValid restored
        × (sizes restored ≡ sizes c)
        × Agree (sizes c) (contents restored) (contents c)
  unfolding export_snapshot
  restore-export had_room has_room c target binding bytes export_limit restore_limit grants valid
        are same exported small pos fits =
      let (_, h1) = guard-then (not (export_limit == 0)) (refused zero_snapshot_limit) _ exported in
      let (size, se, h2) = >>=-eq-ok (snapshot_size c binding) _ h1 in
      let (_, h3) =
        guard-then (leb size export_limit) (refused (snapshot_too_large size export_limit)) _ h2 in
      let (_, h4) =
        guard-then (had_room "KV snapshot bytes" size)
          (refused (allocation_failed "KV snapshot bytes" size)) _ h3 in
      let (payload, pe, h5) = >>=-eq-ok (snapshot_payload c binding) _ h4 in
      let bytes_eq : payload ++ digest payload ≡ bytes = ok_inj h5 in
      let shorter : length payload < word_modulus =
        omega (arith, ap length bytes_eq, length-append payload (digest payload)) in
      let (r, read, filled) =
        payload-read has_room grants c valid are binding payload
          (snapshot_size-fits c binding size se) pe shorter in
      let fits' : length (payload ++ digest payload) ≤ restore_limit = rw bytes_eq fits in
      let verified : verified_payload has_room digest bytes restore_limit ≡ ok payload =
        rw bytes_eq at (verified-lem payload restore_limit pos fits' has_room) in
      (
        r,
        restored_lem has_room target binding bytes payload restore_limit r verified
            (subst (λ d. read_payload has_room d binding false payload ≡ ok r) (sym same) read),
        filled.valid,
        filled.same,
        λ layer inside.
            ((filled.earlier layer inside).0, λ part. (filled.earlier layer inside).1 part),
      )
