-- ===== src/Sidecar/Hash/Verified.antt =====
-- What a verified sidecar is, and that the verification ends.
use light_bridge_engine.Base.{
  ℕ, zero, suc, ◌+◌, ◌-◌, ◌≤◌, ◌≡◌, refl, sym, ap, ◌∙◌, subst, min, List, [], ◌++◌, Bool, false,
  none, some, ltb, Result, ok, err, checked_add, checked_add-some, take, slice, take_add, arith,
  Bool-cases, Option-cases, inl, inr,
}
use light_bridge_engine.Base.Bytes.{same_bytes, same_bytes_iff}
use light_bridge_engine.Io.{Filled, read_exact_at}
use light_bridge_engine.Io.Exact.{Serves, read_exact_at-exact}
use light_bridge_engine.Sidecar.Reader.{Sidecar}
use light_bridge_engine.Sidecar.Hash.{
  Hasher, chunk_size, Verdict, after_chunk, compare_hash, hash_chunks, verify_data_hash,
}

-- What the hasher promises: adding nothing changes nothing, and adding two runs of bytes is adding
-- the one that they make.
abbrev pub Appends : {H : Type 0} → Hasher H → Type 0
Appends {H} sha =
    ((h : H) → sha.update h [] ≡ h)
    × ((h : H) (xs ys : List ℕ) → sha.update (sha.update h xs) ys ≡ sha.update h (xs ++ ys))

module _ {W E H : Type 0} (J : Type 0) (is_cancelled : W → W × Bool)
    (read_at_once : W → ℕ → ℕ → W × Result E (List ℕ)) (has_room : ℕ → Bool) (sha : Hasher H)
    (s : Sidecar) where
  module _ (content : List ℕ) (serves : Serves is_cancelled read_at_once content)
      (appends : Appends sha) where
    -- An accepted verdict is on the hash of the file's bytes.
    abbrev Honest : Verdict W E J → Type 0
    Honest none = Unit
    Honest (some (w, err e)) = Unit
    Honest (some (w, ok _)) =
        sha.hex (sha.update sha.new (take s.contents.file_length content))
        ≡ s.manifest.sidecar.sha256

    abbrev Begun : ℕ → H → Type 0
    Begun offset h =
        (offset ≤ s.contents.file_length) × (h ≡ sha.update sha.new (take offset content))

    compare_hash-Honest :
        (offset : ℕ) (h : H) (w : W)
        → Begun offset h
        → ltb offset s.contents.file_length ≡ false
        → Honest (compare_hash sha s h w)
    unfolding compare_hash
    compare_hash-Honest offset h w (low, begun) full =
        let size : offset ≡ s.contents.file_length = ground arith in
        elim (Bool-cases (same_bytes (sha.hex h) s.manifest.sidecar.sha256)) [
          | inr other ↦ rw (compare_hash, other) tt
          | inl same ↦
              let equal = (same_bytes_iff (sha.hex h) s.manifest.sidecar.sha256).0 same in
              rw (compare_hash, same)
                (sym (ap sha.hex (subst (λ n. h ≡ sha.update sha.new (take n content)) size begun))
                  ∙ equal)
        ]

    after_chunk-Honest :
        (next : List ℕ → W → Verdict W E J) (offset end : ℕ) (w : W) (out : Filled W E)
        → read_exact_at is_cancelled read_at_once has_room s.contents offset end w ≡ out
        → ((bytes : List ℕ) (v : W) → bytes ≡ slice offset end content → Honest (next bytes v))
        → Honest (after_chunk next out)
    unfolding after_chunk
    after_chunk-Honest next offset end w none e rest = tt
    after_chunk-Honest next offset end w (some (v, err x)) e rest = tt
    after_chunk-Honest next offset end w (some (v, ok bytes)) e rest =
        rest bytes v
          (read_exact_at-exact is_cancelled read_at_once content serves has_room s.contents offset
            end w v bytes e).0

    Begun-more :
        (offset end n : ℕ) (h : H) (bytes : List ℕ)
        → Begun offset h
        → end ≡ offset + n
        → n ≤ s.contents.file_length - offset
        → bytes ≡ slice offset end content
        → Begun end (sha.update h bytes)
    Begun-more offset end n h bytes (low, begun) e fits run =
        let size : end - offset ≡ n = omega arith in
        (omega arith, rw (begun, run, appends.1, size, e, take_add offset n content) refl)

    hash_chunks-Honest :
        (fuel offset : ℕ) (h : H) (w : W)
        → Begun offset h
        → Honest (hash_chunks is_cancelled read_at_once has_room sha s fuel offset h w)
    unfolding hash_chunks
    hash_chunks-Honest zero offset h w begun =
        elim (Bool-cases (ltb offset s.contents.file_length)) [
          | inl more ↦ rw (hash_chunks, more) tt
          | inr full ↦ rw (hash_chunks, full) (compare_hash-Honest offset h w begun full)
        ]
    hash_chunks-Honest (suc fuel) offset h w begun =
        let n : ℕ = min (s.contents.file_length - offset) (chunk_size s.contents) in
        elim (Bool-cases (ltb offset s.contents.file_length)) [
          | inr full ↦ rw (hash_chunks, full) (compare_hash-Honest offset h w begun full)
          | inl more ↦ elim (Option-cases (checked_add offset n)) [
            | inl e ↦ rw (hash_chunks, more, e) tt
            | inr (end, e) ↦
                let sum = (checked_add-some offset n end e).0 in
                rw (hash_chunks, more, e)
                  (after_chunk-Honest _ offset end w _ refl (λ bytes v run.
                    hash_chunks-Honest fuel end (sha.update h bytes) v
                      (Begun-more offset end n h bytes begun sum (omega arith) run)))
          ]
        ]

    -- On a platform that serves runs of the file's bytes, and with a hasher that takes its input
    -- in pieces, a sidecar is verified only if the hash of all the bytes of the file is the
    -- manifest's.
    pub verify_data_hash-honest :
        (w w' : W)
        → verify_data_hash {J = J} is_cancelled read_at_once has_room sha s w ≡ some (w', ok tt)
        → sha.hex (sha.update sha.new (take s.contents.file_length content))
          ≡ s.manifest.sidecar.sha256
    unfolding verify_data_hash
    verify_data_hash-honest w w' h = subst Honest h (
        hash_chunks-Honest s.contents.file_length 0 sha.new w
          (omega arith, sym (appends.0 sha.new)))
