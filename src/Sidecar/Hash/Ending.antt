-- ===== src/Sidecar/Hash/Ending.antt =====
-- The verification of a sidecar's hash ends.
use light_bridge_engine.Base.{
  ℕ, zero, suc, ◌+◌, ◌-◌, ◌≤◌, ◌<◌, ◌≡◌, refl, min, List, Bool, some, ltb, Result, ok, err,
  checked_add, checked_add-some, arith, Bool-cases, Option-cases, inl, inr,
}
use light_bridge_engine.Base.Bytes.{same_bytes}
use light_bridge_engine.Io.{ReadError}
use light_bridge_engine.Io.Reads.{read_exact_at-Ends}
use light_bridge_engine.Sidecar.Reader.{Sidecar, SidecarError}
use light_bridge_engine.Sidecar.Hash.{
  Hasher, chunk_size, Verdict, after_chunk, compare_hash, hash_chunks, verify_data_hash,
}

module _ {W E H : Type 0} (J : Type 0) (is_cancelled : W → W × Bool)
    (read_at_once : W → ℕ → ℕ → W × Result E (List ℕ)) (has_room : ℕ → Bool) (sha : Hasher H)
    (s : Sidecar) where
  abbrev Ends : Verdict W E J → Type 0
  Ends out = (r : W × Result (SidecarError E J) (Unit {0})) × (out ≡ some r)

  compare_hash-Ends : (h : H) (w : W) → Ends (compare_hash sha s h w)
  unfolding compare_hash
  compare_hash-Ends h w = elim (Bool-cases (same_bytes (sha.hex h) s.manifest.sidecar.sha256)) [
    | inl same ↦ rw (compare_hash, same) (_, refl)
    | inr other ↦ rw (compare_hash, other) (_, refl)
  ]

  after_chunk-Ends :
      (next : List ℕ → W → Verdict W E J) (r : W × Result (ReadError E) (List ℕ))
      → ((bytes : List ℕ) (v : W) → Ends (next bytes v))
      → Ends (after_chunk next (some r))
  unfolding after_chunk
  after_chunk-Ends next (w, err e) rest = (_, refl)
  after_chunk-Ends next (w, ok bytes) rest = rest bytes w

  chunk_size_grows :
      (offset end : ℕ)
      → 0 < s.contents.max_request_bytes
      → offset < s.contents.file_length
      → end ≡ offset + min (s.contents.file_length - offset) (chunk_size s.contents)
      → suc offset ≤ end
  unfolding chunk_size
  chunk_size_grows offset end pos more sum = omega arith

  hash_chunks-Ends :
      (fuel offset : ℕ) (h : H) (w : W)
      → 0 < s.contents.max_request_bytes
      → s.contents.file_length ≤ offset + fuel
      → Ends (hash_chunks is_cancelled read_at_once has_room sha s fuel offset h w)
  unfolding hash_chunks
  hash_chunks-Ends zero offset h w pos enough =
      elim (Bool-cases (ltb offset s.contents.file_length)) [
        | inl more ↦ absurd (ground arith)
        | inr full ↦ rw (hash_chunks, full) (compare_hash-Ends h w)
      ]
  hash_chunks-Ends (suc fuel) offset h w pos enough =
      let n : ℕ = min (s.contents.file_length - offset) (chunk_size s.contents) in
      elim (Bool-cases (ltb offset s.contents.file_length)) [
        | inr full ↦ rw (hash_chunks, full) (compare_hash-Ends h w)
        | inl more ↦ elim (Option-cases (checked_add offset n)) [
          | inl e ↦ rw (hash_chunks, more, e) (_, refl)
          | inr (end, e) ↦
              let sum = (checked_add-some offset n end e).0 in
              let grows : suc offset ≤ end = chunk_size_grows offset end pos (ground arith) sum in
              let (r, reads) =
                read_exact_at-Ends is_cancelled read_at_once has_room s.contents offset end w in
              rw (hash_chunks, more, e, reads)
                (after_chunk-Ends _ r
                  (λ bytes v. hash_chunks-Ends fuel end (sha.update h bytes) v pos (omega arith)))
        ]
      ]

  -- With a request limit above zero, the verification ends, with a verdict or with an error.
  pub verify_data_hash-Ends :
      (w : W)
      → 0 < s.contents.max_request_bytes
      → (r : W × Result (SidecarError E J) (Unit {0})) × (verify_data_hash is_cancelled read_at_once
            has_room sha s w
          ≡ some r)
  unfolding verify_data_hash
  verify_data_hash-Ends w pos =
      hash_chunks-Ends s.contents.file_length 0 sha.new w pos (omega arith)
