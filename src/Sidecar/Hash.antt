-- ===== src/Sidecar/Hash.antt =====
-- `Sidecar::verify_data_hash` of crates/bridge-format/src/lib.rs. The SHA-256 hasher is an
-- interface: its state, a run of bytes that is added, and the hash in hexadecimal digits.
pub mod Verified
pub mod Ending
use light_bridge_engine.Base.{
  ℕ, zero, suc, ◌+◌, ◌-◌, min, List, [], ◌∷◌, Bool, true, false, Option, none, some, ltb,
  if◌then◌else◌, Result, ok, err, checked_add,
}
use light_bridge_engine.Base.Bytes.{same_bytes}
use light_bridge_engine.Io.{PositionedFile, Filled, read_exact_at}
use light_bridge_engine.Sidecar.Types.{SidecarManifest, arithmetic_overflow}
use light_bridge_engine.Sidecar.Reader.{Sidecar, SidecarError, read, format, data_hash}

pub record Hasher (H : Type 0) : Type 0 where
  pub new : H
  pub update : H → List ℕ → H
  pub hex : H → List ℕ

-- Eight mebibytes.
abbrev pub max_chunk : ℕ
max_chunk = 8388608

unfoldable pub chunk_size : PositionedFile → ℕ
chunk_size f = min f.max_request_bytes max_chunk

-- The state of the system and the verdict; nothing where the fuel ends before the loop.
abbrev pub Verdict : Type 0 → Type 0 → Type 0 → Type 0
Verdict W E J = Option (W × Result (SidecarError E J) (Unit {0}))

module _ {W E J : Type 0} where
  unfoldable pub after_chunk : (List ℕ → W → Verdict W E J) → Filled W E → Verdict W E J
  after_chunk next none = none
  after_chunk next (some (w, err e)) = some (w, err (read e))
  after_chunk next (some (w, ok bytes)) = next bytes w

module _ {W E J H : Type 0} where
  -- What follows the loop.
  unfoldable pub compare_hash : Hasher H → Sidecar → H → W → Verdict W E J
  compare_hash sha s h w =
      if same_bytes (sha.hex h) s.manifest.sidecar.sha256
      then some (w, ok tt)
      else some (w, err (data_hash s.manifest.sidecar.sha256 (sha.hex h)))

module _ {W E J H : Type 0} (is_cancelled : W → W × Bool)
    (read_at_once : W → ℕ → ℕ → W × Result E (List ℕ)) (has_room : ℕ → Bool) (sha : Hasher H)
    (s : Sidecar) where
  -- The loop over the chunks.
  unfoldable pub hash_chunks : ℕ → ℕ → H → W → Verdict W E J
  unfolding after_chunk compare_hash
  hash_chunks zero offset h w =
      if ltb offset s.contents.file_length then none else compare_hash sha s h w
  hash_chunks (suc fuel) offset h w = elim (ltb offset s.contents.file_length) [
    | false ↦ compare_hash sha s h w
    | true ↦
        elim (checked_add offset (min (s.contents.file_length - offset) (chunk_size s.contents))) [
          | none ↦ some (w, err (format arithmetic_overflow))
          | some end ↦
              after_chunk (λ bytes v. hash_chunks fuel end (sha.update h bytes) v)
                (read_exact_at is_cancelled read_at_once has_room s.contents offset end w)
        ]
  ]

  -- Every chunk has a byte or more, so the fuel is the length of the file.
  unfoldable pub verify_data_hash : W → Verdict W E J
  unfolding hash_chunks
  verify_data_hash w = hash_chunks s.contents.file_length 0 sha.new w
