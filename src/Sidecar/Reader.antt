-- ===== src/Sidecar/Reader.antt =====
-- `Sidecar` of crates/bridge-format/src/lib.rs: opening one, and reading an expert. The system's
-- answers on the manifest file are arguments, and so is serde_json's parser.
pub mod Opening
pub mod Conditions
pub mod Acceptance
pub mod Experts
use light_bridge_engine.Base.{
  ℕ, zero, suc, ◌+◌, ◌-◌, max, List, [], ◌∷◌, Bool, true, false, not, ◌||◌, Option, none, some, ltb,
  ◌==◌, if◌then◌else◌, Result, ok, err, ◌>>=◌, map_err, length, slice,
}
use light_bridge_engine.Io.{PositionedFile, ReadError, Opened, Filled, open_with, read_exact_at}
use light_bridge_engine.Sidecar.Types.{
  ExpertKey, ExpertRecord, ExpertLayout, sequential, fused_gate_up, SidecarManifest, FormatError,
  record_range, sidecar_header_bytes,
}
use light_bridge_engine.Sidecar.Header.{SidecarHeader, decode}
use light_bridge_engine.Sidecar.Manifest.{validate, record_at, relative_range}

abbrev pub max_manifest_bytes : ℕ
max_manifest_bytes = 33554432

-- The paths in the errors are left out.
pub data SidecarError (E J : Type 0) : Type 0 where
  manifest_io : E → SidecarError E J
  manifest_not_a_file : SidecarError E J
  -- The size and the limit.
  manifest_too_large : ℕ → ℕ → SidecarError E J
  manifest_json : J → SidecarError E J
  format : FormatError → SidecarError E J
  read : ReadError E → SidecarError E J
  -- The length expected and the actual one.
  data_length : ℕ → ℕ → SidecarError E J
  header_manifest_mismatch : SidecarError E J
  missing_expert : ExpertKey → SidecarError E J
  -- The hash expected and the actual one.
  data_hash : List ℕ → List ℕ → SidecarError E J

pub record Sidecar : Type 0 where
  pub contents : PositionedFile
  pub manifest : SidecarManifest

-- The bytes of a record, and the ranges of its segments in them.
pub record ExpertBytes : Type 0 where
  pub bytes : List ℕ
  pub gate_range : ℕ × ℕ
  pub up_range : ℕ × ℕ
  pub down_range : ℕ × ℕ

-- The bytes that a range selects.
unfoldable pub part : List ℕ → ℕ × ℕ → List ℕ
part bytes (start, end) = slice start end bytes

unfoldable pub gate : ExpertBytes → List ℕ
unfolding part
gate e = part e.bytes e.gate_range

unfoldable pub up : ExpertBytes → List ℕ
unfolding part
up e = part e.bytes e.up_range

unfoldable pub down : ExpertBytes → List ℕ
unfolding part
down e = part e.bytes e.down_range

-- The greatest length of a record, and no less than the start value.
unfoldable pub longest : ℕ → List ExpertRecord → ℕ
longest n [] = n
longest n (r ∷ records) = max r.length (longest n records)

unfoldable pub same_layout : ExpertLayout → ExpertLayout → Bool
same_layout sequential sequential = true
same_layout sequential fused_gate_up = false
same_layout fused_gate_up sequential = false
same_layout fused_gate_up fused_gate_up = true

unfoldable pub matches : SidecarHeader → SidecarManifest → Bool
matches h m = not (
    not (h.format_version == m.format_version)
    || not (same_layout h.layout m.layout)
    || not (h.alignment == m.alignment)
    || not (h.record_count == length m.records))

module _ {E J : Type 0} where
  unfoldable pub check_manifest : SidecarManifest → Result (SidecarError E J) SidecarManifest
  check_manifest m = map_err format (validate m) >>= λ _. ok m

  -- The manifest file's kind and size are looked at before it is read and parsed.
  unfoldable pub load_manifest :
      (List ℕ → Result J SidecarManifest)
      → Result E (Bool × ℕ)
      → Result E (List ℕ)
      → Result (SidecarError E J) SidecarManifest
  unfolding check_manifest
  load_manifest parse (err e) contents = err (manifest_io e)
  load_manifest parse (ok (false, size)) contents = err manifest_not_a_file
  load_manifest parse (ok (true, size)) contents =
      if ltb max_manifest_bytes size
      then err (manifest_too_large size max_manifest_bytes)
      else (map_err manifest_io contents >>= λ bytes.
          map_err manifest_json (parse bytes) >>= λ m. check_manifest m)

  -- The data file opens with a limit of the longest record, and has the manifest's length.
  unfoldable pub open_data : Opened E → SidecarManifest → Result (SidecarError E J) PositionedFile
  open_data opened m =
      map_err read (open_with (longest sidecar_header_bytes m.records) opened) >>= λ f.
      if f.file_length == m.sidecar.length
      then ok f
      else err (data_length m.sidecar.length f.file_length)

  -- The header that was read is checked against the manifest.
  unfoldable pub check_header :
      PositionedFile → SidecarManifest → List ℕ → Result (SidecarError E J) Sidecar
  check_header f m bytes = map_err format (decode bytes) >>= λ h.
      if matches h m
      then ok (record { contents = f; manifest = m })
      else err header_manifest_mismatch

  -- The ranges of the segments in the bytes of their record.
  unfoldable pub expert_bytes : ExpertRecord → List ℕ → Result (SidecarError E J) ExpertBytes
  expert_bytes r bytes = map_err format (relative_range r r.gate) >>= λ g.
      map_err format (relative_range r r.up) >>= λ u.
      map_err format (relative_range r r.down) >>= λ d.
      ok (record { bytes = bytes; gate_range = g; up_range = u; down_range = d })

module _ {W E J : Type 0} where
  -- A read's result handed on; nothing where the read has none.
  unfoldable pub then_read :
      {A : Type 0}
      → (List ℕ → Result (SidecarError E J) A)
      → Filled W E
      → Option (W × Result (SidecarError E J) A)
  then_read next none = none
  then_read next (some (w, err e)) = some (w, err (read e))
  then_read next (some (w, ok bytes)) = some (w, next bytes)

  -- `Sidecar::open`; its own cancellation flag is never set.
  unfoldable pub open_sidecar :
      (W → ℕ → ℕ → W × Result E (List ℕ))
      → (ℕ → Bool)
      → (List ℕ → Result J SidecarManifest)
      → Result E (Bool × ℕ)
      → Result E (List ℕ)
      → Opened E
      → W
      → Option (W × Result (SidecarError E J) Sidecar)
  unfolding load_manifest open_data check_header then_read
  open_sidecar read_at_once has_room parse metadata contents opened w =
      elim (load_manifest {E = E} parse metadata contents) [
        | err e ↦ some (w, err e)
        | ok m ↦ elim (open_data opened m) [
          | err e ↦ some (w, err e)
          | ok f ↦
              then_read (check_header f m)
                (read_exact_at (λ v. (v, false)) read_at_once has_room f 0 sidecar_header_bytes w)
        ]
      ]

  unfoldable pub read_expert :
      (W → W × Bool)
      → (W → ℕ → ℕ → W × Result E (List ℕ))
      → (ℕ → Bool)
      → Sidecar
      → ExpertKey
      → W
      → Option (W × Result (SidecarError E J) ExpertBytes)
  unfolding expert_bytes then_read
  read_expert is_cancelled read_at_once has_room s key w = elim (record_at s.manifest key) [
    | none ↦ some (w, err (missing_expert key))
    | some r ↦ elim (record_range r) [
      | err e ↦ some (w, err (format e))
      | ok (start, end) ↦
          then_read (expert_bytes r)
            (read_exact_at is_cancelled read_at_once has_room s.contents start end w)
    ]
  ]
