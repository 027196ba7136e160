-- ===== src/Sidecar/Types.antt =====
-- The data of crates/bridge-format/src/lib.rs. A string is the list of its UTF-8 bytes.
use light_bridge_engine.Base.{
  ℕ, ◌+◌, ◌≡◌, List, [], ◌∷◌, none, some, Result, ok, err, checked_add, String, arith,
}

pub data ExpertLayout : Type 0 where
  sequential : ExpertLayout
  fused_gate_up : ExpertLayout

pub record ExpertKey : Type 0 where
  pub layer : ℕ
  pub expert : ℕ

pub record Segment : Type 0 where
  pub offset : ℕ
  pub length : ℕ
  pub ggml_type : List ℕ

pub record ExpertRecord : Type 0 where
  pub key : ExpertKey
  pub offset : ℕ
  pub length : ℕ
  pub gate : Segment
  pub up : Segment
  pub down : Segment

pub record SourceFileIdentity : Type 0 where
  pub ordinal : ℕ
  pub path : List ℕ
  pub length : ℕ
  pub sha256 : List ℕ

pub record SidecarFileIdentity : Type 0 where
  pub length : ℕ
  pub sha256 : List ℕ

pub record SidecarManifest : Type 0 where
  pub format : List ℕ
  pub format_version : ℕ
  pub engine_version : List ℕ
  pub quant_abi_version : ℕ
  pub alignment : ℕ
  pub layout : ExpertLayout
  pub source_files : List SourceFileIdentity
  pub tensor_directory_sha256 : List ℕ
  pub sidecar : SidecarFileIdentity
  pub records : List ExpertRecord

pub data FormatError : Type 0 where
  wrong_format : List ℕ → FormatError
  -- The version expected and the actual one.
  wrong_version : ℕ → ℕ → FormatError
  wrong_quant_abi : ℕ → ℕ → FormatError
  invalid_alignment : ℕ → FormatError
  invalid_sha256 : String → List ℕ → FormatError
  sidecar_too_short : ℕ → FormatError
  no_source_files : FormatError
  -- The index and the ordinal that stands there.
  source_ordinal : ℕ → ℕ → FormatError
  records_not_strictly_ordered : ExpertKey → FormatError
  -- The offset and the alignment.
  unaligned_record : ExpertKey → ℕ → ℕ → FormatError
  -- The start, the end, the least start and the length of the sidecar.
  record_out_of_bounds : ExpertKey → ℕ → ℕ → ℕ → ℕ → FormatError
  segment_out_of_bounds : ExpertKey → String → FormatError
  overlapping_segments : ExpertKey → FormatError
  unaligned_segment : ExpertKey → FormatError
  invalid_fused_layout : ExpertKey → FormatError
  -- The length expected and the actual one.
  header_length : ℕ → ℕ → FormatError
  bad_magic : FormatError
  non_zero_reserved_header : FormatError
  unknown_layout : ℕ → FormatError
  arithmetic_overflow : FormatError

abbrev pub sidecar_format_version : ℕ
sidecar_format_version = 1

abbrev pub quant_abi_version_expected : ℕ
quant_abi_version_expected = 1

abbrev pub sidecar_header_bytes : ℕ
sidecar_header_bytes = 64

-- `lightbridge-expert-sidecar`.
abbrev pub sidecar_format : List ℕ
sidecar_format =
    108 ∷ 105 ∷ 103 ∷ 104 ∷ 116 ∷ 98 ∷ 114 ∷ 105 ∷ 100 ∷ 103 ∷ 101 ∷ 45 ∷ 101 ∷ 120 ∷ 112 ∷ 101
    ∷ 114 ∷ 116 ∷ 45 ∷ 115 ∷ 105 ∷ 100 ∷ 101 ∷ 99 ∷ 97 ∷ 114 ∷ []

-- `LIGHTBRIDGE.EXP` and a zero byte.
abbrev pub sidecar_magic : List ℕ
sidecar_magic = 76 ∷ 73 ∷ 71 ∷ 72 ∷ 84 ∷ 66 ∷ 82 ∷ 73 ∷ 68 ∷ 71 ∷ 69 ∷ 46 ∷ 69 ∷ 88 ∷ 80 ∷ 0 ∷ []

-- A range is its start and its end.
unfoldable pub range_of : ℕ → ℕ → Result FormatError (ℕ × ℕ)
range_of offset length = elim (checked_add offset length) [
  | none ↦ err arithmetic_overflow
  | some end ↦ ok (offset, end)
]

unfoldable pub segment_range : Segment → Result FormatError (ℕ × ℕ)
unfolding range_of
segment_range s = range_of s.offset s.length

unfoldable pub record_range : ExpertRecord → Result FormatError (ℕ × ℕ)
unfolding range_of
record_range r = range_of r.offset r.length

-- What a range that is returned says.
pub range_of-ok :
    (offset length start end : ℕ)
    → range_of offset length ≡ ok (start, end)
    → (start ≡ offset) × (end ≡ offset + length)
unfolding range_of checked_add
range_of-ok offset length start end h = ground arith
