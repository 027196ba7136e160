-- ===== src/Sidecar/Manifest.antt =====
-- `SidecarManifest` of crates/bridge-format/src/lib.rs: its validation and the look-up of a record.
pub mod Records
pub mod Order
pub mod Search
use light_bridge_engine.Base.{
  ℕ, zero, suc, ◌+◌, ◌-◌, ◌*◌, ◌/◌, ◌%◌, ◌<◌, ◌≡◌, refl, List, [], ◌∷◌, Bool, true, false, ◌&&◌,
  ◌||◌, not, Option, none, some, ltb, leb, ◌==◌, if◌then◌else◌, Result, ok, err, guard, ◌>>=◌, ◌>>◌,
  length, get_elem?, checked_add, checked_sub, is_power_of_two, round_up, String,
}
use light_bridge_engine.Base.Bytes.{same_bytes}
use light_bridge_engine.Sidecar.Types.{
  ExpertLayout, sequential, fused_gate_up, ExpertKey, Segment, ExpertRecord, SourceFileIdentity,
  SidecarFileIdentity, SidecarManifest, FormatError, wrong_format, wrong_version, wrong_quant_abi,
  invalid_alignment, invalid_sha256, sidecar_too_short, no_source_files, source_ordinal,
  records_not_strictly_ordered, unaligned_record, record_out_of_bounds, segment_out_of_bounds,
  overlapping_segments, unaligned_segment, invalid_fused_layout, arithmetic_overflow,
  sidecar_format_version, quant_abi_version_expected, sidecar_header_bytes, sidecar_format,
  range_of, segment_range, record_range,
}

unfoldable pub align_up : ℕ → ℕ → Result FormatError ℕ
align_up value alignment =
    if (alignment == 0) || not (is_power_of_two alignment)
    then err (invalid_alignment alignment)
    else elim (round_up value alignment) [ none ↦ err arithmetic_overflow | some r ↦ ok r ]

-- A digit or one of the letters `a` to `f`.
unfoldable pub is_lower_hex : ℕ → Bool
is_lower_hex byte = (leb 48 byte && leb byte 57) || (leb 97 byte && leb byte 102)

unfoldable pub all_lower_hex : List ℕ → Bool
all_lower_hex [] = true
all_lower_hex (b ∷ bytes) = is_lower_hex b && all_lower_hex bytes

unfoldable pub validate_sha256 : List ℕ → String → Result FormatError (Unit {0})
validate_sha256 value context =
    if not (length value == 64) || not (all_lower_hex value)
    then err (invalid_sha256 context value)
    else ok tt

-- The order that is derived for keys: by layer, then by expert.
unfoldable pub key_lt : ExpertKey → ExpertKey → Bool
key_lt a b = ltb a.layer b.layer || ((a.layer == b.layer) && ltb a.expert b.expert)

-- The test of one segment in the loop over the three.
unfoldable pub check_segment : ExpertKey → ℕ × ℕ → String → ℕ × ℕ → Result FormatError (Unit {0})
check_segment key (first, last) name (start, end) =
    guard (not (leb end start || ltb start first || ltb last end)) (segment_out_of_bounds key name)

unfoldable pub check_layout :
    ExpertRecord → ExpertLayout → ℕ → ℕ × ℕ → ℕ × ℕ → ℕ × ℕ → Result FormatError (Unit {0})
check_layout r sequential alignment (gate, gate_end) (up, up_end) (down, down_end) =
    guard
      (not
        (not (gate % alignment == 0) || not (up % alignment == 0) || not (down % alignment == 0)))
      (unaligned_segment r.key)
check_layout r fused_gate_up alignment (gate, gate_end) (up, up_end) (down, down_end) =
    guard (not (not (gate == r.offset) || not (up == gate_end) || not (down % alignment == 0)))
      (invalid_fused_layout r.key)

unfoldable pub in_order : ℕ × ℕ → ℕ × ℕ → ℕ × ℕ → Bool
in_order (gate, gate_end) (up, up_end) (down, down_end) = leb gate_end up && leb up_end down

-- What `validate_record_segments` does with the ranges.
unfoldable pub check_segments :
    ExpertRecord → ExpertLayout → ℕ → ℕ × ℕ → ℕ × ℕ → ℕ × ℕ → ℕ × ℕ → Result FormatError (Unit {0})
check_segments r layout alignment whole gate up down =
    check_segment r.key whole "gate" gate
    >> check_segment r.key whole "up" up
    >> check_segment r.key whole "down" down
    >> guard (in_order gate up down) (overlapping_segments r.key)
    >> check_layout r layout alignment gate up down

unfoldable pub validate_record_segments :
    ExpertRecord → ExpertLayout → ℕ → Result FormatError (Unit {0})
unfolding check_segments
validate_record_segments r layout alignment = record_range r >>= λ whole.
    segment_range r.gate >>= λ gate. segment_range r.up >>= λ up.
    segment_range r.down >>= λ down. check_segments r layout alignment whole gate up down

unfoldable pub check_sources : ℕ → List SourceFileIdentity → Result FormatError (Unit {0})
check_sources index [] = ok tt
check_sources index (source ∷ sources) =
    guard (source.ordinal == index) (source_ordinal index source.ordinal)
    >> validate_sha256 source.sha256 "source file"
    >> check_sources (suc index) sources

-- `previous_key.is_some_and(|key| key >= record.key)`.
unfoldable pub not_after : Option ExpertKey → ExpertKey → Bool
not_after none key = false
not_after (some previous) key = not (key_lt previous key)

-- The bounds of one record; on success, its end.
unfoldable pub check_bounds : ExpertRecord → ℕ → ℕ → ℕ × ℕ → Result FormatError (Unit {0})
check_bounds r previous_end sidecar_length (start, end) =
    guard (not (ltb start previous_end || ltb sidecar_length end))
      (record_out_of_bounds r.key start end previous_end sidecar_length)

-- The loop over the records.
unfoldable pub check_records :
    SidecarManifest → Option ExpertKey → ℕ → List ExpertRecord → Result FormatError (Unit {0})
check_records m previous_key previous_end [] = ok tt
check_records m previous_key previous_end (r ∷ records) =
    guard (not (not_after previous_key r.key)) (records_not_strictly_ordered r.key)
    >> guard (r.offset % m.alignment == 0) (unaligned_record r.key r.offset m.alignment)
    >> record_range r
    >>= λ whole.
        check_bounds r previous_end m.sidecar.length whole
        >> validate_record_segments r m.layout m.alignment
        >> check_records m (some r.key) whole.1 records

-- All that `validate` checks before the records.
unfoldable pub check_identity : SidecarManifest → Result FormatError (Unit {0})
unfolding check_sources validate_sha256
check_identity m =
    guard (same_bytes m.format sidecar_format) (wrong_format m.format)
    >> guard (m.format_version == sidecar_format_version)
        (wrong_version sidecar_format_version m.format_version)
    >> guard (m.quant_abi_version == quant_abi_version_expected)
        (wrong_quant_abi quant_abi_version_expected m.quant_abi_version)
    >> guard (not (ltb m.alignment 32 || not (is_power_of_two m.alignment)))
        (invalid_alignment m.alignment)
    >> validate_sha256 m.tensor_directory_sha256 "tensor directory"
    >> validate_sha256 m.sidecar.sha256 "sidecar"
    >> guard (not (ltb m.sidecar.length sidecar_header_bytes)) (sidecar_too_short m.sidecar.length)
    >> guard (not (length m.source_files == 0)) no_source_files
    >> check_sources 0 m.source_files

unfoldable pub validate : SidecarManifest → Result FormatError (Unit {0})
unfolding check_identity check_records align_up
validate m = check_identity m >> align_up sidecar_header_bytes m.alignment >>= λ first.
    check_records m none first m.records

-- `binary_search_by_key` on the records from `left` up to `right`; the fuel bounds the rounds.
unfoldable pub search : List ExpertRecord → ExpertKey → ℕ → ℕ → ℕ → Option ℕ
search records key zero left right = none
search records key (suc fuel) left right =
    let mid = left + (right - left) / 2 in
    elim (ltb left right) [
      | false ↦ none
      | true ↦ elim (get_elem? records mid) [
        | none ↦ none
        | some r ↦ elim (key_lt r.key key) [
          | true ↦ search records key fuel (suc mid) right
          | false ↦ elim (key_lt key r.key) [
            | true ↦ search records key fuel left mid
            | false ↦ some mid
          ]
        ]
      ]
    ]

unfoldable pub record_at : SidecarManifest → ExpertKey → Option ExpertRecord
unfolding search
record_at m key = elim (search m.records key (suc (length m.records)) 0 (length m.records)) [
  | none ↦ none
  | some index ↦ get_elem? m.records index
]

unfoldable pub relative_range : ExpertRecord → Segment → Result FormatError (ℕ × ℕ)
relative_range r s = elim (checked_sub s.offset r.offset) [
  | none ↦ err arithmetic_overflow
  | some start ↦ range_of start s.length
]
