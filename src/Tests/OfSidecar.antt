-- ===== src/Tests/OfSidecar.antt =====
-- The header and the manifest of a sidecar (crates/bridge-format) at concrete inputs.
use light_bridge_engine.Base.{
  ℕ, suc, ◌+◌, ◌-◌, ◌*◌, ◌^◌, ◌%◌, ◌≤◌, ◌<◌, ◌≡◌, ◌↔◌, refl, sym, ap, List, [], ◌∷◌, ◌++◌, Bool,
  true, false, Option, none, some, Result, ok, err, length, get_elem?, take, drop, slice, replicate,
  min, arith, length-take, word_modulus, zero, subst,
}
use light_bridge_engine.Sidecar.Types.{
  ExpertKey, ExpertRecord, Segment, SidecarManifest, sequential, sidecar_format,
  sidecar_header_bytes,
}
use light_bridge_engine.Sidecar.Header.{SidecarHeader, encode, decode, decode-encode}
use light_bridge_engine.Sidecar.Manifest.{key_lt, validate, record_at}
use light_bridge_engine.Sidecar.Manifest.Records.{IsPlaced}
use light_bridge_engine.Sidecar.Layout.{validate-disjoint, validate-IsPlaced, record_at_iff}
use light_bridge_engine.Base.{append-nil, append_assoc}

abbrev segment : ℕ → ℕ → Segment
segment offset n = record { offset = offset; length = n; ggml_type = [] }

abbrev first : ExpertRecord
first = record {
  key = record { layer = 0; expert = 3 };
  offset = 64;
  length = 96;
  gate = segment 64 2;
  up = segment 96 3;
  down = segment 128 4;
}

abbrev pub second : ExpertRecord
second = record {
  key = record { layer = 1; expert = 0 };
  offset = 160;
  length = 96;
  gate = segment 160 5;
  up = segment 192 6;
  down = segment 224 7;
}

abbrev pub manifest : SidecarManifest
manifest = record {
  format = sidecar_format;
  format_version = 1;
  engine_version = [];
  quant_abi_version = 1;
  alignment = 32;
  layout = sequential;
  source_files = record { ordinal = 0; path = []; length = 9; sha256 = replicate 64 97 } ∷ [];
  tensor_directory_sha256 = replicate 64 97;
  sidecar = record { length = 256; sha256 = replicate 64 48 };
  records = first ∷ second ∷ [];
}

pub manifest_is_valid : validate manifest ≡ ok tt
unfolding validate light_bridge_engine.Base.Bytes.same_bytes
    light_bridge_engine.Base.is_power_of_two light_bridge_engine.Sidecar.Manifest.all_lower_hex
    light_bridge_engine.Sidecar.Manifest.is_lower_hex light_bridge_engine.Base.round_up
    light_bridge_engine.Base.checked_add light_bridge_engine.Sidecar.Manifest.not_after
    light_bridge_engine.Sidecar.Types.record_range light_bridge_engine.Sidecar.Manifest.check_bounds
    light_bridge_engine.Base.mask_down light_bridge_engine.Sidecar.Manifest.validate_record_segments
    light_bridge_engine.Sidecar.Types.segment_range
    light_bridge_engine.Sidecar.Manifest.check_segment light_bridge_engine.Sidecar.Manifest.in_order
    light_bridge_engine.Sidecar.Manifest.check_layout key_lt
    light_bridge_engine.Sidecar.Manifest.align_up
    light_bridge_engine.Sidecar.Manifest.check_identity
    light_bridge_engine.Sidecar.Manifest.check_records
    light_bridge_engine.Sidecar.Manifest.check_segments
    light_bridge_engine.Sidecar.Manifest.check_sources
    light_bridge_engine.Sidecar.Manifest.validate_sha256 light_bridge_engine.Sidecar.Types.range_of
manifest_is_valid = refl

abbrev header : SidecarHeader
header = record { format_version = 1; layout = sequential; alignment = 32; record_count = 2 }

decode-encode_example : decode (encode header) ≡ ok header
decode-encode_example = decode-encode header (omega arith) (omega arith) (omega arith)

validate-disjoint_example :
    (key_lt first.key second.key ≡ true) × (first.offset + first.length ≤ second.offset)
validate-disjoint_example =
    validate-disjoint manifest 0 1 first second manifest_is_valid (omega arith) refl refl

validate-IsPlaced_example : (sidecar_header_bytes ≤ second.offset) × IsPlaced manifest second
validate-IsPlaced_example = validate-IsPlaced manifest 1 second manifest_is_valid refl

record_at_iff_example :
    (record_at manifest second.key ≡ some second)
    ↔ ((i : ℕ) × (get_elem? manifest.records i ≡ some second) × (second.key ≡ second.key))
record_at_iff_example = record_at_iff manifest second.key second manifest_is_valid
