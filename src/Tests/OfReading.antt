-- ===== src/Tests/OfReading.antt =====
-- The reads of crates/bridge-io-windows and of a sidecar (crates/bridge-format) at concrete inputs.
use light_bridge_engine.Base.{
  ℕ, suc, ◌+◌, ◌-◌, ◌*◌, ◌^◌, ◌%◌, ◌≤◌, ◌<◌, ◌≡◌, ◌↔◌, refl, sym, ap, List, [], ◌∷◌, ◌++◌, Bool,
  true, false, Option, none, some, Result, ok, err, length, get_elem?, take, drop, slice, replicate,
  min, arith, length-take, word_modulus, zero, subst,
}
use light_bridge_engine.Io.{PositionedFile, ReadError, read_exact_at}
use light_bridge_engine.Io.Reads.{read_exact_at-Ends}
use light_bridge_engine.Io.Exact.{Serves, read_exact_at-exact}
use light_bridge_engine.Sidecar.Types.{
  ExpertKey, ExpertRecord, Segment, SidecarManifest, sequential, sidecar_format,
  sidecar_header_bytes,
}
use light_bridge_engine.Sidecar.Header.{SidecarHeader, encode, decode, decode-encode}
use light_bridge_engine.Sidecar.Manifest.{key_lt, validate, record_at}
use light_bridge_engine.Sidecar.Reader.{
  Sidecar, SidecarError, ExpertBytes, gate, up, down, read_expert, then_read, open_sidecar,
}
use light_bridge_engine.Sidecar.Hash.{Hasher, verify_data_hash}
use light_bridge_engine.Sidecar.Hash.Verified.{Appends, verify_data_hash-honest}
use light_bridge_engine.Sidecar.Hash.Ending.{verify_data_hash-Ends}
use light_bridge_engine.Base.{append-nil, append_assoc}
use light_bridge_engine.Sidecar.Reader.Acceptance.{OpensOr, open_sidecar-Ends}
use light_bridge_engine.Sidecar.Reader.Opening.{IsOpened, open_sidecar-IsOpened}
use light_bridge_engine.Sidecar.Reader.Experts.{
  whole, segment_bytes, read_expert-reads, read_expert-exact,
}
use light_bridge_engine.Tests.OfSidecar.{second, manifest, manifest_is_valid}

-- The file, on a platform that serves at most fifty bytes at a time and never cancels.
abbrev file_bytes : List ℕ
file_bytes =
    (76 ∷ 73 ∷ 71 ∷ 72 ∷ 84 ∷ 66 ∷ 82 ∷ 73 ∷ 68 ∷ 71 ∷ 69 ∷ 46 ∷ 69 ∷ 88 ∷ 80 ∷ 0 ∷ 1 ∷ 0 ∷ 0 ∷ 0
      ∷ 0 ∷ 0 ∷ 0 ∷ 0 ∷ 32 ∷ 0 ∷ 0 ∷ 0 ∷ 0 ∷ 0 ∷ 0 ∷ 0 ∷ 2 ∷ [])
    ++ replicate 31 0
    ++ replicate 100 3
    ++ replicate 92 4

abbrev never : Unit {0} → Unit {0} × Bool
never w = (w, false)

abbrev serve : Unit {0} → ℕ → ℕ → Unit {0} × Result (Unit {0}) (List ℕ)
serve w room offset = (w, ok (take (min room 50) (drop offset file_bytes)))

take-length-take : {A : Type 0} (n : ℕ) (xs : List A) → take n xs ≡ take (length (take n xs)) xs
take-length-take zero xs = refl
take-length-take (suc n) [] = refl
take-length-take (suc n) (x ∷ xs) = ap (◌∷◌ x) (take-length-take n xs)

serve-Serves : Serves never serve file_bytes
serve-Serves w room offset w' bytes h =
    let same : take (min room 50) (drop offset file_bytes) ≡ bytes = ground arith in
    subst (λ (bs : List ℕ). (bs ≡ take (length bs) (drop offset file_bytes)) × (length bs ≤ room))
      same
      (
        take-length-take (min room 50) (drop offset file_bytes),
        omega (arith, length-take (min room 50) (drop offset file_bytes)),
      )

abbrev file : PositionedFile
file = record { file_length = 256; max_request_bytes = 96 }

abbrev roomy : ℕ → Bool
roomy n = true

read_exact_at-Ends_example :
    (r : Unit {0} × Result (ReadError (Unit {0})) (List ℕ)) × (read_exact_at never serve roomy file
        60 170 tt
      ≡ some r)
read_exact_at-Ends_example = read_exact_at-Ends never serve roomy file 60 170 tt

reads_in_pieces :
    read_exact_at never serve roomy file 70 166 tt ≡ some (tt, ok (slice 70 166 file_bytes))
unfolding read_exact_at light_bridge_engine.Io.validate_range light_bridge_engine.Base.checked_add
reads_in_pieces = refl

read_exact_at-exact_example :
    (slice 70 166 file_bytes ≡ slice 70 166 file_bytes)
    × (length (slice 70 166 file_bytes) ≡ 166 - 70)
read_exact_at-exact_example =
    read_exact_at-exact never serve file_bytes serve-Serves roomy file 70 166 tt tt
      (slice 70 166 file_bytes) reads_in_pieces

abbrev opened_sidecar : Sidecar
opened_sidecar = record { contents = file; manifest = manifest }

opens :
    open_sidecar {J = Unit {0}} serve roomy
      (λ bytes. ok manifest)
      (ok (true, 1000))
      (ok [])
      (ok (ok (true, 256)))
      tt
    ≡ some (tt, ok opened_sidecar)
unfolding open_sidecar validate light_bridge_engine.Base.Bytes.same_bytes
    light_bridge_engine.Base.is_power_of_two light_bridge_engine.Sidecar.Manifest.all_lower_hex
    light_bridge_engine.Sidecar.Manifest.is_lower_hex light_bridge_engine.Base.round_up
    light_bridge_engine.Base.checked_add light_bridge_engine.Sidecar.Manifest.not_after
    light_bridge_engine.Sidecar.Types.record_range light_bridge_engine.Sidecar.Manifest.check_bounds
    light_bridge_engine.Base.mask_down light_bridge_engine.Sidecar.Manifest.validate_record_segments
    light_bridge_engine.Sidecar.Types.segment_range
    light_bridge_engine.Sidecar.Manifest.check_segment light_bridge_engine.Sidecar.Manifest.in_order
    light_bridge_engine.Sidecar.Manifest.check_layout light_bridge_engine.Base.Bytes.from_le_bytes
    light_bridge_engine.Io.after_flag light_bridge_engine.Io.after_read light_bridge_engine.Io.fill
    light_bridge_engine.Io.open_with read_exact_at light_bridge_engine.Io.read_exact_at_into
    light_bridge_engine.Io.start_fill light_bridge_engine.Io.validate_range
    light_bridge_engine.Sidecar.Header.any_non_zero decode
    light_bridge_engine.Sidecar.Header.from_code light_bridge_engine.Sidecar.Manifest.align_up
    light_bridge_engine.Sidecar.Manifest.check_identity
    light_bridge_engine.Sidecar.Manifest.check_records
    light_bridge_engine.Sidecar.Manifest.check_segments
    light_bridge_engine.Sidecar.Manifest.check_sources key_lt
    light_bridge_engine.Sidecar.Manifest.validate_sha256
    light_bridge_engine.Sidecar.Reader.check_header
    light_bridge_engine.Sidecar.Reader.check_manifest
    light_bridge_engine.Sidecar.Reader.load_manifest light_bridge_engine.Sidecar.Reader.longest
    light_bridge_engine.Sidecar.Reader.matches light_bridge_engine.Sidecar.Reader.open_data
    light_bridge_engine.Sidecar.Reader.same_layout then_read
    light_bridge_engine.Sidecar.Types.range_of
opens = refl

open_sidecar-IsOpened_example : IsOpened (Unit {0}) file_bytes opened_sidecar
open_sidecar-IsOpened_example =
    open_sidecar-IsOpened {J = Unit {0}} file_bytes serve roomy (λ bytes. ok manifest)
      (ok (true, 1000)) (ok []) (ok (ok (true, 256))) tt tt opened_sidecar serve-Serves opens

open_sidecar-Ends_example :
    (out : Unit {0} × Result (SidecarError (Unit {0}) (Unit {0})) Sidecar) × (open_sidecar serve
        roomy
        (λ bytes. ok manifest)
        (ok (true, 1000))
        (ok [])
        (ok (ok (true, 256)))
        tt
      ≡ some out)
    × OpensOr file_bytes serve roomy
        (λ bytes. ok manifest)
        (ok (true, 1000))
        (ok [])
        (ok (ok (true, 256)))
        tt
        out
open_sidecar-Ends_example =
    open_sidecar-Ends file_bytes serve roomy (λ bytes. ok manifest) (ok (true, 1000)) (ok [])
      (ok (ok (true, 256))) serve-Serves tt

abbrev second_bytes : ExpertBytes
second_bytes = record {
  bytes = slice 160 256 file_bytes;
  gate_range = (0, 5);
  up_range = (32, 38);
  down_range = (64, 71);
}

reads_second :
    read_expert {J = Unit {0}} never serve roomy opened_sidecar second.key tt
    ≡ some (tt, ok second_bytes)
unfolding read_expert record_at key_lt light_bridge_engine.Sidecar.Types.record_range
    light_bridge_engine.Base.checked_add read_exact_at light_bridge_engine.Io.validate_range
    light_bridge_engine.Sidecar.Manifest.relative_range light_bridge_engine.Base.checked_sub
reads_second = refl

read_expert-reads_example :
    read_expert {J = Unit {0}} never serve roomy opened_sidecar second.key tt
    ≡ then_read
        (λ bytes. ok (whole second bytes))
        (read_exact_at never serve roomy file 160 (160 + 96) tt)
read_expert-reads_example =
    read_expert-reads never serve roomy opened_sidecar second.key 1 second tt manifest_is_valid
      (omega arith) refl refl

read_expert-exact_example :
    (i : ℕ) × (r : ExpertRecord) × (get_elem? manifest.records i ≡ some r)
    × (r.key ≡ second.key)
    × (gate second_bytes ≡ segment_bytes file_bytes r.gate)
    × (up second_bytes ≡ segment_bytes file_bytes r.up)
    × (down second_bytes ≡ segment_bytes file_bytes r.down)
read_expert-exact_example =
    read_expert-exact {J = Unit {0}} never serve roomy file_bytes serve-Serves opened_sidecar
      second.key tt tt second_bytes manifest_is_valid (omega arith) reads_second

-- A hasher that keeps all that it is given.
abbrev keeper : Hasher (List ℕ)
keeper = record { new = []; update = λ h bytes. h ++ bytes; hex = λ h. h }

keeper-Appends : Appends keeper
keeper-Appends = ((λ h. append-nil h), (λ h xs ys. append_assoc h xs ys))

abbrev hashed_sidecar : Sidecar
hashed_sidecar = record opened_sidecar {
  manifest = record manifest { sidecar = record { length = 256; sha256 = file_bytes } };
}

hashes :
    verify_data_hash {J = Unit {0}} never serve roomy keeper hashed_sidecar tt ≡ some (tt, ok tt)
unfolding verify_data_hash light_bridge_engine.Base.checked_add
    light_bridge_engine.Sidecar.Hash.chunk_size read_exact_at light_bridge_engine.Io.validate_range
    light_bridge_engine.Base.Bytes.same_bytes
hashes = refl

verify_data_hash-honest_example : [] ++ take 256 file_bytes ≡ file_bytes
verify_data_hash-honest_example =
    verify_data_hash-honest (Unit {0}) never serve roomy keeper hashed_sidecar file_bytes
      serve-Serves keeper-Appends tt tt hashes

verify_data_hash-Ends_example :
    (r : Unit {0} × Result (SidecarError (Unit {0}) (Unit {0})) (Unit {0})) × (verify_data_hash
        never serve roomy keeper hashed_sidecar tt
      ≡ some r)
verify_data_hash-Ends_example =
    verify_data_hash-Ends (Unit {0}) never serve roomy keeper hashed_sidecar tt (omega arith)
