-- ===== src/Sidecar/Layout.antt =====
-- What a valid manifest promises to the readers of the sidecar.
use light_bridge_engine.Base.{
  ℕ, ◌+◌, ◌-◌, ◌≤◌, ◌<◌, ◌≡◌, refl, true, none, some, ok, ◌>>◌, >>=-eq-ok, get_elem?, arith,
  is_power_of_two, round_up, round_up-bounds, checked_add-fits, checked_sub-fits, word_modulus,
  subst, ◌↔◌,
}
use light_bridge_engine.Sidecar.Types.{
  ExpertRecord, Segment, SidecarManifest, ExpertKey, range_of, sidecar_header_bytes,
}
use light_bridge_engine.Sidecar.Manifest.{
  key_lt, align_up, check_identity, validate, record_at, relative_range,
}
use light_bridge_engine.Sidecar.Manifest.Records.{IsPlaced, Chain, check_records-Chain}
use light_bridge_engine.Sidecar.Manifest.Order.{Chain-IsPlaced, Chain-order}
use light_bridge_engine.Sidecar.Manifest.Search.{record_at_finds, record_at_sound}

align_up-ok :
    (value alignment r : ℕ)
    → align_up value alignment ≡ ok r
    → (is_power_of_two alignment ≡ true) × (round_up value alignment ≡ some r)
unfolding align_up
align_up-ok value alignment r h = ground arith

validate-Chain :
    (m : SidecarManifest)
    → validate m ≡ ok tt
    → (first : ℕ) × (sidecar_header_bytes ≤ first) × Chain m none first m.records
unfolding validate
validate-Chain m h =
    let (first, e, records) =
      >>=-eq-ok (check_identity m >> align_up sidecar_header_bytes m.alignment) _ h in
    let (_, _, aligned) = >>=-eq-ok (check_identity m) _ e in
    let (power, rounded) = align_up-ok sidecar_header_bytes m.alignment first aligned in
    (
      first,
      (round_up-bounds sidecar_header_bytes m.alignment power rounded).1,
      check_records-Chain m none first m.records records,
    )

-- In a valid manifest, two records at different places never share a byte, and both the keys and
-- the offsets grow with the index.
pub validate-disjoint :
    (m : SidecarManifest) (i j : ℕ) (q r : ExpertRecord)
    → validate m ≡ ok tt
    → i < j
    → get_elem? m.records i ≡ some q
    → get_elem? m.records j ≡ some r
    → (key_lt q.key r.key ≡ true) × (q.offset + q.length ≤ r.offset)
validate-disjoint m i j q r valid before here there =
    let (first, _, chain) = validate-Chain m valid in
    Chain-order m none first m.records i j q r chain before here there

-- In a valid manifest every record starts at a multiple of the alignment behind the header and
-- ends within the sidecar; its three segments are not empty, stand in their order and lie within
-- the record.
pub validate-IsPlaced :
    (m : SidecarManifest) (i : ℕ) (r : ExpertRecord)
    → validate m ≡ ok tt
    → get_elem? m.records i ≡ some r
    → (sidecar_header_bytes ≤ r.offset) × IsPlaced m r
validate-IsPlaced m i r valid here =
    let (first, low, chain) = validate-Chain m valid in
    let (start, placed) = Chain-IsPlaced m none first m.records i r chain here in
    (omega arith, placed)

-- In a valid manifest the binary search for a key returns a record exactly where the record is
-- one of the manifest's and has that key.
pub record_at_iff :
    (m : SidecarManifest) (key : ExpertKey) (r : ExpertRecord)
    → validate m ≡ ok tt
    → (record_at m key ≡ some r) ↔ ((i : ℕ) × (get_elem? m.records i ≡ some r) × (r.key ≡ key))
record_at_iff m key r valid = (
  (λ found. record_at_sound m key r found),
  (λ listed.
      subst (λ k. record_at m k ≡ some r) listed.2
        (record_at_finds m listed.0 r
          (λ i j p q before h k. (validate-disjoint m i j p q valid before h k).0) listed.1)),
)

pub relative_range-within :
    (r : ExpertRecord) (s : Segment)
    → r.offset ≤ s.offset
    → s.offset + s.length ≤ r.offset + r.length
    → r.length < word_modulus
    → relative_range r s ≡ ok (s.offset - r.offset, (s.offset - r.offset) + s.length)
unfolding relative_range range_of
relative_range-within r s low high word =
    let start = checked_sub-fits s.offset r.offset low in
    let end = checked_add-fits (s.offset - r.offset) s.length (omega arith) in
    rw (relative_range, start, range_of, end) refl
