-- ===== src/Sidecar/Manifest/Records.antt =====
-- What a manifest that passes validation says of its records.
use light_bridge_engine.Base.{
  ℕ, ◌+◌, ◌%◌, ◌≤◌, ◌<◌, ◌≡◌, refl, List, [], ◌∷◌, Bool, true, false, not, Option, none, some, ◌==◌,
  Result, ok, err, guard, ◌>>=◌, ◌>>◌, >>=-eq-ok, arith, String, Bool-cases, ==_iff, inl, inr,
}
use light_bridge_engine.Sidecar.Types.{
  ExpertLayout, ExpertKey, ExpertRecord, SidecarManifest, FormatError, records_not_strictly_ordered,
  unaligned_record, segment_range, record_range, range_of-ok,
}
use light_bridge_engine.Sidecar.Manifest.{
  key_lt, check_segment, in_order, check_segments, validate_record_segments, not_after,
  check_bounds, check_records,
}

-- The three segments are not empty, stand in their order, and lie within the record.
pub record IsWithin (r : ExpertRecord) : Type 0 where
  pub gate_some : 0 < r.gate.length
  pub up_some : 0 < r.up.length
  pub down_some : 0 < r.down.length
  pub first : r.offset ≤ r.gate.offset
  pub gate_up : r.gate.offset + r.gate.length ≤ r.up.offset
  pub up_down : r.up.offset + r.up.length ≤ r.down.offset
  pub last : r.down.offset + r.down.length ≤ r.offset + r.length

check_segment-ok :
    (key : ExpertKey) (name : String) (first last start end : ℕ)
    → check_segment key (first, last) name (start, end) ≡ ok tt
    → (start < end) × (first ≤ start) × (end ≤ last)
unfolding check_segment
check_segment-ok key name first last start end h = ground arith

record_range-ok :
    (r : ExpertRecord) (start end : ℕ)
    → record_range r ≡ ok (start, end)
    → (start ≡ r.offset) × (end ≡ r.offset + r.length)
unfolding record_range
record_range-ok r start end h = range_of-ok r.offset r.length start end h

check_bounds-ok :
    (r : ExpertRecord) (previous_end sidecar_length start end : ℕ)
    → check_bounds r previous_end sidecar_length (start, end) ≡ ok tt
    → (previous_end ≤ start) × (end ≤ sidecar_length)
unfolding check_bounds
check_bounds-ok r previous_end sidecar_length start end h = ground arith

check_segments-ok :
    (r : ExpertRecord) (layout : ExpertLayout) (alignment : ℕ) (first last g g' u u' d d' : ℕ)
    → check_segments r layout alignment (first, last) (g, g') (u, u') (d, d') ≡ ok tt
    → (first ≤ g) × (g < g') × (g' ≤ u) × (u < u') × (u' ≤ d) × (d < d') × (d' ≤ last)
unfolding check_segments check_segment in_order
check_segments-ok r layout alignment first last g g' u u' d d' h = ground arith

validate_record_segments-IsWithin :
    (r : ExpertRecord) (layout : ExpertLayout) (alignment : ℕ)
    → validate_record_segments r layout alignment ≡ ok tt
    → IsWithin r
unfolding validate_record_segments record_range segment_range
validate_record_segments-IsWithin r layout alignment h =
    ranged (record_range r) (segment_range r.gate) (segment_range r.up) (segment_range r.down) refl
      refl refl refl h
  where
    ranged :
        (w g u d : Result FormatError (ℕ × ℕ))
        → record_range r ≡ w
        → segment_range r.gate ≡ g
        → segment_range r.up ≡ u
        → segment_range r.down ≡ d
        → (w >>= λ whole. g >>= λ gate.
            u >>= λ up. d >>= λ down. check_segments r layout alignment whole gate up down)
          ≡ ok tt
        → IsWithin r
    ranged (ok (w0, w1)) (ok (g0, g1)) (ok (u0, u1)) (ok (d0, d1)) ew eg eu ed k =
        let w = range_of-ok r.offset r.length w0 w1 ew in
        let g = range_of-ok r.gate.offset r.gate.length g0 g1 eg in
        let u = range_of-ok r.up.offset r.up.length u0 u1 eu in
        let d = range_of-ok r.down.offset r.down.length d0 d1 ed in
        let (p0, p1, p2, p3, p4, p5, p6) =
          check_segments-ok r layout alignment w0 w1 g0 g1 u0 u1 d0 d1 k in
        record {
          gate_some = omega arith;
          up_some = omega arith;
          down_some = omega arith;
          first = omega arith;
          gate_up = omega arith;
          up_down = omega arith;
          last = omega arith;
        }
    ranged (ok w) (ok g) (ok u) (err x) ew eg eu ed k = cc
    ranged (ok w) (ok g) (err x) d ew eg eu ed k = cc
    ranged (ok w) (err x) u d ew eg eu ed k = cc
    ranged (err x) g u d ew eg eu ed k = cc

-- The place of a record in the file of a manifest.
pub record IsPlaced (m : SidecarManifest) (r : ExpertRecord) : Type 0 where
  pub aligned : r.offset % m.alignment ≡ 0
  pub within : r.offset + r.length ≤ m.sidecar.length
  pub segments : IsWithin r

-- The key comes after the previous one, if there is one.
abbrev pub After : Option ExpertKey → ExpertKey → Type 0
After none key = Unit
After (some previous) key = key_lt previous key ≡ true

-- Every record comes after the one before it, in the order of the keys and in the file.
abbrev pub Chain : SidecarManifest → Option ExpertKey → ℕ → List ExpertRecord → Type 0
Chain m previous end [] = Unit
Chain m previous end (r ∷ rs) =
    After previous r.key
    × (end ≤ r.offset)
    × IsPlaced m r
    × Chain m (some r.key) (r.offset + r.length) rs

not_after-After :
    (previous : Option ExpertKey) (key : ExpertKey)
    → not (not_after previous key) ≡ true
    → After previous key
unfolding not_after
not_after-After none key h = tt
not_after-After (some k) key h = elim (Bool-cases (key_lt k key)) [
  | inl later ↦ later
  | inr same ↦ let broken = rw same at h in cc
]

check_records-step :
    (m : SidecarManifest) (previous : Option ExpertKey) (end : ℕ) (r : ExpertRecord)
    (rs : List ExpertRecord)
    → check_records m previous end (r ∷ rs) ≡ ok tt
    → After previous r.key
      × (end ≤ r.offset)
      × IsPlaced m r
      × (check_records m (some r.key) (r.offset + r.length) rs ≡ ok tt)
unfolding check_records
check_records-step m previous end r rs h =
    stepped (not (not_after previous r.key)) (r.offset % m.alignment == 0) (record_range r) refl
      refl refl h
  where
    stepped :
        (b c : Bool) (w : Result FormatError (ℕ × ℕ))
        → not (not_after previous r.key) ≡ b
        → (r.offset % m.alignment == 0) ≡ c
        → record_range r ≡ w
        → (guard b (records_not_strictly_ordered r.key)
            >> guard c (unaligned_record r.key r.offset m.alignment)
            >> w
            >>= λ whole.
                check_bounds r end m.sidecar.length whole
                >> validate_record_segments r m.layout m.alignment
                >> check_records m (some r.key) whole.1 rs)
          ≡ ok tt
        → After previous r.key
          × (end ≤ r.offset)
          × IsPlaced m r
          × (check_records m (some r.key) (r.offset + r.length) rs ≡ ok tt)
    stepped true true (ok (w0, w1)) eb ec ew k =
        let (start, stop) = record_range-ok r w0 w1 ew in
        let (_, k1, k2) =
          >>=-eq-ok
            (check_bounds r end m.sidecar.length (w0, w1)
              >> validate_record_segments r m.layout m.alignment)
            _ k in
        let (_, bounds, segs) = >>=-eq-ok (check_bounds r end m.sidecar.length (w0, w1)) _ k1 in
        let (low, high) = check_bounds-ok r end m.sidecar.length w0 w1 bounds in
        (
          not_after-After previous r.key eb,
          omega arith,
          record {
            aligned = (==_iff _ 0).0 ec;
            within = omega arith;
            segments = validate_record_segments-IsWithin r m.layout m.alignment segs;
          },
          rw stop at k2,
        )
    stepped true true (err x) eb ec ew k = cc
    stepped true false w eb ec ew k = cc
    stepped false c w eb ec ew k = cc

pub check_records-Chain :
    (m : SidecarManifest) (previous : Option ExpertKey) (end : ℕ) (rs : List ExpertRecord)
    → check_records m previous end rs ≡ ok tt
    → Chain m previous end rs
check_records-Chain m previous end [] h = tt
check_records-Chain m previous end (r ∷ rs) h =
    let (after, low, placed, rest) = check_records-step m previous end r rs h in
    (after, low, placed, check_records-Chain m (some r.key) (r.offset + r.length) rs rest)
