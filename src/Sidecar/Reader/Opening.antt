-- ===== src/Sidecar/Reader/Opening.antt =====
-- What an opened sidecar is.
use light_bridge_engine.Base.{
  ℕ, ◌≡◌, refl, List, Bool, true, false, none, some, Result, ok, err, ◌>>=◌, map_err, Result-cases,
  arith, inl, inr, >>=-eq-ok, Bool-cases, ltb, subst, zero, suc, ◌+◌, ◌-◌, ◌≤◌, [], ◌∷◌, ap, ◌∙◌,
  ◌⊎◌, max, length, slice, get_elem?, dec_le,
}
use light_bridge_engine.Io.{PositionedFile, Opened, Filled, open_with, validate_range}
use light_bridge_engine.Io.Exact.{Serves, read_exact_at-exact}
use light_bridge_engine.Sidecar.Header.{SidecarHeader, decode}
use light_bridge_engine.Sidecar.Layout.{validate-IsPlaced}
use light_bridge_engine.Sidecar.Types.{
  FormatError, SidecarManifest, sidecar_header_bytes, ExpertRecord, ExpertLayout, sequential,
  fused_gate_up,
}
use light_bridge_engine.Sidecar.Manifest.{validate}
use light_bridge_engine.Sidecar.Reader.{
  SidecarError, Sidecar, longest, load_manifest, check_manifest, format, manifest_io, manifest_json,
  max_manifest_bytes, open_data, check_header, then_read, open_sidecar, same_layout, matches,
}

-- The header of a file agrees with a manifest.
abbrev pub header_of : SidecarManifest → SidecarHeader
header_of m = record {
  format_version = m.format_version;
  layout = m.layout;
  alignment = m.alignment;
  record_count = length m.records;
}

-- The manifest is valid and of the length of the data, and the file's header agrees with it. The
-- range of every record may be read in one request, and so may the header; the limit on a request
-- is no greater than the longest of them.
pub record IsOpened (E : Type 0) (content : List ℕ) (s : Sidecar) : Type 0 where
  pub valid : validate s.manifest ≡ ok tt
  pub sized : s.contents.file_length ≡ s.manifest.sidecar.length
  pub header : decode (slice 0 sidecar_header_bytes content) ≡ ok (header_of s.manifest)
  pub readable :
      (i : ℕ) (r : ExpertRecord)
      → get_elem? s.manifest.records i ≡ some r
      → validate_range {E = E} s.contents r.offset (r.offset + r.length) ≡ ok r.length
  pub header_fits : sidecar_header_bytes ≤ s.contents.max_request_bytes
  pub no_more :
      (s.contents.max_request_bytes ≡ sidecar_header_bytes)
      ⊎ ((i : ℕ) × (r : ExpertRecord) × (get_elem? s.manifest.records i ≡ some r)
          × (s.contents.max_request_bytes ≡ r.length))

longest_covers :
    (n : ℕ) (records : List ExpertRecord) (i : ℕ) (r : ExpertRecord)
    → get_elem? records i ≡ some r
    → r.length ≤ longest n records
unfolding longest
longest_covers n [] i r h = cc
longest_covers n (q ∷ records) zero r h =
    let same : q ≡ r = cc in let sizes = ap (λ (x : ExpertRecord). x.length) same in omega arith
longest_covers n (q ∷ records) (suc i) r h = omega (arith, longest_covers n records i r h)

pub longest_low : (n : ℕ) (records : List ExpertRecord) → n ≤ longest n records
unfolding longest
longest_low n [] = omega arith
longest_low n (q ∷ records) = omega (arith, longest_low n records)

longest_attained :
    (n : ℕ) (records : List ExpertRecord)
    → (longest n records ≡ n)
      ⊎ ((i : ℕ) × (r : ExpertRecord) × (get_elem? records i ≡ some r)
          × (longest n records ≡ r.length))
unfolding longest
longest_attained n [] = inl refl
longest_attained n (q ∷ records) = elim (dec_le (longest n records) q.length) [
  | yes short ↦ inr (0, q, refl, omega (arith, short))
  | no long ↦
      let rest : max q.length (longest n records) ≡ longest n records = omega (arith, long) in
      elim (longest_attained n records) [
        | inl e ↦ inl (rest ∙ e)
        | inr (i, r, here, e) ↦ inr (suc i, r, here, rest ∙ e)
      ]
]

same_layout-eq : (a b : ExpertLayout) → same_layout a b ≡ true → a ≡ b
unfolding same_layout
same_layout-eq sequential sequential h = refl
same_layout-eq sequential fused_gate_up h = cc
same_layout-eq fused_gate_up sequential h = cc
same_layout-eq fused_gate_up fused_gate_up h = refl

matches-header_of : (h : SidecarHeader) (m : SidecarManifest) → matches h m ≡ true → h ≡ header_of m
unfolding matches
matches-header_of h m agree =
    let version : h.format_version ≡ m.format_version = ground arith in
    let layout : h.layout ≡ m.layout = same_layout-eq h.layout m.layout (ground arith) in
    let alignment : h.alignment ≡ m.alignment = ground arith in
    let count : h.record_count ≡ length m.records = ground arith in cc

-- A record of a valid manifest may be read from a file of its length, given a limit that covers it.
validate_range-record :
    {E : Type 0} (f : PositionedFile) (m : SidecarManifest) (i : ℕ) (r : ExpertRecord)
    → validate m ≡ ok tt
    → f.file_length ≡ m.sidecar.length
    → f.max_request_bytes ≡ longest sidecar_header_bytes m.records
    → get_elem? m.records i ≡ some r
    → validate_range {E = E} f r.offset (r.offset + r.length) ≡ ok r.length
unfolding validate_range
validate_range-record f m i r valid sized limit here =
    let placed = (validate-IsPlaced m i r valid here).1 in
    let within = placed.within in
    let covered = longest_covers sidecar_header_bytes m.records i r here in
    let size : r.offset + r.length - r.offset ≡ r.length = omega arith in
    let a : ltb (r.offset + r.length) r.offset ≡ false = ground arith in
    let b : ltb f.file_length (r.offset + r.length) ≡ false = ground arith in
    let c : ltb f.max_request_bytes r.length ≡ false = ground arith in rw (a, b, size, c) refl

open_with-limit :
    {E : Type 0} (limit : ℕ) (opened : Opened E) (f : PositionedFile)
    → open_with limit opened ≡ ok f
    → f.max_request_bytes ≡ limit
unfolding open_with
open_with-limit limit (err e) f h = ground arith
open_with-limit limit (ok (err e)) f h = ground arith
open_with-limit limit (ok (ok (false, n))) f h = ground arith
open_with-limit limit (ok (ok (true, n))) f h = ground arith

module _ {E J : Type 0} where
  pub check_manifest-valid :
      (m' m : SidecarManifest) → check_manifest {E = E} {J = J} m' ≡ ok m → validate m ≡ ok tt
  unfolding check_manifest
  check_manifest-valid m' m h = checked (validate m') refl h
    where
      checked :
          (v : Result FormatError (Unit {0}))
          → validate m' ≡ v
          → Path
              (Result (SidecarError E J) SidecarManifest)
              (map_err format v >>= λ _. ok m')
              (ok m)
          → validate m ≡ ok tt
      checked (ok tt) e k =
          let same : m' ≡ m = ground arith in subst (λ x. validate x ≡ ok tt) same e
      checked (err x) e k = cc

  load_manifest-valid :
      (parse : List ℕ → Result J SidecarManifest) (metadata : Result E (Bool × ℕ))
      (contents : Result E (List ℕ)) (m : SidecarManifest)
      → load_manifest {E = E} parse metadata contents ≡ ok m
      → validate m ≡ ok tt
  unfolding load_manifest
  load_manifest-valid parse (err e) contents m h = cc
  load_manifest-valid parse (ok (false, size)) contents m h = cc
  load_manifest-valid parse (ok (true, size)) contents m h =
      elim (Bool-cases (ltb max_manifest_bytes size)) [
        | inl large ↦ let broken = rw large at h in cc
        | inr small ↦
            let k = rw small at h in
            let (bytes, _, parsed) = >>=-eq-ok (map_err manifest_io contents) _ k in
            let (m', _, checked) = >>=-eq-ok (map_err manifest_json (parse bytes)) _ parsed in
            check_manifest-valid m' m checked
      ]

  open_data-file :
      (opened : Opened E) (m : SidecarManifest) (f : PositionedFile)
      → open_data {J = J} opened m ≡ ok f
      → (f.file_length ≡ m.sidecar.length)
        × (f.max_request_bytes ≡ longest sidecar_header_bytes m.records)
  unfolding open_data
  open_data-file opened m f h =
      ground (arith, open_with-limit (longest sidecar_header_bytes m.records) opened f)

  pub check_header-ok :
      (f : PositionedFile) (m : SidecarManifest) (bytes : List ℕ) (s : Sidecar)
      → check_header {E = E} {J = J} f m bytes ≡ ok s
      → (s ≡ record { contents = f; manifest = m }) × (decode bytes ≡ ok (header_of m))
  unfolding check_header
  check_header-ok f m bytes s h = elim (Result-cases (decode bytes)) [
    | inr (x, e) ↦ let broken = rw e at h in cc
    | inl (found, e) ↦
        let k = rw e at h in
        elim (Bool-cases (matches found m)) [
          | inr apart ↦ let broken = rw apart at k in cc
          | inl agree ↦
              let opened = rw agree at k in
              (ground arith, e ∙ ap (λ (x : SidecarHeader). ok x) (matches-header_of found m agree))
        ]
  ]

module _ {W E J : Type 0} where
  pub then_read-ok :
      {A : Type 0} (next : List ℕ → Result (SidecarError E J) A) (out : Filled W E) (w : W) (a : A)
      → then_read next out ≡ some (w, ok a)
      → (bytes : List ℕ) × (out ≡ some (w, ok bytes)) × (next bytes ≡ ok a)
  unfolding then_read
  then_read-ok next none w a h = cc
  then_read-ok next (some (v, err e)) w a h = cc
  then_read-ok next (some (v, ok bytes)) w a h =
      let world : v ≡ w = ground arith in (bytes, rw world refl, ground arith)

  -- A sidecar that opens on a platform that serves runs of the file's bytes has a valid manifest of
  -- the length of its data, with which the file's header agrees. Each of its records, wherever it
  -- stands, may be read in one request: its range is within the file and within the limit, which is
  -- the longest record or the header, whichever is longer.
  pub open_sidecar-IsOpened :
      (content : List ℕ) (read_at_once : W → ℕ → ℕ → W × Result E (List ℕ)) (has_room : ℕ → Bool)
      (parse : List ℕ → Result J SidecarManifest) (metadata : Result E (Bool × ℕ))
      (contents : Result E (List ℕ)) (opened : Opened E) (w w' : W) (s : Sidecar)
      → Serves (λ v. (v, false)) read_at_once content
      → open_sidecar read_at_once has_room parse metadata contents opened w ≡ some (w', ok s)
      → IsOpened E content s
  unfolding open_sidecar
  open_sidecar-IsOpened content read_at_once has_room parse metadata contents opened w w' s serves
        h =
      elim (Result-cases (load_manifest {E = E} parse metadata contents)) [
        | inr (x, e) ↦ let broken = rw (open_sidecar, e) at h in cc
        | inl (m, e) ↦ elim (Result-cases (open_data {J = J} opened m)) [
          | inr (x, k) ↦ let broken = rw (open_sidecar, e, k) at h in cc
          | inl (f, k) ↦
              let read = rw (open_sidecar, e, k) at h in
              let (bytes, served, checked) = then_read-ok (check_header f m) _ w' s read in
              let (sized, limit) = open_data-file opened m f k in
              let valid = load_manifest-valid parse metadata contents m e in
              let (same, agrees) = check_header-ok f m bytes s checked in
              let exact : bytes ≡ slice 0 sidecar_header_bytes content =
                (read_exact_at-exact (λ v. (v, false)) read_at_once content serves has_room f 0
                  sidecar_header_bytes w w' bytes served).0 in
              rw same (record {
                valid = valid;
                sized = sized;
                header = rw exact at agrees;
                readable = λ i r here. validate_range-record f m i r valid sized limit here;
                header_fits = rw limit (longest_low sidecar_header_bytes m.records);
                no_more = rw limit (longest_attained sidecar_header_bytes m.records);
              })
        ]
      ]
