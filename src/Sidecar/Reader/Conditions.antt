-- ===== src/Sidecar/Reader/Conditions.antt =====
-- What is asked of the files of a sidecar, and that the steps of opening it ask for just that.
use light_bridge_engine.Base.{
  ℕ, ◌≤◌, ◌≡◌, refl, ap, ◌∙◌, List, Bool, true, false, inl, inr, Result, ok, err, map_err,
  Result-cases, Bool-cases, >>=-eq-ok, arith, ltb, ◌==◌, ==_iff, length,
}
use light_bridge_engine.Io.{PositionedFile, Opened, open_with}
use light_bridge_engine.Sidecar.Header.{decode}
use light_bridge_engine.Sidecar.Types.{
  SidecarManifest, sidecar_header_bytes, ExpertLayout, sequential, fused_gate_up,
}
use light_bridge_engine.Sidecar.Manifest.{validate}
use light_bridge_engine.Sidecar.Reader.{
  longest, load_manifest, check_manifest, manifest_io, manifest_json, format, max_manifest_bytes,
  open_data, check_header, same_layout, matches,
}
use light_bridge_engine.Sidecar.Reader.Opening.{header_of, check_manifest-valid, longest_low}

map_err-ok : {E F A : Type 0} (f : E → F) (r : Result E A) (a : A) → map_err f r ≡ ok a → r ≡ ok a
map_err-ok f (ok b) a h = let same : b ≡ a = cc in ap (λ (x : _). ok x) same
map_err-ok f (err e) a h = cc

module _ {E J : Type 0} (parse : List ℕ → Result J SidecarManifest) (metadata : Result E (Bool × ℕ))
    (contents : Result E (List ℕ)) where
  -- The manifest file is a regular one within the limit, and a valid manifest is read from it.
  pub record Loads (m : SidecarManifest) : Type 0 where
    pub size : ℕ
    pub regular : metadata ≡ ok (true, size)
    pub small : size ≤ max_manifest_bytes
    pub bytes : List ℕ
    pub there : contents ≡ ok bytes
    pub parsed : parse bytes ≡ ok m
    pub valid : validate m ≡ ok tt

  pub load_manifest-Loads :
      (m : SidecarManifest) → load_manifest {E = E} parse metadata contents ≡ ok m → Loads m
  unfolding load_manifest check_manifest
  load_manifest-Loads m h = elim (Result-cases metadata) [
    | inr (x, e) ↦ let broken = rw (load_manifest, e) at h in cc
    | inl ((false, size), e) ↦ let broken = rw (load_manifest, e) at h in cc
    | inl ((true, size), e) ↦
        let k = rw (load_manifest, e) at h in
        elim (Bool-cases (ltb max_manifest_bytes size)) [
          | inl large ↦ let broken = rw large at k in cc
          | inr small ↦
              let (bytes, there, rest) =
                >>=-eq-ok (map_err manifest_io contents) _ (rw small at k) in
              let (m', parsed, checked) = >>=-eq-ok (map_err manifest_json (parse bytes)) _ rest in
              let (u, _, same) = >>=-eq-ok (map_err format (validate m')) _ checked in
              record {
                size = size;
                regular = e;
                small = ground arith;
                bytes = bytes;
                there = map_err-ok manifest_io contents bytes there;
                parsed = map_err-ok manifest_json (parse bytes) m (parsed ∙ same);
                valid = check_manifest-valid m' m checked;
              }
        ]
  ]

  pub Loads-load_manifest :
      (m : SidecarManifest) → Loads m → load_manifest {E = E} parse metadata contents ≡ ok m
  unfolding load_manifest check_manifest
  Loads-load_manifest m l =
      let small : ltb max_manifest_bytes l.size ≡ false = ground (arith, l.small) in
      rw (l.regular, small, l.there, l.parsed, l.valid) refl

-- The data file as it opens for a manifest.
abbrev pub file_of : SidecarManifest → PositionedFile
file_of m = record {
  file_length = m.sidecar.length;
  max_request_bytes = longest sidecar_header_bytes m.records;
}

longest_positive : (m : SidecarManifest) → (longest sidecar_header_bytes m.records == 0) ≡ false
longest_positive m = let low = longest_low sidecar_header_bytes m.records in ground (arith, low)

same_layout-refl : (a : ExpertLayout) → same_layout a a ≡ true
unfolding same_layout
same_layout-refl sequential = refl
same_layout-refl fused_gate_up = refl

module _ {E J : Type 0} where
  pub open_data-Opened :
      (opened : Opened E) (m : SidecarManifest) (f : PositionedFile)
      → open_data {J = J} opened m ≡ ok f
      → opened ≡ ok (ok (true, m.sidecar.length))
  unfolding open_data open_with
  open_data-Opened opened m f h = elim (Result-cases opened) [
    | inr (x, e) ↦ ground (arith, e)
    | inl (inner, e) ↦ ground (arith, e, Result-cases inner)
  ]

  pub Opened-open_data :
      (m : SidecarManifest)
      → open_data {E = E} {J = J} (ok (ok (true, m.sidecar.length))) m ≡ ok (file_of m)
  unfolding open_data open_with
  Opened-open_data m =
      let same : (m.sidecar.length == m.sidecar.length) ≡ true = (==_iff _ _).1 refl in
      rw (open_data, open_with, longest_positive m, same) refl

  pub check_header-agrees :
      (f : PositionedFile) (m : SidecarManifest) (bytes : List ℕ)
      → decode bytes ≡ ok (header_of m)
      → check_header {E = E} {J = J} f m bytes ≡ ok (record { contents = f; manifest = m })
  unfolding check_header matches
  check_header-agrees f m bytes h =
      let version : (m.format_version == m.format_version) ≡ true = (==_iff _ _).1 refl in
      let alignment : (m.alignment == m.alignment) ≡ true = (==_iff _ _).1 refl in
      let count : (length m.records == length m.records) ≡ true = (==_iff _ _).1 refl in
      rw (check_header, h, version, same_layout-refl m.layout, alignment, count) refl
