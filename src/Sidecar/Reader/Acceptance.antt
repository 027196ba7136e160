-- ===== src/Sidecar/Reader/Acceptance.antt =====
-- When a sidecar opens.
use light_bridge_engine.Base.{
  ℕ, ◌≡◌, refl, sym, ◌∙◌, List, Bool, true, false, inl, inr, some, Result, ok, err, Result-cases,
  slice,
}
use light_bridge_engine.Io.{ReadError, Opened, Filled, read_exact_at}
use light_bridge_engine.Io.Exact.{Serves, read_exact_at-exact}
use light_bridge_engine.Io.Reads.{read_exact_at-Ends}
use light_bridge_engine.Sidecar.Header.{decode}
use light_bridge_engine.Sidecar.Types.{SidecarManifest, sidecar_header_bytes}
use light_bridge_engine.Sidecar.Reader.{
  SidecarError, Sidecar, load_manifest, read, open_data, check_header, then_read, open_sidecar,
}
use light_bridge_engine.Sidecar.Reader.Opening.{header_of, check_header-ok}
use light_bridge_engine.Sidecar.Reader.Conditions.{
  Loads, load_manifest-Loads, Loads-load_manifest, file_of, open_data-Opened, Opened-open_data,
  check_header-agrees,
}

module _ {W E J : Type 0} (content : List ℕ) (read_at_once : W → ℕ → ℕ → W × Result E (List ℕ))
    (has_room : ℕ → Bool) (parse : List ℕ → Result J SidecarManifest)
    (metadata : Result E (Bool × ℕ)) (contents : Result E (List ℕ)) (opened : Opened E) where
  -- The manifest loads, the data file is a regular one of the length that it gives, and the header
  -- in the file's bytes agrees with it.
  pub record Openable (m : SidecarManifest) : Type 0 where
    pub loads : Loads {E = E} parse metadata contents m
    pub found : opened ≡ ok (ok (true, m.sidecar.length))
    pub agrees : decode (slice 0 sidecar_header_bytes content) ≡ ok (header_of m)

  -- The read of the header.
  abbrev pub read_header : SidecarManifest → W → Filled W E
  read_header m w =
      read_exact_at (λ v. (v, false)) read_at_once has_room (file_of m) 0 sidecar_header_bytes w

  -- The only sidecar that opens is that of the manifest; a refused one is not fit to be opened, or
  -- the system does not read its header.
  abbrev pub OpensOr : W → W × Result (SidecarError E J) Sidecar → Type 0
  OpensOr w (w', ok s) =
      (m : SidecarManifest) × Openable m × (s ≡ record { contents = file_of m; manifest = m })
  OpensOr w (w', err e) =
      (m : SidecarManifest)
      → Openable m
      → (x : ReadError E) × (e ≡ read x) × (read_header m w ≡ some (w', err x))

  module _ (serves : Serves (λ v. (v, false)) read_at_once content) (w : W) where
    Openable-open_data :
        (m : SidecarManifest) → Openable m → open_data {J = J} opened m ≡ ok (file_of m)
    Openable-open_data m o = rw o.found (Opened-open_data m)

    -- The manifest that is loaded is that of any fit one.
    Openable-same :
        (m n : SidecarManifest)
        → load_manifest {E = E} {J = J} parse metadata contents ≡ ok m
        → Openable n
        → n ≡ m
    Openable-same m n e o =
        let both = sym (Loads-load_manifest parse metadata contents n o.loads) ∙ e in cc

    header_ends :
        (m : SidecarManifest)
        → load_manifest {E = E} {J = J} parse metadata contents ≡ ok m
        → opened ≡ ok (ok (true, m.sidecar.length))
        → (r : W × Result (ReadError E) (List ℕ)) → read_header m w ≡ some r
        → (out : W × Result (SidecarError E J) Sidecar) × (then_read
              (check_header (file_of m) m)
              (read_header m w)
            ≡ some out)
          × OpensOr w out
    unfolding then_read
    header_ends m e found (w', err x) h = (
      (w', err (read x)),
      rw (then_read, h) refl,
      λ n o. (x, refl, let same = Openable-same m n e o in rw same h),
    )
    header_ends m e found (w', ok bytes) h =
        let exact : bytes ≡ slice 0 sidecar_header_bytes content =
          (read_exact_at-exact (λ v. (v, false)) read_at_once content serves has_room (file_of m) 0
            sidecar_header_bytes w w' bytes h).0 in
        elim (Result-cases (check_header {E = E} {J = J} (file_of m) m bytes)) [
          | inl (s, k) ↦
              let (same, agrees) = check_header-ok (file_of m) m bytes s k in
              (
                (w', ok s),
                rw (then_read, h, k) refl,
                (
                  m,
                  record {
                    loads = load_manifest-Loads parse metadata contents m e;
                    found = found;
                    agrees = rw exact at agrees;
                  },
                  same,
                ),
              )
          | inr (x, k) ↦ (
            (w', err x),
            rw (then_read, h, k) refl,
            λ n o.
                let same = Openable-same m n e o in
                let agrees : decode bytes ≡ ok (header_of m) = rw (exact, sym same) o.agrees in
                absurd (let both = sym (check_header-agrees (file_of m) m bytes agrees) ∙ k in cc),
          )
        ]

    -- On a platform that serves runs of the file's bytes, opening a sidecar ends. It opens exactly
    -- where its manifest file is a regular one within the limit, of which a valid manifest is
    -- parsed, its data file is a regular one of the manifest's length, and the header in its bytes
    -- agrees with the manifest, unless the system fails to read the header, and that error is the
    -- result. The opened sidecar has that manifest, and that file under the limit of the longest
    -- record.
    pub open_sidecar-Ends :
        (out : W × Result (SidecarError E J) Sidecar) × (open_sidecar read_at_once has_room parse
            metadata contents opened w
          ≡ some out)
        × OpensOr w out
    unfolding open_sidecar
    open_sidecar-Ends =
        elim (Result-cases (load_manifest {E = E} {J = J} parse metadata contents)) [
          | inr (x, e) ↦ (
            (w, err x),
            rw (open_sidecar, e) refl,
            λ n o.
                absurd (
                  let both = sym (Loads-load_manifest parse metadata contents n o.loads) ∙ e in cc),
          )
          | inl (m, e) ↦ elim (Result-cases (open_data {J = J} opened m)) [
            | inr (x, k) ↦ (
              (w, err x),
              rw (open_sidecar, e, k) refl,
              λ n o.
                  let ready = rw (Openable-same m n e o) at (Openable-open_data n o) in
                  absurd (let both = sym ready ∙ k in cc),
            )
            | inl (f, k) ↦
                let found = open_data-Opened opened m f k in
                let same : f ≡ file_of m =
                  let ready : open_data {J = J} opened m ≡ ok (file_of m) =
                    rw found (Opened-open_data m) in
                  let both = sym k ∙ ready in cc in
                let k' = rw same at k in
                let (r, h) =
                  read_exact_at-Ends (λ v. (v, false)) read_at_once has_room (file_of m) 0
                    sidecar_header_bytes w in
                rw (open_sidecar, e, k') (header_ends m e found r h)
          ]
        ]
