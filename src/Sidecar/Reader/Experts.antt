-- ===== src/Sidecar/Reader/Experts.antt =====
-- What reading an expert of an opened sidecar returns.
use light_bridge_engine.Base.{
  ℕ, ◌+◌, ◌-◌, ◌≤◌, ◌<◌, ◌≡◌, refl, sym, List, Bool, some, Result, ok, slice, slice-slice,
  get_elem?, Option-cases, arith, inl, inr, checked_add, checked_add-fits, ◌∙◌, word_modulus,
}
use light_bridge_engine.Io.{read_exact_at}
use light_bridge_engine.Io.Exact.{Serves, read_exact_at-exact}
use light_bridge_engine.Sidecar.Types.{ExpertKey, ExpertRecord, Segment, range_of, record_range}
use light_bridge_engine.Sidecar.Manifest.{validate, record_at}
use light_bridge_engine.Sidecar.Manifest.Records.{IsWithin}
use light_bridge_engine.Sidecar.Layout.{validate-IsPlaced, record_at_iff, relative_range-within}
use light_bridge_engine.Sidecar.Reader.{
  Sidecar, ExpertBytes, part, gate, up, down, expert_bytes, read_expert, then_read,
}
use light_bridge_engine.Sidecar.Reader.Opening.{then_read-ok}

record_range-some :
    (r : ExpertRecord) (start end : ℕ)
    → record_range r ≡ ok (start, end)
    → (start ≡ r.offset) × (end ≡ r.offset + r.length) × (r.offset + r.length < word_modulus)
unfolding record_range range_of checked_add
record_range-some r start end h = ground arith

-- The bytes of a segment in the file.
abbrev pub segment_bytes : List ℕ → Segment → List ℕ
segment_bytes content s = slice s.offset (s.offset + s.length) content

abbrev relative : ExpertRecord → Segment → ℕ × ℕ
relative r s = (s.offset - r.offset, (s.offset - r.offset) + s.length)

part-relative :
    (content : List ℕ) (r : ExpertRecord) (s : Segment)
    → r.offset ≤ s.offset
    → s.offset + s.length ≤ r.offset + r.length
    → part (slice r.offset (r.offset + r.length) content) (relative r s) ≡ segment_bytes content s
unfolding part
part-relative content r s low high =
    let start : r.offset + (s.offset - r.offset) ≡ s.offset = omega arith in
    let end : r.offset + ((s.offset - r.offset) + s.length) ≡ s.offset + s.length = omega arith in
    rw
      (
        slice-slice (s.offset - r.offset) ((s.offset - r.offset) + s.length) r.offset
            (r.offset + r.length) content (omega arith) (omega arith),
        start,
        end,
      )
      refl

-- The bytes of a record with the ranges of its segments.
abbrev pub whole : ExpertRecord → List ℕ → ExpertBytes
whole r bytes = record {
  bytes = bytes;
  gate_range = relative r r.gate;
  up_range = relative r r.up;
  down_range = relative r r.down;
}

record_range-fits :
    (r : ExpertRecord)
    → r.offset + r.length < word_modulus
    → record_range r ≡ ok (r.offset, r.offset + r.length)
unfolding record_range range_of
record_range-fits r h = let e = checked_add-fits r.offset r.length h in rw (range_of, e) refl

-- The segments of a record that is placed have their ranges.
expert_bytes-within :
    {E J : Type 0} (r : ExpertRecord) (bytes : List ℕ)
    → IsWithin r
    → r.length < word_modulus
    → expert_bytes {E = E} {J = J} r bytes ≡ ok (whole r bytes)
unfolding expert_bytes
expert_bytes-within r bytes v word =
    let f = v.first in
    let gu = v.gate_up in
    let ud = v.up_down in
    let l = v.last in
    rw
      (
        relative_range-within r r.gate f (omega arith) word,
        relative_range-within r r.up (omega arith) (omega arith) word,
        relative_range-within r r.down (omega arith) l word,
      )
      refl

whole-parts :
    (content : List ℕ) (r : ExpertRecord) (bytes : List ℕ) (e : ExpertBytes)
    → IsWithin r
    → bytes ≡ slice r.offset (r.offset + r.length) content
    → whole r bytes ≡ e
    → (gate e ≡ segment_bytes content r.gate)
      × (up e ≡ segment_bytes content r.up)
      × (down e ≡ segment_bytes content r.down)
unfolding gate up down
whole-parts content r bytes e v exact same =
    let f = v.first in
    let gu = v.gate_up in
    let ud = v.up_down in
    let l = v.last in
    rw (sym same, exact)
      (
        part-relative content r r.gate f (omega arith),
        part-relative content r r.up (omega arith) (omega arith),
        part-relative content r r.down (omega arith) l,
      )

module _ {W E J : Type 0} (is_cancelled : W → W × Bool)
    (read_at_once : W → ℕ → ℕ → W × Result E (List ℕ)) (has_room : ℕ → Bool) where
  -- Of a valid sidecar whose length fits a word, reading an expert that the manifest lists is
  -- reading its record: the two fail alike, and the bytes are returned with the ranges of the
  -- segments in them.
  pub read_expert-reads :
      (s : Sidecar) (key : ExpertKey) (i : ℕ) (r : ExpertRecord) (w : W)
      → validate s.manifest ≡ ok tt
      → s.manifest.sidecar.length < word_modulus
      → get_elem? s.manifest.records i ≡ some r
      → r.key ≡ key
      → read_expert {J = J} is_cancelled read_at_once has_room s key w
        ≡ then_read
            (λ bytes. ok (whole r bytes))
            (read_exact_at is_cancelled read_at_once has_room s.contents r.offset
              (r.offset + r.length)
              w)
  unfolding read_expert
  read_expert-reads s key i r w valid word listed keyed =
      let found = (record_at_iff s.manifest key r valid).1 (i, listed, keyed) in
      let (low, placed) = validate-IsPlaced s.manifest i r valid listed in
      let within = placed.within in
      let range = record_range-fits r (omega arith) in
      let ranges : expert_bytes {E = E} {J = J} r ≡ (λ bytes. ok (whole r bytes)) =
        λ t bytes. expert_bytes-within r bytes placed.segments (omega arith) t in
      rw (read_expert, found, range, ranges) refl

  -- When an expert of a valid sidecar whose length fits a word is read, on a platform that serves
  -- runs of the file's bytes, the manifest lists a record of that key, and the gate, up and down
  -- parts are the bytes of the file at the offsets of its segments.
  pub read_expert-exact :
      (content : List ℕ)
      → Serves is_cancelled read_at_once content
      → (s : Sidecar) (key : ExpertKey) (w w' : W) (e : ExpertBytes) → validate s.manifest ≡ ok tt
      → s.manifest.sidecar.length < word_modulus
      → read_expert {J = J} is_cancelled read_at_once has_room s key w ≡ some (w', ok e)
      → (i : ℕ) × (r : ExpertRecord) × (get_elem? s.manifest.records i ≡ some r)
        × (r.key ≡ key)
        × (gate e ≡ segment_bytes content r.gate)
        × (up e ≡ segment_bytes content r.up)
        × (down e ≡ segment_bytes content r.down)
  unfolding read_expert
  read_expert-exact content serves s key w w' e valid word h =
      elim (Option-cases (record_at s.manifest key)) [
        | inl none_found ↦ let broken = rw (read_expert, none_found) at h in cc
        | inr (r, found) ↦
            let (i, listed, keyed) = (record_at_iff s.manifest key r valid).0 found in
            let (low, placed) = validate-IsPlaced s.manifest i r valid listed in
            let v = placed.segments in
            let reads = sym (read_expert-reads s key i r w valid word listed keyed) ∙ h in
            let (bytes, read, same) = then_read-ok (λ bytes. ok (whole r bytes)) _ w' e reads in
            let (exact, _) =
              read_exact_at-exact is_cancelled read_at_once content serves has_room s.contents
                r.offset (r.offset + r.length) w w' bytes read in
            let (g, u, d) = whole-parts content r bytes e v exact (ground arith) in
            (i, r, listed, keyed, g, u, d)
      ]
