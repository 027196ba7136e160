-- ===== src/Sidecar/Manifest/Search.antt =====
-- The binary search for a record.
use light_bridge_engine.Base.{
  ℕ, zero, suc, ◌+◌, ◌-◌, ◌/◌, ◌≤◌, ◌<◌, ◌≡◌, refl, subst, sym, ap, inl, inr, List, [], ◌∷◌, Bool,
  true, false, Option, none, some, ltb, length, get_elem?, get_elem?-some, arith, Bool-cases,
  lt→ltb,
}
use light_bridge_engine.Sidecar.Types.{ExpertKey, ExpertRecord, SidecarManifest}
use light_bridge_engine.Sidecar.Manifest.{key_lt, search, record_at}

-- The keys grow along the list.
abbrev pub Ascending : List ExpertRecord → Type 0
Ascending rs =
    (i j : ℕ) (q r : ExpertRecord)
    → i < j
    → get_elem? rs i ≡ some q
    → get_elem? rs j ≡ some r
    → key_lt q.key r.key ≡ true

key_lt_asym : (a b : ExpertKey) → key_lt a b ≡ true → key_lt b a ≡ false
unfolding key_lt
key_lt_asym a b h = ground arith

key_lt_irrefl : (a : ExpertKey) → key_lt a a ≡ false
unfolding key_lt
key_lt_irrefl a = ground arith

search_finds :
    (rs : List ExpertRecord) (fuel left right i : ℕ) (r : ExpertRecord)
    → Ascending rs
    → get_elem? rs i ≡ some r
    → left ≤ i
    → i < right
    → right ≤ length rs
    → right - left < fuel
    → search rs r.key fuel left right ≡ some i
unfolding search
search_finds rs zero left right i r up here low high fits fuel = absurd (omega arith)
search_finds rs (suc fuel) left right i r up here low high fits enough =
    let mid : ℕ = left + (right - left) / 2 in
    let (q, there) = get_elem?-some rs mid (omega arith) in
    let more = lt→ltb left right (omega arith) in
    elim (Bool-cases (ltb i mid)) [
      | inl before ↦
          let lt = up i mid r q (ground arith) here there in
          rw (search, more, there, key_lt_asym r.key q.key lt, lt)
            (search_finds rs fuel left mid i r up here low (ground arith) (omega arith)
              (omega arith))
      | inr late ↦ elim (Bool-cases (ltb mid i)) [
        | inl after ↦
            let lt = up mid i q r (ground arith) there here in
            rw (search, more, there, lt)
              (search_finds rs fuel (suc mid) right i r up here (ground arith) high fits
                (omega arith))
        | inr here' ↦
            let same : mid ≡ i = ground arith in
            let at_mid : get_elem? rs mid ≡ some r = rw same here in
            rw (search, more, at_mid, key_lt_irrefl r.key, key_lt_irrefl r.key) (ap some same)
      ]
    ]

get_elem?-below :
    (rs : List ExpertRecord) (i : ℕ) (r : ExpertRecord) → get_elem? rs i ≡ some r → i < length rs
get_elem?-below [] i r h = cc
get_elem?-below (x ∷ rs) zero r h = omega arith
get_elem?-below (x ∷ rs) (suc i) r h = omega (arith, get_elem?-below rs i r h)

-- Among ascending records the record at each index is found by its key.
pub record_at_finds :
    (m : SidecarManifest) (i : ℕ) (r : ExpertRecord)
    → Ascending m.records
    → get_elem? m.records i ≡ some r
    → record_at m r.key ≡ some r
unfolding record_at
record_at_finds m i r up here =
    let within = get_elem?-below m.records i r here in
    rw
      (
        record_at,
        search_finds m.records (suc (length m.records)) 0 (length m.records) i r up here
            (omega arith) within (omega arith) (omega arith),
      )
      here

key_lt-connected : (a b : ExpertKey) → key_lt a b ≡ false → key_lt b a ≡ false → a ≡ b
unfolding key_lt
key_lt-connected a b h k =
    let layer : a.layer ≡ b.layer = ground arith in
    let expert : a.expert ≡ b.expert = ground arith in
    λ t. record { layer = layer t; expert = expert t }

module _ (rs : List ExpertRecord) (key : ExpertKey) where
  abbrev IsFound : ℕ → Type 0
  IsFound i = (r : ExpertRecord) × (get_elem? rs i ≡ some r) × (r.key ≡ key)

  compared :
      (fuel left right mid i : ℕ) (r : ExpertRecord)
      → ((l h : ℕ) → search rs key fuel l h ≡ some i → IsFound i)
      → (above below : Bool) → get_elem? rs mid ≡ some r
      → key_lt r.key key ≡ above
      → key_lt key r.key ≡ below
      → elim above [
        | true ↦ search rs key fuel (suc mid) right
        | false ↦ elim below [ true ↦ search rs key fuel left mid | false ↦ some mid ]
      ]
        ≡ some i
      → IsFound i
  compared fuel left right mid i r rest true below there up down k = rest (suc mid) right k
  compared fuel left right mid i r rest false true there up down k = rest left mid k
  compared fuel left right mid i r rest false false there up down k =
      let same : mid ≡ i = ground arith in
      (r, rw (sym same) there, key_lt-connected r.key key up down)

  probe :
      (fuel left right i : ℕ)
      → ((l h : ℕ) → search rs key fuel l h ≡ some i → IsFound i)
      → (more : Bool) (o : Option ExpertRecord) → get_elem? rs (left + (right - left) / 2) ≡ o
      → elim more [
        | false ↦ none
        | true ↦ elim o [
          | none ↦ none
          | some r ↦ elim (key_lt r.key key) [
            | true ↦ search rs key fuel (suc (left + (right - left) / 2)) right
            | false ↦ elim (key_lt key r.key) [
              | true ↦ search rs key fuel left (left + (right - left) / 2)
              | false ↦ some (left + (right - left) / 2)
            ]
          ]
        ]
      ]
        ≡ some i
      → IsFound i
  probe fuel left right i rest false o there k = cc
  probe fuel left right i rest true none there k = cc
  probe fuel left right i rest true (some r) there k =
      compared fuel left right _ i r rest (key_lt r.key key) (key_lt key r.key) there refl refl k

search-key :
    (rs : List ExpertRecord) (key : ExpertKey) (fuel left right i : ℕ)
    → search rs key fuel left right ≡ some i
    → (r : ExpertRecord) × (get_elem? rs i ≡ some r) × (r.key ≡ key)
unfolding search
search-key rs key zero left right i h = cc
search-key rs key (suc fuel) left right i h =
    probe rs key fuel left right i (λ l r. search-key rs key fuel l r i) (ltb left right)
      (get_elem? rs (left + (right - left) / 2)) refl h

-- A record that is found is one of the manifest's, and has the key that was asked for.
pub record_at_sound :
    (m : SidecarManifest) (key : ExpertKey) (r : ExpertRecord)
    → record_at m key ≡ some r
    → (i : ℕ) × (get_elem? m.records i ≡ some r) × (r.key ≡ key)
unfolding record_at
record_at_sound m key r h =
    found (search m.records key (suc (length m.records)) 0 (length m.records)) refl h
  where
    found :
        (o : Option ℕ)
        → search m.records key (suc (length m.records)) 0 (length m.records) ≡ o
        → elim o [ none ↦ none | some index ↦ get_elem? m.records index ] ≡ some r
        → (i : ℕ) × (get_elem? m.records i ≡ some r) × (r.key ≡ key)
    found none e k = cc
    found (some i) e k =
        let (q, there, same) =
          search-key m.records key (suc (length m.records)) 0 (length m.records) i e in
        let one : q ≡ r = ground arith in (i, k, subst (λ (x : ExpertRecord). x.key ≡ key) one same)
