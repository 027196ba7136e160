-- ===== src/Cache/Heat/Imports.antt =====
-- What an import does to the heat.
use light_bridge_engine.Base.{
  ℕ, zero, suc, ◌≤◌, ◌<◌, ◌≡◌, refl, sym, subst, ap, ◌∙◌, max, List, [], ◌∷◌, Option, some, none,
  ltb, ◌==◌, Result, ok, err, length, arith, Bool-cases, Result-cases, inl, inr, All, ite, ==_iff,
  ◌⊎◌,
}
use light_bridge_engine.Base.Bytes.{same_bytes, same_bytes_iff}
use light_bridge_engine.Base.Table.{find, find-insert}
use light_bridge_engine.Cache.Types.{State}
use light_bridge_engine.Cache.Heat.{
  HeatSnapshot, HeatError, zero_requests, heat_format, heat_version, raise_heat, import_entries,
  import_snapshot, import_heat_json,
}

module _ {K : Type 0} (dec : Discrete K) where
  -- The requests of a key, none if it is not there.
  abbrev pub heat_of : K → List (K × ℕ) → ℕ
  heat_of q heat = elim (find dec q heat) [ none ↦ 0 | some n ↦ n ]

  -- The most requests that any entry gives a key.
  abbrev pub highest : K → List (K × ℕ) → ℕ
  highest q [] = 0
  highest q ((k, n) ∷ entries) = ite (dec k q) (max n (highest q entries)) (highest q entries)

  abbrev pub stored : Option ℕ → ℕ
  stored none = 0
  stored (some n) = n

  abbrev raised : ℕ → Option ℕ → ℕ
  raised n none = max 0 n
  raised n (some m) = max m n

  stored-raised :
      (k q : K) (d : Dec (k ≡ q)) (n : ℕ) (old other : Option ℕ)
      → (k ≡ q → old ≡ other)
      → stored (ite d (some (raised n old)) other) ≡ ite d (max n (stored other)) (stored other)
  stored-raised k q (no apart) n old other h = refl
  stored-raised k q (yes same) n none none h = omega arith
  stored-raised k q (yes same) n (some m) none h = let broken = h same in cc
  stored-raised k q (yes same) n none (some x) h = let broken = h same in cc
  stored-raised k q (yes same) n (some m) (some x) h =
      let e : m ≡ x = let here = h same in cc in omega arith

  heat_of-raise_heat :
      (k q : K) (n : ℕ) (heat : List (K × ℕ))
      → heat_of q (raise_heat dec k n heat)
        ≡ ite (dec k q) (max n (heat_of q heat)) (heat_of q heat)
  unfolding raise_heat
  heat_of-raise_heat k q n heat =
      ap stored (find-insert dec k q (raised n (find dec k heat)) heat)
      ∙ stored-raised k q (dec k q) n (find dec k heat) (find dec q heat)
          (ap (λ x. find dec x heat))

  ite-max :
      (k q : K) (d : Dec (k ≡ q)) (n old rest : ℕ)
      → max (ite d (max n old) old) rest ≡ max old (ite d (max n rest) rest)
  ite-max k q (yes same) n old rest = omega arith
  ite-max k q (no apart) n old rest = refl

  -- The requests after the loop over the entries are the most of those before and those of the
  -- entries that were read.
  heat_of-import_entries :
      (J : Type 0) (entries : List (K × ℕ)) (s : State K) (q : K)
      → All (λ x. 0 < x.1) entries
      → heat_of q (import_entries dec {J = J} entries s).0.heat
        ≡ max (heat_of q s.heat) (highest q entries)
  unfolding import_entries
  heat_of-import_entries J [] s q positive = omega arith
  heat_of-import_entries J ((k, zero) ∷ entries) s q positive = absurd (omega (arith, positive.0))
  heat_of-import_entries J ((k, suc n) ∷ entries) s q positive =
      heat_of-import_entries J entries (record s { heat = raise_heat dec k (suc n) s.heat }) q
        positive.1
      ∙ ap (λ (x : ℕ). max x (highest q entries)) (heat_of-raise_heat k q (suc n) s.heat)
      ∙ ite-max k q (dec k q) (suc n) (heat_of q s.heat) (highest q entries)

  -- The loop keeps all but the heat, and ends well exactly where every entry has requests.
  import_entries-Ends :
      (J : Type 0) (entries : List (K × ℕ)) (s : State K)
      → let out = import_entries dec {J = J} entries s in
        (out.0 ≡ record s { heat = out.0.heat })
        × ((All (λ x. 0 < x.1) entries × (out.1 ≡ ok (length out.0.heat)))
            ⊎ ((All (λ x. 0 < x.1) entries → ⊥) × (out.1 ≡ err zero_requests)))
  unfolding import_entries
  import_entries-Ends J [] s = (refl, inl (tt, refl))
  import_entries-Ends J ((k, zero) ∷ entries) s =
      (refl, inr ((λ positive. omega (arith, positive.0)), refl))
  import_entries-Ends J ((k, suc n) ∷ entries) s =
      let (same, ends) =
        import_entries-Ends J entries (record s { heat = raise_heat dec k (suc n) s.heat }) in
      (
        same,
        elim ends [
          | inl (positive, e) ↦ inl ((omega arith, positive), e)
          | inr (some_zero, e) ↦ inr ((λ positive. some_zero positive.1), e)
        ],
      )

  -- No entry lowers a key, also where the loop breaks off.
  heat_of-le :
      (J : Type 0) (entries : List (K × ℕ)) (s : State K) (q : K)
      → heat_of q s.heat ≤ heat_of q (import_entries dec {J = J} entries s).0.heat
  unfolding import_entries
  heat_of-le J [] s q = omega arith
  heat_of-le J ((k, zero) ∷ entries) s q = omega arith
  heat_of-le J ((k, suc n) ∷ entries) s q =
      let rest = heat_of-le J entries (record s { heat = raise_heat dec k (suc n) s.heat }) q in
      let first = ite-le k q (dec k q) (suc n) (heat_of q s.heat) in
      let step = heat_of-raise_heat k q (suc n) s.heat in omega (arith, rest, first, step)
    where
      ite-le : (k q : K) (d : Dec (k ≡ q)) (n old : ℕ) → old ≤ ite d (max n old) old
      ite-le k q (yes same) n old = omega arith
      ite-le k q (no apart) n old = omega arith

  -- A snapshot that may be imported.
  pub record IsAccepted (maximum_entries : ℕ) (shot : HeatSnapshot K) : Type 0 where
    pub formatted : shot.format ≡ heat_format
    pub versioned : shot.version ≡ heat_version
    pub few : length shot.entries ≤ maximum_entries
    pub positive : All (λ x. 0 < x.1) shot.entries

  module _ (J : Type 0) (s : State K) where
    abbrev Out : Type 0
    Out = State K × Result (HeatError J) ℕ

    -- Every key has the most of its requests before and those that the snapshot gives it.
    abbrev pub Imports : HeatSnapshot K → Out → Type 0
    Imports shot out =
        (out.1 ≡ ok (length out.0.heat))
        × ((q : K) → heat_of q out.0.heat ≡ max (heat_of q s.heat) (highest q shot.entries))

    abbrev pub Refuses : Out → Type 0
    Refuses out =
        ((e : HeatError J) × (out.1 ≡ err e)) × ((q : K) → heat_of q s.heat ≤ heat_of q out.0.heat)

    -- All but the heat is as it was.
    abbrev pub Keeps : Out → Type 0
    Keeps out = out.0 ≡ record s { heat = out.0.heat }

    Refuses-unchanged : (e : HeatError J) → Refuses (s, err e)
    Refuses-unchanged e = ((e, refl), λ q. omega arith)

    import_snapshot-Ends :
        (shot : HeatSnapshot K) (maximum_entries : ℕ)
        → let out = import_snapshot dec shot s maximum_entries in
          Keeps out
          × ((IsAccepted maximum_entries shot × Imports shot out)
              ⊎ ((IsAccepted maximum_entries shot → ⊥) × Refuses out))
    unfolding import_snapshot
    import_snapshot-Ends shot maximum_entries =
        let entries = shot.entries in
        elim (Bool-cases (same_bytes shot.format heat_format)) [
          | inr other ↦
              rw (import_snapshot, other)
                (
                  refl,
                  inr (
                    (λ a. absurd (let same = (same_bytes_iff _ _).1 a.formatted in cc)),
                    Refuses-unchanged _,
                  ),
                )
          | inl same ↦ elim (Bool-cases (shot.version == heat_version)) [
            | inr other ↦
                rw (import_snapshot, same, other)
                  (
                    refl,
                    inr (
                      (λ a. absurd (let v = (==_iff _ _).1 a.versioned in cc)),
                      Refuses-unchanged _,
                    ),
                  )
            | inl version ↦ elim (Bool-cases (ltb maximum_entries (length entries))) [
              | inl many ↦
                  rw (import_snapshot, same, version, many)
                    (
                      refl,
                      inr ((λ a. absurd (let few = a.few in ground arith)), Refuses-unchanged _),
                    )
              | inr few ↦
                  let (kept, ends) = import_entries-Ends J entries s in
                  rw (import_snapshot, same, version, few)
                    (
                      kept,
                      elim ends [
                        | inl (positive, e) ↦ inl (
                          record {
                            formatted = (same_bytes_iff _ _).0 same;
                            versioned = (==_iff _ _).0 version;
                            few = ground arith;
                            positive = positive;
                          },
                          (e, λ q. heat_of-import_entries J entries s q positive),
                        )
                        | inr (some_zero, e) ↦ inr (
                          (λ a. some_zero a.positive),
                          ((zero_requests, e), λ q. heat_of-le J entries s q),
                        )
                      ],
                    )
            ]
          ]
        ]

    module _ (parse : List ℕ → Result J (HeatSnapshot K)) (bytes : List ℕ)
        (maximum_json_bytes maximum_entries : ℕ) where
      -- The bytes are within the limit and hold a snapshot that may be imported.
      abbrev pub Holds : HeatSnapshot K → Type 0
      Holds shot =
          (length bytes ≤ maximum_json_bytes)
          × (parse bytes ≡ ok shot)
          × IsAccepted maximum_entries shot

      -- An import is taken exactly where the bytes are within the limit and hold a snapshot of the
      -- format and the version, of as many entries as are allowed, none without requests. Then it
      -- returns the number of keys, and every key has the most of its requests before and those that
      -- the snapshot gives it; so a key of the snapshot that was not there has the snapshot's. Else
      -- it returns an error and lowers no key. Nothing but the heat changes.
      pub import_heat_json-Ends :
          let out = import_heat_json dec parse s bytes maximum_json_bytes maximum_entries in
          Keeps out
          × (((shot : HeatSnapshot K) × Holds shot × Imports shot out)
              ⊎ ((((shot : HeatSnapshot K) × Holds shot) → ⊥) × Refuses out))
      unfolding import_heat_json
      import_heat_json-Ends = elim (Bool-cases (ltb maximum_json_bytes (length bytes))) [
        | inl large ↦
            rw (import_heat_json, large)
              (refl, inr ((λ (shot, (fits, _, _)). absurd (ground arith)), Refuses-unchanged _))
        | inr small ↦ elim (Result-cases (parse bytes)) [
          | inr (x, e) ↦
              rw (import_heat_json, small, e)
                (
                  refl,
                  inr (
                    (λ (shot, (_, parsed, _)). absurd (let both = parsed in cc)),
                    Refuses-unchanged _,
                  ),
                )
          | inl (shot, e) ↦
              let (kept, ends) = import_snapshot-Ends shot maximum_entries in
              rw (import_heat_json, small, e)
                (
                  kept,
                  elim ends [
                    | inl (accepted, imports) ↦ inl (shot, (ground arith, refl, accepted), imports)
                    | inr (not_accepted, refuses) ↦ inr (
                      (λ (other, (_, parsed, accepted)).
                          let same : shot ≡ other = let both = parsed in cc in
                          not_accepted (subst (IsAccepted maximum_entries) (sym same) accepted)),
                      refuses,
                    )
                  ],
                )
        ]
      ]
