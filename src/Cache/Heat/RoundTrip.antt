-- ===== src/Cache/Heat/RoundTrip.antt =====
-- Heat that is exported and imported again.
use light_bridge_engine.Base.{
  ℕ, ◌≤◌, ◌<◌, ◌≡◌, refl, sym, ap, subst, ◌∙◌, max, List, [], ◌∷◌, Bool, none, some, arith,
  Bool-cases, inl, inr, ite, if_pos, if_neg, Result, ok, length, All, Result-cases, take_whole,
}
use light_bridge_engine.Base.Table.{find, Distinct}
use light_bridge_engine.Base.Sorting.{insert_by, sort_by, sort_by-All, length-sort_by}
use light_bridge_engine.Cache.Types.{State}
use light_bridge_engine.Cache.Heat.{
  HeatSnapshot, hotter, ranked, snapshot, export_heat_json, import_heat_json,
}
use light_bridge_engine.Cache.Heat.Imports.{
  heat_of, highest, stored, IsAccepted, import_heat_json-Ends,
}

module _ {K : Type 0} (dec : Discrete K) where
  -- The order of two entries makes no difference to the most requests of a key.
  highest-swap :
      (j k q : K) (d : Dec (j ≡ q)) (e : Dec (k ≡ q)) (m n most : ℕ)
      → ite d (max m (ite e (max n most) most)) (ite e (max n most) most)
        ≡ ite e (max n (ite d (max m most) most)) (ite d (max m most) most)
  highest-swap j k q (yes x) (yes y) m n most = omega arith
  highest-swap j k q (yes x) (no y) m n most = refl
  highest-swap j k q (no x) (yes y) m n most = refl
  highest-swap j k q (no x) (no y) m n most = refl

  highest-insert_by :
      (before : K × ℕ → K × ℕ → Bool) (q : K) (x : K × ℕ) (ys : List (K × ℕ))
      → highest dec q (insert_by before x ys) ≡ highest dec q (x ∷ ys)
  unfolding insert_by
  highest-insert_by before q x [] = refl
  highest-insert_by before q (j, m) ((k, n) ∷ ys) = elim (Bool-cases (before (j, m) (k, n))) [
    | inl e ↦ rw (e, insert_by) refl
    | inr e ↦
        rw (e, insert_by, highest-insert_by before q (j, m) ys)
          (highest-swap k j q (dec k q) (dec j q) n m (highest dec q ys))
  ]

  highest-sort_by :
      (before : K × ℕ → K × ℕ → Bool) (q : K) (xs : List (K × ℕ))
      → highest dec q (sort_by before xs) ≡ highest dec q xs
  unfolding sort_by
  highest-sort_by before q [] = refl
  highest-sort_by before q ((k, n) ∷ xs) =
      highest-insert_by before q (k, n) (sort_by before xs)
      ∙ ap (λ (most : ℕ). ite (dec k q) (max n most) most) (highest-sort_by before q xs)

  -- With one entry for each key, the most requests of a key are those of its entry.
  highest-Distinct :
      (q : K) (heat : List (K × ℕ)) → Distinct dec heat → highest dec q heat ≡ heat_of dec q heat
  unfolding find
  highest-Distinct q [] d = refl
  highest-Distinct q ((k, n) ∷ heat) (fresh, d) =
      let rest = highest-Distinct q heat d in
      elim (dec k q) [
        | no other ↦
            if_neg (dec k q) other _ _
            ∙ rest
            ∙ ap (stored dec) (sym (if_neg (dec k q) other (some n) (find dec q heat)))
        | yes same ↦
            let gone : find dec q heat ≡ none = subst (λ x. find dec x heat ≡ none) same fresh in
            let nothing : highest dec q heat ≡ 0 = rest ∙ ap (stored dec) gone in
            if_pos (dec k q) same _ _
            ∙ ap (max n) nothing
            ∙ omega arith
            ∙ ap (stored dec) (sym (if_pos (dec k q) same (some n) (find dec q heat)))
      ]

  module _ (key_less : K → K → Bool) {J : Type 0} (print : HeatSnapshot K → Result J (List ℕ))
      (parse : List ℕ → Result J (HeatSnapshot K))
      (parse-print : (shot : HeatSnapshot K) (bytes : List ℕ)
        → print shot ≡ ok bytes
        → parse bytes ≡ ok shot) where
    printed :
        (s : State K) (maximum_entries : ℕ) (bytes : List ℕ)
        → length s.heat ≤ maximum_entries
        → export_heat_json key_less print s maximum_entries ≡ ok bytes
        → parse bytes
          ≡ ok (record (snapshot key_less s maximum_entries) {
            entries = sort_by (hotter key_less) s.heat;
          })
    unfolding export_heat_json snapshot ranked
    printed s maximum_entries bytes fits h =
        let all : List (K × ℕ) = sort_by (hotter key_less) s.heat in
        let small : length all ≤ maximum_entries =
          omega (arith, length-sort_by (hotter key_less) s.heat) in
        let whole = take_whole maximum_entries all small in
        elim (Result-cases (print (snapshot key_less s maximum_entries))) [
          | inr (x, e) ↦ let broken = rw (export_heat_json, e) at h in cc
          | inl (out, e) ↦
              let same : out ≡ bytes = let done = rw (export_heat_json, e) at h in cc in
              rw whole at (parse-print (snapshot key_less s maximum_entries) bytes (e ∙ ap ok same))
        ]

    -- Where the parser reads what the printer writes, heat with one entry for each key, none
    -- without requests, that was exported whole is imported within the limits: then every key has
    -- the more of the requests that it had in the two caches, so a fresh cache has the exported
    -- heat.
    pub import-export :
        (s t : State K) (exported imported maximum_json_bytes : ℕ) (bytes : List ℕ) (q : K)
        → Distinct dec s.heat
        → All (λ x. 0 < x.1) s.heat
        → length s.heat ≤ exported
        → export_heat_json key_less print s exported ≡ ok bytes
        → length bytes ≤ maximum_json_bytes
        → length s.heat ≤ imported
        → let out = import_heat_json dec parse t bytes maximum_json_bytes imported in
          (out.1 ≡ ok (length out.0.heat))
          × (heat_of dec q out.0.heat ≡ max (heat_of dec q t.heat) (heat_of dec q s.heat))
    unfolding snapshot
    import-export s t exported imported maximum_json_bytes bytes q d positive whole h short few =
        let read = printed s exported bytes whole h in
        let all : List (K × ℕ) = sort_by (hotter key_less) s.heat in
        let accepted : IsAccepted dec imported
            (record (snapshot key_less s exported) { entries = all }) =
          record {
            formatted = refl;
            versioned = refl;
            few = omega (arith, length-sort_by (hotter key_less) s.heat);
            positive = sort_by-All (hotter key_less) (λ x. 0 < x.1) s.heat positive;
          } in
        elim (import_heat_json-Ends dec J t parse bytes maximum_json_bytes imported).1 [
          | inr (not_held, _) ↦ absurd (not_held (_, (short, read, accepted)))
          | inl (shot, (_, parsed, _), (counted, rises)) ↦
              let same : (record (snapshot key_less s exported) { entries = all }) ≡ shot =
                let both = sym read ∙ parsed in cc in
              let most : highest dec q shot.entries ≡ heat_of dec q s.heat =
                sym (ap (λ (x : HeatSnapshot K). highest dec q x.entries) same)
                ∙ highest-sort_by (hotter key_less) q s.heat
                ∙ highest-Distinct q s.heat d in
              (counted, rises q ∙ ap (max (heat_of dec q t.heat)) most)
        ]
