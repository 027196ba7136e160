-- ===== src/Cache/Heat/Exports.antt =====
-- What an export contains.
use mathlib.Core.List.{Perm}
use light_bridge_engine.Base.{
  ℕ, ◌<◌, ◌≡◌, ◌≢◌, refl, sym, ap, subst, ◌∙◌, List, [], ◌∷◌, ◌++◌, Bool, true, false, none, arith,
  inl, inr, ◌⊎◌, if_pos, if_neg, Result, map_err, min, length, drop, All, length-take,
  append-take-drop,
}
use light_bridge_engine.Base.Table.{find, Distinct}
use light_bridge_engine.Base.Sorting.{
  Ordered, Ordered-take, Ordered-split, sort_by, sort_by-Perm, sort_by-Ordered, length-sort_by,
}
use light_bridge_engine.Cache.Types.{State}
use light_bridge_engine.Cache.Heat.{
  HeatSnapshot, json, heat_format, heat_version, hotter, ranked, snapshot, export_heat_json,
}

-- The order of keys is strict and total, as Rust's `Ord` asks for.
pub record KeyOrder {K : Type 0} (key_less : K → K → Bool) : Type 0 where
  pub total : (j k : K) → j ≢ k → key_less j k ≡ false → key_less k j ≡ true
  pub transitive : (i j k : K) → key_less i j ≡ true → key_less j k ≡ true → key_less i k ≡ true

-- An entry goes before another: it has more requests, or as many and a lesser key.
abbrev pub Precedes : {K : Type 0} → (K → K → Bool) → K × ℕ → K × ℕ → Type 0
Precedes key_less x y = (y.1 < x.1) ⊎ ((x.1 ≡ y.1) × (key_less x.0 y.0 ≡ true))

module _ {K : Type 0} (dec : Discrete K) (key_less : K → K → Bool) (order : KeyOrder key_less) where
  abbrev OtherKey : K × ℕ → K × ℕ → Type 0
  OtherKey x y = x.0 ≢ y.0

  hotter-Precedes :
      (x y : K × ℕ) → OtherKey x y → hotter key_less x y ≡ true → Precedes key_less x y
  unfolding hotter
  hotter-Precedes (j, m) (k, n) other h = ground arith

  colder-Precedes :
      (x y : K × ℕ) → OtherKey x y → hotter key_less x y ≡ false → Precedes key_less y x
  unfolding hotter
  colder-Precedes (j, m) (k, n) other h = let less = order.total j k other in ground arith

  Precedes-trans :
      (x y z : K × ℕ) → Precedes key_less x y → Precedes key_less y z → Precedes key_less x z
  Precedes-trans x y z (inl h) (inl k) = inl (omega arith)
  Precedes-trans x y z (inl h) (inr k) = inl (omega (arith, k.0))
  Precedes-trans x y z (inr h) (inl k) = inl (omega (arith, h.0))
  Precedes-trans x y z (inr h) (inr k) = inr (h.0 ∙ k.0, order.transitive x.0 y.0 z.0 h.1 k.1)

  -- A key that is not found is none of the keys.
  none-OtherKey :
      (k : K) (n : ℕ) (heat : List (K × ℕ)) → find dec k heat ≡ none → All (OtherKey (k, n)) heat
  unfolding find
  none-OtherKey k n [] h = tt
  none-OtherKey k n ((j, m) ∷ heat) h = elim (dec j k) [
    | yes same ↦ absurd (let broken = sym (if_pos (dec j k) same _ _) ∙ h in cc)
    | no other ↦
        ((λ e. other (sym e)), none-OtherKey k n heat (sym (if_neg (dec j k) other _ _) ∙ h))
  ]

  Distinct-Ordered : (heat : List (K × ℕ)) → Distinct dec heat → Ordered OtherKey heat
  Distinct-Ordered [] d = tt
  Distinct-Ordered ((k, n) ∷ heat) (fresh, d) =
      (none-OtherKey k n heat fresh, Distinct-Ordered heat d)

  -- What is printed: the entries go before all those that are left out.
  pub record IsHottest (heat : List (K × ℕ)) (maximum_entries : ℕ) (shot : HeatSnapshot K)
      : Type 0 where
    pub formatted : shot.format ≡ heat_format
    pub versioned : shot.version ≡ heat_version
    pub left_out : List (K × ℕ)
    pub all : Perm heat (shot.entries ++ left_out)
    pub as_many : length shot.entries ≡ min maximum_entries (length heat)
    pub sorted : Ordered (Precedes key_less) shot.entries
    pub hottest : All (λ x. All (Precedes key_less x) left_out) shot.entries

  -- With one entry for each key, an export prints a snapshot of the hottest entries, as many as are
  -- allowed or all of them: they go before all those that are left out, by their requests and then
  -- by their keys, and stand in that order. The snapshot has the format and the version that an
  -- import asks for, and an error of the printer is returned.
  pub export_heat_json-IsHottest :
      {J : Type 0} (print : HeatSnapshot K → Result J (List ℕ)) (s : State K) (maximum_entries : ℕ)
      → Distinct dec s.heat
      → (shot : HeatSnapshot K) × IsHottest s.heat maximum_entries shot
        × (export_heat_json key_less print s maximum_entries ≡ map_err json (print shot))
  unfolding export_heat_json snapshot ranked
  export_heat_json-IsHottest print s maximum_entries d =
      let all : List (K × ℕ) = sort_by (hotter key_less) s.heat in
      let ordered : Ordered (Precedes key_less) all =
        sort_by-Ordered (hotter key_less) OtherKey (Precedes key_less) hotter-Precedes
          colder-Precedes (λ x y z apart xy yz. Precedes-trans x y z xy yz) s.heat
          (Distinct-Ordered s.heat d) in
      let parts = append-take-drop maximum_entries all in
      let size = length-sort_by (hotter key_less) s.heat in
      (
        snapshot key_less s maximum_entries,
        record {
          formatted = refl;
          versioned = refl;
          left_out = drop maximum_entries all;
          all = subst (Perm s.heat) (sym parts) (sort_by-Perm (hotter key_less) s.heat);
          as_many = length-take maximum_entries all ∙ ap (min maximum_entries) size;
          sorted = Ordered-take (Precedes key_less) maximum_entries all ordered;
          hottest = Ordered-split (Precedes key_less) maximum_entries all ordered;
        },
        refl,
      )
