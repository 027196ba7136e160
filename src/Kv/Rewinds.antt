-- ===== src/Kv/Rewinds.antt =====
-- Rewinding and resetting cut the rows of every layer.
use native.Mathlib.Nat.{mul-le-mul_right}
use light_bridge_engine.Base.{
  ℕ, zero, suc, ◌+◌, ◌*◌, ◌≤◌, ◌<◌, ◌≡◌, refl, sym, ap, ◌∙◌, subst, List, [], ◌∷◌, true, false,
  some, ok, err, length, get_elem?, take, arith, get_elem?-lt, get_elem?-some, replicate,
  length-replicate, get_elem?-replicate, ◌⊎◌, inl, inr, ltb, lt→ltb, get_or, dec_lt,
}
use light_bridge_engine.Kv.Types.{refused, rewind_beyond_stored, PagedKvCache, F32, Part}
use light_bridge_engine.Kv.Rows.{check_rewind, rewind_all, reset}
use light_bridge_engine.Kv.Tables.{flat, moved-TableIsValid, fewer-TableIsValid}
use light_bridge_engine.Kv.Views.{CacheIsValid, per_token, tokens_of, view, get_or-eq, some_inj}
use light_bridge_engine.Kv.Types.{sizes}

-- The cache after its layers are cut to so many tokens.
pub record Rewound (c : PagedKvCache) (n : ℕ) (c' : PagedKvCache) : Type 0 where
  pub keeps : CacheIsValid c'
  pub same_sizes : sizes c' ≡ sizes c
  pub cut : (layer : ℕ) → layer < c.layer_count → tokens_of c' layer ≡ n
  pub rows_cut :
      (part : Part) (layer : ℕ)
      → layer < c.layer_count
      → view c' part layer ≡ take (n * per_token part c) (view c part layer)

take-take : (m n : ℕ) (xs : List F32) → m ≤ n → take m xs ≡ take m (take n xs)
take-take zero n xs h = refl
take-take (suc m) zero xs h = absurd (omega arith)
take-take (suc m) (suc n) [] h = refl
take-take (suc m) (suc n) (x ∷ xs) h = ap (◌∷◌ x) (take-take m n xs (omega arith))

module _ (c : PagedKvCache) (valid : CacheIsValid c) (n : ℕ) where
  abbrev shortened : PagedKvCache
  shortened = record c { lengths = replicate (length c.lengths) n }

  module _ (stored : (layer m : ℕ) → get_elem? c.lengths layer ≡ some m → n ≤ m) where
    shortened-Valid : CacheIsValid shortened
    shortened-Valid = record {
      holds = valid.holds;
      positive = valid.positive;
      roomy = valid.roomy;
      small = valid.small;
      rounds = valid.rounds;
      not_empty = valid.not_empty;
      counted = length-replicate (length c.lengths) n ∙ valid.counted;
      tabled = valid.tabled;
      tables = λ layer m table ln lt.
          let inside : layer < length c.lengths =
            subst (λ (k : ℕ). layer < k) (length-replicate (length c.lengths) n)
              (get_elem?-lt (replicate (length c.lengths) n) layer m ln) in
          let m_eq : m ≡ n =
            some_inj (sym ln ∙ get_elem?-replicate (length c.lengths) layer n inside) in
          let (old, here) = get_elem?-some c.lengths layer inside in
          let (fits, ok_table) = valid.tables layer old table here lt in
          let fewer = stored layer old here in
          (
            omega arith,
            moved-TableIsValid c shortened.lengths c.pages m table
                (fewer-TableIsValid c old m table (omega arith) ok_table),
          );
    }

    shortened-Rewound : Rewound c n shortened
    shortened-Rewound =
        let now : (layer : ℕ) → layer < c.layer_count → tokens_of shortened layer ≡ n = λ layer h.
          get_or-eq shortened.lengths layer 0 n
            (get_elem?-replicate (length c.lengths) layer n (omega (arith, valid.counted))) in
        record {
          keeps = shortened-Valid;
          same_sizes = refl;
          cut = now;
          rows_cut = λ part layer h.
              let (old, here) = get_elem?-some c.lengths layer (omega (arith, valid.counted)) in
              let fewer : n * per_token part c ≤ old * per_token part c =
                mul-le-mul_right (per_token part c) (stored layer old here) in
              rw (now layer h, get_or-eq c.lengths layer 0 old here)
                (take-take (n * per_token part c) (old * per_token part c)
                  (flat c part (get_or c.pages layer [])) fewer);
        }

stored_all :
    (n stored : ℕ) (lengths : List ℕ)
    → n ≤ stored
    → ((i m : ℕ) → get_elem? lengths i ≡ some m → n ≤ m)
    → (i m : ℕ) → get_elem? (stored ∷ lengths) i ≡ some m
    → n ≤ m
stored_all n stored lengths h rest zero m e = let same : stored ≡ m = some_inj e in omega arith
stored_all n stored lengths h rest (suc i) m e = rest i m e

check_rewind-cases :
    (n layer : ℕ) (lengths : List ℕ)
    → ((check_rewind n layer lengths ≡ ok tt) × ((i m : ℕ) → get_elem? lengths i ≡ some m → n ≤ m))
      ⊎ ((i : ℕ) × (m : ℕ) × (check_rewind n layer lengths
            ≡ err (refused (rewind_beyond_stored (layer + i) n m)))
          × (get_elem? lengths i ≡ some m)
          × (m < n))
unfolding check_rewind
check_rewind-cases n layer [] = inl (refl, λ i m h. cc)
check_rewind-cases n layer (stored ∷ lengths) = elim (dec_lt stored n) [
  | yes short ↦
      let test : ltb stored n ≡ true = lt→ltb _ _ short in
      let here : layer + 0 ≡ layer = omega arith in
      inr (0, stored, rw (test, check_rewind, here) refl, refl, short)
  | no enough ↦
      let test : ltb stored n ≡ false = ground arith in
      elim (check_rewind-cases n (suc layer) lengths) [
        | inl (passes, rest) ↦
            inl (rw (test, check_rewind) passes, stored_all n stored lengths (omega arith) rest)
        | inr (i, m, fails, here, short) ↦
            let next : layer + suc i ≡ suc layer + i = omega arith in
            inr (suc i, m, rw (test, check_rewind, next) fails, here, short)
      ]
]

module _ (c : PagedKvCache) (valid : CacheIsValid c) where
  -- Rewinding a valid cache cuts every layer to the tokens that are asked for, exactly where each
  -- stores as many; else it is refused, with a layer that stores fewer, and nothing changes.
  pub rewind_all-Ends :
      (n : ℕ)
      → ((c' : PagedKvCache) × (rewind_all c n ≡ (c', ok tt))
          × Rewound c n c'
          × ((layer : ℕ) → layer < c.layer_count → n ≤ tokens_of c layer))
        ⊎ ((layer : ℕ) × (rewind_all c n
              ≡ (c, err (refused (rewind_beyond_stored layer n (tokens_of c layer)))))
            × (layer < c.layer_count)
            × (tokens_of c layer < n))
  unfolding rewind_all
  rewind_all-Ends n = elim (check_rewind-cases n 0 c.lengths) [
    | inl (passes, enough) ↦ inl (
      shortened c valid n,
      rw (rewind_all, passes) refl,
      shortened-Rewound c valid n enough,
      λ layer h.
          let (m, here) = get_elem?-some c.lengths layer (omega (arith, valid.counted)) in
          rw (get_or-eq c.lengths layer 0 m here) (enough layer m here),
    )
    | inr (layer, m, fails, here, short) ↦
        let known = get_or-eq c.lengths layer 0 m here in
        let start : 0 + layer ≡ layer = omega arith in
        inr (
          layer,
          rw (rewind_all, fails, start, known) refl,
          omega (arith, get_elem?-lt c.lengths layer m here, valid.counted),
          rw known short,
        )
  ]

  pub reset-Rewound : Rewound c 0 (reset c)
  unfolding reset
  reset-Rewound = shortened-Rewound c valid 0 (λ layer m h. omega arith)
