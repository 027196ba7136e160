-- ===== src/Routing/Selection.antt =====
-- Which experts are selected, and when a routing is refused.
use mathlib.Core.List.{Perm}
use light_bridge_engine.Base.{
  ℕ, suc, ◌-◌, ◌^◌, ◌≤◌, ◌<◌, ◌≡◌, ◌≢◌, refl, sym, ap, ◌∙◌, List, [], ◌∷◌, ◌++◌, true, false, not,
  ◌||◌, ◌⊎◌, inl, inr, arith, All, ok, err, guard-then, Result-cases, length, take, drop, map, leb,
  ltb, ◌==◌, ==_iff, leb→le, le→leb, length-take, append-take-drop,
}
use light_bridge_engine.Base.Sorting.{
  length-sort_by, Ordered, All-map_to, Ordered-map_to, Ordered-take, Ordered-split, sort_by,
  sort_by-Perm, sort_by-Ordered, sort_by-All, All-take,
}
use light_bridge_engine.Kv.Types.{F32, is_finite}
use light_bridge_engine.Routing.{
  Arithmetic, RoutingError, RouteCandidate, RoutedExpert, Scratch, goes_first, lower_id,
  validate_finite, score, check_scores, check_route, candidates_from, weight_sum, routed,
  route_experts_into,
}
use light_bridge_engine.Routing.Order.{
  Beats, Apart, Ranked, goes_first-Ranked, goes_after-Ranked, Ranked-trans, Finite,
  candidates_from-Apart,
}
use light_bridge_engine.Routing.Shares.{
  Weighs, Shares, total_of, map-routed-Shares, candidates_from-Weighs,
}

-- The number of a routed expert rises.
abbrev pub Rises : RoutedExpert → RoutedExpert → Type 0
Rises a b = a.expert_id < b.expert_id

abbrev OtherId : RoutedExpert → RoutedExpert → Type 0
OtherId a b = a.expert_id ≢ b.expert_id

lower_id-Rises : (a b : RoutedExpert) → OtherId a b → lower_id a b ≡ true → Rises a b
lower_id-Rises a b other h = let le = leb→le a.expert_id b.expert_id h in omega (arith, other)

higher_id-Rises : (a b : RoutedExpert) → OtherId a b → lower_id a b ≡ false → Rises b a
higher_id-Rises a b other h = ground arith

sort_by-Rises : (xs : List RoutedExpert) → Ordered OtherId xs → Ordered Rises (sort_by lower_id xs)
sort_by-Rises =
    sort_by-Ordered lower_id OtherId Rises lower_id-Rises higher_id-Rises
      (λ x y z apart xy yz. omega (arith, xy, yz))

module _ (f32 : Arithmetic) where
  routed-OtherId :
      (total scale : F32) (cs : List RouteCandidate)
      → Ordered Apart cs
      → Ordered OtherId (map (routed f32 total scale) cs)
  unfolding routed
  routed-OtherId total scale [] apart = tt
  routed-OtherId total scale (c ∷ cs) (first, rest) =
      (others cs first, routed-OtherId total scale cs rest)
    where
      others :
          (ds : List RouteCandidate)
          → All (Apart c) ds
          → All (OtherId (routed f32 total scale c)) (map (routed f32 total scale) ds)
      others [] all = tt
      others (d ∷ ds) (a, all) = (a.0, others ds all)

  check_scores-Finite :
      (index : ℕ) (logits biases : List F32)
      → check_scores f32 index logits biases ≡ ok tt
      → Finite f32 logits biases
  unfolding check_scores validate_finite
  check_scores-Finite index [] biases h = tt
  check_scores-Finite index (logit ∷ logits) [] h = tt
  check_scores-Finite index (logit ∷ logits) (bias ∷ biases) h =
      let (a, h1) = guard-then (is_finite logit) _ _ h in
      let (b, h2) = guard-then (is_finite bias) _ _ h1 in
      let (s, h3) = guard-then (is_finite (score f32 logit bias)) _ _ h2 in
      (a, b, s, check_scores-Finite (suc index) logits biases h3)

  Finite-check_scores :
      (index : ℕ) (logits biases : List F32)
      → Finite f32 logits biases
      → check_scores f32 index logits biases ≡ ok tt
  unfolding check_scores validate_finite
  Finite-check_scores index [] biases finite = refl
  Finite-check_scores index (logit ∷ logits) [] finite = refl
  Finite-check_scores index (logit ∷ logits) (bias ∷ biases) (a, b, s, finite) =
      rw (a, b, s) (Finite-check_scores (suc index) logits biases finite)

  module _ (logits biases : List F32) (used : ℕ) (scale : F32) (s : Scratch) where
    -- What a routing asks for.
    pub record Routable : Type 0 where
      pub numbered : length logits ≤ 2 ^ 32 - 1
      pub biased : length biases ≡ length logits
      pub some_used : (0 < used) × (used ≤ length logits)
      pub candidates_fit : length s.candidates ≡ length logits
      pub selected_fit : length s.selected ≡ used
      pub scaled : is_finite scale ≡ true
      pub scored : Finite f32 logits biases

    check_route-Routable : check_route f32 logits biases used scale s ≡ ok tt → Routable
    unfolding check_route validate_finite
    check_route-Routable h =
        let n : ℕ = length logits in
        let (a, h1) = guard-then (leb n (2 ^ 32 - 1)) _ _ h in
        let (b, h2) = guard-then (length biases == n) _ _ h1 in
        let (u, h3) = guard-then (not (used == 0 || ltb n used)) _ _ h2 in
        let (c, h4) = guard-then (length s.candidates == n) _ _ h3 in
        let (d, h5) = guard-then (length s.selected == used) _ _ h4 in
        let (f, h6) = guard-then (is_finite scale) _ _ h5 in
        record {
          numbered = leb→le _ _ a;
          biased = (==_iff _ _).0 b;
          some_used = (ground arith, ground arith);
          candidates_fit = (==_iff _ _).0 c;
          selected_fit = (==_iff _ _).0 d;
          scaled = f;
          scored = check_scores-Finite 0 logits biases h6;
        }

    Routable-check_route : Routable → check_route f32 logits biases used scale s ≡ ok tt
    unfolding check_route validate_finite
    Routable-check_route given =
        let n : ℕ = length logits in
        let a : leb n (2 ^ 32 - 1) ≡ true = le→leb _ _ given.numbered in
        let b : (length biases == n) ≡ true = (==_iff _ _).1 given.biased in
        let u : not (used == 0 || ltb n used) ≡ true =
          ground (arith, given.some_used.0, given.some_used.1) in
        let c : (length s.candidates == n) ≡ true = (==_iff _ _).1 given.candidates_fit in
        let d : (length s.selected == used) ≡ true = (==_iff _ _).1 given.selected_fit in
        rw (a, b, u, c, d, given.scaled) (Finite-check_scores 0 logits biases given.scored)

    -- The candidates are ranked; the first of them are selected, in the order of their numbers.
    pub record Selects (s' : Scratch) : Type 0 where
      pub chosen : List RouteCandidate
      pub rest : List RouteCandidate
      pub ranked : s'.candidates ≡ chosen ++ rest
      pub all : Perm (candidates_from f32 0 logits biases) s'.candidates
      pub as_many : length chosen ≡ used
      pub best : All (λ c. All (Beats c) rest) chosen
      pub weighted : Perm (map (routed f32 (weight_sum f32 chosen) scale) chosen) s'.selected
      pub weighed : All (Weighs f32 logits) chosen
      pub shared : All (Shares f32 logits (total_of f32 logits chosen) scale) s'.selected
      pub rising : Ordered Rises s'.selected

    length-candidates_from :
        (index : ℕ) (ls bs : List F32)
        → length bs ≡ length ls
        → length (candidates_from f32 index ls bs) ≡ length ls
    unfolding candidates_from
    length-candidates_from index [] bs h = refl
    length-candidates_from index (l ∷ ls) [] h = absurd (omega (arith, h))
    length-candidates_from index (l ∷ ls) (b ∷ bs) h =
        ap suc (length-candidates_from (suc index) ls bs (omega (arith, h)))

    selected-Selects :
        Routable
        → (s' : Scratch) × (route_experts_into f32 logits biases used scale s ≡ (s', ok tt))
          × Selects s'
    unfolding route_experts_into
    selected-Selects given =
        let cs : List RouteCandidate = candidates_from f32 0 logits biases in
        let sorted : List RouteCandidate = sort_by goes_first cs in
        let kept : Perm cs sorted = sort_by-Perm goes_first cs in
        let ranked : Ordered Ranked sorted =
          sort_by-Ordered goes_first Apart Ranked goes_first-Ranked goes_after-Ranked Ranked-trans
            cs (candidates_from-Apart f32 0 logits biases given.scored) in
        let size : length sorted ≡ length logits =
          length-sort_by goes_first cs ∙ length-candidates_from 0 logits biases given.biased in
        let chosen : List RouteCandidate = take used sorted in
        let first : List RoutedExpert = map (routed f32 (weight_sum f32 chosen) scale) chosen in
        let weighed : All (Weighs f32 logits) chosen = All-take (Weighs f32 logits) used sorted (
          sort_by-All goes_first (Weighs f32 logits) cs
            (candidates_from-Weighs f32 logits biases)) in
        (
          record { candidates = sorted; selected = sort_by lower_id first },
          rw (route_experts_into, Routable-check_route given) refl,
          record {
            chosen = chosen;
            rest = drop used sorted;
            ranked = sym (append-take-drop used sorted);
            all = kept;
            as_many = omega (arith, length-take used sorted, given.some_used.1);
            best =
                All-map_to chosen (λ c all. All-map_to (drop used sorted) (λ d r. r.0) all)
                  (Ordered-split Ranked used sorted ranked);
            weighted = sort_by-Perm lower_id first;
            weighed = weighed;
            shared =
                sort_by-All lower_id (Shares f32 logits (total_of f32 logits chosen) scale) first
                  (map-routed-Shares f32 logits chosen scale chosen weighed);
            rising = sort_by-Rises first (
                routed-OtherId (weight_sum f32 chosen) scale chosen
                  (Ordered-map_to chosen (λ x y r. r.1) (Ordered-take Ranked used sorted ranked)));
          },
        )

    -- A routing is done exactly where the buffers and the number of experts fit and the scores are
    -- finite. The experts that it selects are as many as are asked for, each of them goes before
    -- every other by its score, and they stand in the order of their numbers. The coefficient of
    -- each is the scaled share of the weight of its own logit, without the bias, in the sum of the
    -- weights of the selected ones or the floor. Else nothing changes.
    pub route_experts_into-Ends :
        (Routable
          × ((s' : Scratch) × (route_experts_into f32 logits biases used scale s ≡ (s', ok tt))
              × Selects s'))
        ⊎ ((e : RoutingError) × (route_experts_into f32 logits biases used scale s ≡ (s, err e))
            × (Routable → ⊥))
    unfolding route_experts_into
    route_experts_into-Ends = elim (Result-cases (check_route f32 logits biases used scale s)) [
      | inl (u, e) ↦ let given = check_route-Routable e in inl (given, selected-Selects given)
      | inr (why, e) ↦ inr (
        why,
        rw (route_experts_into, e) refl,
        λ given. absurd (let both = sym (Routable-check_route given) ∙ e in cc),
      )
    ]
