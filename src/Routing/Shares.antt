-- ===== src/Routing/Shares.antt =====
-- What the routed experts weigh: the share of each in the weights of those that are selected, from
-- the logits alone.
use mathlib.Core.List.{foldl}
use light_bridge_engine.Base.{
  ℕ, suc, ◌-◌, ◌≤◌, ◌≡◌, refl, ap, List, [], ◌∷◌, some, arith, All, map, get_elem?,
}
use light_bridge_engine.Base.Sorting.{All-map_to}
use light_bridge_engine.Kv.Types.{F32}
use light_bridge_engine.Routing.{
  Arithmetic, RouteCandidate, RoutedExpert, sigmoid, routing_sum_floor, candidates_from,
  sum_weights, weight_sum, routed,
}

module _ (f32 : Arithmetic) (logits : List F32) where
  -- The weight of a candidate is that of the logit at its number, without the bias.
  abbrev pub Weighs : RouteCandidate → Type 0
  Weighs c =
      (l : F32) × (get_elem? logits c.expert_id ≡ some l) × (c.unbiased_weight ≡ sigmoid f32 l)

  -- The sum of the weights of some candidates, from the first on, and no less than the floor.
  abbrev pub total_of : List RouteCandidate → F32
  total_of cs = f32.max (foldl f32.add 0 (map (λ c. c.unbiased_weight) cs)) routing_sum_floor

  -- The coefficient of an expert is the weight of its logit over the total, scaled.
  abbrev pub Shares : F32 → F32 → RoutedExpert → Type 0
  Shares total scale e =
      (l : F32) × (get_elem? logits e.expert_id ≡ some l)
      × (e.coefficient ≡ f32.mul (f32.div (sigmoid f32 l) total) scale)

  sum_weights-foldl :
      (total : F32) (cs : List RouteCandidate)
      → sum_weights f32 total cs ≡ foldl f32.add total (map (λ c. c.unbiased_weight) cs)
  unfolding sum_weights
  sum_weights-foldl total [] = refl
  sum_weights-foldl total (c ∷ cs) = sum_weights-foldl (f32.add total c.unbiased_weight) cs

  weight_sum-total_of : (cs : List RouteCandidate) → weight_sum f32 cs ≡ total_of cs
  unfolding weight_sum
  weight_sum-total_of cs = ap (λ x. f32.max x routing_sum_floor) (sum_weights-foldl 0 cs)

  routed-Shares :
      (chosen : List RouteCandidate) (scale : F32) (c : RouteCandidate)
      → Weighs c
      → Shares (total_of chosen) scale (routed f32 (weight_sum f32 chosen) scale c)
  unfolding routed
  routed-Shares chosen scale c (l, at, w) = (l, at, rw (weight_sum-total_of chosen, w) refl)

  pub map-routed-Shares :
      (chosen : List RouteCandidate) (scale : F32) (cs : List RouteCandidate)
      → All Weighs cs
      → All (Shares (total_of chosen) scale) (map (routed f32 (weight_sum f32 chosen) scale) cs)
  map-routed-Shares chosen scale [] all = tt
  map-routed-Shares chosen scale (c ∷ cs) (w, all) =
      (routed-Shares chosen scale c w, map-routed-Shares chosen scale cs all)

module _ (f32 : Arithmetic) where
  -- The candidates from an index on, of the logits from there on.
  abbrev WeighsFrom : ℕ → List F32 → RouteCandidate → Type 0
  WeighsFrom index logits c =
      (l : F32) × (index ≤ c.expert_id)
      × (get_elem? logits (c.expert_id - index) ≡ some l)
      × (c.unbiased_weight ≡ sigmoid f32 l)

  later-WeighsFrom :
      (index : ℕ) (logit : F32) (logits : List F32) (c : RouteCandidate)
      → WeighsFrom (suc index) logits c
      → WeighsFrom index (logit ∷ logits) c
  later-WeighsFrom index logit logits c (l, after, at, w) =
      let next : c.expert_id - index ≡ suc (c.expert_id - suc index) = omega (arith, after) in
      (l, omega (arith, after), rw next at, w)

  candidates_from-WeighsFrom :
      (index : ℕ) (logits biases : List F32)
      → All (WeighsFrom index logits) (candidates_from f32 index logits biases)
  unfolding candidates_from
  candidates_from-WeighsFrom index [] biases = tt
  candidates_from-WeighsFrom index (logit ∷ logits) [] = tt
  candidates_from-WeighsFrom index (logit ∷ logits) (bias ∷ biases) =
      let here : index - index ≡ 0 = omega arith in
      let rest = candidates_from f32 (suc index) logits biases in
      (
        (logit, omega arith, rw here refl, refl),
        All-map_to rest (later-WeighsFrom index logit logits)
            (candidates_from-WeighsFrom (suc index) logits biases),
      )

  WeighsFrom-Weighs :
      (logits : List F32) (c : RouteCandidate) → WeighsFrom 0 logits c → Weighs f32 logits c
  WeighsFrom-Weighs logits c (l, after, at, w) =
      let whole : c.expert_id - 0 ≡ c.expert_id = omega arith in (l, rw whole at at, w)

  pub candidates_from-Weighs :
      (logits biases : List F32) → All (Weighs f32 logits) (candidates_from f32 0 logits biases)
  candidates_from-Weighs logits biases =
      All-map_to (candidates_from f32 0 logits biases) (WeighsFrom-Weighs logits)
        (candidates_from-WeighsFrom 0 logits biases)
