-- ===== src/Tests/OfRouting.antt =====
-- The routing of a token (crates/bridge-model-hy3/src/routing.rs) at concrete inputs, with an
-- arithmetic whose score of an expert is its bias.
use light_bridge_engine.Base.{ℕ, ◌≡◌, refl, List, [], ◌∷◌, ok, err, map, ◌⊎◌}
use light_bridge_engine.Routing.{
  Arithmetic, RoutingError, RouteCandidate, RoutedExpert, Scratch, route_experts_into, float_one,
}
use light_bridge_engine.Routing.Selection.{Routable, Selects, route_experts_into-Ends}

abbrev biases_only : Arithmetic
biases_only = record {
  add = λ a b. b;
  mul = λ a b. a;
  div = λ a b. b;
  neg = λ a. a;
  exp = λ a. a;
  max = λ a b. a;
}

-- The bits of 2.0, and of -2.0.
abbrev float_two : ℕ
float_two = 1073741824

abbrev minus_two : ℕ
minus_two = 3221225472

abbrev scratch : Scratch
scratch =
    let c : RouteCandidate = record { expert_id = 9; selection_score = 0; unbiased_weight = 0 } in
    let e : RoutedExpert = record { expert_id = 9; coefficient = 0 } in
    record { candidates = c ∷ c ∷ c ∷ []; selected = e ∷ e ∷ [] }

abbrev logits : List ℕ
logits = float_one ∷ float_one ∷ float_one ∷ []

abbrev biases : List ℕ
biases = minus_two ∷ float_one ∷ float_two ∷ []

ids : List RoutedExpert → List ℕ
ids es = map (λ (e : RoutedExpert). e.expert_id) es

-- The two experts with the highest scores, in the order of their numbers.
two_are_selected :
    ids (route_experts_into biases_only logits biases 2 float_one scratch).0.selected ≡ 1 ∷ 2 ∷ []
unfolding route_experts_into ids light_bridge_engine.Kv.Types.is_finite
two_are_selected = refl

route_experts_into-Ends_example :
    (Routable biases_only logits biases 2 float_one scratch
      × ((s' : Scratch) × (route_experts_into biases_only logits biases 2 float_one scratch
            ≡ (s', ok tt))
          × Selects biases_only logits biases 2 float_one scratch s'))
    ⊎ ((e : RoutingError) × (route_experts_into biases_only logits biases 2 float_one scratch
          ≡ (scratch, err e))
        × (Routable biases_only logits biases 2 float_one scratch → ⊥))
route_experts_into-Ends_example =
    route_experts_into-Ends biases_only logits biases 2 float_one scratch
