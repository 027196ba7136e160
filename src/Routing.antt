-- ===== src/Routing.antt =====
-- crates/bridge-model-hy3/src/routing.rs: the experts that a token is routed to. An f32 is the word
-- of its 32 bits; its arithmetic is a parameter, its order is written out.
pub mod Order
pub mod Shares
pub mod Selection
use Prim.Native.Nat.{compare, Ordering}
use light_bridge_engine.Base.{
  ℕ, zero, suc, ◌+◌, ◌-◌, ◌*◌, ◌%◌, ◌^◌, List, [], ◌∷◌, Bool, true, false, not, ◌||◌, Option, none,
  some, String, ltb, leb, ◌==◌, if◌then◌else◌, Result, ok, err, guard, ◌>>=◌, ◌>>◌, length, take,
  map,
}
use light_bridge_engine.Base.Sorting.{sort_by}
use light_bridge_engine.Kv.Types.{F32, is_finite}

-- The arithmetic of floats.
pub record Arithmetic : Type 0 where
  pub add : F32 → F32 → F32
  pub mul : F32 → F32 → F32
  pub div : F32 → F32 → F32
  pub neg : F32 → F32
  pub exp : F32 → F32
  pub max : F32 → F32 → F32

-- The bits of 2^-14.
abbrev pub routing_sum_floor : F32
routing_sum_floor = 113 * 2 ^ 23

abbrev pub float_one : F32
float_one = 127 * 2 ^ 23

pub data RoutingError : Type 0 where
  -- The field, the length expected and the actual one.
  routing_length : String → ℕ → ℕ → RoutingError
  -- The experts, and how many are to be used.
  routing_top_k : ℕ → ℕ → RoutingError
  non_finite_routing_value : String → ℕ → F32 → RoutingError

pub record RouteCandidate : Type 0 where
  pub expert_id : ℕ
  pub selection_score : F32
  pub unbiased_weight : F32

pub record RoutedExpert : Type 0 where
  pub expert_id : ℕ
  pub coefficient : F32

-- The place of a float that is no NaN in the order of floats: the negative ones, of which the sign
-- bit is set, fall as their bits rise, and the zeros are equal.
abbrev pub place : F32 → ℕ
place bits = if ltb bits (2 ^ 31) then 2 ^ 31 + bits else 2 ^ 32 - bits

unfoldable pub is_nan : F32 → Bool
is_nan bits = ltb (255 * 2 ^ 23) (bits % 2 ^ 31)

unfoldable pub partial_cmp : F32 → F32 → Option Ordering
unfolding is_nan
partial_cmp a b = if is_nan a || is_nan b then none else some (compare (place a) (place b))

-- How two candidates compare: the higher score first, then the lower expert.
unfoldable pub compare_candidates : RouteCandidate → RouteCandidate → Ordering
unfolding partial_cmp
compare_candidates left right = elim (partial_cmp right.selection_score left.selection_score) [
  | some Ordering.lt ↦ Ordering.lt
  | some Ordering.gt ↦ Ordering.gt
  | some Ordering.eq ↦ compare left.expert_id right.expert_id
  | none ↦ compare left.expert_id right.expert_id
]

unfoldable pub goes_first : RouteCandidate → RouteCandidate → Bool
unfolding compare_candidates
goes_first left right = elim (compare_candidates left right) [ Ordering.gt ↦ false | _ ↦ true ]

abbrev pub lower_id : RoutedExpert → RoutedExpert → Bool
lower_id a b = leb a.expert_id b.expert_id

unfoldable pub validate_finite : String → ℕ → F32 → Result RoutingError (Unit {0})
validate_finite name index x = guard (is_finite x) (non_finite_routing_value name index x)

-- The candidates and the selected experts, in buffers of the caller.
pub record Scratch : Type 0 where
  pub candidates : List RouteCandidate
  pub selected : List RoutedExpert

module _ (f32 : Arithmetic) where
  unfoldable pub sigmoid : F32 → F32
  sigmoid x = f32.div float_one (f32.add float_one (f32.exp (f32.neg x)))

  abbrev pub score : F32 → F32 → F32
  score logit bias = f32.add (sigmoid logit) bias

  -- The loop that validates the scores, from an index on.
  unfoldable pub check_scores : ℕ → List F32 → List F32 → Result RoutingError (Unit {0})
  unfolding validate_finite
  check_scores index [] biases = ok tt
  check_scores index (logit ∷ logits) [] = ok tt
  check_scores index (logit ∷ logits) (bias ∷ biases) = do
    validate_finite "logits" index logit
    validate_finite "selection_bias" index bias
    validate_finite "selection_score" index (score logit bias)
    check_scores (suc index) logits biases

  unfoldable pub check_route :
      List F32 → List F32 → ℕ → F32 → Scratch → Result RoutingError (Unit {0})
  unfolding validate_finite check_scores
  check_route logits biases used scale s =
      let n = length logits in
      do
        guard (leb n (2 ^ 32 - 1)) (routing_length "logits representable expert IDs" (2 ^ 32 - 1) n)
        guard (length biases == n) (routing_length "selection_bias" n (length biases))
        guard (not (used == 0 || ltb n used)) (routing_top_k n used)
        guard (length s.candidates == n) (routing_length "candidates" n (length s.candidates))
        guard (length s.selected == used) (routing_length "selected" used (length s.selected))
        validate_finite "weight_scale" 0 scale
        check_scores 0 logits biases

  -- What is written over the candidates, of which there are as many as experts.
  unfoldable pub candidates_from : ℕ → List F32 → List F32 → List RouteCandidate
  candidates_from index [] biases = []
  candidates_from index (logit ∷ logits) [] = []
  candidates_from index (logit ∷ logits) (bias ∷ biases) =
      record {
        expert_id = index;
        selection_score = score logit bias;
        unbiased_weight = sigmoid logit;
      }
      ∷ candidates_from (suc index) logits biases

  unfoldable pub sum_weights : F32 → List RouteCandidate → F32
  sum_weights total [] = total
  sum_weights total (c ∷ cs) = sum_weights (f32.add total c.unbiased_weight) cs

  unfoldable pub weight_sum : List RouteCandidate → F32
  unfolding sum_weights
  weight_sum chosen = f32.max (sum_weights 0 chosen) routing_sum_floor

  unfoldable pub routed : F32 → F32 → RouteCandidate → RoutedExpert
  routed total scale c = record {
    expert_id = c.expert_id;
    coefficient = f32.mul (f32.div c.unbiased_weight total) scale;
  }

  unfoldable pub route_experts_into :
      List F32 → List F32 → ℕ → F32 → Scratch → Scratch × Result RoutingError (Unit {0})
  unfolding check_route candidates_from goes_first weight_sum routed sort_by
  route_experts_into logits biases used scale s = elim (check_route logits biases used scale s) [
    | err e ↦ (s, err e)
    | ok u ↦
        let sorted = sort_by goes_first (candidates_from 0 logits biases) in
        let chosen = take used sorted in
        (
          record {
            candidates = sorted;
            selected = sort_by lower_id (map (routed (weight_sum chosen) scale) chosen);
          },
          ok tt,
        )
  ]
