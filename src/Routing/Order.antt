-- ===== src/Routing/Order.antt =====
-- The order in which candidates are ranked is strict between experts whose scores are finite.
use Prim.Native.Nat.{compare}
use light_bridge_engine.Base.{
  some, ℕ, suc, ◌≤◌, ◌<◌, ◌≡◌, ◌≢◌, refl, sym, List, [], ◌∷◌, true, false, ◌⊎◌, inl, inr, arith,
  All,
}
use light_bridge_engine.Base.Sorting.{Ordered, All-map_to}
use light_bridge_engine.Kv.Types.{F32, is_finite}
use light_bridge_engine.Routing.{
  Arithmetic, RouteCandidate, place, is_nan, partial_cmp, compare_candidates, goes_first, score,
  candidates_from,
}

finite_is_a_number : (x : F32) → is_finite x ≡ true → is_nan x ≡ false
unfolding is_finite is_nan
finite_is_a_number x h = ground arith

partial_cmp-finite :
    (a b : F32)
    → is_finite a ≡ true
    → is_finite b ≡ true
    → partial_cmp a b ≡ some (compare (place a) (place b))
unfolding partial_cmp
partial_cmp-finite a b fa fb = rw (finite_is_a_number a fa, finite_is_a_number b fb) refl

-- A candidate goes before another: its score is higher, or the scores are equal and its number is
-- lower.
abbrev pub Beats : RouteCandidate → RouteCandidate → Type 0
Beats a b =
    (place b.selection_score < place a.selection_score)
    ⊎ ((place a.selection_score ≡ place b.selection_score) × (a.expert_id < b.expert_id))

-- Two experts, with scores that are finite.
abbrev pub Apart : RouteCandidate → RouteCandidate → Type 0
Apart a b =
    (a.expert_id ≢ b.expert_id)
    × (is_finite a.selection_score ≡ true)
    × (is_finite b.selection_score ≡ true)

abbrev pub Ranked : RouteCandidate → RouteCandidate → Type 0
Ranked a b = Beats a b × Apart a b

pub goes_first-Ranked : (a b : RouteCandidate) → Apart a b → goes_first a b ≡ true → Ranked a b
unfolding goes_first compare_candidates
goes_first-Ranked a b (other, fa, fb) h =
    let numbers = partial_cmp-finite b.selection_score a.selection_score fb fa in
    let known = rw (goes_first, compare_candidates, numbers) at h in (ground arith, (other, fa, fb))

pub goes_after-Ranked : (a b : RouteCandidate) → Apart a b → goes_first a b ≡ false → Ranked b a
unfolding goes_first compare_candidates
goes_after-Ranked a b (other, fa, fb) h =
    let numbers = partial_cmp-finite b.selection_score a.selection_score fb fa in
    let known = rw (goes_first, compare_candidates, numbers) at h in
    (ground arith, ((λ e. other (sym e)), fb, fa))

Beats-trans : (a b c : RouteCandidate) → Beats a b → Beats b c → Beats a c
Beats-trans a b c (inl h) (inl k) = inl (omega arith)
Beats-trans a b c (inl h) (inr k) = inl (omega (arith, k.0))
Beats-trans a b c (inr h) (inl k) = inl (omega (arith, h.0))
Beats-trans a b c (inr h) (inr k) = inr (omega (arith, h.0, k.0), omega (arith, h.1, k.1))

pub Ranked-trans : (a b c : RouteCandidate) → Apart a c → Ranked a b → Ranked b c → Ranked a c
Ranked-trans a b c apart (ab, _) (bc, _) = (Beats-trans a b c ab bc, apart)

module _ (f32 : Arithmetic) where
  -- The logits, the biases and the scores are finite.
  abbrev pub Finite : List F32 → List F32 → Type 0
  Finite [] biases = Unit
  Finite (logit ∷ logits) [] = Unit
  Finite (logit ∷ logits) (bias ∷ biases) =
      (is_finite logit ≡ true)
      × (is_finite bias ≡ true)
      × (is_finite (score f32 logit bias) ≡ true)
      × Finite logits biases

  -- The candidates from an expert on have its number or a higher one, and finite scores.
  candidates_from-All :
      (index : ℕ) (logits biases : List F32)
      → Finite logits biases
      → All
          (λ c. (index ≤ c.expert_id) × (is_finite c.selection_score ≡ true))
          (candidates_from f32 index logits biases)
  unfolding candidates_from
  candidates_from-All index [] biases finite = tt
  candidates_from-All index (logit ∷ logits) [] finite = tt
  candidates_from-All index (logit ∷ logits) (bias ∷ biases) (_, _, first, finite) = (
    (omega arith, first),
    All-map_to (candidates_from f32 (suc index) logits biases)
        (λ c (low, fin). (omega (arith, low), fin))
        (candidates_from-All (suc index) logits biases finite),
  )

  pub candidates_from-Apart :
      (index : ℕ) (logits biases : List F32)
      → Finite logits biases
      → Ordered Apart (candidates_from f32 index logits biases)
  unfolding candidates_from
  candidates_from-Apart index [] biases finite = tt
  candidates_from-Apart index (logit ∷ logits) [] finite = tt
  candidates_from-Apart index (logit ∷ logits) (bias ∷ biases) (_, _, first, finite) = (
    All-map_to (candidates_from f32 (suc index) logits biases)
        (λ c (low, fin). ((λ e. omega (arith, low, e)), first, fin))
        (candidates_from-All (suc index) logits biases finite),
    candidates_from-Apart (suc index) logits biases finite,
  )
