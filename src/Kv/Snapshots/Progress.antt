-- ===== src/Kv/Snapshots/Progress.antt =====
-- A cache that is restored, after some tokens of one layer: the layers before it are those of the
-- snapshot's cache, and the layers behind it are empty.
use native.Mathlib.Nat.{mul_assoc}
use light_bridge_engine.Base.{
  ℕ, suc, ◌+◌, ◌*◌, ◌≤◌, ◌<◌, ◌≡◌, ◌≢◌, refl, sym, ap, ◌∙◌, List, ◌++◌, true, length, take, drop,
  arith, All,
}
use light_bridge_engine.Base.{ℕ_discrete, length-drop, ◌^◌, take_add, length-take}
use light_bridge_engine.Kv.Types.{F32, PagedKvCache, Part, of_keys, of_values, dimension, is_finite}
use light_bridge_engine.Kv.Updates.{source}
use light_bridge_engine.Kv.Views.{CacheIsValid, Appendable, Appended, per_token, tokens_of, view}
use light_bridge_engine.Kv.Types.{Sizes, sizes}
use light_bridge_engine.Kv.Appends.{take_all}
use light_bridge_engine.Kv.Snapshots.Streams.{All-row}
use light_bridge_engine.Kv.Snapshots.Singles.{length-view}

lt-ne : (i j : ℕ) → i < j → i ≢ j
lt-ne i j h e = omega arith

-- What a restored cache has after some tokens of a layer.
pub record Filled (c : PagedKvCache) (layer t : ℕ) (r : PagedKvCache) : Type 0 where
  pub valid : CacheIsValid r
  pub same : sizes r ≡ sizes c
  pub earlier :
      (i : ℕ)
      → i < layer
      → (tokens_of r i ≡ tokens_of c i) × ((part : Part) → view r part i ≡ view c part i)
  pub so_far : tokens_of r layer ≡ t
  pub rows_so_far :
      (part : Part) → view r part layer ≡ take (t * per_token part c) (view c part layer)
  pub later : (i : ℕ) → layer < i → tokens_of r i ≡ 0

-- Rows that a snapshot can hold: finite, and of 32 bits.
pub record AreRows (c : PagedKvCache) : Type 0 where
  pub words : (part : Part) (layer : ℕ) → All (λ x. x < 256 ^ 4) (view c part layer)
  pub finite : (part : Part) (layer : ℕ) → All (λ x. is_finite x ≡ true) (view c part layer)

-- The rows of one token.
abbrev pub token_rows : PagedKvCache → Part → ℕ → ℕ → List F32
token_rows c part layer t =
    take (c.kv_head_count * dimension part c)
      (drop (t * c.kv_head_count * dimension part c) (view c part layer))

source-rows :
    (c : PagedKvCache) (part : Part) (layer t : ℕ)
    → source part (token_rows c of_keys layer t) (token_rows c of_values layer t)
      ≡ token_rows c part layer t
source-rows c of_keys layer t = refl
source-rows c of_values layer t = refl

module _ (c : PagedKvCache) (layer t : ℕ) (valid : CacheIsValid c) (inside : layer < c.layer_count)
    (more : t < tokens_of c layer) where
  -- The rows of a token that is stored are all there.
  pub length-token_rows : (part : Part) → length (token_rows c part layer t) ≡ per_token part c
  length-token_rows part =
      let per : ℕ = per_token part c in
      let whole = length-view c part layer valid inside in
      let start : t * c.kv_head_count * dimension part c ≡ t * per =
        mul_assoc t c.kv_head_count (dimension part c) in
      let room : t * per + per ≤ tokens_of c layer * per = grind arith in
      omega (
        arith,
        start,
        length-take {0} per (drop (t * c.kv_head_count * dimension part c) (view c part layer)),
        length-drop {0} (t * c.kv_head_count * dimension part c) (view c part layer),
      )

  -- The append of the next token.
  pub next-Appendable :
      (r : PagedKvCache)
      → AreRows c
      → Filled c layer t r
      → tokens_of c layer ≤ c.token_capacity
      → Appendable r layer 1 (token_rows c of_keys layer t) (token_rows c of_values layer t)
  next-Appendable r are filled fits =
      let same = filled.same in
      let per_k : per_token of_keys r ≡ per_token of_keys c =
        ap (λ (s : Sizes). s.heads * s.key_size) same in
      let per_v : per_token of_values r ≡ per_token of_values c =
        ap (λ (s : Sizes). s.heads * s.value_size) same in
      record {
        layer_in = omega (arith, ap (λ (s : Sizes). s.layers) same);
        some_tokens = omega arith;
        keys_whole = length-token_rows of_keys ∙ sym per_k ∙ omega arith;
        values_whole = length-token_rows of_values ∙ sym per_v ∙ omega arith;
        keys_finite =
            All-row (λ x. is_finite x ≡ true) (c.kv_head_count * c.key_dimension)
              (t * c.kv_head_count * c.key_dimension) (view c of_keys layer)
              (are.finite of_keys layer);
        values_finite =
            All-row (λ x. is_finite x ≡ true) (c.kv_head_count * c.value_dimension)
              (t * c.kv_head_count * c.value_dimension) (view c of_values layer)
              (are.finite of_values layer);
        room = omega (arith, filled.so_far, ap (λ (s : Sizes). s.capacity) same);
      }

  -- The cache with the next token.
  pub next-Filled :
      (r r' : PagedKvCache)
      → Filled c layer t r
      → Appended r layer 1 (token_rows c of_keys layer t) (token_rows c of_values layer t) r'
      → Filled c layer (suc t) r'
  next-Filled r r' filled added = record {
    valid = added.keeps;
    same = added.same_sizes ∙ filled.same;
    earlier = λ i before.
        let (n, _) = added.others of_keys i (λ e. lt-ne i layer before e) in
        let (old, rows_old) = filled.earlier i before in
        (n ∙ old, λ part. (added.others part i (λ e. lt-ne i layer before e)).1 ∙ rows_old part);
    so_far = omega (arith, added.grown, filled.so_far);
    rows_so_far = λ part.
        let per : ℕ = per_token part c in
        let xs : List F32 = view c part layer in
        let start : t * c.kv_head_count * dimension part c ≡ t * per =
          mul_assoc t c.kv_head_count (dimension part c) in
        let end : suc t * per ≡ t * per + per = grind arith in
        added.rows_added part
        ∙ ap
            (λ zs.
              zs ++ source part (token_rows c of_keys layer t) (token_rows c of_values layer t))
            (filled.rows_so_far part)
        ∙ ap (◌++◌ (take (t * per) xs))
            (source-rows c part layer t ∙ ap (λ (m : ℕ). take per (drop m xs)) start)
        ∙ sym (take_add (t * per) per xs)
        ∙ ap (λ (m : ℕ). take m xs) (sym end);
    later = λ i behind.
        (added.others of_keys i (λ e. lt-ne layer i behind (sym e))).0 ∙ filled.later i behind;
  }

-- A layer that has all its tokens is one of those before the next.
pub layer-Filled :
    (c : PagedKvCache) (layer : ℕ) (r : PagedKvCache)
    → CacheIsValid c
    → layer < c.layer_count
    → Filled c layer (tokens_of c layer) r
    → Filled c (suc layer) 0 r
layer-Filled c layer r valid inside filled = record {
  valid = filled.valid;
  same = filled.same;
  earlier = λ i before. elim (ℕ_discrete i layer) [
    | yes here ↦ rw here (
      filled.so_far,
      λ part.
          filled.rows_so_far part
          ∙ ap (λ (n : ℕ). take n (view c part layer)) (sym (length-view c part layer valid inside))
          ∙ take_all (view c part layer),
    )
    | no apart ↦ filled.earlier i (omega arith)
  ];
  so_far = filled.later (suc layer) (omega arith);
  rows_so_far = λ part.
      let none_yet = filled.later (suc layer) (omega arith) in
      let a : 0 * per_token part r ≡ 0 = omega arith in
      let b : 0 * per_token part c ≡ 0 = omega arith in rw (none_yet, a, b) refl;
  later = λ i behind. filled.later i (omega arith);
}
