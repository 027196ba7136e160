-- ===== src/Kv/Snapshots/Singles.antt =====
-- The append of one token where there is room for everything.
use native.Mathlib.Nat.{mul_assoc, mul-le-mul_right}
use light_bridge_engine.Base.{
  ℕ, ◌*◌, ◌≤◌, ◌<◌, ◌≡◌, refl, sym, ap, ◌∙◌, List, [], Bool, true, false, some, String, ok, length,
  arith, get_elem?-some, word_modulus, inl, inr, All-get,
}
use light_bridge_engine.Base.{map, length-take}
use light_bridge_engine.Kv.Types.{F32, PagedKvCache, Part}
use light_bridge_engine.Kv.Pages.{length_at}
use light_bridge_engine.Kv.Rows.{append}
use light_bridge_engine.Kv.Blocks.{length-concat}
use light_bridge_engine.Kv.Tables.{page_size, IsSized, flat, block, blocks-sized, length-map}
use light_bridge_engine.Kv.Views.{
  CacheIsValid, Appendable, Appended, per_token, tokens_of, view, get_or-eq,
}
use light_bridge_engine.Kv.Types.{Sizes}
use light_bridge_engine.Kv.Appends.{append_tokens-Ends}
use light_bridge_engine.Kv.Snapshots.Restore.{finished}

-- A layer's list has the rows of its tokens.
pub length-view :
    (c : PagedKvCache) (part : Part) (layer : ℕ)
    → CacheIsValid c
    → layer < c.layer_count
    → length (view c part layer) ≡ tokens_of c layer * per_token part c
length-view c part layer valid inside =
    let (n, here) = get_elem?-some c.lengths layer (omega (arith, valid.counted)) in
    let (table, there) = get_elem?-some c.pages layer (omega (arith, valid.tabled)) in
    let (fits, ok_table) = valid.tables layer n table here there in
    let per : ℕ = per_token part c in
    let whole : length (flat c part table) ≡ c.page_count * page_size part c =
      length-concat (page_size part c) (map (block (page_size part c) part) table)
        (blocks-sized c part table ok_table.sized)
      ∙ ap (λ (m : ℕ). m * page_size part c)
          (length-map (block (page_size part c) part) table ∙ ok_table.size) in
    let spread : c.page_count * page_size part c ≡ c.page_count * c.page_tokens * per =
      simp mul_assoc in
    let enough : n * per ≤ c.page_count * c.page_tokens * per =
      mul-le-mul_right per (omega (arith, valid.roomy)) in
    rw (get_or-eq c.lengths layer 0 n here, get_or-eq c.pages layer [] table there)
      (omega (arith, length-take {0} (n * per) (flat c part table)))

-- The tokens of a layer with one or more have pages, whose sizes fit a word.
pub pages_fit :
    (c : PagedKvCache) (part : Part) (layer : ℕ)
    → CacheIsValid c
    → layer < c.layer_count
    → 0 < tokens_of c layer
    → page_size part c < word_modulus
pages_fit c part layer valid inside some_tokens =
    let (n, here) = get_elem?-some c.lengths layer (omega (arith, valid.counted)) in
    let (table, there) = get_elem?-some c.pages layer (omega (arith, valid.tabled)) in
    let (fits, ok_table) = valid.tables layer n table here there in
    let known = get_or-eq c.lengths layer 0 n here in
    let start : 0 * c.page_tokens < n = omega arith in
    let (p, found) = ok_table.backed 0 start in
    (All-get (IsSized c) table 0 (some p) ok_table.sized found part).1

true-ne-false : true ≡ false → ⊥
true-ne-false h = cc

module _ (has_room : String → ℕ → Bool)
    (grants : (name : String) (n : ℕ) → has_room name n ≡ true) where
  -- With room for its pages, an append of one token that is allowed is taken.
  pub append_one :
      (r : PagedKvCache) (layer : ℕ) (keys values : List F32)
      → CacheIsValid r
      → Appendable r layer 1 keys values
      → ((part : Part) → page_size part r < word_modulus)
      → length keys < word_modulus
      → length values < word_modulus
      → (r' : PagedKvCache) × (finished (append has_room r layer keys values) ≡ ok r')
        × Appended r layer 1 keys values r'
  unfolding append length_at
  append_one r layer keys values valid given fit ks vs =
      elim (append_tokens-Ends has_room r layer 1 keys values valid ks vs) [
        | inl (_, (r', e, added)) ↦
            let inside : layer < length r'.lengths = omega (
              arith,
              given.layer_in,
              added.keeps.counted,
              ap (λ (s : Sizes). s.layers) added.same_sizes,
            ) in
            let (n, here) = get_elem?-some r'.lengths layer inside in
            (r', rw (append, e, here) refl, added)
        | inr (why, e, lacks) ↦ elim (lacks given) [
          | inl (name, n, _, full) ↦ absurd (true-ne-false (sym (grants name n) ∙ full))
          | inr (part, name, _, big) ↦ absurd (omega (arith, fit part))
        ]
      ]
