-- ===== src/Kv/Lazy.antt =====
-- A lazy cache can be made where there is room for its tables.
use light_bridge_engine.Base.{
  ℕ, zero, suc, ◌+◌, ◌-◌, ◌/◌, ◌<◌, ◌≡◌, refl, List, [], ◌∷◌, Bool, true, false, Option, none,
  String, ok, arith, Result, All, ◌==◌,
}
use light_bridge_engine.Base.{checked_add-fits}
use light_bridge_engine.Kv.Types.{Fault, PagedKvCache, KvPage, of_keys, of_values}
use light_bridge_engine.Kv.Pages.{
  parameters, zero_check, zeroed_vec, new_page, new_table, new_tables, new_lazy,
}
use light_bridge_engine.Kv.Views.{CacheIsValid}
use light_bridge_engine.Kv.Fresh.{empty_cache}

-- With room for everything, a lazy cache can be made wherever one was.
module _ (has_room : String → ℕ → Bool)
    (grants : (name : String) (n : ℕ) → has_room name n ≡ true) where
  lazy_table :
      (made : Result Fault KvPage) (n : ℕ)
      → (table : List (Option KvPage)) × (new_table has_room made false n ≡ ok table)
  unfolding new_table
  lazy_table made zero = ([], refl)
  lazy_table made (suc n) =
      let (table, e) = lazy_table made n in (none ∷ table, rw (e, new_table) refl)

  lazy_tables :
      (made : Result Fault KvPage) (n layers : ℕ)
      → (tables : List (List (Option KvPage))) × (new_tables has_room made false n layers
          ≡ ok tables)
  unfolding new_tables
  lazy_tables made n zero = ([], refl)
  lazy_tables made n (suc layers) =
      let (table, e) = lazy_table made n in
      let (tables, es) = lazy_tables made n layers in
      (table ∷ tables, rw (new_tables, grants "page table" n, e, es) refl)

  zero_check-pass :
      (fields : List (String × ℕ))
      → All (λ (f : String × ℕ). 0 < f.1) fields
      → zero_check fields ≡ ok tt
  unfolding zero_check
  zero_check-pass [] h = refl
  zero_check-pass ((name, value) ∷ fields) h =
      let first : 0 < value = h.0 in
      let test : (value == 0) ≡ false = ground arith in
      rw (zero_check, test) (zero_check-pass fields h.1)

  pub new_lazy-ok :
      (d : PagedKvCache)
      → CacheIsValid d
      → (r : PagedKvCache) × (new_lazy has_room d.layer_count d.kv_head_count d.key_dimension
            d.value_dimension d.page_tokens d.token_capacity
          ≡ ok r)
  unfolding new_lazy zeroed_vec
  new_lazy-ok d valid =
      let (ls_pos, hs_pos, cap_pos) = valid.not_empty in
      let k_pos : 0 < d.key_dimension = valid.positive of_keys in
      let v_pos : 0 < d.value_dimension = valid.positive of_values in
      let fields : List (String × ℕ) =
        parameters d.layer_count d.kv_head_count d.key_dimension d.value_dimension d.page_tokens
          d.token_capacity in
      let passes =
        zero_check-pass fields (ls_pos, (hs_pos, (k_pos, (v_pos, (valid.holds, (cap_pos, tt)))))) in
      let rounded = checked_add-fits d.token_capacity (d.page_tokens - 1) valid.rounds in
      let made : Result Fault KvPage =
        new_page has_room d.page_tokens d.kv_head_count d.key_dimension d.value_dimension in
      let page_count : ℕ = (d.token_capacity + (d.page_tokens - 1)) / d.page_tokens in
      let (tables, e) = lazy_tables made page_count d.layer_count in
      (
        empty_cache d.layer_count d.kv_head_count d.key_dimension d.value_dimension d.page_tokens
            d.token_capacity page_count tables,
        rw
            (
              passes,
              rounded,
              grants "layer page tables" d.layer_count,
              e,
              grants "layer lengths" d.layer_count,
            )
            refl,
      )
