-- ===== src/Kv/Allocation.antt =====
-- `ensure_pages`: the pages of new tokens are allocated, all or none, and hold zeros.
use native.Mathlib.Nat.{div-add-mod', mod-lt}
use light_bridge_engine.Base.{
  ℕ, ◌+◌, ◌-◌, ◌*◌, ◌/◌, ◌≤◌, ◌<◌, ◌≡◌, refl, sym, ap, ◌∙◌, subst, List, [], Bool, true, Option,
  some, String, ok, err, length, get_elem?, map, arith, Result, ◌⊎◌, inl, inr, dec_lt,
}
use light_bridge_engine.Kv.Types.{Fault, KvPage, PagedKvCache, Part, dimension}
use light_bridge_engine.Kv.Pages.{
  new_page, missing_pages, put_pages, allocate_missing, allocate_pages, ensure_pages, table_at,
}
use light_bridge_engine.Kv.Fills.{
  fill_table, HasPage, In, fill-In, fill-HasPage, length-fill, fill-IsSized, fill-blocks,
  missing-Zeros, missing_complete,
}
use light_bridge_engine.Kv.Updates.{on, on_self}
use light_bridge_engine.Kv.Blocks.{concat}
use light_bridge_engine.Base.{leb, ltb, lt→ltb, le→leb}
use light_bridge_engine.Kv.Types.{KvError, refused}
use light_bridge_engine.Kv.Tables.{IsSized, TableIsValid, flat}
use light_bridge_engine.Kv.NewPages.{
  new_page-ok, PageRefused, allocate_missing-Allocated, put_pages_on,
}

module _ (has_room : String → ℕ → Bool) (c : PagedKvCache) (layer tokens more : ℕ)
    (table : List (Option KvPage)) (layer_in : layer < length c.pages) (holds : 0 < c.page_tokens)
    (positive : (part : Part) → 0 < dimension part c) (here : get_elem? c.pages layer ≡ some table)
    (valid : TableIsValid c tokens table) (some_more : 0 < more)
    (capacity : tokens + more ≤ c.page_count * c.page_tokens) where
  abbrev first : ℕ
  first = tokens / c.page_tokens

  abbrev last : ℕ
  last = (tokens + more - 1) / c.page_tokens

  abbrev missing : List ℕ
  missing = missing_pages table first (last + 1 - first)

  last_inside : (first ≤ last + 1) × (last < length table)
  last_inside =
      let top = div-add-mod' (tokens + more - 1) c.page_tokens in
      let low = div-add-mod' tokens c.page_tokens in
      let top_small = mod-lt (tokens + more - 1) holds in
      let low_small = mod-lt tokens holds in let size = valid.size in (grind arith, grind arith)

  -- A token's page is there, or it is one of those that are missing.
  covered :
      (q : ℕ)
      → q * c.page_tokens < tokens + more
      → (HasPage table q ⊎ In q missing) × (q < length table)
  covered q h =
      let top = div-add-mod' (tokens + more - 1) c.page_tokens in
      let low = div-add-mod' tokens c.page_tokens in
      let top_small = mod-lt (tokens + more - 1) holds in
      let low_last : q ≤ last = grind arith in
      let inside : q < length table = omega (arith, last_inside.1) in
      elim (dec_lt q first) [
        | yes before ↦ (inl (valid.backed q (grind arith)), inside)
        | no from ↦ (
          missing_complete table first (last + 1 - first) q (omega arith) (omega arith) inside,
          inside,
        )
      ]

  filled :
      (p : KvPage) (q : ℕ)
      → q * c.page_tokens < tokens + more
      → HasPage (fill_table p table missing) q
  filled p q h =
      let (either, inside) = covered q h in
      elim either [
        | inl had ↦ fill-HasPage p table missing q had
        | inr lacks ↦ fill-In p table missing q inside lacks
      ]

  -- With the pages that were missing, the table serves all the tokens.
  filled-TableIsValid :
      (p : KvPage)
      → IsSized c (some p)
      → TableIsValid c (tokens + more) (fill_table p table missing)
  filled-TableIsValid p sized = record {
    size = length-fill p table missing ∙ valid.size;
    sized = fill-IsSized c p table missing sized valid.sized;
    backed = filled p;
  }

  -- Where nothing is missing, the table serves all the tokens as it is.
  nothing_missing : missing ≡ [] → TableIsValid c (tokens + more) table
  nothing_missing e = record {
    size = valid.size;
    sized = valid.sized;
    backed = λ q h. elim ((covered q h).0) [
      | inl had ↦ had
      | inr lacks ↦ absurd (subst (λ is. In q is) e lacks)
    ];
  }

  abbrev new_one : Result Fault KvPage
  new_one = new_page has_room c.page_tokens c.kv_head_count c.key_dimension c.value_dimension

  allocate_pages-missing :
      allocate_pages has_room c layer tokens (tokens + more)
      ≡ allocate_missing has_room new_one missing
  unfolding allocate_pages table_at
  allocate_pages-missing =
      let low : leb first (last + 1) ≡ true = le→leb _ _ last_inside.0 in
      let high : ltb last (length table) ≡ true = lt→ltb _ _ last_inside.1 in
      rw (here, low, high) refl

  -- The pages of the new tokens are allocated or the call is refused, with the table as it was;
  -- what the table holds does not change.
  pub ensure_pages-Ends :
      ((e : KvError) × (ensure_pages has_room c layer tokens (tokens + more) ≡ (c, err (refused e)))
        × PageRefused has_room c e)
      ⊎ ((table' : List (Option KvPage)) × (ensure_pages has_room c layer tokens (tokens + more)
            ≡ (on c layer table', ok tt))
          × TableIsValid c (tokens + more) table'
          × ((part : Part) → flat c part table' ≡ flat c part table))
  unfolding ensure_pages
  ensure_pages-Ends = elim (allocate_missing-Allocated has_room c missing new_one refl positive) [
    | inl (e, failed, why) ↦ inl (e, rw (ensure_pages, allocate_pages-missing, failed) refl, why)
    | inr (inl (done, e)) ↦ inr (
      table,
      rw (ensure_pages, allocate_pages-missing, done, put_pages)
          (ap (λ (d : PagedKvCache). (d, ok tt)) (sym (on_self c layer table here))),
      nothing_missing e,
      λ part. refl,
    )
    | inr (inr (p, one, done)) ↦
        let (sized, zeros) = new_page-ok has_room c p one in
        inr (
          fill_table p table missing,
          rw (ensure_pages, allocate_pages-missing, done)
              (ap (λ (d : PagedKvCache). (put_pages d layer (map (λ i. (i, p)) missing), ok tt))
                  (sym (on_self c layer table here))
                ∙ ap (λ (d : PagedKvCache). (d, ok tt))
                    (put_pages_on c layer p table missing layer_in)),
          filled-TableIsValid p sized,
          λ part. ap concat (
              fill-blocks c part p table missing (zeros part)
                (missing-Zeros c part table first (last + 1 - first))),
        )
  ]
