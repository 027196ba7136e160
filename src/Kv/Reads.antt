-- ===== src/Kv/Reads.antt =====
-- Reading a row of a valid cache is reading the flat list of its layer, and never panics.
use native.Mathlib.Nat.{mul_assoc, div-add-mod', mod-lt}
use light_bridge_engine.Base.{
  ℕ, ◌+◌, ◌*◌, ◌/◌, ◌%◌, ◌≤◌, ◌<◌, ◌≡◌, refl, ◌∙◌, List, [], true, false, Option, some, ok, err,
  get_elem?, take, drop, arith, get_elem?-some, take-drop-take, ◌⊎◌, inl, inr, All-get, ltb, lt→ltb,
  dec_lt,
}
use light_bridge_engine.Kv.Types.{
  refused, KvError, token_out_of_range, head_out_of_range, layer_out_of_range, PagedKvCache, KvPage,
  F32, Part, rows, dimension,
}
use light_bridge_engine.Kv.Pages.{validate_layer, length_at, table_at, page_in, page}
use light_bridge_engine.Kv.Rows.{validate_indices, row}
use light_bridge_engine.Kv.Slices.{place, row_within, row_offset-small, checked_slice-ok}
use light_bridge_engine.Kv.Tables.{page_size, IsSized, flat, flat_read}
use light_bridge_engine.Kv.Updates.{offset_lem}
use light_bridge_engine.Kv.Views.{CacheIsValid, tokens_of, view, get_or-eq}

-- The layer, the token and the head are there.
abbrev pub InRange : PagedKvCache → ℕ → ℕ → ℕ → Type 0
InRange c layer token head =
    (layer < c.layer_count) × (token < tokens_of c layer) × (head < c.kv_head_count)

-- The row of a token's head in the flat list.
abbrev pub row_of : PagedKvCache → Part → ℕ → ℕ → ℕ → List F32
row_of c part layer token head =
    take (dimension part c)
      (drop ((token * c.kv_head_count + head) * dimension part c) (view c part layer))

module _ (c : PagedKvCache) (valid : CacheIsValid c) (part : Part) (layer token head : ℕ) where
  indices_pass :
      (stored : ℕ)
      → get_elem? c.lengths layer ≡ some stored
      → layer < c.layer_count
      → token < stored
      → head < c.kv_head_count
      → validate_indices c layer token head ≡ ok tt
  unfolding validate_indices validate_layer length_at
  indices_pass stored here in_layers in_tokens in_heads =
      let a : ltb layer c.layer_count ≡ true = lt→ltb _ _ in_layers in
      let b : ltb token stored ≡ true = lt→ltb _ _ in_tokens in
      let d : ltb head c.kv_head_count ≡ true = lt→ltb _ _ in_heads in rw (a, here, b, d) refl

  page_found :
      (table : List (Option KvPage)) (p : KvPage)
      → get_elem? c.pages layer ≡ some table
      → get_elem? table (token / c.page_tokens) ≡ some (some p)
      → page c layer token ≡ ok p
  unfolding page table_at page_in
  page_found table p there found = rw there (rw (found, page_in) refl)

  -- The row of an index that is there.
  row_in_range :
      (stored : ℕ) (table : List (Option KvPage))
      → get_elem? c.lengths layer ≡ some stored
      → get_elem? c.pages layer ≡ some table
      → layer < c.layer_count
      → token < stored
      → head < c.kv_head_count
      → row part c layer token head ≡ ok (row_of c part layer token head)
  unfolding row
  row_in_range stored table here there in_layers in_tokens in_heads =
      let n : ℕ = dimension part c in
      let heads : ℕ = c.kv_head_count in
      let q : ℕ = token / c.page_tokens in
      let m : ℕ = token % c.page_tokens in
      let in_page = mod-lt token valid.holds in
      let exact = div-add-mod' token c.page_tokens in
      let ok_table = (valid.tables layer stored table here there).1 in
      let (p, found) = ok_table.backed q (omega arith) in
      let (size, small) = All-get (IsSized c) table q (some p) ok_table.sized found part in
      let o : ℕ = (m * heads + head) * n in
      let s : ℕ = (token * heads + head) * n in
      let at =
        offset_lem part c token head
        ∙ row_offset-small m head c.page_tokens heads n in_page in_heads small in
      let room : o + n ≤ page_size part c =
        row_within m head c.page_tokens heads n in_page in_heads in
      let cut = checked_slice-ok o n (rows part p) (rw size room) (rw size small) in
      let flat_row : take n (drop s (flat c part table)) ≡ take n (drop o (rows part p)) =
        rw (place token head c.page_tokens heads n) at
          (flat_read c stored table ok_table part q o n p found room) in
      let whole : stored * heads * n ≡ stored * (heads * n) = mul_assoc stored heads n in
      let within : s + n ≤ stored * (heads * n) =
        rw whole at (row_within token head stored heads n in_tokens in_heads) in
      let seen : row_of c part layer token head ≡ take n (drop o (rows part p)) =
        rw (get_or-eq c.lengths layer 0 stored here, get_or-eq c.pages layer [] table there)
          (take-drop-take n s (stored * (heads * n)) (flat c part table) within ∙ flat_row) in
      let checked = indices_pass stored here in_layers in_tokens in_heads in
      let page_there = page_found table p there found in
      rw (row, seen, checked, page_there, at, cut) refl

  abbrev Refusal : Type 0
  Refusal =
      (e : KvError) × (row part c layer token head ≡ err (refused e))
      × (InRange c layer token head → ⊥)

  refusal_of :
      (e : KvError)
      → validate_indices c layer token head ≡ err (refused e)
      → (InRange c layer token head → ⊥)
      → Refusal
  unfolding row
  refusal_of e failed out = (e, rw (row, failed) refl, out)

  no_layer :
      ¬ (layer < c.layer_count)
      → validate_indices c layer token head ≡ err (refused (layer_out_of_range layer c.layer_count))
  unfolding validate_indices validate_layer
  no_layer out = let a : ltb layer c.layer_count ≡ false = ground arith in rw a refl

  no_token :
      (stored : ℕ)
      → get_elem? c.lengths layer ≡ some stored
      → layer < c.layer_count
      → ¬ (token < stored)
      → validate_indices c layer token head ≡ err (refused (token_out_of_range token stored))
  unfolding validate_indices validate_layer length_at
  no_token stored here in_layers out =
      let a : ltb layer c.layer_count ≡ true = lt→ltb _ _ in_layers in
      let b : ltb token stored ≡ false = ground arith in rw (a, here, b) refl

  no_head :
      (stored : ℕ)
      → get_elem? c.lengths layer ≡ some stored
      → layer < c.layer_count
      → token < stored
      → ¬ (head < c.kv_head_count)
      → validate_indices c layer token head ≡ err (refused (head_out_of_range head c.kv_head_count))
  unfolding validate_indices validate_layer length_at
  no_head stored here in_layers in_tokens out =
      let a : ltb layer c.layer_count ≡ true = lt→ltb _ _ in_layers in
      let b : ltb token stored ≡ true = lt→ltb _ _ in_tokens in
      let d : ltb head c.kv_head_count ≡ false = ground arith in rw (a, here, b, d) refl

  -- Reading a row of a valid cache gives the row of the flat list exactly where the layer, the token
  -- and the head are in range, and is refused elsewhere.
  pub row_lem :
      (InRange c layer token head
        × (row part c layer token head ≡ ok (row_of c part layer token head)))
      ⊎ ((e : KvError) × (row part c layer token head ≡ err (refused e))
          × (InRange c layer token head → ⊥))
  row_lem = elim (dec_lt layer c.layer_count) [
    | no out ↦
        inr (refusal_of (layer_out_of_range layer c.layer_count) (no_layer out) (λ r. out r.0))
    | yes in_layers ↦
        let (stored, here) = get_elem?-some c.lengths layer (omega (arith, valid.counted)) in
        let (table, there) = get_elem?-some c.pages layer (omega (arith, valid.tabled)) in
        let known = get_or-eq c.lengths layer 0 stored here in
        elim (dec_lt token stored) [
          | no out ↦ inr (
              refusal_of (token_out_of_range token stored) (no_token stored here in_layers out)
                (λ r. out (rw known at r.1)))
          | yes in_tokens ↦ elim (dec_lt head c.kv_head_count) [
            | no out ↦ inr (
                refusal_of (head_out_of_range head c.kv_head_count)
                  (no_head stored here in_layers in_tokens out) (λ r. out r.2))
            | yes in_heads ↦ inl (
              (in_layers, rw known in_tokens, in_heads),
              row_in_range stored table here there in_layers in_tokens in_heads,
            )
          ]
        ]
  ]
