-- ===== src/Kv/Writes.antt =====
-- The loops that write the rows of new tokens: they end without an error or a panic, and extend the
-- flat lists of their layer by the rows.
use native.Mathlib.Nat.{div-add-mod', mod-lt, mul_assoc}
use light_bridge_engine.Base.{
  ℕ, zero, suc, ◌+◌, ◌*◌, ◌/◌, ◌%◌, ◌≤◌, ◌<◌, ◌≡◌, refl, sym, ap, ◌∙◌, List, ◌++◌, Option, some, ok,
  length, set, take, drop, arith, get_elem?-set_self, All-get, take_add, append_assoc, word_modulus,
}
use light_bridge_engine.Kv.Types.{
  KvPage, PagedKvCache, F32, Part, of_keys, of_values, rows, with_rows, dimension,
}
use light_bridge_engine.Kv.Pages.{page, page_in, table_at}
use light_bridge_engine.Kv.Rows.{
  row_offset, offset, checked_slice, copy_row, write_row, write_heads, write_tokens,
}
use light_bridge_engine.Kv.Slices.{
  place, row_within, row_offset-small, checked_slice-ok, copy_row-ok, length-row,
}
use light_bridge_engine.Kv.Tables.{page_size, IsSized, TableIsValid, flat, other, flat_write}
use light_bridge_engine.Kv.Updates.{on, put_page_on, offset_lem, write_row-ok, source, Fits}

module _ (c : PagedKvCache) (layer : ℕ) (keys values : List F32) (count stored : ℕ)
    (fits : Fits c layer keys values count) where
  page_on :
      (table : List (Option KvPage)) (token : ℕ)
      → page (on c layer table) layer token ≡ page_in table (token / c.page_tokens)
  unfolding page table_at
  page_on table token = rw (get_elem?-set_self c.pages layer table fits.layer_in) refl

  -- The rows of a part that are written when `done` rows of the call are.
  abbrev pub Written : Part → ℕ → List (Option KvPage) → List (Option KvPage) → Type 0
  Written part done before table =
      let n = dimension part c in
      take ((stored * c.kv_head_count + done) * n) (flat c part table)
      ≡ take (stored * c.kv_head_count * n) (flat c part before)
        ++ take (done * n) (source part keys values)

  -- The next row follows those that are written.
  Written-next :
      (part : Part) (before table table' : List (Option KvPage)) (t head : ℕ)
      → take
          (((stored + t) * c.kv_head_count + head) * dimension part c + dimension part c)
          (flat c part table')
        ≡ take (((stored + t) * c.kv_head_count + head) * dimension part c) (flat c part table)
          ++ take
              (dimension part c)
              (drop ((t * c.kv_head_count + head) * dimension part c) (source part keys values))
      → Written part (t * c.kv_head_count + head) before table
      → Written part (suc (t * c.kv_head_count + head)) before table'
  Written-next part before table table' t head extended written =
      let n : ℕ = dimension part c in
      let heads : ℕ = c.kv_head_count in
      let src : List F32 = source part keys values in
      let s : ℕ = t * heads + head in
      let base : List F32 = take (stored * heads * n) (flat c part before) in
      let here : (stored + t) * heads + head ≡ stored * heads + s = grind arith in
      let to : (stored * heads + suc s) * n ≡ (stored * heads + s) * n + n = grind arith in
      let rows_to : suc s * n ≡ s * n + n = grind arith in
      rw (to, rows_to)
        ((rw here at extended)
          ∙ ap (λ xs. xs ++ take n (drop (s * n) src)) written
          ∙ append_assoc base (take (s * n) src) (take n (drop (s * n) src))
          ∙ ap (◌++◌ base) (sym (take_add (s * n) n src)))

  -- The row of a head in what is appended.
  source_row :
      (part : Part) (t head : ℕ)
      → t < count
      → head < c.kv_head_count
      → (checked_slice
            (row_offset t c.kv_head_count head (dimension part c))
            (dimension part c)
            (source part keys values)
          ≡ ok (
              take
                (dimension part c)
                (drop ((t * c.kv_head_count + head) * dimension part c) (source part keys values))))
        × (length (
              take
                (dimension part c)
                (drop ((t * c.kv_head_count + head) * dimension part c) (source part keys values)))
            ≡ dimension part c)
  source_row part t head in_count in_heads =
      let n : ℕ = dimension part c in
      let heads : ℕ = c.kv_head_count in
      let src : List F32 = source part keys values in
      let s : ℕ = (t * heads + head) * n in
      let total : count * heads * n ≡ length src =
        mul_assoc count heads n ∙ sym (fits.whole part) in
      let small : count * heads * n < word_modulus = omega (arith, fits.small part) in
      let start : row_offset t heads head n ≡ s =
        row_offset-small t head count heads n in_count in_heads small in
      let within : s + n ≤ length src =
        rw total at (row_within t head count heads n in_count in_heads) in
      (rw start (checked_slice-ok s n src within (fits.small part)), length-row s n src within)

  -- One row.
  write_row-Written :
      (part : Part) (before table : List (Option KvPage)) (t head : ℕ)
      → TableIsValid c (stored + count) table
      → t < count
      → head < c.kv_head_count
      → Written part (t * c.kv_head_count + head) before table
      → (table' : List (Option KvPage)) × (write_row part
            (on c layer table)
            layer
            t
            (stored + t)
            head
            (source part keys values)
          ≡ (on c layer table', ok tt))
        × TableIsValid c (stored + count) table'
        × Written part (suc (t * c.kv_head_count + head)) before table'
        × (flat c (other part) table' ≡ flat c (other part) table)
  unfolding page_in
  write_row-Written part before table t head valid in_count in_heads written =
      let n : ℕ = dimension part c in
      let heads : ℕ = c.kv_head_count in
      let src : List F32 = source part keys values in
      let token : ℕ = stored + t in
      let q : ℕ = token / c.page_tokens in
      let m : ℕ = token % c.page_tokens in
      let in_page = mod-lt token fits.holds in
      let exact = div-add-mod' token c.page_tokens in
      let (p, here) = valid.backed q (omega arith) in
      let sized = All-get (IsSized c) table q (some p) valid.sized here part in
      let o : ℕ = (m * heads + head) * n in
      let s : ℕ = (t * heads + head) * n in
      let target : offset part (on c layer table) token head ≡ o =
        offset_lem part (on c layer table) token head
        ∙ row_offset-small m head c.page_tokens heads n in_page in_heads sized.1 in
      let row : List F32 = take n (drop s src) in
      let (cut, row_size) = source_row part t head in_count in_heads in
      let room : o + n ≤ page_size part c =
        row_within m head c.page_tokens heads n in_page in_heads in
      let new : List F32 = take o (rows part p) ++ row ++ drop (o + n) (rows part p) in
      let p' : KvPage = with_rows part p new in
      let found : page (on c layer table) layer token ≡ ok p =
        page_on table token ∙ rw (page_in, here) refl in
      let copied : copy_row (offset part (on c layer table) token head)
            (dimension part (on c layer table)) row (rows part p)
          ≡ ok new =
        rw target
          (copy_row-ok o n row (rows part p) row_size (rw sized.0 room) (rw sized.0 sized.1)) in
      let (kept, extended, apart) =
        flat_write c (stored + count) table valid part q o row p p' here (rw row_size room)
          (rw row_size refl) in
      (
        set table q (some p'),
        write_row-ok part (on c layer table) layer t token head src p row new found cut copied
            ∙ ap (λ (d : PagedKvCache). (d, ok tt)) (put_page_on c layer table q p' fits.layer_in),
        kept,
        Written-next part before table (set table q (some p')) t head
            (rw (row_size, place token head c.page_tokens heads n) at extended) written,
        apart,
      )

  abbrev pub AllWritten : ℕ → List (Option KvPage) → List (Option KvPage) → Type 0
  AllWritten done before table =
      TableIsValid c (stored + count) table
      × Written of_keys done before table
      × Written of_values done before table

  -- The two rows of a head.
  write_head-AllWritten :
      (before table : List (Option KvPage)) (t head : ℕ)
      → t < count
      → head < c.kv_head_count
      → AllWritten (t * c.kv_head_count + head) before table
      → (between : List (Option KvPage)) × (table' : List (Option KvPage)) × (write_row of_keys
            (on c layer table)
            layer
            t
            (stored + t)
            head
            keys
          ≡ (on c layer between, ok tt))
        × (write_row of_values (on c layer between) layer t (stored + t) head values
            ≡ (on c layer table', ok tt))
        × AllWritten (suc (t * c.kv_head_count + head)) before table'
  write_head-AllWritten before table t head in_count in_heads (valid, keys_in, values_in) =
      let (b, first, b_valid, b_keys, b_values) =
        write_row-Written of_keys before table t head valid in_count in_heads keys_in in
      let values_kept : Written of_values (t * c.kv_head_count + head) before b =
        rw b_values values_in in
      let (e, second, e_valid, e_values, e_keys) =
        write_row-Written of_values before b t head b_valid in_count in_heads values_kept in
      (b, e, first, second, (e_valid, rw e_keys b_keys, e_values))

  -- The heads that are left of a token.
  write_heads-AllWritten :
      (before table : List (Option KvPage)) (t head left : ℕ)
      → t < count
      → head + left ≡ c.kv_head_count
      → AllWritten (t * c.kv_head_count + head) before table
      → (table' : List (Option KvPage)) × (write_heads layer keys values
            (on c layer table)
            t
            (stored + t)
            head
            left
          ≡ (on c layer table', ok tt))
        × AllWritten (t * c.kv_head_count + c.kv_head_count) before table'
  unfolding write_heads
  write_heads-AllWritten before table t head zero in_count all w =
      let e : head ≡ c.kv_head_count = omega arith in (table, refl, rw e at w)
  write_heads-AllWritten before table t head (suc left) in_count all w =
      let (b, m, first, second, w') =
        write_head-AllWritten before table t head in_count (omega arith) w in
      let next : suc (t * c.kv_head_count + head) ≡ t * c.kv_head_count + suc head = omega arith in
      let (e, rest, done) =
        write_heads-AllWritten before m t (suc head) left in_count (omega arith) (rw next at w') in
      (e, rw (first, second) rest, done)

  -- The tokens that are left of the call.
  pub write_tokens-AllWritten :
      (before table : List (Option KvPage)) (t left : ℕ)
      → t + left ≡ count
      → AllWritten (t * c.kv_head_count) before table
      → (table' : List (Option KvPage)) × (write_tokens layer keys values
            (on c layer table)
            stored
            t
            left
          ≡ (on c layer table', ok tt))
        × AllWritten (count * c.kv_head_count) before table'
  unfolding write_tokens
  write_tokens-AllWritten before table t zero all w =
      let e : t ≡ count = omega arith in (table, refl, rw e at w)
  write_tokens-AllWritten before table t (suc left) all w =
      let start : t * c.kv_head_count ≡ t * c.kv_head_count + 0 = omega arith in
      let (b, first, w') =
        write_heads-AllWritten before table t 0 c.kv_head_count (omega arith) (omega arith)
          (rw start at w) in
      let next : t * c.kv_head_count + c.kv_head_count ≡ suc t * c.kv_head_count = omega arith in
      let (e, rest, done) =
        write_tokens-AllWritten before b (suc t) left (omega arith) (rw next at w') in
      (e, rw first rest, done)
