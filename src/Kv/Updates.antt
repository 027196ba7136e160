-- ===== src/Kv/Updates.antt =====
-- A cache with another table for one layer, and the write of one row.
use light_bridge_engine.Base.{
  ℕ, ◌*◌, ◌/◌, ◌%◌, ◌<◌, ◌≡◌, refl, ap, List, Option, some, ok, length, get_elem?, set,
  get_elem?-set_self, set-set, set_read, word_modulus,
}
use light_bridge_engine.Kv.Types.{
  KvPage, PagedKvCache, F32, Part, of_keys, of_values, rows, with_rows, dimension,
}
use light_bridge_engine.Kv.Pages.{page, put_page}
use light_bridge_engine.Kv.Rows.{
  row_offset, key_offset, value_offset, offset, checked_slice, copy_row, row_written, write_row,
}

-- The cache with another table for a layer.
abbrev pub on : PagedKvCache → ℕ → List (Option KvPage) → PagedKvCache
on c layer table = record c { pages = set c.pages layer table }

-- Its own table changes nothing.
pub on_self :
    (c : PagedKvCache) (layer : ℕ) (table : List (Option KvPage))
    → get_elem? c.pages layer ≡ some table
    → on c layer table ≡ c
on_self c layer table here =
    ap (λ (ps : List (List (Option KvPage))). record c { pages = ps })
      (set_read c.pages layer table here)

pub put_page_on :
    (c : PagedKvCache) (layer : ℕ) (table : List (Option KvPage)) (q : ℕ) (p : KvPage)
    → layer < length c.pages
    → put_page (on c layer table) layer q p ≡ on c layer (set table q (some p))
unfolding put_page
put_page_on c layer table q p h =
    rw (get_elem?-set_self c.pages layer table h, put_page)
      (ap (λ (ps : List (List (Option KvPage))). record c { pages = ps })
        (set-set c.pages layer table (set table q (some p))))

pub offset_lem :
    (part : Part) (c : PagedKvCache) (token head : ℕ)
    → offset part c token head
      ≡ row_offset (token % c.page_tokens) c.kv_head_count head (dimension part c)
unfolding key_offset value_offset
offset_lem of_keys c token head = refl
offset_lem of_values c token head = refl

-- A row that is written where the page and both slices are there.
pub write_row-ok :
    (part : Part) (c : PagedKvCache) (layer t token head : ℕ) (rows_in : List F32) (p : KvPage)
    (row written : List F32)
    → page c layer token ≡ ok p
    → checked_slice
        (row_offset t c.kv_head_count head (dimension part c))
        (dimension part c)
        rows_in
      ≡ ok row
    → copy_row (offset part c token head) (dimension part c) row (rows part p) ≡ ok written
    → write_row part c layer t token head rows_in
      ≡ (put_page c layer (token / c.page_tokens) (with_rows part p written), ok tt)
unfolding write_row row_written
write_row-ok part c layer t token head rows_in p row written found cut copied =
    rw (write_row, row_written, found, cut, copied) refl

abbrev pub source : Part → List F32 → List F32 → List F32
source of_keys keys values = keys
source of_values keys values = values

-- What an append relies on: the layer is one of the cache, the rows are so many tokens', and a page
-- holds a token or more.
pub record Fits (c : PagedKvCache) (layer : ℕ) (keys values : List F32) (count : ℕ) : Type 0 where
  pub layer_in : layer < length c.pages
  pub holds : 0 < c.page_tokens
  pub whole :
      (part : Part)
      → length (source part keys values) ≡ count * (c.kv_head_count * dimension part c)
  pub small : (part : Part) → length (source part keys values) < word_modulus
