-- ===== src/Kv/Pages.antt =====
-- crates/bridge-kv-gqa/src/cache.rs: how a cache is made, its page tables, and what they hold. The allocator is a
-- parameter: whether it has room for a field of so many elements.
use light_bridge_engine.Base.{
  ℕ, zero, suc, ◌+◌, ◌-◌, ◌/◌, ◌%◌, word_modulus, List, [], ◌∷◌, Bool, true, false, Option, none,
  some, String, ltb, leb, ◌==◌, if◌then◌else◌, Result, ok, err, ok_or, guard, ◌>>=◌, ◌>>◌, length,
  get_elem?, set, replicate, checked_add, checked_mul,
}
use light_bridge_engine.Kv.Blocks.{concat}
use light_bridge_engine.Kv.Types.{
  Fault, refused, panicked, overflow, zero_parameter, allocation_failed, layer_out_of_range, KvPage,
  PagedKvCache, Outcome, refuse,
}

unfoldable pub elements_of : ℕ → ℕ → ℕ → Option ℕ
elements_of page_tokens heads dim = elim (checked_mul page_tokens heads) [
  | none ↦ none
  | some n ↦ checked_mul n dim
]

unfoldable pub zero_check : List (String × ℕ) → Result Fault (Unit {0})
zero_check [] = ok tt
zero_check ((name, value) ∷ fields) =
    if value == 0 then refuse (zero_parameter name) else zero_check fields

-- The parameters of a new cache, in the order in which they are checked.
abbrev pub parameters : ℕ → ℕ → ℕ → ℕ → ℕ → ℕ → List (String × ℕ)
parameters layers heads key_dim value_dim page_tokens capacity =
    ("layer_count", layers)
    ∷ ("kv_head_count", heads)
    ∷ ("key_dimension", key_dim)
    ∷ ("value_dimension", value_dim)
    ∷ ("page_tokens", page_tokens)
    ∷ ("token_capacity", capacity)
    ∷ []

unfoldable pub validate_layer : PagedKvCache → ℕ → Result Fault (Unit {0})
validate_layer c layer =
    guard (ltb layer c.layer_count) (refused (layer_out_of_range layer c.layer_count))

-- `self.lengths[layer]`.
unfoldable pub length_at : PagedKvCache → ℕ → Result Fault ℕ
length_at c layer = ok_or (get_elem? c.lengths layer) panicked

-- `self.pages[layer]`.
unfoldable pub table_at : PagedKvCache → ℕ → Result Fault (List (Option KvPage))
table_at c layer = ok_or (get_elem? c.pages layer) panicked

unfoldable pub page_in : List (Option KvPage) → ℕ → Result Fault KvPage
page_in table index = elim (get_elem? table index) [
  | none ↦ err panicked
  | some none ↦ err (overflow "missing allocated KV page")
  | some (some p) ↦ ok p
]

-- `page`, and the look-up of `page_and_key_offset` and `page_and_value_offset`.
unfoldable pub page : PagedKvCache → ℕ → ℕ → Result Fault KvPage
unfolding table_at page_in
page c layer token = do table ← table_at c layer; page_in table (token / c.page_tokens)

-- `self.pages[layer][index] = Some(p)`.
unfoldable pub put_page : PagedKvCache → ℕ → ℕ → KvPage → PagedKvCache
put_page c layer index p = elim (get_elem? c.pages layer) [
  | none ↦ c
  | some table ↦ record c { pages = set c.pages layer (set table index (some p)) }
]

-- The pages `first` and so many after it that are not allocated.
unfoldable pub missing_pages : List (Option KvPage) → ℕ → ℕ → List ℕ
missing_pages table index zero = []
missing_pages table index (suc n) =
    let rest = missing_pages table (suc index) n in
    elim (get_elem? table index) [ some none ↦ index ∷ rest | none ↦ rest | some (some p) ↦ rest ]

unfoldable pub put_pages : PagedKvCache → ℕ → List (ℕ × KvPage) → PagedKvCache
unfolding put_page
put_pages c layer [] = c
put_pages c layer ((index, p) ∷ rest) = put_pages (put_page c layer index p) layer rest

module _ (has_room : String → ℕ → Bool) where
  unfoldable pub zeroed_vec : ℕ → String → Result Fault (List ℕ)
  zeroed_vec elements name = do
    guard (has_room name elements) (refused (allocation_failed name elements))
    ok (replicate elements 0)

  -- `KvPage::new`.
  unfoldable pub new_page : ℕ → ℕ → ℕ → ℕ → Result Fault KvPage
  unfolding elements_of zeroed_vec
  new_page page_tokens heads key_dim value_dim = do
    key_elements ← ok_or (elements_of page_tokens heads key_dim) (overflow "key page storage")
    value_elements ← ok_or (elements_of page_tokens heads value_dim) (overflow "value page storage")
    keys ← zeroed_vec key_elements "key page storage"
    values ← zeroed_vec value_elements "value page storage"
    ok (record { keys = keys; values = values })

  -- So many pages of a layer: all of them if the cache is eager, or none.
  unfoldable pub new_table : Result Fault KvPage → Bool → ℕ → Result Fault (List (Option KvPage))
  new_table made eager zero = ok []
  new_table made false (suc n) = do rest ← new_table made false n; ok (none ∷ rest)
  new_table made true (suc n) = do p ← made; rest ← new_table made true n; ok (some p ∷ rest)

  unfoldable pub new_tables :
      Result Fault KvPage → Bool → ℕ → ℕ → Result Fault (List (List (Option KvPage)))
  unfolding new_table
  new_tables made eager page_count zero = ok []
  new_tables made eager page_count (suc layers) = do
    guard (has_room "page table" page_count) (refused (allocation_failed "page table" page_count))
    table ← new_table made eager page_count
    rest ← new_tables made eager page_count layers
    ok (table ∷ rest)

  unfoldable pub new_with_allocation : ℕ → ℕ → ℕ → ℕ → ℕ → ℕ → Bool → Result Fault PagedKvCache
  new_with_allocation layers heads key_dim value_dim page_tokens capacity eager = do
    zero_check (parameters layers heads key_dim value_dim page_tokens capacity)
    rounded ← ok_or (checked_add capacity (page_tokens - 1)) (overflow "KV page count rounding")
    let page_count = rounded / page_tokens
    guard (has_room "layer page tables" layers)
        (refused (allocation_failed "layer page tables" layers))
    tables ← new_tables (new_page page_tokens heads key_dim value_dim) eager page_count layers
    lengths ← zeroed_vec layers "layer lengths"
    ok (record {
      layer_count = layers;
      kv_head_count = heads;
      key_dimension = key_dim;
      value_dimension = value_dim;
      page_tokens = page_tokens;
      page_count = page_count;
      token_capacity = capacity;
      lengths = lengths;
      pages = tables;
    })

  unfoldable pub new : ℕ → ℕ → ℕ → ℕ → ℕ → ℕ → Result Fault PagedKvCache
  unfolding new_with_allocation
  new layers heads key_dim value_dim page_tokens capacity =
      new_with_allocation layers heads key_dim value_dim page_tokens capacity true

  unfoldable pub new_lazy : ℕ → ℕ → ℕ → ℕ → ℕ → ℕ → Result Fault PagedKvCache
  unfolding new_with_allocation
  new_lazy layers heads key_dim value_dim page_tokens capacity =
      new_with_allocation layers heads key_dim value_dim page_tokens capacity false

  unfoldable pub new_pages : Result Fault KvPage → List ℕ → Result Fault (List (ℕ × KvPage))
  new_pages made [] = ok []
  new_pages made (index ∷ indices) = do
    p ← made
    rest ← new_pages made indices
    ok ((index, p) ∷ rest)

  -- The new pages for the places where one is missing.
  unfoldable pub allocate_missing : Result Fault KvPage → List ℕ → Result Fault (List (ℕ × KvPage))
  unfolding new_pages
  allocate_missing made missing = if length missing == 0 then ok [] else do
    guard (has_room "new KV pages" (length missing))
        (refused (allocation_failed "new KV pages" (length missing)))
    new_pages made missing

  -- `ensure_pages` for the tokens from `start` to `end`, of which there is one or more. A slice of
  -- the table that is out of bounds panics.
  unfoldable pub allocate_pages : PagedKvCache → ℕ → ℕ → ℕ → Result Fault (List (ℕ × KvPage))
  unfolding table_at missing_pages new_page allocate_missing
  allocate_pages c layer start end = do
    let first = start / c.page_tokens
    let last = (end - 1) / c.page_tokens
    table ← table_at c layer
    guard (leb first (last + 1)) panicked
    guard (ltb last (length table)) panicked
    allocate_missing (new_page c.page_tokens c.kv_head_count c.key_dimension c.value_dimension)
        (missing_pages table first (last + 1 - first))

  unfoldable pub ensure_pages : PagedKvCache → ℕ → ℕ → ℕ → Outcome (Unit {0})
  unfolding allocate_pages put_pages
  ensure_pages c layer start end = elim (allocate_pages c layer start end) [
    | err e ↦ (c, err e)
    | ok allocated ↦ (put_pages c layer allocated, ok tt)
  ]

-- `filter(|page| page.is_some()).count()`.
unfoldable pub count_pages : List (Option KvPage) → ℕ
count_pages [] = 0
count_pages (none ∷ table) = count_pages table
count_pages (some p ∷ table) = suc (count_pages table)

-- The sum of the tables of the layers.
unfoldable pub count_tables : List (List (Option KvPage)) → ℕ
unfolding count_pages
count_tables [] = 0
count_tables (table ∷ tables) = count_pages table + count_tables tables

unfoldable pub allocated_page_count : PagedKvCache → ℕ
unfolding count_tables
allocated_page_count c = count_tables c.pages % word_modulus

-- Four bytes for every float of a page.
unfoldable pub page_bytes : KvPage → Option ℕ
page_bytes p = elim (checked_add (length p.keys) (length p.values)) [
  | none ↦ none
  | some elements ↦ checked_mul elements 4
]

unfoldable pub sum_bytes : ℕ → List (Option KvPage) → Result Fault ℕ
unfolding page_bytes
sum_bytes total [] = ok total
sum_bytes total (none ∷ pages) = sum_bytes total pages
sum_bytes total (some p ∷ pages) = do
  bytes ← ok_or (page_bytes p) (overflow "allocated KV bytes")
  total' ← ok_or (checked_add total bytes) (overflow "allocated KV bytes")
  sum_bytes total' pages

unfoldable pub allocated_bytes : PagedKvCache → Result Fault ℕ
unfolding sum_bytes
allocated_bytes c = sum_bytes 0 (concat c.pages)
