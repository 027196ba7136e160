-- ===== src/Kv/Counts.antt =====
-- How many pages a new cache holds.
use light_bridge_engine.Base.{
  ℕ, zero, suc, ◌-◌, ◌*◌, ◌/◌, ◌%◌, ◌≡◌, refl, ap, List, Bool, true, false, Option, String, Result,
  ok, arith, word_modulus, if◌then◌else◌, >>=-eq-ok, guard-then, ok_or-then, unit-then, checked_add,
}
use light_bridge_engine.Kv.Types.{Fault, refused, allocation_failed, KvPage, PagedKvCache}
use light_bridge_engine.Kv.Pages.{
  parameters, zero_check, zeroed_vec, new_page, new_table, new_tables, new_with_allocation,
  count_pages, count_tables, allocated_page_count,
}
use light_bridge_engine.Kv.Fresh.{ok_inj}

abbrev pages_of : Bool → ℕ → ℕ
pages_of true n = n
pages_of false n = 0

module _ (has_room : String → ℕ → Bool) (made : Result Fault KvPage) where
  count_pages-new_table :
      (eager : Bool) (n : ℕ) (table : List (Option KvPage))
      → new_table has_room made eager n ≡ ok table
      → count_pages table ≡ pages_of eager n
  unfolding new_table count_pages
  count_pages-new_table true zero table h = rw (← ok_inj h) refl
  count_pages-new_table false zero table h = rw (← ok_inj h) refl
  count_pages-new_table false (suc n) table h =
      let (rest, e, done) = >>=-eq-ok (new_table has_room made false n) _ h in
      rw (← ok_inj done) (count_pages-new_table false n rest e)
  count_pages-new_table true (suc n) table h =
      let (p, one, h1) = >>=-eq-ok made _ h in
      let (rest, e, done) = >>=-eq-ok (new_table has_room made true n) _ h1 in
      rw (← ok_inj done) (ap suc (count_pages-new_table true n rest e))

  count_tables-new_tables :
      (eager : Bool) (n layers : ℕ) (tables : List (List (Option KvPage)))
      → new_tables has_room made eager n layers ≡ ok tables
      → count_tables tables ≡ layers * pages_of eager n
  unfolding new_tables count_tables
  count_tables-new_tables eager n zero tables h = rw (← ok_inj h) (omega arith)
  count_tables-new_tables eager n (suc layers) tables h =
      let (_, h1) =
        guard-then (has_room "page table" n) (refused (allocation_failed "page table" n)) _ h in
      let (table, one, h2) = >>=-eq-ok (new_table has_room made eager n) _ h1 in
      let (rest, e, done) = >>=-eq-ok (new_tables has_room made eager n layers) _ h2 in
      let first = count_pages-new_table eager n table one in
      let others = count_tables-new_tables eager n layers rest e in
      rw (← ok_inj done, count_tables, first, others) (omega arith)

-- A new eager cache has all the pages of every layer, as a word counts them, and a lazy one has none.
pub allocated_page_count-new :
    (has_room : String → ℕ → Bool) (layers heads key_dim value_dim page_tokens capacity : ℕ)
    (eager : Bool) (c : PagedKvCache)
    → new_with_allocation has_room layers heads key_dim value_dim page_tokens capacity eager ≡ ok c
    → allocated_page_count c ≡ (if eager then layers * c.page_count % word_modulus else 0)
unfolding new_with_allocation allocated_page_count
allocated_page_count-new has_room layers heads key_dim value_dim page_tokens capacity eager c h =
    let (_, h1) =
      unit-then (zero_check (parameters layers heads key_dim value_dim page_tokens capacity)) _ h in
    let (rounded, re, h2) = ok_or-then (checked_add capacity (page_tokens - 1)) _ _ h1 in
    let (_, h3) = guard-then (has_room "layer page tables" layers) _ _ h2 in
    let made : Result Fault KvPage = new_page has_room page_tokens heads key_dim value_dim in
    let (tables, te, h4) =
      >>=-eq-ok (new_tables has_room made eager (rounded / page_tokens) layers) _ h3 in
    let (lengths, le, done) = >>=-eq-ok (zeroed_vec has_room layers "layer lengths") _ h4 in
    let counted =
      count_tables-new_tables has_room made eager (rounded / page_tokens) layers tables te in
    rw (← ok_inj done, counted) (word_of eager (rounded / page_tokens))
  where
    word_of :
        (eager : Bool) (n : ℕ)
        → layers * pages_of eager n % word_modulus
          ≡ (if eager then layers * n % word_modulus else 0)
    word_of true n = refl
    word_of false n = omega arith
