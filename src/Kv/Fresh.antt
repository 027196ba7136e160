-- ===== src/Kv/Fresh.antt =====
-- A new cache is valid and empty.
use native.Mathlib.Nat.{lt-div-mul-add}
use light_bridge_engine.Base.{
  ℕ, zero, suc, ◌+◌, ◌-◌, ◌*◌, ◌/◌, ◌≤◌, ◌<◌, ◌≡◌, refl, sym, ap, ◌∙◌, subst, List, [], ◌∷◌, Bool,
  true, false, Option, none, some, String, ok, length, arith, get_elem?-lt, word_modulus, replicate,
  length-replicate, get_elem?-replicate, Result, inl, inr, >>=-eq-ok, guard-then, unit-then,
  ok_or-then, All, All-get, ◌==◌, Bool-cases, get_or,
}
use light_bridge_engine.Base.{checked_add, checked_add-some, length}
use light_bridge_engine.Kv.Types.{
  Fault, refused, allocation_failed, PagedKvCache, KvPage, Part, of_keys, of_values, dimension,
}
use light_bridge_engine.Kv.Pages.{
  parameters, zero_check, zeroed_vec, new_page, new_table, new_tables, new_with_allocation,
}
use light_bridge_engine.Kv.NewPages.{new_page-ok, zeroed_vec-ok}
use light_bridge_engine.Kv.Tables.{IsSized}
use light_bridge_engine.Kv.Views.{CacheIsValid, tokens_of, some_inj}
use light_bridge_engine.Kv.Types.{sizes}

pub ok_inj {ℓ} : {A : Type ℓ} {a b : A} → ◌≡◌ {A = Result Fault A} (ok a) (ok b) → a ≡ b
ok_inj h = cc

zero_check-ok :
    (fields : List (String × ℕ))
    → zero_check fields ≡ ok tt
    → All (λ (f : String × ℕ). 0 < f.1) fields
unfolding zero_check
zero_check-ok [] h = tt
zero_check-ok ((name, value) ∷ fields) h = elim (Bool-cases (value == 0)) [
  | inl e ↦ absurd (ground arith)
  | inr e ↦ (ground arith, zero_check-ok fields (rw e at h))
]

-- A table of so many entries, each of its size if it is there.
abbrev IsTable : PagedKvCache → ℕ → List (Option KvPage) → Type 0
IsTable c n table = (length table ≡ n) × All (IsSized c) table

module _ (has_room : String → ℕ → Bool) (c : PagedKvCache) where
  abbrev pub one : Result Fault KvPage
  one = new_page has_room c.page_tokens c.kv_head_count c.key_dimension c.value_dimension

  new_table-ok :
      (eager : Bool) (n : ℕ) (table : List (Option KvPage))
      → new_table has_room one eager n ≡ ok table
      → IsTable c n table
  unfolding new_table
  new_table-ok eager zero table h = subst (IsTable c 0) (ok_inj h) (refl, tt)
  new_table-ok false (suc n) table h =
      let (rest, e, done) = >>=-eq-ok (new_table has_room one false n) _ h in
      let (size, sized) = new_table-ok false n rest e in
      let same : none ∷ rest ≡ table = ok_inj done in
      subst (IsTable c (suc n)) same (ap suc size, (tt, sized))
  new_table-ok true (suc n) table h =
      let (p, made, h1) = >>=-eq-ok one _ h in
      let (rest, e, done) = >>=-eq-ok (new_table has_room one true n) _ h1 in
      let (size, sized) = new_table-ok true n rest e in
      let same : some p ∷ rest ≡ table = ok_inj done in
      subst (IsTable c (suc n)) same (ap suc size, ((new_page-ok has_room c p made).0, sized))

  new_tables-ok :
      (eager : Bool) (n layers : ℕ) (tables : List (List (Option KvPage)))
      → new_tables has_room one eager n layers ≡ ok tables
      → (length tables ≡ layers) × All (IsTable c n) tables
  unfolding new_tables
  new_tables-ok eager n zero tables h =
      subst (λ ts. (length ts ≡ 0) × All (IsTable c n) ts) (ok_inj h) (refl, tt)
  new_tables-ok eager n (suc layers) tables h =
      let (_, h1) =
        guard-then (has_room "page table" n) (refused (allocation_failed "page table" n)) _ h in
      let (table, made, h2) = >>=-eq-ok (new_table has_room one eager n) _ h1 in
      let (rest, e, done) = >>=-eq-ok (new_tables has_room one eager n layers) _ h2 in
      let (size, sized) = new_tables-ok eager n layers rest e in
      let same : table ∷ rest ≡ tables = ok_inj done in
      subst (λ ts. (length ts ≡ suc layers) × All (IsTable c n) ts) same
        (ap suc size, (new_table-ok eager n table made, sized))

module _ (layers heads key_dim value_dim page_tokens capacity page_count : ℕ)
    (tables : List (List (Option KvPage))) where
  abbrev pub empty_cache : PagedKvCache
  empty_cache = record {
    layer_count = layers;
    kv_head_count = heads;
    key_dimension = key_dim;
    value_dimension = value_dim;
    page_tokens = page_tokens;
    page_count = page_count;
    token_capacity = capacity;
    lengths = replicate layers 0;
    pages = tables;
  }

  positive_dims : 0 < key_dim → 0 < value_dim → (part : Part) → 0 < dimension part empty_cache
  positive_dims k v of_keys = k
  positive_dims k v of_values = v

  empty-Valid :
      0 < page_tokens
      → 0 < key_dim
      → 0 < value_dim
      → capacity ≤ page_count * page_tokens
      → capacity < word_modulus
      → capacity + (page_tokens - 1) < word_modulus
      → (0 < layers) × (0 < heads) × (0 < capacity)
      → length tables ≡ layers
      → All (IsTable empty_cache page_count) tables
      → CacheIsValid empty_cache
  empty-Valid pt kd vd roomy small rounds not_empty size sized = record {
    holds = pt;
    positive = positive_dims kd vd;
    roomy = roomy;
    small = small;
    rounds = rounds;
    not_empty = not_empty;
    counted = length-replicate layers 0;
    tabled = size;
    tables = λ layer n table ln lt.
        let inside : layer < layers =
          subst (λ (k : ℕ). layer < k) (length-replicate layers 0)
            (get_elem?-lt (replicate layers 0) layer n ln) in
        let none_stored : n ≡ 0 = some_inj (sym ln ∙ get_elem?-replicate layers layer 0 inside) in
        let (entries, all) = All-get (IsTable empty_cache page_count) tables layer table sized lt in
        (
          omega arith,
          record { size = entries; sized = all; backed = λ q low. absurd (omega arith) },
        );
  }

empty_length : (layers layer : ℕ) → ◌≡◌ {A = ℕ} (get_or (replicate layers 0) layer 0) 0
empty_length zero layer = refl
empty_length (suc layers) zero = refl
empty_length (suc layers) (suc layer) = empty_length layers layer

-- A new cache, eager or lazy, is valid, of the sizes that were asked for, and every layer is empty.
pub new-Valid :
    (has_room : String → ℕ → Bool) (layers heads key_dim value_dim page_tokens capacity : ℕ)
    (eager : Bool) (c : PagedKvCache)
    → new_with_allocation has_room layers heads key_dim value_dim page_tokens capacity eager ≡ ok c
    → CacheIsValid c
      × ((layer : ℕ) → tokens_of c layer ≡ 0)
      × (sizes c ≡ record {
        layers = layers;
        heads = heads;
        key_size = key_dim;
        value_size = value_dim;
        page_tokens = page_tokens;
        capacity = capacity;
      })
unfolding new_with_allocation
new-Valid has_room layers heads key_dim value_dim page_tokens capacity eager c h =
    let fields : List (String × ℕ) =
      parameters layers heads key_dim value_dim page_tokens capacity in
    let (checked, h1) = unit-then (zero_check fields) _ h in
    let (rounded, re, h2) = ok_or-then (checked_add capacity (page_tokens - 1)) _ _ h1 in
    let (_, h3) =
      guard-then (has_room "layer page tables" layers)
        (refused (allocation_failed "layer page tables" layers)) _ h2 in
    let made : Result Fault KvPage = new_page has_room page_tokens heads key_dim value_dim in
    let (tables, te, h4) =
      >>=-eq-ok (new_tables has_room made eager (rounded / page_tokens) layers) _ h3 in
    let (ls, le, h5) = >>=-eq-ok (zeroed_vec has_room layers "layer lengths") _ h4 in
    let zeros : ls ≡ replicate layers 0 = zeroed_vec-ok has_room layers "layer lengths" ls le in
    let (ls_pos, (hs_pos, (kd, (vd, (pt, (cap_pos, _)))))) = zero_check-ok fields checked in
    subst
      (λ c.
        CacheIsValid c
        × ((layer : ℕ) → tokens_of c layer ≡ 0)
        × (sizes c ≡ record {
          layers = layers;
          heads = heads;
          key_size = key_dim;
          value_size = value_dim;
          page_tokens = page_tokens;
          capacity = capacity;
        }))
      (ok_inj h5)
      (rw zeros (
        let fresh : PagedKvCache =
          empty_cache layers heads key_dim value_dim page_tokens capacity (rounded / page_tokens)
            tables in
        let (size, sized) =
          new_tables-ok has_room fresh eager (rounded / page_tokens) layers tables te in
        let (sum, small) = checked_add-some capacity (page_tokens - 1) rounded re in
        let high = lt-div-mul-add {a = rounded} pt in
        (
          empty-Valid layers heads key_dim value_dim page_tokens capacity (rounded / page_tokens)
              tables pt kd vd (omega arith) (omega arith) (omega arith) (ls_pos, hs_pos, cap_pos)
              size sized,
          λ layer. empty_length layers layer,
          refl,
        )))
