-- ===== src/Kv/Views.antt =====
-- A valid cache, the flat list of rows that it shows of each layer, and the cache after an append.
use light_bridge_engine.Base.{
  ℕ, zero, suc, ◌+◌, ◌-◌, ◌*◌, ◌≤◌, ◌<◌, ◌≡◌, ◌≢◌, refl, sym, ap, ◌∙◌, subst, List, [], ◌∷◌, ◌++◌,
  true, Option, some, length, get_elem?, set, take, arith, get_elem?-set_self, get_elem?-set_ne,
  length-set, get_elem?-lt, word_modulus, ℕ_discrete, All, get_or,
}
use light_bridge_engine.Kv.Types.{sizes}
use light_bridge_engine.Kv.Types.{
  PagedKvCache, KvPage, F32, Part, of_keys, of_values, dimension, is_finite,
}
use light_bridge_engine.Kv.Tables.{TableIsValid, flat, moved-TableIsValid}
use light_bridge_engine.Kv.Updates.{source}

-- What the calls keep.
pub record CacheIsValid (c : PagedKvCache) : Type 0 where
  pub holds : 0 < c.page_tokens
  pub positive : (part : Part) → 0 < dimension part c
  pub roomy : c.token_capacity ≤ c.page_count * c.page_tokens
  pub small : c.token_capacity < word_modulus
  pub rounds : c.token_capacity + (c.page_tokens - 1) < word_modulus
  pub not_empty : (0 < c.layer_count) × (0 < c.kv_head_count) × (0 < c.token_capacity)
  pub counted : length c.lengths ≡ c.layer_count
  pub tabled : length c.pages ≡ c.layer_count
  pub tables :
      (layer n : ℕ) (table : List (Option KvPage))
      → get_elem? c.lengths layer ≡ some n
      → get_elem? c.pages layer ≡ some table
      → (n ≤ c.token_capacity) × TableIsValid c n table

-- The elements of a part that a token has.
abbrev pub per_token : Part → PagedKvCache → ℕ
per_token part c = c.kv_head_count * dimension part c

-- The tokens of a layer, and their rows as one list, token by token and head by head.
abbrev pub tokens_of : PagedKvCache → ℕ → ℕ
tokens_of c layer = get_or c.lengths layer 0

abbrev pub view : PagedKvCache → Part → ℕ → List F32
view c part layer =
    take (tokens_of c layer * per_token part c) (flat c part (get_or c.pages layer []))

-- The conditions on which an append is taken.
pub record Appendable (c : PagedKvCache) (layer count : ℕ) (keys values : List F32) : Type 0 where
  pub layer_in : layer < c.layer_count
  pub some_tokens : 0 < count
  pub keys_whole : length keys ≡ count * per_token of_keys c
  pub values_whole : length values ≡ count * per_token of_values c
  pub keys_finite : All (λ x. is_finite x ≡ true) keys
  pub values_finite : All (λ x. is_finite x ≡ true) values
  pub room : tokens_of c layer + count ≤ c.token_capacity

pub get_or-eq {ℓ} :
    {A : Type ℓ} (xs : List A) (i : ℕ) (d a : A) → get_elem? xs i ≡ some a → get_or xs i d ≡ a
get_or-eq [] i d a h = cc
get_or-eq (x ∷ xs) zero d a h = cc
get_or-eq (x ∷ xs) (suc i) d a h = get_or-eq xs i d a h

-- The cache after an append: the rows stand behind those of their layer, and every other layer is
-- as it was.
pub record Appended (c : PagedKvCache) (layer count : ℕ) (keys values : List F32)
    (c' : PagedKvCache) : Type 0 where
  pub keeps : CacheIsValid c'
  pub same_sizes : sizes c' ≡ sizes c
  pub grown : tokens_of c' layer ≡ tokens_of c layer + count
  pub rows_added : (part : Part) → view c' part layer ≡ view c part layer ++ source part keys values
  pub others :
      (part : Part) (i : ℕ)
      → i ≢ layer
      → (tokens_of c' i ≡ tokens_of c i) × (view c' part i ≡ view c part i)

get_or-set_ne {ℓ} :
    {A : Type ℓ} (xs : List A) (i j : ℕ) (v d : A) → i ≢ j → get_or (set xs i v) j d ≡ get_or xs j d
get_or-set_ne [] i j v d h = refl
get_or-set_ne (x ∷ xs) zero zero v d h = absurd (h refl)
get_or-set_ne (x ∷ xs) zero (suc j) v d h = refl
get_or-set_ne (x ∷ xs) (suc i) zero v d h = refl
get_or-set_ne (x ∷ xs) (suc i) (suc j) v d h = get_or-set_ne xs i j v d (λ e. h (ap suc e))

pub some_inj {ℓ} : {A : Type ℓ} {a b : A} → some a ≡ some b → a ≡ b
some_inj h = cc

-- The cache with another length and another table for a layer.
abbrev pub with_layer : PagedKvCache → ℕ → ℕ → List (Option KvPage) → PagedKvCache
with_layer c layer n table = record c {
  pages = set c.pages layer table;
  lengths = set c.lengths layer n;
}

module _ (c : PagedKvCache) (layer count : ℕ) (keys values : List F32) (valid : CacheIsValid c)
    (given : Appendable c layer count keys values) (stored : ℕ)
    (here : get_elem? c.lengths layer ≡ some stored) where
  with_layer-Valid :
      (table : List (Option KvPage))
      → layer < length c.pages
      → TableIsValid c (stored + count) table
      → CacheIsValid (with_layer c layer (stored + count) table)
  with_layer-Valid table inside ok_table = record {
    holds = valid.holds;
    positive = valid.positive;
    roomy = valid.roomy;
    small = valid.small;
    rounds = valid.rounds;
    not_empty = valid.not_empty;
    counted = length-set c.lengths layer (stored + count) ∙ valid.counted;
    tabled = length-set c.pages layer table ∙ valid.tabled;
    tables = λ i n t ln lt.
        let ls : List ℕ = set c.lengths layer (stored + count) in
        let ps : List (List (Option KvPage)) = set c.pages layer table in
        elim (ℕ_discrete layer i) [
          | yes same ↦
              let n_eq : stored + count ≡ n = some_inj (
                sym (
                  get_elem?-set_self c.lengths layer (stored + count)
                    (get_elem?-lt c.lengths layer stored here))
                ∙ subst (λ (k : ℕ). get_elem? ls k ≡ some n) (sym same) ln) in
              let t_eq : table ≡ t = some_inj (
                sym (get_elem?-set_self c.pages layer table inside)
                ∙ subst (λ (k : ℕ). get_elem? ps k ≡ some t) (sym same) lt) in
              let fit : stored + count ≤ c.token_capacity =
                rw (get_or-eq c.lengths layer 0 stored here) at given.room in
              (
                omega arith,
                rw (← n_eq, ← t_eq) (moved-TableIsValid c ls ps (stored + count) table ok_table),
              )
          | no apart ↦
              let old =
                valid.tables i n t
                  (sym (get_elem?-set_ne c.lengths layer i (stored + count) apart) ∙ ln)
                  (sym (get_elem?-set_ne c.pages layer i table apart) ∙ lt) in
              (old.0, moved-TableIsValid c ls ps n t old.1)
        ];
  }

  -- The table that holds the new rows makes the cache that is wanted.
  pub with_layer-Appended :
      (before table : List (Option KvPage))
      → get_elem? c.pages layer ≡ some before
      → TableIsValid c (stored + count) table
      → ((part : Part)
          → take ((stored + count) * per_token part c) (flat c part table)
            ≡ take (stored * per_token part c) (flat c part before) ++ source part keys values)
      → Appended c layer count keys values (with_layer c layer (stored + count) table)
  with_layer-Appended before table there ok_table written =
      let inside = get_elem?-lt c.pages layer before there in
      let now : get_or (with_layer c layer (stored + count) table).lengths layer 0
          ≡ stored + count =
        get_or-eq _ layer 0 _ (
          get_elem?-set_self c.lengths layer (stored + count)
            (get_elem?-lt c.lengths layer stored here)) in
      let then_ : get_or c.lengths layer 0 ≡ stored = get_or-eq c.lengths layer 0 stored here in
      let now_table : get_or (with_layer c layer (stored + count) table).pages layer [] ≡ table =
        get_or-eq _ layer [] _ (get_elem?-set_self c.pages layer table inside) in
      let then_table : get_or c.pages layer [] ≡ before = get_or-eq c.pages layer [] before there in
      record {
        keeps = with_layer-Valid table inside ok_table;
        same_sizes = refl;
        grown = rw (now, then_) refl;
        rows_added = λ part. rw (now, now_table, then_, then_table) (written part);
        others = λ part i apart.
            let n = get_or-set_ne c.lengths layer i (stored + count) 0 (λ e. apart (sym e)) in
            let t = get_or-set_ne c.pages layer i table [] (λ e. apart (sym e)) in
            (n, rw (n, t) refl);
      }
