-- ===== src/Kv/Tables.antt =====
-- The page table of a layer as one flat list of rows, and what a write does to it.
use light_bridge_engine.Base.{
  ℕ, suc, ◌+◌, ◌*◌, ◌≤◌, ◌<◌, ◌≡◌, refl, sym, ap, ◌∙◌, subst, List, [], ◌∷◌, ◌++◌, Option, none,
  some, length, get_elem?, set, take, drop, map, arith, All, replicate, length-append, length-take,
  length-drop, length-replicate, length-set, get_elem?-set_self, get_elem?-set_ne, All-get, All-set,
  map-set, get_elem?-map, get_elem?-lt, set_read, word_modulus, ℕ_discrete,
}
use light_bridge_engine.Kv.Types.{
  KvPage, PagedKvCache, F32, Part, of_keys, of_values, rows, with_rows, dimension,
}
use light_bridge_engine.Kv.Blocks.{concat, slice-concat, take-concat-set}

-- The elements of a page.
abbrev pub page_size : Part → PagedKvCache → ℕ
page_size part c = c.page_tokens * c.kv_head_count * dimension part c

-- A page that is allocated has its size, which fits a word.
abbrev pub IsSized : PagedKvCache → Option KvPage → Type 0
IsSized c none = Unit
IsSized c (some p) =
    (part : Part) → (length (rows part p) ≡ page_size part c) × (page_size part c < word_modulus)

-- The table of a layer that has so many tokens: their pages are allocated.
pub record TableIsValid (c : PagedKvCache) (tokens : ℕ) (table : List (Option KvPage))
    : Type 0 where
  pub size : length table ≡ c.page_count
  pub sized : All (IsSized c) table
  pub backed :
      (q : ℕ) → q * c.page_tokens < tokens → (p : KvPage) × (get_elem? table q ≡ some (some p))

-- What a table needs does not depend on the other tables, nor on the lengths.
moved-IsSized :
    (c : PagedKvCache) (lengths : List ℕ) (pages : List (List (Option KvPage)))
    (table : List (Option KvPage))
    → All (IsSized c) table
    → All (IsSized (record c { lengths = lengths; pages = pages })) table
moved-IsSized c lengths pages [] all = tt
moved-IsSized c lengths pages (none ∷ table) all = (tt, moved-IsSized c lengths pages table all.1)
moved-IsSized c lengths pages (some p ∷ table) all =
    (all.0, moved-IsSized c lengths pages table all.1)

pub moved-TableIsValid :
    (c : PagedKvCache) (lengths : List ℕ) (pages : List (List (Option KvPage))) (tokens : ℕ)
    (table : List (Option KvPage))
    → TableIsValid c tokens table
    → TableIsValid (record c { lengths = lengths; pages = pages }) tokens table
moved-TableIsValid c lengths pages tokens table v = record {
  size = v.size;
  sized = moved-IsSized c lengths pages table v.sized;
  backed = v.backed;
}

-- A table that serves some tokens serves fewer.
pub fewer-TableIsValid :
    (c : PagedKvCache) (n m : ℕ) (table : List (Option KvPage))
    → m ≤ n
    → TableIsValid c n table
    → TableIsValid c m table
fewer-TableIsValid c n m table h v = record {
  size = v.size;
  sized = v.sized;
  backed = λ q low. v.backed q (omega arith);
}

-- A page that is not allocated stands for zeros.
abbrev pub block : ℕ → Part → Option KvPage → List F32
block size part none = replicate size 0
block size part (some p) = rows part p

abbrev pub flat : PagedKvCache → Part → List (Option KvPage) → List F32
flat c part table = concat (map (block (page_size part c) part) table)

pub blocks-sized :
    (c : PagedKvCache) (part : Part) (table : List (Option KvPage))
    → All (IsSized c) table
    → All (λ b. length b ≡ page_size part c) (map (block (page_size part c) part) table)
blocks-sized c part [] all = tt
blocks-sized c part (none ∷ table) all =
    (length-replicate (page_size part c) 0, blocks-sized c part table all.1)
blocks-sized c part (some p ∷ table) all = ((all.0 part).0, blocks-sized c part table all.1)

pub length-map :
    (f : Option KvPage → List F32) (table : List (Option KvPage))
    → length (map f table) ≡ length table
length-map f [] = refl
length-map f (p ∷ table) = ap suc (length-map f table)

abbrev pub other : Part → Part
other of_keys = of_values
other of_values = of_keys

pub rows-with_rows :
    (part : Part) (p : KvPage) (xs : List F32) → rows part (with_rows part p xs) ≡ xs
rows-with_rows of_keys p xs = refl
rows-with_rows of_values p xs = refl

pub rows-with_rows-other :
    (part : Part) (p : KvPage) (xs : List F32)
    → rows (other part) (with_rows part p xs) ≡ rows (other part) p
rows-with_rows-other of_keys p xs = refl
rows-with_rows-other of_values p xs = refl

with_rows-IsSized :
    (c : PagedKvCache) (part : Part) (p : KvPage) (xs : List F32)
    → IsSized c (some p)
    → length xs ≡ page_size part c
    → IsSized c (some (with_rows part p xs))
with_rows-IsSized c of_keys p xs sized h of_keys = (h, (sized of_keys).1)
with_rows-IsSized c of_keys p xs sized h of_values = sized of_values
with_rows-IsSized c of_values p xs sized h of_keys = sized of_keys
with_rows-IsSized c of_values p xs sized h of_values = (h, (sized of_values).1)

module _ (c : PagedKvCache) (tokens : ℕ) (table : List (Option KvPage))
    (valid : TableIsValid c tokens table) where
  -- Putting a page of the right size keeps a table valid.
  pub put-TableIsValid :
      (q : ℕ) (p : KvPage) → IsSized c (some p) → TableIsValid c tokens (set table q (some p))
  put-TableIsValid q p sized = record {
    size = length-set table q (some p) ∙ valid.size;
    sized = All-set (IsSized c) table q (some p) valid.sized sized;
    backed = λ r h. elim (ℕ_discrete q r) [
      | yes same ↦
          let (old, e) = valid.backed r h in
          (
            p,
            subst (λ (k : ℕ). get_elem? (set table q (some p)) k ≡ some (some p)) same
                (get_elem?-set_self table q (some p) (
                  subst (λ (k : ℕ). k < length table) (sym same)
                    (get_elem?-lt table r (some old) e))),
          )
      | no apart ↦
          let (old, e) = valid.backed r h in (old, get_elem?-set_ne table q r (some p) apart ∙ e)
    ];
  }

  -- A row within the page of a token, read from the flat list.
  pub flat_read :
      (part : Part) (q o n : ℕ) (p : KvPage)
      → get_elem? table q ≡ some (some p)
      → o + n ≤ page_size part c
      → take n (drop (q * page_size part c + o) (flat c part table)) ≡ take n (drop o (rows part p))
  flat_read part q o n p here within =
      let b = block (page_size part c) part in
      slice-concat (page_size part c) q o n (map b table) (blocks-sized c part table valid.sized)
        (get_elem?-map b table q (some p) here) within

  -- A row that is written into a page extends the flat list up to its place, and the other part
  -- stays.
  pub flat_write :
      (part : Part) (q o : ℕ) (row : List F32) (p p' : KvPage)
      → get_elem? table q ≡ some (some p)
      → o + length row ≤ page_size part c
      → p' ≡ with_rows part p (take o (rows part p) ++ row ++ drop (o + length row) (rows part p))
      → TableIsValid c tokens (set table q (some p'))
        × (take (q * page_size part c + o + length row) (flat c part (set table q (some p')))
            ≡ take (q * page_size part c + o) (flat c part table) ++ row)
        × (flat c (other part) (set table q (some p')) ≡ flat c (other part) table)
  flat_write part q o row p p' here within e =
      let b = block (page_size part c) part in
      let b' = block (page_size (other part) c) (other part) in
      let old : List F32 = rows part p in
      let new : List F32 = take o old ++ row ++ drop (o + length row) old in
      let sized = All-get (IsSized c) table q (some p) valid.sized here in
      let whole : length new ≡ page_size part c = omega (
        arith,
        length-append {0} (take o old ++ row) (drop (o + length row) old),
        length-append {0} (take o old) row,
        length-take {0} o old,
        length-drop {0} (o + length row) old,
        (sized part).0,
      ) in
      rw e (
        put-TableIsValid q (with_rows part p new) (with_rows-IsSized c part p new sized whole),
        ap (λ bs. take (q * page_size part c + o + length row) (concat bs))
              (map-set b table q (some (with_rows part p new))
                ∙ ap (set (map b table) q) (rows-with_rows part p new))
            ∙ take-concat-set (page_size part c) q o (map b table) row
                (blocks-sized c part table valid.sized) (get_elem?-map b table q (some p) here)
                within,
        ap concat (
            map-set b' table q (some (with_rows part p new))
            ∙ ap (set (map b' table) q) (rows-with_rows-other part p new)
            ∙ set_read (map b' table) q (rows (other part) p)
                (get_elem?-map b' table q (some p) here)),
      )
