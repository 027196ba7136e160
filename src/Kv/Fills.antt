-- ===== src/Kv/Fills.antt =====
-- A page table after the pages that are missing in a range are put there.
use light_bridge_engine.Base.{
  ℕ, zero, suc, ◌+◌, ◌≤◌, ◌<◌, ◌≡◌, refl, sym, ap, ◌∙◌, subst, List, [], ◌∷◌, Option, none, some,
  length, get_elem?, set, map, arith, get_elem?-set_self, get_elem?-set_ne, set_read, map-set,
  length-set, get_elem?-lt, ◌⊎◌, inl, inr, replicate, ℕ_discrete, All, All-set, get_elem?-map,
  get_elem?-some,
}
use light_bridge_engine.Kv.Types.{KvPage, PagedKvCache, Part, rows}
use light_bridge_engine.Kv.Pages.{missing_pages}
use light_bridge_engine.Kv.Tables.{page_size, IsSized, block}

-- The table after a page is put at each of some places.
abbrev pub fill_table : KvPage → List (Option KvPage) → List ℕ → List (Option KvPage)
fill_table p table [] = table
fill_table p table (i ∷ is) = fill_table p (set table i (some p)) is

abbrev pub HasPage : List (Option KvPage) → ℕ → Type 0
HasPage table q = (p : KvPage) × (get_elem? table q ≡ some (some p))

abbrev pub In : ℕ → List ℕ → Type 0
In q [] = ⊥
In q (i ∷ is) = (i ≡ q) ⊎ In q is

set-HasPage :
    (p : KvPage) (table : List (Option KvPage)) (i q : ℕ)
    → HasPage table q
    → HasPage (set table i (some p)) q
set-HasPage p table i q (old, e) = elim (ℕ_discrete i q) [
  | yes same ↦ (
    p,
    subst (λ (k : ℕ). get_elem? (set table i (some p)) k ≡ some (some p)) same
        (get_elem?-set_self table i (some p)
          (subst (λ (k : ℕ). k < length table) (sym same) (get_elem?-lt table q (some old) e))),
  )
  | no apart ↦ (old, get_elem?-set_ne table i q (some p) apart ∙ e)
]

pub fill-HasPage :
    (p : KvPage) (table : List (Option KvPage)) (is : List ℕ) (q : ℕ)
    → HasPage table q
    → HasPage (fill_table p table is) q
fill-HasPage p table [] q h = h
fill-HasPage p table (i ∷ is) q h =
    fill-HasPage p (set table i (some p)) is q (set-HasPage p table i q h)

-- Every place of the list has a page afterwards.
pub fill-In :
    (p : KvPage) (table : List (Option KvPage)) (is : List ℕ) (q : ℕ)
    → q < length table
    → In q is
    → HasPage (fill_table p table is) q
fill-In p table [] q low h = elim h [ ]
fill-In p table (i ∷ is) q low (inl here) = fill-HasPage p (set table i (some p)) is q (
  p,
  subst (λ (k : ℕ). get_elem? (set table i (some p)) k ≡ some (some p)) here
      (get_elem?-set_self table i (some p) (subst (λ (k : ℕ). k < length table) (sym here) low)),
)
fill-In p table (i ∷ is) q low (inr later) =
    fill-In p (set table i (some p)) is q
      (subst (λ (k : ℕ). q < k) (sym (length-set table i (some p))) low) later

pub length-fill :
    (p : KvPage) (table : List (Option KvPage)) (is : List ℕ)
    → length (fill_table p table is) ≡ length table
length-fill p table [] = refl
length-fill p table (i ∷ is) = length-fill p (set table i (some p)) is ∙ length-set table i (some p)

pub fill-IsSized :
    (c : PagedKvCache) (p : KvPage) (table : List (Option KvPage)) (is : List ℕ)
    → IsSized c (some p)
    → All (IsSized c) table
    → All (IsSized c) (fill_table p table is)
fill-IsSized c p table [] h all = all
fill-IsSized c p table (i ∷ is) h all =
    fill-IsSized c p (set table i (some p)) is h (All-set (IsSized c) table i (some p) all h)

-- The places that a list names hold zeros.
abbrev pub Zeros : PagedKvCache → Part → List (Option KvPage) → List ℕ → Type 0
Zeros c part table [] = Unit
Zeros c part table (i ∷ is) =
    (get_elem? (map (block (page_size part c) part) table) i
      ≡ some (replicate (page_size part c) 0))
    × Zeros c part table is

Zeros-subst :
    (c : PagedKvCache) (part : Part) (table table' : List (Option KvPage)) (is : List ℕ)
    → map (block (page_size part c) part) table' ≡ map (block (page_size part c) part) table
    → Zeros c part table is
    → Zeros c part table' is
Zeros-subst c part table table' [] e z = tt
Zeros-subst c part table table' (i ∷ is) e z = (rw e z.0, Zeros-subst c part table table' is e z.1)

-- A page of zeros does not change the blocks where zeros stood.
pub fill-blocks :
    (c : PagedKvCache) (part : Part) (p : KvPage) (table : List (Option KvPage)) (is : List ℕ)
    → rows part p ≡ replicate (page_size part c) 0
    → Zeros c part table is
    → map (block (page_size part c) part) (fill_table p table is)
      ≡ map (block (page_size part c) part) table
fill-blocks c part p table [] zeros z = refl
fill-blocks c part p table (i ∷ is) zeros z =
    let b = block (page_size part c) part in
    let same : map b (set table i (some p)) ≡ map b table =
      map-set b table i (some p)
      ∙ ap (set (map b table) i) zeros
      ∙ set_read (map b table) i (replicate (page_size part c) 0) z.0 in
    fill-blocks c part p (set table i (some p)) is zeros
      (Zeros-subst c part table (set table i (some p)) is same z.1)
    ∙ same

-- To split on an entry of a table.
entry_cases :
    (o : Option (Option KvPage))
    → (o ≡ none) ⊎ (o ≡ some none) ⊎ ((p : KvPage) × (o ≡ some (some p)))
entry_cases none = inl refl
entry_cases (some none) = inr (inl refl)
entry_cases (some (some p)) = inr (inr (p, refl))

entry_inside :
    (table : List (Option KvPage)) (q : ℕ) → get_elem? table q ≡ none → q < length table → ⊥
entry_inside table q e h = let (x, found) = get_elem?-some table q h in cc

-- What is missing is not allocated, and every place of the range is missing or has a page.
pub missing-Zeros :
    (c : PagedKvCache) (part : Part) (table : List (Option KvPage)) (index n : ℕ)
    → Zeros c part table (missing_pages table index n)
unfolding missing_pages
missing-Zeros c part table index zero = tt
missing-Zeros c part table index (suc n) =
    let rest = missing-Zeros c part table (suc index) n in
    elim (entry_cases (get_elem? table index)) [
      | inl e ↦ rw (e, missing_pages) rest
      | inr (inl e) ↦
          rw (e, missing_pages)
            (get_elem?-map (block (page_size part c) part) table index none e, rest)
      | inr (inr (p, e)) ↦ rw (e, missing_pages) rest
    ]

pub missing_complete :
    (table : List (Option KvPage)) (index n q : ℕ)
    → index ≤ q
    → q < index + n
    → q < length table
    → HasPage table q ⊎ In q (missing_pages table index n)
unfolding missing_pages
missing_complete table index zero q low high inside = absurd (omega arith)
missing_complete table index (suc n) q low high inside = elim (ℕ_discrete index q) [
  | yes here ↦ elim (entry_cases (get_elem? table index)) [
    | inl e ↦ absurd (entry_inside table index e (omega arith))
    | inr (inl e) ↦ rw (e, missing_pages) (inr (inl here))
    | inr (inr (p, e)) ↦ inl (p, subst (λ (k : ℕ). get_elem? table k ≡ some (some p)) here e)
  ]
  | no apart ↦
      let rest = missing_complete table (suc index) n q (omega arith) (omega arith) inside in
      elim (entry_cases (get_elem? table index)) [
        | inl e ↦ rw (e, missing_pages) rest
        | inr (inl e) ↦ rw (e, missing_pages) (elim rest [ inl h ↦ inl h | inr h ↦ inr (inr h) ])
        | inr (inr (p, e)) ↦ rw (e, missing_pages) rest
      ]
]
