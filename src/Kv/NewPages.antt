-- ===== src/Kv/NewPages.antt =====
-- New pages are of their size and hold zeros, or are refused.
use light_bridge_engine.Base.{
  ℕ, ◌*◌, ◌≤◌, ◌<◌, ◌≡◌, refl, sym, ap, ◌∙◌, List, [], ◌∷◌, Bool, false, Option, some, String, ok,
  err, length, set, map, arith, word_modulus, Result, ◌⊎◌, inl, inr, Result-cases, >>=-eq-ok,
  >>=-eq-err, ok_or-ok, ok_or, checked_mul, checked_mul-some, replicate, length-replicate,
  Option-cases, Bool-cases,
}
use light_bridge_engine.Kv.Types.{
  Fault, KvPage, PagedKvCache, Part, of_keys, of_values, rows, dimension, overflow,
}
use light_bridge_engine.Kv.Pages.{
  elements_of, zeroed_vec, new_page, new_pages, put_pages, allocate_missing,
}
use light_bridge_engine.Kv.Fills.{fill_table}
use light_bridge_engine.Kv.Updates.{on, put_page_on}
use light_bridge_engine.Base.{◌==◌}
use light_bridge_engine.Kv.Types.{KvError, refused, allocation_failed, arithmetic_overflow}
use light_bridge_engine.Kv.Tables.{page_size, IsSized}

pub elements_of-some :
    (a b d n : ℕ) → elements_of a b d ≡ some n → (n ≡ a * b * d) × (n < word_modulus)
unfolding elements_of
elements_of-some a b d n h = elim (Option-cases (checked_mul a b)) [
  | inl e ↦ absurd (ground arith)
  | inr (m, e) ↦
      let rest : checked_mul m d ≡ some n = ground arith in
      let (first, _) = checked_mul-some a b m e in
      let (second, small) = checked_mul-some m d n rest in (rw first at second, small)
]

rows_are_zeros :
    (c : PagedKvCache) (p : KvPage)
    → p.keys ≡ replicate (page_size of_keys c) 0
    → p.values ≡ replicate (page_size of_values c) 0
    → (part : Part) → rows part p ≡ replicate (page_size part c) 0
rows_are_zeros c p keys values of_keys = keys
rows_are_zeros c p keys values of_values = values

zeros-IsSized :
    (c : PagedKvCache) (p : KvPage)
    → p.keys ≡ replicate (page_size of_keys c) 0
    → p.values ≡ replicate (page_size of_values c) 0
    → page_size of_keys c < word_modulus
    → page_size of_values c < word_modulus
    → IsSized c (some p)
zeros-IsSized c p keys values k v of_keys = (ap length keys ∙ length-replicate _ 0, k)
zeros-IsSized c p keys values k v of_values = (ap length values ∙ length-replicate _ 0, v)

module _ (has_room : String → ℕ → Bool) where
  pub zeroed_vec-ok :
      (n : ℕ) (name : String) (xs : List ℕ)
      → zeroed_vec has_room n name ≡ ok xs
      → xs ≡ replicate n 0
  unfolding zeroed_vec
  zeroed_vec-ok n name xs h = ground arith

  -- A new page is of its size and holds zeros.
  pub new_page-ok :
      (c : PagedKvCache) (p : KvPage)
      → new_page has_room c.page_tokens c.kv_head_count c.key_dimension c.value_dimension ≡ ok p
      → IsSized c (some p) × ((part : Part) → rows part p ≡ replicate (page_size part c) 0)
  unfolding new_page
  new_page-ok c p h =
      let (k, ke, h1) = >>=-eq-ok (ok_or _ _) _ h in
      let (v, ve, h2) = >>=-eq-ok (ok_or _ _) _ h1 in
      let (ks, kz, h3) = >>=-eq-ok (zeroed_vec has_room k _) _ h2 in
      let (vs, vz, h4) = >>=-eq-ok (zeroed_vec has_room v _) _ h3 in
      let (ksize, ksmall) = elements_of-some _ _ _ k (ok_or-ok _ _ k ke) in
      let (vsize, vsmall) = elements_of-some _ _ _ v (ok_or-ok _ _ v ve) in
      let keys : p.keys ≡ replicate (page_size of_keys c) 0 =
        ground (arith, zeroed_vec-ok k "key page storage" ks) in
      let values : p.values ≡ replicate (page_size of_values c) 0 =
        ground (arith, zeroed_vec-ok v "value page storage" vs) in
      let small : (page_size of_keys c < word_modulus) × (page_size of_values c < word_modulus) =
        (omega arith, omega arith) in
      (zeros-IsSized c p keys values small.0 small.1, rows_are_zeros c p keys values)

  -- Why a page is refused: the allocator has no room, or the elements do not fit a word.
  abbrev pub PageRefused : PagedKvCache → KvError → Type 0
  PageRefused c e =
      ((name : String) × (n : ℕ) × (e ≡ allocation_failed name n) × (has_room name n ≡ false))
      ⊎ ((part : Part) × (name : String) × (e ≡ arithmetic_overflow name)
          × (word_modulus ≤ page_size part c))

  zeroed_vec-err :
      (c : PagedKvCache) (n : ℕ) (name : String) (f : Fault)
      → zeroed_vec has_room n name ≡ err f
      → (e : KvError) × (f ≡ refused e) × PageRefused c e
  unfolding zeroed_vec
  zeroed_vec-err c n name f h = elim (Bool-cases (has_room name n)) [
    | inl e ↦ absurd (ground arith)
    | inr e ↦ (allocation_failed name n, ground arith, inl (name, n, refl, e))
  ]

  elements-err :
      (c : PagedKvCache) (part : Part) (name : String) (f : Fault)
      → 0 < dimension part c
      → ok_or (elements_of c.page_tokens c.kv_head_count (dimension part c)) (overflow name) ≡ err f
      → (e : KvError) × (f ≡ refused e) × PageRefused c e
  unfolding elements_of checked_mul
  elements-err c part name f pos h =
      let ab : ℕ = c.page_tokens * c.kv_head_count in
      let big : word_modulus ≤ ab → word_modulus ≤ ab * dimension part c = λ g. grind arith in
      (arithmetic_overflow name, ground arith, inr (part, name, refl, ground arith))

  new_page-err :
      (c : PagedKvCache) (f : Fault)
      → ((part : Part) → 0 < dimension part c)
      → new_page has_room c.page_tokens c.kv_head_count c.key_dimension c.value_dimension ≡ err f
      → (e : KvError) × (f ≡ refused e) × PageRefused c e
  unfolding new_page
  new_page-err c f pos h =
      let keys = >>=-eq-err (ok_or _ _) _ h in
      elim keys [
        | inl e ↦ elements-err c of_keys "key page storage" f (pos of_keys) e
        | inr (k, _, h1) ↦
            let values = >>=-eq-err (ok_or _ _) _ h1 in
            elim values [
              | inl e ↦ elements-err c of_values "value page storage" f (pos of_values) e
              | inr (v, _, h2) ↦
                  let zero_keys = >>=-eq-err (zeroed_vec has_room k _) _ h2 in
                  elim zero_keys [
                    | inl e ↦ zeroed_vec-err c k "key page storage" f e
                    | inr (ks, _, h3) ↦
                        let zero_values = >>=-eq-err (zeroed_vec has_room v _) _ h3 in
                        elim zero_values [
                          | inl e ↦ zeroed_vec-err c v "value page storage" f e
                          | inr (vs, _, h4) ↦ absurd (cc)
                        ]
                  ]
            ]
      ]

  new_pages-ok :
      (made : Result Fault KvPage) (p : KvPage) (is : List ℕ)
      → made ≡ ok p
      → new_pages has_room made is ≡ ok (map (λ i. (i, p)) is)
  unfolding new_pages
  new_pages-ok made p [] one = refl
  new_pages-ok made p (i ∷ is) one = rw (one, new_pages-ok made p is one) refl

-- How the allocation of missing pages ends.
abbrev Allocated :
    (String → ℕ → Bool)
    → PagedKvCache
    → List ℕ
    → Result Fault KvPage
    → Result Fault (List (ℕ × KvPage))
    → Type 0
Allocated has_room c missing made r =
    ((e : KvError) × (r ≡ err (refused e)) × PageRefused has_room c e)
    ⊎ ((r ≡ ok []) × (missing ≡ []))
    ⊎ ((p : KvPage) × (made ≡ ok p) × (r ≡ ok (map (λ i. (i, p)) missing)))

pub allocate_missing-Allocated :
    (has_room : String → ℕ → Bool) (c : PagedKvCache) (missing : List ℕ)
    (made : Result Fault KvPage)
    → made ≡ new_page has_room c.page_tokens c.kv_head_count c.key_dimension c.value_dimension
    → ((part : Part) → 0 < dimension part c)
    → Allocated has_room c missing made (allocate_missing has_room made missing)
unfolding allocate_missing
allocate_missing-Allocated has_room c [] made same pos = inr (inl (refl, refl))
allocate_missing-Allocated has_room c (i ∷ is) made same pos =
    let n : ℕ = length (i ∷ is) in
    let some_missing : (n == 0) ≡ false = ground arith in
    elim (Bool-cases (has_room "new KV pages" n)) [
      | inr full ↦ inl (
        allocation_failed "new KV pages" n,
        rw (some_missing, full) refl,
        inl ("new KV pages", n, refl, full),
      )
      | inl room ↦ elim (Result-cases made) [
        | inl (p, one) ↦
            inr (inr (p, one, rw (some_missing, room) (new_pages-ok has_room made p (i ∷ is) one)))
        | inr (f, bad) ↦
            let (e, fe, why) = new_page-err has_room c f pos (sym same ∙ bad) in
            inl (e, rw (some_missing, room, bad) (ap err fe), why)
      ]
    ]

pub put_pages_on :
    (c : PagedKvCache) (layer : ℕ) (p : KvPage) (table : List (Option KvPage)) (is : List ℕ)
    → layer < length c.pages
    → put_pages (on c layer table) layer (map (λ i. (i, p)) is) ≡ on c layer (fill_table p table is)
unfolding put_pages
put_pages_on c layer p table [] h = refl
put_pages_on c layer p table (i ∷ is) h =
    rw (put_pages, put_page_on c layer table i p h)
      (put_pages_on c layer p (set table i (some p)) is h)
