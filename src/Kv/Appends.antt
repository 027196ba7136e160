-- ===== src/Kv/Appends.antt =====
-- An append is taken exactly on its conditions, and adds its rows behind those of the layer.
use native.Mathlib.Nat.{mul_assoc, add-mul}
use light_bridge_engine.Base.{
  ℕ, ◌+◌, ◌*◌, ◌≤◌, ◌<◌, ◌≡◌, refl, sym, ap, ◌∙◌, List, [], ◌++◌, Bool, Option, some, String, ok,
  err, length, get_elem?, set, take, arith, append-nil, take-length-append, get_elem?-lt,
  get_elem?-some, word_modulus, ◌⊎◌, inl, inr, Result-cases,
}
use light_bridge_engine.Kv.Types.{
  Fault, refused, KvError, PagedKvCache, KvPage, F32, Outcome, after, Part, of_keys, of_values,
  dimension,
}
use light_bridge_engine.Kv.Pages.{ensure_pages}
use light_bridge_engine.Kv.Rows.{check_append, append_tokens, write_tokens}
use light_bridge_engine.Kv.Tables.{TableIsValid, flat}
use light_bridge_engine.Kv.Updates.{on, source, Fits}
use light_bridge_engine.Kv.Writes.{Written, write_tokens-AllWritten}
use light_bridge_engine.Kv.NewPages.{PageRefused}
use light_bridge_engine.Kv.Allocation.{ensure_pages-Ends}
use light_bridge_engine.Kv.Views.{
  CacheIsValid, Appendable, Appended, per_token, get_or-eq, with_layer, with_layer-Appended,
}
use light_bridge_engine.Kv.Checks.{
  check_append-ok, check_append-Returns, check_append-pass, Returns-err, ok-ne-err,
}

pub whole_of :
    (c : PagedKvCache) (count : ℕ) (keys values : List F32) (part : Part)
    → length keys ≡ count * per_token of_keys c
    → length values ≡ count * per_token of_values c
    → length (source part keys values) ≡ count * (c.kv_head_count * dimension part c)
whole_of c count keys values of_keys k v = k
whole_of c count keys values of_values k v = v

small_of :
    (keys values : List F32) (part : Part)
    → length keys < word_modulus
    → length values < word_modulus
    → length (source part keys values) < word_modulus
small_of keys values of_keys k v = k
small_of keys values of_values k v = v

pub take_all : (xs : List F32) → take (length xs) xs ≡ xs
take_all xs = rw (append-nil xs) at (take-length-append xs [])

-- At the start no row is written.
none_written :
    (s h d : ℕ) (xs src : List F32)
    → take ((s * h + 0 * h) * d) xs ≡ take (s * h * d) xs ++ take (0 * h * d) src
none_written s h d xs src =
    let at_start : s * h + 0 * h ≡ s * h = omega arith in
    let nothing : 0 * h * d ≡ 0 = grind arith in
    rw (at_start, nothing) (sym (append-nil (take (s * h * d) xs)))

-- At the end all are.
all_written :
    (s k h d : ℕ) (xs ys src : List F32)
    → length src ≡ k * (h * d)
    → take ((s * h + k * h) * d) xs ≡ take (s * h * d) ys ++ take (k * h * d) src
    → take ((s + k) * (h * d)) xs ≡ take (s * (h * d)) ys ++ src
all_written s k h d xs ys src whole written =
    let all : (s + k) * (h * d) ≡ (s * h + k * h) * d = simp (add-mul, mul_assoc) in
    let old : s * (h * d) ≡ s * h * d = sym (mul_assoc s h d) in
    let new : k * h * d ≡ length src = mul_assoc k h d ∙ sym whole in
    rw (all, old)
      (written
        ∙ ap (λ xs. take (s * h * d) ys ++ xs) (ap (λ (n : ℕ). take n src) new ∙ take_all src))

-- Either part, from the two.
pub either_part : (P : Part → Type 0) (part : Part) → P of_keys → P of_values → P part
either_part P of_keys k v = k
either_part P of_values k v = v

module _ (has_room : String → ℕ → Bool) (c : PagedKvCache) (layer count : ℕ)
    (keys values : List F32) where
  abbrev pub Accepted : Outcome (Unit {0}) → Type 0
  Accepted r =
      Appendable c layer count keys values
      × ((c' : PagedKvCache) × (r ≡ (c', ok tt)) × Appended c layer count keys values c')

  abbrev pub Rejected : Outcome (Unit {0}) → Type 0
  Rejected r =
      (e : KvError) × (r ≡ (c, err (refused e)))
      × (Appendable c layer count keys values → PageRefused has_room c e)

  -- The rows are written once the pages are there.
  written-Appended :
      CacheIsValid c
      → Appendable c layer count keys values
      → length keys < word_modulus
      → length values < word_modulus
      → (stored : ℕ) (before table : List (Option KvPage)) → get_elem? c.lengths layer ≡ some stored
      → get_elem? c.pages layer ≡ some before
      → TableIsValid c (stored + count) table
      → ((part : Part) → flat c part table ≡ flat c part before)
      → (table' : List (Option KvPage)) × (write_tokens layer keys values
            (on c layer table)
            stored
            0
            count
          ≡ (on c layer table', ok tt))
        × Appended c layer count keys values (with_layer c layer (stored + count) table')
  written-Appended valid given ks vs stored before table here there ok_table same =
      let heads : ℕ = c.kv_head_count in
      let fits : Fits c layer keys values count = record {
        layer_in = get_elem?-lt c.pages layer before there;
        holds = valid.holds;
        whole = λ part. whole_of c count keys values part given.keys_whole given.values_whole;
        small = λ part. small_of keys values part ks vs;
      } in
      let start = λ (part : Part).
        none_written stored heads (dimension part c) (flat c part table)
          (source part keys values) in
      let (table', done, (kept, keys_in, values_in)) =
        write_tokens-AllWritten c layer keys values count stored fits table table 0 count
          (omega arith) (ok_table, start of_keys, start of_values) in
      (
        table',
        done,
        with_layer-Appended c layer count keys values valid given stored here before table' there
            kept
            (λ part. rw (← same part) (
              all_written stored count heads (dimension part c) (flat c part table')
                (flat c part table) (source part keys values)
                (whole_of c count keys values part given.keys_whole given.values_whole)
                (either_part
                  (λ part.
                    Written c layer keys values count stored fits part (count * heads) table table')
                  part keys_in values_in))),
      )

  stopped :
      (f : Fault)
      → check_append c layer count keys values ≡ err f
      → append_tokens has_room c layer count keys values ≡ (c, err f)
  unfolding append_tokens
  stopped f h = rw (append_tokens, h) refl

  passed :
      (stored new_length : ℕ)
      → check_append c layer count keys values ≡ ok (stored, new_length)
      → append_tokens has_room c layer count keys values
        ≡ after (ensure_pages has_room c layer stored new_length) λ c done.
          after
            (write_tokens layer keys values c stored 0 count)
            λ c done. (record c { lengths = set c.lengths layer new_length }, ok tt)
  unfolding append_tokens ensure_pages
  passed stored new_length h = rw (append_tokens, h) refl

  -- What follows the checks.
  append_checked :
      CacheIsValid c
      → length keys < word_modulus
      → length values < word_modulus
      → (stored : ℕ) → check_append c layer count keys values ≡ ok (stored, stored + count)
      → Accepted (append_tokens has_room c layer count keys values)
        ⊎ Rejected (append_tokens has_room c layer count keys values)
  append_checked valid ks vs stored checked =
      let (given, here, _, _, _) =
        check_append-ok c layer count keys values stored (stored + count) checked in
      let inside : layer < length c.pages = omega (arith, given.layer_in, valid.tabled) in
      let (table, there) = get_elem?-some c.pages layer inside in
      let fits = valid.tables layer stored table here there in
      let room : stored + count ≤ c.token_capacity =
        rw (get_or-eq c.lengths layer 0 stored here) at given.room in
      let runs = passed stored (stored + count) checked in
      elim (ensure_pages-Ends has_room c layer stored count table inside valid.holds valid.positive
        there fits.1 given.some_tokens (omega (arith, valid.roomy))) [
          | inl (e, failed, why) ↦ inr (e, runs ∙ rw failed refl, λ _. why)
          | inr (ready, had, ok_table, same) ↦
              let (table', wrote, added) =
                written-Appended valid given ks vs stored table ready here there ok_table same in
              inl (
                given,
                (with_layer c layer (stored + count) table', runs ∙ rw (had, wrote) refl, added),
              )
        ]

  -- An append to a valid cache, of slices shorter than a word counts, is taken only where its
  -- conditions hold, and then adds its rows behind those of the layer. Else it is refused and nothing
  -- changes; where the conditions hold, only a page that cannot be had refuses it. It never panics.
  pub append_tokens-Ends :
      CacheIsValid c
      → length keys < word_modulus
      → length values < word_modulus
      → Accepted (append_tokens has_room c layer count keys values)
        ⊎ Rejected (append_tokens has_room c layer count keys values)
  append_tokens-Ends valid ks vs = elim (Result-cases (check_append c layer count keys values)) [
    | inl ((stored, n), e) ↦
        let (_, _, n_eq, _, _) = check_append-ok c layer count keys values stored n e in
        append_checked valid ks vs stored (e ∙ ap (λ n. ok (stored, n)) n_eq)
    | inr (f, e) ↦
        let (why, f_eq) = Returns-err (check_append-Returns c layer count keys values valid) e in
        inr (
          why,
          stopped f e ∙ ap (λ f. (c, err f)) f_eq,
          λ given.
              let inside : layer < length c.lengths =
                omega (arith, given.layer_in, valid.counted) in
              let (stored, here) = get_elem?-some c.lengths layer inside in
              let passes =
                check_append-pass c layer count keys values stored valid given ks vs here in
              absurd (ok-ne-err (sym passes ∙ e)),
        )
  ]
