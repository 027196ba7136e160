-- ===== src/Kv/Refinement.antt =====
-- Any sequence of calls on a new cache refines the same calls on flat lists of rows.
use native.Mathlib.Nat.{mul_assoc}
use light_bridge_engine.Base.{
  ℕ, ◌+◌, ◌*◌, ◌<◌, ◌≡◌, refl, ◌∙◌, subst, List, [], ◌∷◌, ◌++◌, Bool, true, String, ok, take, arith,
  inl, inr, ℕ_discrete, if_pos, if_neg, All,
}
use light_bridge_engine.Kv.Types.{KvError, PagedKvCache, F32, Part, of_keys, of_values, dimension}
use light_bridge_engine.Kv.Pages.{new_with_allocation}
use light_bridge_engine.Kv.Rows.{append_tokens, rewind_all, reset}
use light_bridge_engine.Kv.Updates.{source}
use light_bridge_engine.Kv.Views.{CacheIsValid, Appendable, Appended, tokens_of, view}
use light_bridge_engine.Kv.NewPages.{PageRefused}
use light_bridge_engine.Kv.Appends.{append_tokens-Ends, whole_of, either_part}
use light_bridge_engine.Kv.Rewinds.{Rewound, rewind_all-Ends, reset-Rewound}
use light_bridge_engine.Kv.Fresh.{new-Valid}
use light_bridge_engine.Kv.Types.{sizes}
use light_bridge_engine.Kv.Types.{is_finite}
use light_bridge_engine.Kv.Histories.{
  Call, append_call, rewind_call, reset_call, Callable, Contents, Contained, contents, token_size,
  Allowed, effect, Agree, Lacks, Step, taken, denied, Steps, done, more,
}

Appendable-Allowed :
    (c : PagedKvCache) (layer count : ℕ) (keys values : List F32)
    → Appendable c layer count keys values
    → Allowed (sizes c) (contents c) (append_call layer count keys values)
Appendable-Allowed c layer count keys values given = (
  given.layer_in,
  given.some_tokens,
  λ part. whole_of c count keys values part given.keys_whole given.values_whole,
  λ part.
      either_part (λ part. All (λ x. is_finite x ≡ true) (source part keys values)) part
        given.keys_finite given.values_finite,
  given.room,
)

Allowed-Appendable :
    (c : PagedKvCache) (layer count : ℕ) (keys values : List F32)
    → Allowed (sizes c) (contents c) (append_call layer count keys values)
    → Appendable c layer count keys values
Allowed-Appendable c layer count keys values (inside, some_tokens, whole, finite, room) = record {
  layer_in = inside;
  some_tokens = some_tokens;
  keys_whole = whole of_keys;
  values_whole = whole of_values;
  keys_finite = finite of_keys;
  values_finite = finite of_values;
  room = room;
}

PageRefused-Lacks :
    (has_room : String → ℕ → Bool) (c : PagedKvCache) (e : KvError)
    → PageRefused has_room c e
    → Lacks has_room (sizes c)
PageRefused-Lacks has_room c e (inl (name, n, _, full)) = inl (name, n, full)
PageRefused-Lacks has_room c e (inr (part, name, _, big)) =
    inr (part, rw (mul_assoc c.page_tokens c.kv_head_count (dimension part c)) at big)

-- The view after an append is the effect on the view before.
Appended-effect :
    (c c' : PagedKvCache) (layer count : ℕ) (keys values : List F32)
    → Appended c layer count keys values c'
    → Agree
        (sizes c)
        (contents c')
        (effect (sizes c) (contents c) (append_call layer count keys values))
Appended-effect c c' layer count keys values added i inside =
    let new : Contents = record {
      tokens = tokens_of c layer + count;
      rows_of = λ part. view c part layer ++ source part keys values;
    } in
    elim (ℕ_discrete i layer) [
      | yes here ↦
          rw (if_pos (ℕ_discrete i layer) here new (contents c i), here)
            (added.grown, added.rows_added)
      | no apart ↦
          rw (if_neg (ℕ_discrete i layer) apart new (contents c i))
            ((added.others of_keys i apart).0, λ part. (added.others part i apart).1)
    ]

-- So is the view after a rewind.
Rewound-effect :
    (c c' : PagedKvCache) (n : ℕ)
    → Rewound c n c'
    → (layer : ℕ) → layer < c.layer_count
    → (tokens_of c' layer ≡ n)
      × ((part : Part)
          → view c' part layer ≡ take (n * token_size (sizes c) part) (view c part layer))
Rewound-effect c c' n cut layer inside =
    (cut.cut layer inside, λ part. cut.rows_cut part layer inside)

module _ (has_room : String → ℕ → Bool) where
  -- The cache after a call.
  unfoldable pub perform : PagedKvCache → Call → PagedKvCache
  unfolding append_tokens rewind_all reset
  perform c (append_call layer count keys values) =
      (append_tokens has_room c layer count keys values).0
  perform c (rewind_call n) = (rewind_all c n).0
  perform c reset_call = reset c

  -- The last of the calls stands first.
  unfoldable pub perform_all : PagedKvCache → List Call → PagedKvCache
  unfolding perform
  perform_all c [] = c
  perform_all c (call ∷ calls) = perform (perform_all c calls) call

  -- A call on a valid cache is a step of the flat lists that it shows, and keeps it valid.
  perform-Step :
      (c : PagedKvCache) (call : Call)
      → CacheIsValid c
      → Callable call
      → CacheIsValid (perform c call)
        × (sizes (perform c call) ≡ sizes c)
        × Step has_room (sizes c) (contents c) call (contents (perform c call))
  unfolding perform
  perform-Step c (append_call layer count keys values) valid (ks, vs) =
      elim (append_tokens-Ends has_room c layer count keys values valid ks vs) [
        | inl (given, (c', e, added)) ↦
            rw (perform, e)
              (
                added.keeps,
                added.same_sizes,
                taken (Appendable-Allowed c layer count keys values given)
                    (Appended-effect c c' layer count keys values added),
              )
        | inr (why, e, lacks) ↦
            rw (perform, e)
              (
                valid,
                refl,
                denied
                    (λ allowed.
                      PageRefused-Lacks has_room c why
                        (lacks (Allowed-Appendable c layer count keys values allowed)))
                    (λ i inside. (refl, λ part. refl)),
              )
      ]
  perform-Step c (rewind_call n) valid callable = elim (rewind_all-Ends c valid n) [
    | inl (c', e, cut, enough) ↦
        rw (perform, e) (cut.keeps, cut.same_sizes, taken enough (Rewound-effect c c' n cut))
    | inr (layer, e, inside, short) ↦
        rw (perform, e)
          (
            valid,
            refl,
            denied (λ allowed. absurd (omega (arith, allowed layer inside)))
                (λ i inside. (refl, λ part. refl)),
          )
  ]
  perform-Step c reset_call valid callable =
      let cut = reset-Rewound c valid in
      (cut.keeps, cut.same_sizes, taken tt (Rewound-effect c (reset c) 0 cut))

  pub perform_all-Steps :
      (c : PagedKvCache) (calls : List Call)
      → CacheIsValid c
      → All Callable calls
      → CacheIsValid (perform_all c calls)
        × (sizes (perform_all c calls) ≡ sizes c)
        × Steps has_room (sizes c) (contents c) calls (contents (perform_all c calls))
  unfolding perform_all
  perform_all-Steps c [] valid callable = (valid, refl, done)
  perform_all-Steps c (call ∷ calls) valid callable =
      let (kept, same, steps) = perform_all-Steps c calls valid callable.1 in
      let now : PagedKvCache = perform_all c calls in
      let (kept', same', step) = perform-Step now call kept callable.0 in
      (
        kept',
        same' ∙ same,
        more steps (
            subst (λ d. Step has_room d (contents now) call (contents (perform now call))) same
              step),
      )

  -- After any calls on a new cache, with slices shorter than a word counts, the rows that it shows
  -- of its layers are those that flat lists have after the same calls: an append that is allowed
  -- adds its rows behind those of its layer, unless its pages cannot be had, rewinds and resets cut
  -- every layer, and a call that is not allowed changes nothing.
  pub perform_all-refines :
      (layers heads key_dim value_dim page_tokens capacity : ℕ) (eager : Bool) (c : PagedKvCache)
      (calls : List Call)
      → new_with_allocation has_room layers heads key_dim value_dim page_tokens capacity eager
        ≡ ok c
      → All Callable calls
      → (start : Contained) × ((layer : ℕ)
          → ((start layer).tokens ≡ 0) × ((part : Part) → (start layer).rows_of part ≡ []))
        × Steps has_room
            (record {
              layers = layers;
              heads = heads;
              key_size = key_dim;
              value_size = value_dim;
              page_tokens = page_tokens;
              capacity = capacity;
            })
            start
            calls
            (contents (perform_all c calls))
  perform_all-refines layers heads key_dim value_dim page_tokens capacity eager c calls made
        callable =
      let (valid, empty, same) =
        new-Valid has_room layers heads key_dim value_dim page_tokens capacity eager c made in
      let (_, _, steps) = perform_all-Steps c calls valid callable in
      (
        contents c,
        λ layer. (
          empty layer,
          λ part.
              let nothing : 0 * token_size (sizes c) part ≡ 0 = omega arith in
              rw (empty layer, nothing) refl,
        ),
        subst (λ d. Steps has_room d (contents c) calls (contents (perform_all c calls))) same
            steps,
      )
