-- ===== src/Tests/OfKv.antt =====
-- The paged cache (crates/bridge-kv-gqa) at concrete inputs: one layer, one head, rows of one float,
-- pages of one token and room for two tokens.
use light_bridge_engine.Base.{
  ℕ, suc, ◌+◌, ◌-◌, ◌*◌, ◌^◌, ◌%◌, ◌≤◌, ◌<◌, ◌≡◌, refl, sym, ap, List, [], ◌∷◌, ◌++◌, Bool, true,
  false, Option, none, some, Result, ok, err, String, length, get_elem?, take, drop, replicate,
  arith, word_modulus, zero, subst, All, ◌⊎◌, inl, inr, length-append, length-take,
}
use light_bridge_engine.Kv.Types.{
  PagedKvCache, KvPage, Part, of_keys, of_values, Sizes, sizes, F32, is_finite, refused, KvError,
  rewind_beyond_stored, dimension,
}
use light_bridge_engine.Kv.Pages.{new_with_allocation, allocated_page_count}
use light_bridge_engine.Kv.Rows.{append_tokens, rewind_all, row}
use light_bridge_engine.Kv.Views.{CacheIsValid, tokens_of, view}
use light_bridge_engine.Kv.Appends.{Accepted, Rejected, append_tokens-Ends}
use light_bridge_engine.Kv.Reads.{InRange, row_of, row_lem}
use light_bridge_engine.Kv.Fresh.{new-Valid}
use light_bridge_engine.Kv.Rewinds.{Rewound, rewind_all-Ends}
use light_bridge_engine.Kv.Histories.{
  Call, append_call, rewind_call, Callable, Contained, Steps, contents, Agree,
}
use light_bridge_engine.Kv.Refinement.{perform_all, perform_all-Steps, perform_all-refines}
use light_bridge_engine.Kv.Snapshots.Progress.{AreRows}
use light_bridge_engine.Kv.Snapshots.Restore.{
  export_snapshot, restore_snapshot, restore_snapshot_internal,
}
use light_bridge_engine.Kv.Snapshots.Safety.{restore_snapshot_internal-Ends}
use light_bridge_engine.Kv.Counts.{allocated_page_count-new}
use light_bridge_engine.Kv.Snapshots.RoundTrip.{restore-export}

abbrev has_room : String → ℕ → Bool
has_room name n = true

-- A lazy cache, before any page is allocated.
abbrev empty_cache : PagedKvCache
empty_cache = record {
  layer_count = 1;
  kv_head_count = 1;
  key_dimension = 1;
  value_dimension = 1;
  page_tokens = 1;
  page_count = 2;
  token_capacity = 2;
  lengths = 0 ∷ [];
  pages = (none ∷ none ∷ []) ∷ [];
}

-- The bits of 1.0 and of -2.0.
abbrev one_bits : F32
one_bits = 1065353216

abbrev two_bits : F32
two_bits = 3221225472

abbrev one_token : PagedKvCache
one_token = record empty_cache {
  lengths = 1 ∷ [];
  pages = (some (record { keys = one_bits ∷ []; values = two_bits ∷ [] }) ∷ none ∷ []) ∷ [];
}

made_empty : new_with_allocation has_room 1 1 1 1 1 2 false ≡ ok empty_cache
unfolding new_with_allocation light_bridge_engine.Kv.Pages.zero_check
    light_bridge_engine.Base.checked_add light_bridge_engine.Kv.Pages.new_tables
    light_bridge_engine.Kv.Pages.new_table light_bridge_engine.Kv.Pages.zeroed_vec
made_empty = refl

empty_is_valid : CacheIsValid empty_cache
empty_is_valid = (new-Valid has_room 1 1 1 1 1 2 false empty_cache made_empty).0

abbrev first_call : Call
first_call = append_call 0 1 (one_bits ∷ []) (two_bits ∷ [])

-- A rewind to more tokens than are stored is denied.
abbrev calls : List Call
calls = rewind_call 2 ∷ first_call ∷ []

calls_are-Callable : All Callable calls
calls_are-Callable = (tt, ((omega arith, omega arith), tt))

one_token_made : perform_all has_room empty_cache calls ≡ one_token
unfolding perform_all light_bridge_engine.Base.checked_mul light_bridge_engine.Kv.Types.is_finite
    light_bridge_engine.Base.checked_add
one_token_made = refl

one_token_is_valid : CacheIsValid one_token
one_token_is_valid =
    subst CacheIsValid one_token_made
      (perform_all-Steps has_room empty_cache calls empty_is_valid calls_are-Callable).0

-- The row that was appended is read.
value_read : row of_values one_token 0 0 0 ≡ ok (two_bits ∷ [])
unfolding row
value_read = refl

words_of : (part : Part) (layer : ℕ) → All (λ x. x < 256 ^ 4) (view one_token part layer)
words_of of_keys zero = (omega arith, tt)
words_of of_values zero = (omega arith, tt)
words_of of_keys (suc layer) = tt
words_of of_values (suc layer) = tt

finite_of : (part : Part) (layer : ℕ) → All (λ x. is_finite x ≡ true) (view one_token part layer)
unfolding is_finite
finite_of of_keys zero = (refl, tt)
finite_of of_values zero = (refl, tt)
finite_of of_keys (suc layer) = tt
finite_of of_values (suc layer) = tt

one_token_is_rows : AreRows one_token
one_token_is_rows = record { words = words_of; finite = finite_of }

-- A digest of 32 bytes: the first of the bytes that are hashed.
digest : List ℕ → List ℕ
digest xs = take 32 (xs ++ replicate 32 0)

length-digest : (xs : List ℕ) → length (digest xs) ≡ 32
unfolding digest
length-digest xs =
    let a = length-take 32 (xs ++ replicate 32 0) in
    let b = length-append xs (replicate 32 0) in omega (arith, a, b)

abbrev exported : List ℕ
exported =
    76 ∷ 66 ∷ 75 ∷ 86 ∷ 48 ∷ 48 ∷ 48 ∷ 49 ∷ 1 ∷ 0 ∷ 0 ∷ 0 ∷ 7 ∷ 1 ∷ 0 ∷ 0 ∷ 0 ∷ 0 ∷ 0 ∷ 0 ∷ 0 ∷ 1
    ∷ 0 ∷ 0 ∷ 0 ∷ 0 ∷ 0 ∷ 0 ∷ 0 ∷ 1 ∷ 0 ∷ 0 ∷ 0 ∷ 0 ∷ 0 ∷ 0 ∷ 0 ∷ 1 ∷ 0 ∷ 0 ∷ 0 ∷ 0 ∷ 0 ∷ 0 ∷ 0 ∷ 1
    ∷ 0 ∷ 0 ∷ 0 ∷ 0 ∷ 0 ∷ 0 ∷ 0 ∷ 2 ∷ 0 ∷ 0 ∷ 0 ∷ 0 ∷ 0 ∷ 0 ∷ 0 ∷ 1 ∷ 0 ∷ 0 ∷ 0 ∷ 0 ∷ 0 ∷ 0 ∷ 0 ∷ 0
    ∷ 0 ∷ 128 ∷ 63 ∷ 0 ∷ 0 ∷ 0 ∷ 192 ∷ 76 ∷ 66 ∷ 75 ∷ 86 ∷ 48 ∷ 48 ∷ 48 ∷ 49 ∷ 1 ∷ 0 ∷ 0 ∷ 0 ∷ 7 ∷ 1
    ∷ 0 ∷ 0 ∷ 0 ∷ 0 ∷ 0 ∷ 0 ∷ 0 ∷ 1 ∷ 0 ∷ 0 ∷ 0 ∷ 0 ∷ 0 ∷ 0 ∷ 0 ∷ 1 ∷ 0 ∷ 0 ∷ []

one_token-exported : export_snapshot has_room digest one_token (7 ∷ []) 4096 ≡ ok exported
unfolding export_snapshot digest light_bridge_engine.Base.checked_mul
    light_bridge_engine.Base.checked_add light_bridge_engine.Base.Bytes.to_le_bytes
one_token-exported = refl

append_tokens-Ends_example :
    Accepted has_room empty_cache 0 1
      (one_bits ∷ [])
      (two_bits ∷ [])
      (append_tokens has_room empty_cache 0 1 (one_bits ∷ []) (two_bits ∷ []))
    ⊎ Rejected has_room empty_cache 0 1
        (one_bits ∷ [])
        (two_bits ∷ [])
        (append_tokens has_room empty_cache 0 1 (one_bits ∷ []) (two_bits ∷ []))
append_tokens-Ends_example =
    append_tokens-Ends has_room empty_cache 0 1 (one_bits ∷ []) (two_bits ∷ []) empty_is_valid
      (omega arith) (omega arith)

row_lem_example :
    (InRange one_token 0 0 0
      × (row of_values one_token 0 0 0 ≡ ok (row_of one_token of_values 0 0 0)))
    ⊎ ((e : KvError) × (row of_values one_token 0 0 0 ≡ err (refused e))
        × (InRange one_token 0 0 0 → ⊥))
row_lem_example = row_lem one_token one_token_is_valid of_values 0 0 0

rewind_all-Ends_example :
    ((c' : PagedKvCache) × (rewind_all one_token 1 ≡ (c', ok tt))
      × Rewound one_token 1 c'
      × ((layer : ℕ) → layer < 1 → 1 ≤ tokens_of one_token layer))
    ⊎ ((layer : ℕ) × (rewind_all one_token 1
          ≡ (one_token, err (refused (rewind_beyond_stored layer 1 (tokens_of one_token layer)))))
        × (layer < 1)
        × (tokens_of one_token layer < 1))
rewind_all-Ends_example = rewind_all-Ends one_token one_token_is_valid 1

new-Valid_example :
    CacheIsValid empty_cache
    × ((layer : ℕ) → tokens_of empty_cache layer ≡ 0)
    × (sizes empty_cache ≡ record {
      layers = 1;
      heads = 1;
      key_size = 1;
      value_size = 1;
      page_tokens = 1;
      capacity = 2;
    })
new-Valid_example = new-Valid has_room 1 1 1 1 1 2 false empty_cache made_empty

perform_all-refines_example :
    (start : Contained) × ((layer : ℕ)
      → ((start layer).tokens ≡ 0) × ((part : Part) → (start layer).rows_of part ≡ []))
    × Steps has_room
        (sizes empty_cache)
        start
        calls
        (contents (perform_all has_room empty_cache calls))
perform_all-refines_example =
    perform_all-refines has_room 1 1 1 1 1 2 false empty_cache calls made_empty calls_are-Callable

restore-export_example :
    (restored : PagedKvCache) × (restore_snapshot has_room digest empty_cache (7 ∷ []) exported 4096
      ≡ (restored, ok tt))
    × CacheIsValid restored
    × (sizes restored ≡ sizes one_token)
    × Agree (sizes one_token) (contents restored) (contents one_token)
restore-export_example =
    restore-export digest length-digest has_room has_room one_token empty_cache (7 ∷ []) exported
      4096 4096 (λ name n. refl) one_token_is_valid one_token_is_rows refl one_token-exported
      (omega arith) (omega arith) (omega arith)

restore_snapshot_internal-Ends_example :
    ((restored : PagedKvCache) × (restore_snapshot_internal has_room digest empty_cache
          (7 ∷ [])
          exported
          4096
          true
        ≡ (restored, ok tt))
      × CacheIsValid restored
      × (sizes restored ≡ sizes empty_cache)
      × (length exported ≤ 4096)
      × (payload : List ℕ) × (exported ≡ payload ++ digest payload))
    ⊎ ((e : KvError) × (restore_snapshot_internal has_room digest empty_cache
            (7 ∷ [])
            exported
            4096
            true
          ≡ (empty_cache, err (refused e))))
restore_snapshot_internal-Ends_example =
    restore_snapshot_internal-Ends has_room digest empty_cache (7 ∷ []) exported 4096 true

-- An eager cache of one page.
abbrev full_cache : PagedKvCache
full_cache = record empty_cache {
  page_count = 1;
  token_capacity = 1;
  pages = (some (record { keys = 0 ∷ []; values = 0 ∷ [] }) ∷ []) ∷ [];
}

made_full : new_with_allocation has_room 1 1 1 1 1 1 true ≡ ok full_cache
unfolding new_with_allocation light_bridge_engine.Kv.Pages.zero_check
    light_bridge_engine.Base.checked_add light_bridge_engine.Base.checked_mul
    light_bridge_engine.Kv.Pages.new_tables light_bridge_engine.Kv.Pages.new_table
    light_bridge_engine.Kv.Pages.zeroed_vec light_bridge_engine.Kv.Pages.new_page
made_full = refl

allocated_page_count-new_example : allocated_page_count full_cache ≡ 1
allocated_page_count-new_example =
    allocated_page_count-new has_room 1 1 1 1 1 1 true full_cache made_full
