-- ===== src/Kv/Rows.antt =====
-- crates/bridge-kv-gqa/src/cache.rs: rows of keys and values are appended, read and rewound.
use light_bridge_engine.Base.{
  ℕ, zero, suc, ◌+◌, ◌-◌, ◌*◌, ◌/◌, ◌%◌, List, [], ◌∷◌, ◌++◌, Bool, ◌&&◌, not, String, ltb, leb,
  ◌==◌, if◌then◌else◌, Result, ok, err, ok_or, guard, ◌>>=◌, ◌>>◌, length, set, slice, take, drop,
  replicate, checked_add, checked_mul, word_modulus,
}
use light_bridge_engine.Kv.Types.{
  Fault, refused, panicked, overflow, zero_parameter, length_mismatch, non_finite_value,
  capacity_exhausted, token_out_of_range, head_out_of_range, rewind_beyond_stored, is_finite,
  KvPage, PagedKvCache, F32, Outcome, after, refuse, Part, of_keys, of_values, rows, with_rows,
  dimension,
}
use light_bridge_engine.Kv.Pages.{validate_layer, length_at, page, put_page, ensure_pages}

unfoldable pub require_length : String → ℕ → ℕ → Result Fault (Unit {0})
require_length name expected actual =
    guard (expected == actual) (refused (length_mismatch name expected actual))

-- `validate_finite`, from an index on.
unfoldable pub finite_from : String → ℕ → List F32 → Result Fault (Unit {0})
finite_from name index [] = ok tt
finite_from name index (x ∷ xs) =
    if not (is_finite x)
    then refuse (non_finite_value name index x)
    else finite_from name (suc index) xs

unfoldable pub validate_finite : String → List F32 → Result Fault (Unit {0})
unfolding finite_from
validate_finite name xs = finite_from name 0 xs

-- The place of a head's row, with the word's wrap-around.
unfoldable pub row_offset : ℕ → ℕ → ℕ → ℕ → ℕ
row_offset index heads head dim = (index * heads + head) * dim % word_modulus

unfoldable pub key_offset : PagedKvCache → ℕ → ℕ → ℕ
unfolding row_offset
key_offset c token head = row_offset (token % c.page_tokens) c.kv_head_count head c.key_dimension

unfoldable pub value_offset : PagedKvCache → ℕ → ℕ → ℕ
unfolding row_offset
value_offset c token head =
    row_offset (token % c.page_tokens) c.kv_head_count head c.value_dimension

abbrev pub offset : Part → PagedKvCache → ℕ → ℕ → ℕ
offset of_keys = key_offset
offset of_values = value_offset

-- `xs[start..start + n]`.
unfoldable pub checked_slice : ℕ → ℕ → List F32 → Result Fault (List F32)
checked_slice start n xs =
    let end = (start + n) % word_modulus in
    if leb start end && leb end (length xs) then ok (slice start end xs) else err panicked

-- `target[start..start + n].copy_from_slice(row)`.
unfoldable pub copy_row : ℕ → ℕ → List F32 → List F32 → Result Fault (List F32)
unfolding checked_slice
copy_row start n row target = do
  old ← checked_slice start n target
  guard (length old == length row) panicked
  ok (take start target ++ row ++ drop (start + n) target)

-- The new rows of the page that one head of a token belongs to.
unfoldable pub row_written : Part → PagedKvCache → ℕ → ℕ → ℕ → ℕ → List F32 → Result Fault KvPage
unfolding row_offset key_offset value_offset copy_row page
row_written part c layer token_offset token head source = do
  let n = dimension part c
  p ← page c layer token
  row ← checked_slice (row_offset token_offset c.kv_head_count head n) n source
  written ← copy_row (offset part c token head) n row (rows part p)
  ok (with_rows part p written)

unfoldable pub write_row : Part → PagedKvCache → ℕ → ℕ → ℕ → ℕ → List F32 → Outcome (Unit {0})
unfolding row_written put_page
write_row part c layer token_offset token head source =
    elim (row_written part c layer token_offset token head source) [
      | err e ↦ (c, err e)
      | ok p ↦ (put_page c layer (token / c.page_tokens) p, ok tt)
    ]

module _ (layer : ℕ) (keys values : List F32) where
  -- The loop over the heads of a token, with so many left.
  unfoldable pub write_heads : PagedKvCache → ℕ → ℕ → ℕ → ℕ → Outcome (Unit {0})
  unfolding write_row
  write_heads c token_offset token head zero = (c, ok tt)
  write_heads c token_offset token head (suc left) =
      after (write_row of_keys c layer token_offset token head keys) λ c done.
        after (write_row of_values c layer token_offset token head values)
          λ c done. write_heads c token_offset token (suc head) left

  -- The loop over the tokens, with so many left.
  unfoldable pub write_tokens : PagedKvCache → ℕ → ℕ → ℕ → Outcome (Unit {0})
  unfolding write_heads
  write_tokens c stored token_offset zero = (c, ok tt)
  write_tokens c stored token_offset (suc left) =
      after (write_heads c token_offset (stored + token_offset) 0 c.kv_head_count)
        λ c done. write_tokens c stored (suc token_offset) left

-- What is checked before anything changes: the tokens stored and those after the call.
unfoldable pub check_append : PagedKvCache → ℕ → ℕ → List F32 → List F32 → Result Fault (ℕ × ℕ)
unfolding validate_layer length_at require_length validate_finite
check_append c layer token_count keys values = do
  validate_layer c layer
  guard (not (token_count == 0)) (refused (zero_parameter "append token_count"))
  keys_per_token ← ok_or (checked_mul c.kv_head_count c.key_dimension) (overflow "keys per token")
  values_per_token ←
      ok_or (checked_mul c.kv_head_count c.value_dimension) (overflow "values per token")
  expected_keys ← ok_or (checked_mul token_count keys_per_token) (overflow "appended key length")
  expected_values ←
      ok_or (checked_mul token_count values_per_token) (overflow "appended value length")
  require_length "append keys" expected_keys (length keys)
  require_length "append values" expected_values (length values)
  validate_finite "append keys" keys
  validate_finite "append values" values
  stored ← length_at c layer
  new_length ← ok_or (checked_add stored token_count) (overflow "appended token count")
  guard (leb new_length c.token_capacity)
      (refused (capacity_exhausted layer stored token_count c.token_capacity))
  ok (stored, new_length)

module _ (has_room : String → ℕ → Bool) where
  unfoldable pub append_tokens : PagedKvCache → ℕ → ℕ → List F32 → List F32 → Outcome (Unit {0})
  unfolding check_append ensure_pages write_tokens
  append_tokens c layer token_count keys values =
      elim (check_append c layer token_count keys values) [
        | err e ↦ (c, err e)
        | ok (stored, new_length) ↦
            after (ensure_pages has_room c layer stored new_length) λ c done.
              after (write_tokens layer keys values c stored 0 token_count)
                λ c done. (record c { lengths = set c.lengths layer new_length }, ok tt)
      ]

  -- The index of the token that is appended.
  unfoldable pub append : PagedKvCache → ℕ → List F32 → List F32 → Outcome ℕ
  unfolding append_tokens length_at
  append c layer key value =
      after (append_tokens c layer 1 key value)
        λ c done. (c, (do n ← length_at c layer; ok (n - 1)))

unfoldable pub validate_indices : PagedKvCache → ℕ → ℕ → ℕ → Result Fault (Unit {0})
unfolding validate_layer length_at
validate_indices c layer token head = do
  validate_layer c layer
  stored ← length_at c layer
  guard (ltb token stored) (refused (token_out_of_range token stored))
  guard (ltb head c.kv_head_count) (refused (head_out_of_range head c.kv_head_count))

-- `key` and `value`.
unfoldable pub row : Part → PagedKvCache → ℕ → ℕ → ℕ → Result Fault (List F32)
unfolding validate_indices page checked_slice key_offset value_offset
row part c layer token head = do
  validate_indices c layer token head
  p ← page c layer token
  checked_slice (offset part c token head) (dimension part c) (rows part p)

unfoldable pub key : PagedKvCache → ℕ → ℕ → ℕ → Result Fault (List F32)
unfolding row
key = row of_keys

unfoldable pub value : PagedKvCache → ℕ → ℕ → ℕ → Result Fault (List F32)
unfolding row
value = row of_values

unfoldable pub stored_tokens : PagedKvCache → ℕ → Result Fault ℕ
unfolding validate_layer length_at
stored_tokens c layer = do validate_layer c layer; length_at c layer

-- `token_capacity - stored`, with the word's wrap-around.
unfoldable pub remaining_tokens : PagedKvCache → ℕ → Result Fault ℕ
unfolding stored_tokens
remaining_tokens c layer = do
  stored ← stored_tokens c layer
  ok ((c.token_capacity + word_modulus - stored) % word_modulus)

unfoldable pub reset : PagedKvCache → PagedKvCache
reset c = record c { lengths = replicate (length c.lengths) 0 }

-- The check of `rewind_all`, from a layer on.
unfoldable pub check_rewind : ℕ → ℕ → List ℕ → Result Fault (Unit {0})
check_rewind token_count layer [] = ok tt
check_rewind token_count layer (stored ∷ lengths) =
    if ltb stored token_count
    then refuse (rewind_beyond_stored layer token_count stored)
    else check_rewind token_count (suc layer) lengths

unfoldable pub rewind_all : PagedKvCache → ℕ → Outcome (Unit {0})
unfolding check_rewind
rewind_all c token_count = elim (check_rewind token_count 0 c.lengths) [
  | err e ↦ (c, err e)
  | ok u ↦ (record c { lengths = replicate (length c.lengths) token_count }, ok tt)
]
