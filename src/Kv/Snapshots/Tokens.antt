-- ===== src/Kv/Snapshots/Tokens.antt =====
-- The rows of a token are read back into the buffers.
use native.Mathlib.Nat.{add-mul}
use light_bridge_engine.Base.{
  ℕ, zero, suc, ◌+◌, ◌*◌, ◌≤◌, ◌<◌, ◌≡◌, refl, sym, ap, ◌∙◌, subst, List, ◌++◌, ok, length, take,
  drop, arith, word_modulus, All,
}
use light_bridge_engine.Base.{◌^◌, drop-drop, append_assoc}
use light_bridge_engine.Kv.Types.{F32, PagedKvCache}
use light_bridge_engine.Kv.Slices.{length-row}
use light_bridge_engine.Kv.Types.{sizes}
use light_bridge_engine.Kv.Appends.{take_all}
use light_bridge_engine.Kv.Snapshots.Cursors.{At, ReadsTo, lanes-At}
use light_bridge_engine.Kv.Snapshots.Streams.{row_at, rows_stream, All-row, copy-next}
use light_bridge_engine.Kv.Snapshots.Restore.{SnapshotCursor, cursor_lanes, read_heads}
use light_bridge_engine.Kv.Snapshots.Export.{encode_row}

abbrev pub AreWords : List F32 → Type 0
AreWords = All (λ x. x < 256 ^ 4)

-- A row of a token, counted from the token's first.
row_at-drop :
    (n base head : ℕ) (xs : List F32)
    → row_at n (base + head) xs ≡ row_at n head (drop (base * n) xs)
row_at-drop n base head xs =
    let place : (base + head) * n ≡ base * n + head * n = add-mul base head n in
    rw place (ap (take n) (sym (drop-drop (base * n) (head * n) xs)))

module _ (c : PagedKvCache) (xs ys : List F32) (base : ℕ)
    (small_keys : c.kv_head_count * c.key_dimension < word_modulus)
    (small_values : c.kv_head_count * c.value_dimension < word_modulus)
    (has_keys : (base + c.kv_head_count) * c.key_dimension ≤ length xs)
    (has_values : (base + c.kv_head_count) * c.value_dimension ≤ length ys)
    (key_words : AreWords xs) (value_words : AreWords ys) where
  -- The heads that are left of a token.
  pub heads-At :
      (cur : SnapshotCursor) (keys values : List F32) (head left : ℕ) (rest : List ℕ)
      → head + left ≡ c.kv_head_count
      → length keys ≡ c.kv_head_count * c.key_dimension
      → length values ≡ c.kv_head_count * c.value_dimension
      → take (head * c.key_dimension) keys
        ≡ take (head * c.key_dimension) (drop (base * c.key_dimension) xs)
      → take (head * c.value_dimension) values
        ≡ take (head * c.value_dimension) (drop (base * c.value_dimension) ys)
      → At cur (rows_stream c.key_dimension c.value_dimension xs ys (base + head) left ++ rest)
      → ReadsTo
          (read_heads (sizes c) cur keys values head left)
          (
            take (c.kv_head_count * c.key_dimension) (drop (base * c.key_dimension) xs),
            take (c.kv_head_count * c.value_dimension) (drop (base * c.value_dimension) ys),
          )
          rest
  unfolding read_heads rows_stream
  heads-At cur keys values head zero rest all ks vs k_before v_before at =
      let done : head ≡ c.kv_head_count = omega arith in
      let k_all : keys
          ≡ take (c.kv_head_count * c.key_dimension) (drop (base * c.key_dimension) xs) =
        sym (take_all keys) ∙ ap (λ (n : ℕ). take n keys) ks ∙ (rw done at k_before) in
      let v_all : values
          ≡ take (c.kv_head_count * c.value_dimension) (drop (base * c.value_dimension) ys) =
        sym (take_all values) ∙ ap (λ (n : ℕ). take n values) vs ∙ (rw done at v_before) in
      (cur, rw (← k_all, ← v_all) refl, at)
  heads-At cur keys values head (suc left) rest all ks vs k_before v_before at =
      let k : ℕ = c.key_dimension in
      let v : ℕ = c.value_dimension in
      let i : ℕ = base + head in
      let key_row : List F32 = row_at k i xs in
      let value_row : List F32 = row_at v i ys in
      let others : List ℕ = rows_stream k v xs ys (suc i) left in
      let k_in : i * k + k ≤ length xs = grind arith in
      let v_in : i * v + v ≤ length ys = grind arith in
      let k_size : length key_row ≡ k = length-row (i * k) k xs k_in in
      let v_size : length value_row ≡ v = length-row (i * v) v ys v_in in
      let stream : At cur (encode_row key_row ++ (encode_row value_row ++ (others ++ rest))) =
        rw (← append_assoc (encode_row value_row) others rest)
          (rw (append_assoc (encode_row key_row) (encode_row value_row ++ others) rest) at at) in
      let (c1, got_k, at1) =
        lanes-At cur key_row (encode_row value_row ++ (others ++ rest))
          (All-row (λ x. x < 256 ^ 4) k (i * k) xs key_words) stream in
      let (keys', put_k, ks', k_next) =
        copy-next k head (c.kv_head_count * k) key_row keys (drop (base * k) xs) ks small_keys
          (grind arith) k_size (row_at-drop k base head xs) k_before in
      let (c2, got_v, at2) =
        lanes-At c1 value_row (others ++ rest) (All-row (λ x. x < 256 ^ 4) v (i * v) ys value_words)
          at1 in
      let (values', put_v, vs', v_next) =
        copy-next v head (c.kv_head_count * v) value_row values (drop (base * v) ys) vs small_values
          (grind arith) v_size (row_at-drop v base head ys) v_before in
      let next : suc i ≡ base + suc head = omega arith in
      let (end, rest_read, at3) =
        heads-At c2 keys' values' (suc head) left rest (omega arith) ks' vs' k_next v_next
          (subst (λ (j : ℕ). At c2 (rows_stream k v xs ys j left ++ rest)) next at2) in
      let got_k' : cursor_lanes cur k ≡ ok (key_row, c1) = rw k_size at got_k in
      let got_v' : cursor_lanes c1 v ≡ ok (value_row, c2) = rw v_size at got_v in
      (end, rw (got_k', put_k, got_v', put_v) rest_read, at3)

pub nothing_yet : (n : ℕ) (xs ys : List F32) → take (0 * n) xs ≡ take (0 * n) ys
nothing_yet n xs ys = let e : 0 * n ≡ 0 = omega arith in rw e refl
