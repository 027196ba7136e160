-- ===== src/Kv/Snapshots/Buffers.antt =====
-- The rows of one token are read into buffers that they fit.
use light_bridge_engine.Base.{
  ℕ, zero, suc, ◌+◌, ◌*◌, ◌≤◌, ◌<◌, ◌≡◌, ◌∙◌, List, ◌++◌, length, take, drop, arith, length-append,
  length-take, length-drop, word_modulus,
}
use light_bridge_engine.Kv.Types.{Sizes, F32}
use light_bridge_engine.Kv.Rows.{copy_row}
use light_bridge_engine.Kv.Slices.{copy_row-ok}
use light_bridge_engine.Kv.Snapshots.Restore.{SnapshotCursor, read_heads}
use light_bridge_engine.Kv.Snapshots.Endings.{Ends, ended, Ends-bind, cursor_lanes-Ends}

length-copied :
    (start n : ℕ) (row target : List F32)
    → length row ≡ n
    → start + n ≤ length target
    → length (take start target ++ row ++ drop (start + n) target) ≡ length target
length-copied start n row target size within =
    let a = length-append (take start target ++ row) (drop (start + n) target) in
    let b = length-append (take start target) row in
    let t = length-take start target in
    let d = length-drop (start + n) target in omega (arith, a, b, t, d)

-- A copy that fits its buffer.
copy_row-Ends :
    (start n : ℕ) (row target : List F32)
    → length row ≡ n
    → start + n ≤ length target
    → length target < word_modulus
    → Ends (λ xs. length xs ≡ length target) (copy_row start n row target)
copy_row-Ends start n row target size within small =
    rw (copy_row-ok start n row target size within small)
      (ended _ (length-copied start n row target size within))

-- Buffers for the rows of one token.
pub record Buffers (d : Sizes) (keys values : List F32) : Type 0 where
  pub keys_whole : length keys ≡ d.heads * d.key_size
  pub values_whole : length values ≡ d.heads * d.value_size
  pub keys_small : length keys < word_modulus
  pub values_small : length values < word_modulus

head_within : (head left dim : ℕ) → head * dim + dim ≤ (head + suc left) * dim
head_within head left dim = grind arith

pub read_heads-Ends :
    (d : Sizes) (cur : SnapshotCursor) (keys values : List F32) (head left : ℕ)
    → head + left ≡ d.heads
    → Buffers d keys values
    → Ends (λ r. Buffers d r.0.0 r.0.1) (read_heads d cur keys values head left)
unfolding read_heads
read_heads-Ends d cur keys values head zero all buffers = ended _ buffers
read_heads-Ends d cur keys values head (suc left) all buffers =
    let k_in : head * d.key_size + d.key_size ≤ length keys =
      rw (buffers.keys_whole, ← all) (head_within head left d.key_size) in
    let v_in : head * d.value_size + d.value_size ≤ length values =
      rw (buffers.values_whole, ← all) (head_within head left d.value_size) in
    Ends-bind _ _ (cursor_lanes-Ends cur d.key_size) λ (k, cur) k_size.
      Ends-bind _ _
        (copy_row-Ends (head * d.key_size) d.key_size k keys k_size k_in buffers.keys_small)
        λ keys' k_same. Ends-bind _ _ (cursor_lanes-Ends cur d.value_size) λ (v, cur) v_size.
          Ends-bind _ _
            (copy_row-Ends (head * d.value_size) d.value_size v values v_size v_in
              buffers.values_small)
            λ values' v_same.
              read_heads-Ends d cur keys' values' (suc head) left (omega arith) (record {
                keys_whole = k_same ∙ buffers.keys_whole;
                values_whole = v_same ∙ buffers.values_whole;
                keys_small = omega (arith, k_same, buffers.keys_small);
                values_small = omega (arith, v_same, buffers.values_small);
              })
