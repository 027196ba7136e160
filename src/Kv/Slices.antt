-- ===== src/Kv/Slices.antt =====
-- Slices, copies and places of rows, where the bounds are met.
use native.Mathlib.Nat.{div-add-mod', mul_assoc, add-mul, add_assoc, mod-eq_of_lt}
use light_bridge_engine.Base.{
  ℕ, ◌+◌, ◌-◌, ◌*◌, ◌/◌, ◌%◌, ◌≤◌, ◌<◌, ◌≡◌, refl, List, ◌++◌, ok, length, take, drop, arith,
  length-take, length-drop, word_modulus, leb, ◌==◌, true,
}
use light_bridge_engine.Kv.Types.{F32}
use light_bridge_engine.Kv.Rows.{row_offset, checked_slice, copy_row}

-- The place of a head's row in its page, counted from the first page.
pub place :
    (token head page_tokens heads dim : ℕ)
    → token / page_tokens * (page_tokens * heads * dim) + (token % page_tokens * heads + head) * dim
      ≡ (token * heads + head) * dim
place token head page_tokens heads dim =
    let ring : (q m : ℕ)
        → q * (page_tokens * heads * dim) + (m * heads + head) * dim
          ≡ ((q * page_tokens + m) * heads + head) * dim =
      λ q m. simp (add-mul, mul_assoc, add_assoc) in
    rw (div-add-mod' token page_tokens) at (ring (token / page_tokens) (token % page_tokens))

-- A row lies within the rows of so many tokens.
pub row_within :
    (m head tokens heads dim : ℕ)
    → m < tokens
    → head < heads
    → (m * heads + head) * dim + dim ≤ tokens * heads * dim
row_within m head tokens heads dim h k = grind arith

pub row_offset-small :
    (m head tokens heads dim : ℕ)
    → m < tokens
    → head < heads
    → tokens * heads * dim < word_modulus
    → row_offset m heads head dim ≡ (m * heads + head) * dim
unfolding row_offset
row_offset-small m head tokens heads dim h k small =
    mod-eq_of_lt (omega (arith, row_within m head tokens heads dim h k))

pub checked_slice-ok :
    (start n : ℕ) (xs : List F32)
    → start + n ≤ length xs
    → length xs < word_modulus
    → checked_slice start n xs ≡ ok (take n (drop start xs))
unfolding checked_slice
checked_slice-ok start n xs within small =
    let end : (start + n) % word_modulus ≡ start + n = mod-eq_of_lt (omega arith) in
    let size : start + n - start ≡ n = omega arith in
    let low : leb start (start + n) ≡ true = ground arith in
    let high : leb (start + n) (length xs) ≡ true = ground arith in rw (end, size, low, high) refl

pub length-row :
    (start n : ℕ) (xs : List F32) → start + n ≤ length xs → length (take n (drop start xs)) ≡ n
length-row start n xs h = omega (arith, length-take n (drop start xs), length-drop start xs)

pub copy_row-ok :
    (start n : ℕ) (row target : List F32)
    → length row ≡ n
    → start + n ≤ length target
    → length target < word_modulus
    → copy_row start n row target ≡ ok (take start target ++ row ++ drop (start + n) target)
unfolding copy_row
copy_row-ok start n row target size within small =
    let same : (length (take n (drop start target)) == length row) ≡ true =
      ground (arith, length-row start n target) in
    rw (checked_slice-ok start n target within small, same) refl
