-- ===== src/Kv/Blocks.antt =====
-- A list that is cut into blocks of one size, and writes into one block.
use light_bridge_engine.Base.{
  ℕ, zero, suc, ◌+◌, ◌*◌, ◌≤◌, ◌≡◌, refl, sym, ap, ◌∙◌, List, [], ◌∷◌, ◌++◌, some, length,
  get_elem?, set, take, drop, arith, All, length-append, length-take, length-drop, append_assoc,
  take-length-append,
}

module _ {A : Type 0} where
  abbrev pub concat : List (List A) → List A
  concat [] = []
  concat (b ∷ bs) = b ++ concat bs

  pub take-append_left : (n : ℕ) (xs ys : List A) → n ≤ length xs → take n (xs ++ ys) ≡ take n xs
  take-append_left zero xs ys h = refl
  take-append_left (suc n) [] ys h = absurd (omega arith)
  take-append_left (suc n) (x ∷ xs) ys h = ap (◌∷◌ x) (take-append_left n xs ys (omega arith))

  pub take-append_right :
      (n : ℕ) (xs ys : List A) → take (length xs + n) (xs ++ ys) ≡ xs ++ take n ys
  take-append_right n [] ys = let e : 0 + n ≡ n = omega arith in rw e refl
  take-append_right n (x ∷ xs) ys =
      let e : suc (length xs) + n ≡ suc (length xs + n) = omega arith in
      rw e (ap (◌∷◌ x) (take-append_right n xs ys))

  pub drop-append_left :
      (n : ℕ) (xs ys : List A) → n ≤ length xs → drop n (xs ++ ys) ≡ drop n xs ++ ys
  drop-append_left zero xs ys h = refl
  drop-append_left (suc n) [] ys h = absurd (omega arith)
  drop-append_left (suc n) (x ∷ xs) ys h = drop-append_left n xs ys (omega arith)

  pub drop-append_right : (n : ℕ) (xs ys : List A) → drop (length xs + n) (xs ++ ys) ≡ drop n ys
  drop-append_right n [] ys = let e : 0 + n ≡ n = omega arith in rw e refl
  drop-append_right n (x ∷ xs) ys =
      let e : suc (length xs) + n ≡ suc (length xs + n) = omega arith in
      rw e (drop-append_right n xs ys)

  -- Reading within a block.
  pub slice-concat :
      (size q o n : ℕ) (bs : List (List A)) {held : List A}
      → All (λ b. length b ≡ size) bs
      → get_elem? bs q ≡ some held
      → o + n ≤ size
      → take n (drop (q * size + o) (concat bs)) ≡ take n (drop o held)
  slice-concat size q o n [] sized here within = cc
  slice-concat size zero o n (b ∷ bs) {held} sized here within =
      let same : b ≡ held = cc in
      let start : 0 * size + o ≡ o = omega arith in
      let inside : n ≤ length (drop o b) = omega (arith, length-drop o b, sized.0) in
      rw start (
        ap (take n) (drop-append_left o b (concat bs) (omega (arith, sized.0)))
        ∙ take-append_left n (drop o b) (concat bs) inside
        ∙ ap (λ (xs : List A). take n (drop o xs)) same)
  slice-concat size (suc q) o n (b ∷ bs) sized here within =
      let start : suc q * size + o ≡ length b + (q * size + o) = omega (arith, sized.0) in
      rw start (
        ap (take n) (drop-append_right (q * size + o) b (concat bs))
        ∙ slice-concat size q o n bs sized.1 here within)

  -- Writing a row into a block extends what stands before it by the row.
  pub take-concat-set :
      (size q o : ℕ) (bs : List (List A)) (row : List A) {held : List A}
      → All (λ b. length b ≡ size) bs
      → get_elem? bs q ≡ some held
      → o + length row ≤ size
      → take
          (q * size + o + length row)
          (concat (set bs q (take o held ++ row ++ drop (o + length row) held)))
        ≡ take (q * size + o) (concat bs) ++ row
  take-concat-set size q o [] row sized here within = cc
  take-concat-set size zero o (b ∷ bs) row {held} sized here within =
      let same : b ≡ held = cc in
      let n : ℕ = length row in
      let tail : List A = drop (o + n) b in
      let start : 0 * size + o ≡ o = omega arith in
      let end : 0 * size + o + n ≡ length (take o b) + n =
        omega (arith, length-take o b, sized.0) in
      rw (← same, end, start)
        (ap (take (length (take o b) + n)) (
            append_assoc (take o b ++ row) tail (concat bs)
            ∙ append_assoc (take o b) row (tail ++ concat bs))
          ∙ take-append_right n (take o b) (row ++ (tail ++ concat bs))
          ∙ ap (◌++◌ (take o b)) (take-length-append row (tail ++ concat bs))
          ∙ ap (λ xs. xs ++ row) (sym (take-append_left o b (concat bs) (omega (arith, sized.0)))))
  take-concat-set size (suc q) o (b ∷ bs) row {held} sized here within =
      let n : ℕ = length row in
      let start : suc q * size + o ≡ length b + (q * size + o) = omega (arith, sized.0) in
      let end : suc q * size + o + n ≡ length b + (q * size + o + n) = omega (arith, sized.0) in
      rw (end, start)
        (take-append_right (q * size + o + n) b
            (concat (set bs q (take o held ++ row ++ drop (o + n) held)))
          ∙ ap (◌++◌ b) (take-concat-set size q o bs row sized.1 here within)
          ∙ sym (append_assoc b (take (q * size + o) (concat bs)) row)
          ∙ ap (λ xs. xs ++ row) (sym (take-append_right (q * size + o) b (concat bs))))

  pub length-concat :
      (size : ℕ) (bs : List (List A))
      → All (λ b. length b ≡ size) bs
      → length (concat bs) ≡ length bs * size
  length-concat size [] sized = omega arith
  length-concat size (b ∷ bs) sized =
      let step : suc (length bs) * size ≡ size + length bs * size = grind arith in
      omega (arith, length-append b (concat bs), length-concat size bs sized.1, sized.0)
