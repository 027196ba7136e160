-- ===== src/Base/Sorting.antt =====
-- Sorting by a test. Where no two elements are equal for the test, every sort gives this list, so it
-- models the stable and the unstable sorts of Rust alike.
use mathlib.Core.Path.{◌≡◌, refl, ap, ◌∙◌}
use mathlib.Core.Logic.{inl, inr}
use mathlib.Core.Bool.{Bool, true, false}
use mathlib.Core.List.{List, [], ◌∷◌}
use mathlib.Core.List.{Perm}
use mathlib.Core.List.Perm
use Prim.Native.Nat.{ℕ, zero, suc}
use light_bridge_engine.Base.Tests.{if◌then◌else◌, Bool-cases}
use light_bridge_engine.Base.Lists.{All, length, take, drop}

module _ {A : Type 0} (before : A → A → Bool) where
  unfoldable pub insert_by : A → List A → List A
  insert_by x [] = x ∷ []
  insert_by x (y ∷ ys) = if before x y then x ∷ y ∷ ys else y ∷ insert_by x ys

  unfoldable pub sort_by : List A → List A
  unfolding insert_by
  sort_by [] = []
  sort_by (x ∷ xs) = insert_by x (sort_by xs)

module _ {A : Type 0} where
  -- Every element is related to each that follows.
  abbrev pub Ordered : (A → A → Type 0) → List A → Type 0
  Ordered R [] = Unit
  Ordered R (x ∷ xs) = All (R x) xs × Ordered R xs

  pub All-map_to : {P Q : A → Type 0} (xs : List A) → ((x : A) → P x → Q x) → All P xs → All Q xs
  All-map_to [] f all = tt
  All-map_to (x ∷ xs) f (p, all) = (f x p, All-map_to xs f all)

  pub All-combine :
      {P Q S : A → Type 0} (xs : List A)
      → ((x : A) → P x → Q x → S x)
      → All P xs
      → All Q xs
      → All S xs
  All-combine [] f ps qs = tt
  All-combine (x ∷ xs) f (p, ps) (q, qs) = (f x p q, All-combine xs f ps qs)

  pub Ordered-map_to :
      {R S : A → A → Type 0} (xs : List A)
      → ((x y : A) → R x y → S x y)
      → Ordered R xs
      → Ordered S xs
  Ordered-map_to [] f ordered = tt
  Ordered-map_to (x ∷ xs) f (first, rest) = (All-map_to xs (f x) first, Ordered-map_to xs f rest)

  pub All-take : (P : A → Type 0) (n : ℕ) (xs : List A) → All P xs → All P (take n xs)
  All-take P zero xs all = tt
  All-take P (suc n) [] all = tt
  All-take P (suc n) (x ∷ xs) (p, all) = (p, All-take P n xs all)

  pub All-drop : (P : A → Type 0) (n : ℕ) (xs : List A) → All P xs → All P (drop n xs)
  All-drop P zero xs all = all
  All-drop P (suc n) [] all = tt
  All-drop P (suc n) (x ∷ xs) (p, all) = All-drop P n xs all

  pub Ordered-take :
      (R : A → A → Type 0) (n : ℕ) (xs : List A) → Ordered R xs → Ordered R (take n xs)
  Ordered-take R zero xs ordered = tt
  Ordered-take R (suc n) [] ordered = tt
  Ordered-take R (suc n) (x ∷ xs) (first, rest) =
      (All-take (R x) n xs first, Ordered-take R n xs rest)

  -- The first elements of an ordered list are related to all the others.
  pub Ordered-split :
      (R : A → A → Type 0) (n : ℕ) (xs : List A)
      → Ordered R xs
      → All (λ x. All (R x) (drop n xs)) (take n xs)
  Ordered-split R zero xs ordered = tt
  Ordered-split R (suc n) [] ordered = tt
  Ordered-split R (suc n) (x ∷ xs) (first, rest) =
      (All-drop (R x) n xs first, Ordered-split R n xs rest)

module _ {A : Type 0} (before : A → A → Bool) where
  insert_by-Perm : (x : A) (ys : List A) → Perm (x ∷ ys) (insert_by before x ys)
  unfolding insert_by
  insert_by-Perm x [] = Perm.refl (x ∷ [])
  insert_by-Perm x (y ∷ ys) = elim (Bool-cases (before x y)) [
    | inl e ↦ rw (e, insert_by) (Perm.refl (x ∷ y ∷ ys))
    | inr e ↦ rw (e, insert_by) (Perm.trans (Perm.swap y x ys) (Perm.cons y (insert_by-Perm x ys)))
  ]

  -- Sorting keeps the elements.
  pub sort_by-Perm : (xs : List A) → Perm xs (sort_by before xs)
  unfolding sort_by
  sort_by-Perm [] = Perm.nil
  sort_by-Perm (x ∷ xs) =
      Perm.trans (Perm.cons x (sort_by-Perm xs)) (insert_by-Perm x (sort_by before xs))

  length-insert_by : (x : A) (ys : List A) → length (insert_by before x ys) ≡ suc (length ys)
  unfolding insert_by
  length-insert_by x [] = refl
  length-insert_by x (y ∷ ys) = elim (Bool-cases (before x y)) [
    | inl e ↦ rw (e, insert_by) refl
    | inr e ↦ rw (e, insert_by) (ap suc (length-insert_by x ys))
  ]

  pub length-sort_by : (xs : List A) → length (sort_by before xs) ≡ length xs
  unfolding sort_by
  length-sort_by [] = refl
  length-sort_by (x ∷ xs) = length-insert_by x (sort_by before xs) ∙ ap suc (length-sort_by xs)

  insert_by-All :
      (P : A → Type 0) (x : A) (ys : List A) → P x → All P ys → All P (insert_by before x ys)
  unfolding insert_by
  insert_by-All P x [] p all = (p, tt)
  insert_by-All P x (y ∷ ys) p (q, all) = elim (Bool-cases (before x y)) [
    | inl e ↦ rw (e, insert_by) (p, (q, all))
    | inr e ↦ rw (e, insert_by) (q, insert_by-All P x ys p all)
  ]

  pub sort_by-All : (P : A → Type 0) (xs : List A) → All P xs → All P (sort_by before xs)
  unfolding sort_by
  sort_by-All P [] all = tt
  sort_by-All P (x ∷ xs) (p, all) = insert_by-All P x (sort_by before xs) p (sort_by-All P xs all)

  -- A test that decides a strict order between any two elements that are apart.
  module _ (Apart R : A → A → Type 0) (yes_lem : (x y : A) → Apart x y → before x y ≡ true → R x y)
      (no_lem : (x y : A) → Apart x y → before x y ≡ false → R y x)
      (R_trans : (x y z : A) → Apart x z → R x y → R y z → R x z) where
    insert_by-Ordered :
        (x : A) (ys : List A) → All (Apart x) ys → Ordered R ys → Ordered R (insert_by before x ys)
    unfolding insert_by
    insert_by-Ordered x [] apart ordered = (tt, tt)
    insert_by-Ordered x (y ∷ ys) (a, apart) (first, rest) = elim (Bool-cases (before x y)) [
      | inl e ↦
          let xy = yes_lem x y a e in
          let after = All-combine ys (λ z xz yz. R_trans x y z xz xy yz) apart first in
          rw (e, insert_by) ((xy, after), (first, rest))
      | inr e ↦
          rw (e, insert_by)
            (insert_by-All (R y) x ys (no_lem x y a e) first, insert_by-Ordered x ys apart rest)
    ]

    -- Sorting orders elements that are all apart.
    pub sort_by-Ordered : (xs : List A) → Ordered Apart xs → Ordered R (sort_by before xs)
    unfolding sort_by
    sort_by-Ordered [] apart = tt
    sort_by-Ordered (x ∷ xs) (first, rest) =
        insert_by-Ordered x (sort_by before xs) (sort_by-All (Apart x) xs first)
          (sort_by-Ordered xs rest)
