-- ===== src/Base/Table.antt =====
-- Maps as association lists with one entry for a key, in some order of iteration.
use mathlib.Core.Logic.{ite, if_pos, if_neg}
use Prim.Native.Nat.{ℕ, ◌+◌, ◌≤◌}
use mathlib.Core.Path.{◌≡◌, refl, sym, ◌∙◌, subst}
use mathlib.Core.Logic.{◌≢◌}
use mathlib.Core.List.{List, [], ◌∷◌}
use mathlib.Core.Option.{Option, none, some}
use native.Mathlib.Omega.{arith}
use light_bridge_engine.Base.Lists.{length}

module _ {ℓ} {K V : Type ℓ} (dec : Discrete K) where
  unfoldable pub find : K → List (K × V) → Option V
  find k [] = none
  find k ((j, w) ∷ m) = ite (dec j k) (some w) (find k m)

  -- The old value of the key, if any, is replaced where it stands.
  unfoldable pub insert : K → V → List (K × V) → List (K × V)
  insert k v [] = (k, v) ∷ []
  insert k v ((j, w) ∷ m) = ite (dec j k) ((k, v) ∷ m) ((j, w) ∷ insert k v m)

  unfoldable pub erase : K → List (K × V) → List (K × V)
  erase k [] = []
  erase k ((j, w) ∷ m) = ite (dec j k) m ((j, w) ∷ erase k m)

  -- No key stands twice.
  abbrev pub Distinct : List (K × V) → Type ℓ
  Distinct [] = Unit
  Distinct ((j, w) ∷ m) = (find j m ≡ none) × Distinct m

  pub find-insert :
      (k q : K) (v : V) (m : List (K × V))
      → find q (insert k v m) ≡ ite (dec k q) (some v) (find q m)
  unfolding find insert
  find-insert k q v [] = refl
  find-insert k q v ((j, w) ∷ m) = ground (arith, find-insert k q v m)

  pub find-insert_self : (k : K) (v : V) (m : List (K × V)) → find k (insert k v m) ≡ some v
  find-insert_self k v m = find-insert k k v m ∙ if_pos (dec k k) refl _ _

  pub find-insert_ne :
      (k q : K) (v : V) (m : List (K × V)) → k ≢ q → find q (insert k v m) ≡ find q m
  find-insert_ne k q v m h = find-insert k q v m ∙ if_neg (dec k q) h _ _

  pub find-erase_ne : (k q : K) (m : List (K × V)) → k ≢ q → find q (erase k m) ≡ find q m
  unfolding find erase
  find-erase_ne k q [] h = refl
  find-erase_ne k q ((j, w) ∷ m) h = ground (arith, find-erase_ne k q m h)

  pub find-erase_self : (k : K) (m : List (K × V)) → Distinct m → find k (erase k m) ≡ none
  unfolding find erase
  find-erase_self k [] d = refl
  find-erase_self k ((j, w) ∷ m) d = elim (dec j k) [
    | yes here ↦ rw (if_pos _ here) (subst (λ x. find x m ≡ none) here d.0)
    | no other ↦ rw (if_neg _ other) (rw (if_neg _ other) (find-erase_self k m d.1))
  ]

  pub insert-Distinct : (k : K) (v : V) (m : List (K × V)) → Distinct m → Distinct (insert k v m)
  unfolding insert find
  insert-Distinct k v [] d = (refl, tt)
  insert-Distinct k v ((j, w) ∷ m) d = elim (dec j k) [
    | yes here ↦ rw (if_pos (dec j k) here) (subst (λ x. find x m ≡ none) here d.0, d.1)
    | no other ↦ rw (if_neg (dec j k) other) (
      find-insert k j v m ∙ if_neg (dec k j) (λ e. other (sym e)) _ _ ∙ d.0,
      insert-Distinct k v m d.1,
    )
  ]

  pub erase-Distinct : (k : K) (m : List (K × V)) → Distinct m → Distinct (erase k m)
  unfolding erase
  erase-Distinct k [] d = tt
  erase-Distinct k ((j, w) ∷ m) d = elim (dec j k) [
    | yes here ↦ rw (if_pos _ here) d.1
    | no other ↦
        rw (if_neg _ other) (find-erase_ne k j m (λ e. other (sym e)) ∙ d.0, erase-Distinct k m d.1)
  ]

  pub length-erase :
      (k : K) (m : List (K × V)) {v : V} → find k m ≡ some v → length (erase k m) + 1 ≡ length m
  unfolding find erase
  length-erase k [] h = cc
  length-erase k ((j, w) ∷ m) {v} h = ground (arith, length-erase k m {v = v})

  -- The sum of a weight over the values.
  abbrev pub total : (V → ℕ) → List (K × V) → ℕ
  total f [] = 0
  total f ((j, w) ∷ m) = f w + total f m

  pub total-erase :
      (f : V → ℕ) (k : K) (m : List (K × V)) (v : V)
      → find k m ≡ some v
      → total f (erase k m) + f v ≡ total f m
  unfolding find erase
  total-erase f k [] v h = cc
  total-erase f k ((j, w) ∷ m) v h = ground (arith, total-erase f k m v)

  pub total-insert_new :
      (f : V → ℕ) (k : K) (m : List (K × V)) (v : V)
      → find k m ≡ none
      → total f (insert k v m) ≡ total f m + f v
  unfolding find insert
  total-insert_new f k [] v h = omega arith
  total-insert_new f k ((j, w) ∷ m) v h = ground (arith, total-insert_new f k m v)

  pub total-insert_old :
      (f : V → ℕ) (k : K) (m : List (K × V)) (v old : V)
      → find k m ≡ some old
      → total f (insert k v m) + f old ≡ total f m + f v
  unfolding find insert
  total-insert_old f k [] v old h = cc
  total-insert_old f k ((j, w) ∷ m) v old h = ground (arith, total-insert_old f k m v old)

  pub le-total :
      (f : V → ℕ) (k : K) (m : List (K × V)) (v : V) → find k m ≡ some v → f v ≤ total f m
  le-total f k m v h = omega (arith, total-erase f k m v h)
