-- ===== src/Core/GgmlType/Discriminants.antt =====
-- The discriminants name the types one to one, and every row size is exact.
use light_bridge_engine.Base.{
  ℕ, ◌≡◌, refl, ◌↔◌, some, List, [], ◌∷◌, arith, ok, Bool-cases, inl, inr, ◌==◌, Option-cases,
}
use light_bridge_engine.Core.GgmlType.{
  GgmlType, discriminant, all, find_type, from_discriminant, f32,
}

find_type_sound :
    (value : ℕ) (types : List GgmlType) {ty : GgmlType}
    → find_type value types ≡ some ty
    → discriminant ty ≡ value
unfolding find_type
find_type_sound value [] h = cc
find_type_sound value (ty ∷ rest) h = elim (Bool-cases (discriminant ty == value)) [
  | inl here ↦ ground arith
  | inr other ↦ find_type_sound value rest (rw other at h)
]

from_discriminant-discriminant : (ty : GgmlType) → from_discriminant (discriminant ty) ≡ ok ty
unfolding from_discriminant discriminant
from_discriminant-discriminant f32 = refl
from_discriminant-discriminant _ = refl

discriminant_of_ok :
    (value : ℕ) (ty : GgmlType) → from_discriminant value ≡ ok ty → discriminant ty ≡ value
unfolding from_discriminant
discriminant_of_ok value ty h =
    find_type_sound value all (ground (arith, Option-cases (find_type value all)))

-- `from_discriminant` accepts exactly the discriminants of the listed types, and each yields its
-- own type.
pub from_discriminant_iff :
    (value : ℕ) (ty : GgmlType) → (from_discriminant value ≡ ok ty) ↔ (discriminant ty ≡ value)
from_discriminant_iff value ty =
    (discriminant_of_ok value ty, λ e. rw (← e) (from_discriminant-discriminant ty))
