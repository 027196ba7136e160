-- ===== src/Core/GgmlType/Rows.antt =====
-- Every accepted row has the exact size that its blocks take.
use native.Mathlib.Nat.{div-add-mod', le_antisymm, le_of_mul-le-mul_right, le_of_eq}
use light_bridge_engine.Base.{
  ℕ, ◌*◌, ◌/◌, ◌%◌, ◌<◌, ◌≡◌, ◌↔◌, ap, sym, arith, ok, word_modulus, checked_mul,
}
use light_bridge_engine.Core.GgmlType.{GgmlType, block_size, type_size, row_size, f32}

pub block_size-pos : (ty : GgmlType) → 0 < block_size ty
unfolding block_size
block_size-pos f32 = omega arith
block_size-pos _ = omega arith

pub type_size-pos : (ty : GgmlType) → 0 < type_size ty
unfolding type_size
type_size-pos f32 = omega arith
type_size-pos _ = omega arith

-- What a row of `ne0` elements takes, as a relation between elements and bytes.
pub record IsRow (ty : GgmlType) (ne0 bytes : ℕ) : Type 0 where
  pub aligned : ne0 % block_size ty ≡ 0
  pub exact : bytes * block_size ty ≡ ne0 * type_size ty
  pub fits : bytes < word_modulus

row_size-ok :
    (ty : GgmlType) (ne0 bytes : ℕ)
    → row_size ty ne0 ≡ ok bytes
    → (ne0 % block_size ty ≡ 0)
      × (bytes ≡ ne0 / block_size ty * type_size ty)
      × (bytes < word_modulus)
unfolding row_size checked_mul
row_size-ok ty ne0 bytes h = ground arith

-- A row is accepted only with its exact size.
pub row_size-IsRow :
    (ty : GgmlType) (ne0 bytes : ℕ) → row_size ty ne0 ≡ ok bytes → IsRow ty ne0 bytes
row_size-IsRow ty ne0 bytes h =
    let (aligned, size, fits) = row_size-ok ty ne0 bytes h in
    let blocks = ap (λ (n : ℕ). n * type_size ty) (div-add-mod' ne0 (block_size ty)) in
    record {
      aligned = aligned;
      exact = rw size (omega (arith, ap (λ (n : ℕ). n * type_size ty) aligned));
      fits = fits;
    }

-- Every row that has a size within the word is accepted.
row_size_of_IsRow :
    (ty : GgmlType) (ne0 bytes : ℕ) → IsRow ty ne0 bytes → row_size ty ne0 ≡ ok bytes
unfolding row_size checked_mul
row_size_of_IsRow ty ne0 bytes row =
    let pos = block_size-pos ty in
    let aligned = row.aligned in
    let fits = row.fits in
    let blocks = ap (λ (n : ℕ). n * type_size ty) (div-add-mod' ne0 (block_size ty)) in
    let zero = ap (λ (n : ℕ). n * type_size ty) row.aligned in
    let same : ne0 / block_size ty * type_size ty * block_size ty ≡ bytes * block_size ty =
      omega (arith, row.exact) in
    let size : ne0 / block_size ty * type_size ty ≡ bytes =
      le_antisymm (le_of_mul-le-mul_right (le_of_eq same) pos)
        (le_of_mul-le-mul_right (le_of_eq (sym same)) pos) in
    ground arith

-- A row of so many elements has a size exactly where they fill whole blocks and the bytes of these
-- blocks fit a word, and that is the size.
pub row_size_iff :
    (ty : GgmlType) (ne0 bytes : ℕ) → (row_size ty ne0 ≡ ok bytes) ↔ IsRow ty ne0 bytes
row_size_iff ty ne0 bytes = (row_size-IsRow ty ne0 bytes, row_size_of_IsRow ty ne0 bytes)
