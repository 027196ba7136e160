-- ===== src/Core/Tensor/Extent.antt =====
-- What a descriptor's checks give: the shape that was asked for, and the exact extent in bytes.
use light_bridge_engine.Base.{
  ℕ, ◌+◌, ◌*◌, ◌-◌, ◌<◌, ◌≤◌, ◌≡◌, refl, ap, String, List, [], ◌∷◌, arith, ok, Result, Result-cases,
  true, take, inl, inr, length, All, checked_mul, checked_add, checked_mul-fits, checked_mul-some,
  Option-cases, word_modulus, err, ◌⊎◌, dec_lt,
}
use light_bridge_engine.Core.Error.{CoreError, arithmetic_overflow}
use light_bridge_engine.Core.GgmlType.{GgmlType, block_size, type_size, row_size}
use light_bridge_engine.Core.GgmlType.Rows.{row_size-IsRow}
use light_bridge_engine.Core.Tensor.{
  TensorDesc, new, shape, valid_rank, strides_of, element_count, encoded_bytes, count_from,
  checked_absolute_range,
}
use light_bridge_engine.Core.Tensor.Fields.{padded, new-Fields}

abbrev pub product : List ℕ → ℕ
product [] = 1
product (x ∷ xs) = x * product xs

-- The extent of an accepted shape as a number of rows.
abbrev RowsOf : GgmlType → List ℕ → ℕ → Type 0
RowsOf ty [] bytes = ⊥
RowsOf ty (a ∷ rest) bytes = (row : ℕ) × (row_size ty a ≡ ok row) × (bytes ≡ row * product rest)

encoded_from : ℕ → List ℕ → List ℕ → GgmlType → Result CoreError ℕ
unfolding encoded_bytes
encoded_from n_dims fixed strides ty = encoded_bytes (record {
  name = "";
  fixed_shape = fixed;
  n_dims = n_dims;
  ty = ty;
  relative_offset = 0;
  strides = strides;
})

encoded_from-RowsOf :
    (dims : List ℕ) (strides : List ℕ) (ty : GgmlType) (bytes : ℕ)
    → valid_rank (length dims) ≡ true
    → strides_of (padded dims) (length dims) ty ≡ ok strides
    → encoded_from (length dims) (padded dims) strides ty ≡ ok bytes
    → RowsOf ty dims bytes
unfolding strides_of encoded_from checked_mul valid_rank
encoded_from-RowsOf [] strides ty bytes v h k = absurd (ground arith)
encoded_from-RowsOf (a ∷ []) strides ty bytes v h k = (bytes, k, omega arith)
encoded_from-RowsOf (a ∷ b ∷ []) strides ty bytes v h k = elim (Result-cases (row_size ty a)) [
  | inl (row, e) ↦ (row, e, ground arith)
  | inr (x, e) ↦ absurd (ground arith)
]
encoded_from-RowsOf (a ∷ b ∷ c ∷ []) strides ty bytes v h k = elim (Result-cases (row_size ty a)) [
  | inl (row, e) ↦
      let listed : strides ≡ type_size ty ∷ row ∷ row * b ∷ 0 ∷ [] = ground arith in
      let last = rw listed at k in (row, e, ground arith)
  | inr (x, e) ↦ absurd (ground arith)
]
encoded_from-RowsOf (a ∷ b ∷ c ∷ d ∷ []) strides ty bytes v h k =
    elim (Result-cases (row_size ty a)) [
      | inl (row, e) ↦
          let listed : strides ≡ type_size ty ∷ row ∷ row * b ∷ row * b * c ∷ [] = ground arith in
          let last = rw listed at k in (row, e, ground arith)
      | inr (x, e) ↦ absurd (ground arith)
    ]
encoded_from-RowsOf (a ∷ b ∷ c ∷ d ∷ e ∷ rest) strides ty bytes v h k = absurd (ground arith)

RowsOf-exact :
    (dims : List ℕ) (ty : GgmlType) (bytes : ℕ)
    → RowsOf ty dims bytes
    → bytes * block_size ty ≡ product dims * type_size ty
RowsOf-exact [] ty bytes h = absurd h
RowsOf-exact (a ∷ rest) ty bytes (row, e, size) =
    let exact = (row_size-IsRow ty a row e).exact in
    rw size (omega (arith, ap (λ (n : ℕ). n * product rest) exact))

encoded_bytes-encoded_from :
    (t : TensorDesc) → encoded_bytes t ≡ encoded_from t.n_dims t.fixed_shape t.strides t.ty
unfolding encoded_from
encoded_bytes-encoded_from t = refl

-- An accepted descriptor takes exactly the bytes of its blocks: the product of its dimensions,
-- in blocks, times the bytes of a block.
pub new-encoded_bytes :
    (name : String) (dims : List ℕ) (ty : GgmlType) (offset : ℕ) (t : TensorDesc) (bytes : ℕ)
    → new name dims ty offset ≡ ok t
    → encoded_bytes t ≡ ok bytes
    → bytes * block_size ty ≡ product dims * type_size ty
new-encoded_bytes name dims ty offset t bytes h k =
    let f = new-Fields name dims ty offset t h in
    let encoded : encoded_from (length dims) (padded dims) t.strides ty ≡ ok bytes =
      cc (encoded_bytes-encoded_from t, f.rank, f.array, f.element, k) in
    RowsOf-exact dims ty bytes
      (encoded_from-RowsOf dims t.strides ty bytes f.valid f.strided encoded)

take-padded :
    (dims : List ℕ) → valid_rank (length dims) ≡ true → take (length dims) (padded dims) ≡ dims
unfolding valid_rank
take-padded [] v = refl
take-padded (a ∷ []) v = refl
take-padded (a ∷ b ∷ []) v = refl
take-padded (a ∷ b ∷ c ∷ []) v = refl
take-padded (a ∷ b ∷ c ∷ d ∷ []) v = refl
take-padded (a ∷ b ∷ c ∷ d ∷ e ∷ rest) v = absurd (ground arith)

-- An accepted descriptor has the shape that was asked for, of one to four positive dimensions.
pub new-shape :
    (name : String) (dims : List ℕ) (ty : GgmlType) (offset : ℕ) (t : TensorDesc)
    → new name dims ty offset ≡ ok t
    → (shape t ≡ dims) × (0 < length dims) × (length dims ≤ 4) × All (λ d. 0 < d) dims
unfolding shape valid_rank
new-shape name dims ty offset t h =
    let f = new-Fields name dims ty offset t h in
    let valid = f.valid in
    (
      cc (
        ap (λ n. take n t.fixed_shape) f.rank,
        ap (take (length dims)) f.array,
        take-padded dims f.valid,
      ),
      ground arith,
      ground arith,
      f.positive,
    )

product-pos : (dims : List ℕ) → All (λ d. 0 < d) dims → 0 < product dims
product-pos [] positive = omega arith
product-pos (d ∷ dims) positive =
    let rest = product-pos dims positive.1 in let first = positive.0 in grind arith

-- A product that fits has factors that fit, so the loop ends with it.
count_from-fits :
    (total : ℕ) (dims : List ℕ)
    → All (λ d. 0 < d) dims
    → total * product dims < word_modulus
    → count_from total dims ≡ ok (total * product dims)
unfolding count_from
count_from-fits total [] positive fits = let one : total * 1 ≡ total = omega arith in rw one refl
count_from-fits total (d ∷ dims) positive fits =
    let rest = product-pos dims positive.1 in
    let regroup : total * (d * product dims) ≡ total * d * product dims = grind arith in
    let whole : total * d * product dims < word_modulus = rw regroup at fits in
    let small : total * d < word_modulus = factor_small (total * d) (product dims) rest whole in
    rw (regroup, checked_mul-fits total d small) (count_from-fits (total * d) dims positive.1 whole)
  where
    factor_small : (n k : ℕ) → 0 < k → n * k < word_modulus → n < word_modulus
    factor_small n k pos h = grind arith

count_from-overflows :
    (total : ℕ) (dims : List ℕ)
    → total < word_modulus
    → word_modulus ≤ total * product dims
    → count_from total dims ≡ err (arithmetic_overflow "tensor element count")
unfolding count_from
count_from-overflows total [] small big = absurd (omega arith)
count_from-overflows total (d ∷ dims) small big = elim (Option-cases (checked_mul total d)) [
  | inl e ↦ rw e refl
  | inr (next, e) ↦
      let (next_eq, next_small) = checked_mul-some total d next e in
      let regroup : total * (d * product dims) ≡ total * d * product dims = grind arith in
      rw e (count_from-overflows next dims next_small (rw (regroup, ← next_eq) at big))
]

-- The element count of an accepted descriptor is the product of the dimensions that were asked for
-- if a word holds it, and an overflow if none does.
pub new-element_count :
    (name : String) (dims : List ℕ) (ty : GgmlType) (offset : ℕ) (t : TensorDesc)
    → new name dims ty offset ≡ ok t
    → ((product dims < word_modulus) × (element_count t ≡ ok (product dims)))
      ⊎ ((word_modulus ≤ product dims)
          × (element_count t ≡ err (arithmetic_overflow "tensor element count")))
unfolding element_count
new-element_count name dims ty offset t h =
    let (shaped, _, _, positive) = new-shape name dims ty offset t h in
    let one : 1 * product dims ≡ product dims = omega arith in
    elim (dec_lt (product dims) word_modulus) [
      | yes fits ↦ inl (
        fits,
        rw (element_count, shaped, count_from-fits 1 dims positive (omega arith), one) refl,
      )
      | no big ↦ inr (
        omega (arith, big),
        rw (element_count, shaped) (count_from-overflows 1 dims (omega arith) (omega (arith, big))),
      )
    ]

range-parts :
    (t : TensorDesc) (data_offset file_len start end bytes : ℕ)
    → encoded_bytes t ≡ ok bytes
    → checked_absolute_range t data_offset file_len ≡ ok (start, end)
    → (start ≡ data_offset + t.relative_offset) × (end ≡ start + bytes) × (end ≤ file_len)
unfolding checked_absolute_range checked_add
range-parts t data_offset file_len start end bytes e h = ground arith

-- An accepted range starts at the tensor's place in the file, ends within the file, and is
-- exactly as long as the blocks of the shape that was asked for.
pub checked_absolute_range-exact :
    (name : String) (dims : List ℕ) (ty : GgmlType) (offset data_offset file_len : ℕ)
    (t : TensorDesc) (start end : ℕ)
    → new name dims ty offset ≡ ok t
    → checked_absolute_range t data_offset file_len ≡ ok (start, end)
    → (start ≡ data_offset + offset)
      × (start ≤ end)
      × (end ≤ file_len)
      × ((end - start) * block_size ty ≡ product dims * type_size ty)
unfolding checked_absolute_range
checked_absolute_range-exact name dims ty offset data_offset file_len t start end h k =
    elim (Result-cases (encoded_bytes t)) [
      | inl (bytes, e) ↦
          let (low, high, within) = range-parts t data_offset file_len start end bytes e k in
          let place = (new-Fields name dims ty offset t h).place in
          let exact = new-encoded_bytes name dims ty offset t bytes h e in
          let size : end - start ≡ bytes = omega arith in
          (omega arith, omega arith, within, rw size exact)
      | inr (x, e) ↦ absurd (ground (arith))
    ]
