-- ===== src/Core/Tensor/Fields.antt =====
-- What the checks of `TensorDesc::new` say of the fields of a descriptor.
use light_bridge_engine.Base.{
  ℕ, ◌<◌, ◌≡◌, String, List, [], ◌∷◌, arith, ok, Result, >>=-eq-ok, guard, guard-ok, true, take,
  length, All,
}
use light_bridge_engine.Core.Error.{CoreError, invalid_tensor_rank}
use light_bridge_engine.Core.GgmlType.{GgmlType}
use light_bridge_engine.Core.Tensor.{
  TensorDesc, new, fill_shape, valid_rank, rank_of, check_dimensions, compute_strides, strides_of,
}

-- The shape in its fixed array, the missing dimensions being 1.
abbrev pub padded : List ℕ → List ℕ
padded [] = 1 ∷ 1 ∷ 1 ∷ 1 ∷ []
padded (a ∷ []) = a ∷ 1 ∷ 1 ∷ 1 ∷ []
padded (a ∷ b ∷ []) = a ∷ b ∷ 1 ∷ 1 ∷ []
padded (a ∷ b ∷ c ∷ []) = a ∷ b ∷ c ∷ 1 ∷ []
padded (a ∷ b ∷ c ∷ d ∷ rest) = a ∷ b ∷ c ∷ d ∷ []

pub record Fields (t : TensorDesc) (dims : List ℕ) (ty : GgmlType) (offset : ℕ) : Type 0 where
  pub rank : t.n_dims ≡ length dims
  pub valid : valid_rank (length dims) ≡ true
  pub positive : All (λ d. 0 < d) dims
  pub array : t.fixed_shape ≡ padded dims
  pub element : t.ty ≡ ty
  pub place : t.relative_offset ≡ offset
  pub strided : strides_of (padded dims) (length dims) ty ≡ ok t.strides

rank_of-ok : (dims : List ℕ) (n : ℕ) → rank_of dims ≡ ok n → n ≡ length dims
unfolding rank_of
rank_of-ok dims n h = ground arith

fill_shape-padded :
    (dims fixed : List ℕ)
    → fill_shape 0 dims (1 ∷ 1 ∷ 1 ∷ 1 ∷ []) ≡ ok fixed
    → valid_rank (length dims) ≡ true
    → (fixed ≡ padded dims) × All (λ d. 0 < d) dims
unfolding fill_shape valid_rank
fill_shape-padded [] fixed h r = ground arith
fill_shape-padded (a ∷ []) fixed h r = ground arith
fill_shape-padded (a ∷ b ∷ []) fixed h r = ground arith
fill_shape-padded (a ∷ b ∷ c ∷ []) fixed h r = ground arith
fill_shape-padded (a ∷ b ∷ c ∷ d ∷ []) fixed h r = ground arith
fill_shape-padded (a ∷ b ∷ c ∷ d ∷ e ∷ rest) fixed h r = absurd (ground arith)

compute_strides-strides_of :
    (ne : List ℕ) (n : ℕ) (ty : GgmlType) (strides : List ℕ)
    → compute_strides ne n ty ≡ ok strides
    → strides_of ne n ty ≡ ok strides
unfolding compute_strides
compute_strides-strides_of ne n ty strides h =
    let (_, _, rest) = >>=-eq-ok (guard (valid_rank n) (invalid_tensor_rank n)) _ h in
    let (_, _, done) = >>=-eq-ok (check_dimensions 0 (take n ne)) _ rest in done

Fields-of_parts :
    (name : String) (dims : List ℕ) (ty : GgmlType) (offset : ℕ) (t : TensorDesc) (n : ℕ)
    (fixed strides : List ℕ)
    → n ≡ length dims
    → valid_rank (length dims) ≡ true
    → All (λ d. 0 < d) dims
    → fixed ≡ padded dims
    → strides_of fixed n ty ≡ ok strides
    → ◌≡◌ {A = Result CoreError TensorDesc}
        (ok (record {
          name = name;
          fixed_shape = fixed;
          n_dims = n;
          ty = ty;
          relative_offset = offset;
          strides = strides;
        }))
        (ok t)
    → Fields t dims ty offset
Fields-of_parts name dims ty offset t n fixed strides rank valid positive array strided h = record {
  rank = ground arith;
  valid = valid;
  positive = positive;
  array = ground arith;
  element = ground arith;
  place = ground arith;
  strided = ground arith;
}

pub new-Fields :
    (name : String) (dims : List ℕ) (ty : GgmlType) (offset : ℕ) (t : TensorDesc)
    → new name dims ty offset ≡ ok t
    → Fields t dims ty offset
unfolding new
new-Fields name dims ty offset t h =
    let (n, ranked, h₁) = >>=-eq-ok (rank_of dims) _ h in
    let (u, guarded, h₂) = >>=-eq-ok (guard (valid_rank n) (invalid_tensor_rank n)) _ h₁ in
    let (fixed, filled, h₃) = >>=-eq-ok (fill_shape 0 dims (1 ∷ 1 ∷ 1 ∷ 1 ∷ [])) _ h₂ in
    let (strides, strided, h₄) = >>=-eq-ok (compute_strides fixed n ty) _ h₃ in
    let rank = rank_of-ok dims n ranked in
    let valid : valid_rank (length dims) ≡ true =
      rw (← rank) (guard-ok (valid_rank n) (invalid_tensor_rank n) u guarded) in
    let (array, positive) = fill_shape-padded dims fixed filled valid in
    Fields-of_parts name dims ty offset t n fixed strides rank valid positive array
      (compute_strides-strides_of fixed n ty strides strided) h₄
