-- ===== src/Core/Tensor.antt =====
-- crates/bridge-core/src/tensor.rs: tensor descriptors whose constructor checks the shape and
-- computes GGML's byte strides. A `[u64; 4]` is a list of four numbers.
pub mod Fields
pub mod Extent
use light_bridge_engine.Base.{
  ℕ, zero, suc, ◌+◌, ◌-◌, ◌<◌, ◌^◌, String, Option, none, some, List, [], ◌∷◌, Bool, ◌&&◌, not, ltb,
  leb, ◌==◌, if◌then◌else◌, Result, ok, err, ok_or, guard, ◌>>◌, ◌>>=◌, length, get_or, set, take,
  checked_add, checked_mul,
}
use light_bridge_engine.Core.Error.{
  CoreError, invalid_tensor_rank, zero_tensor_dimension, arithmetic_overflow, tensor_out_of_bounds,
}
use light_bridge_engine.Core.GgmlType.{GgmlType, row_size, type_size}

pub record TensorDesc : Type 0 where
  pub name : String
  pub fixed_shape : List ℕ
  pub n_dims : ℕ
  pub ty : GgmlType
  pub relative_offset : ℕ
  pub strides : List ℕ

abbrev pub u32_max : ℕ
u32_max = 2 ^ 32 - 1

unfoldable pub valid_rank : ℕ → Bool
valid_rank n_dims = leb 1 n_dims && leb n_dims 4

-- The loop of `TensorDesc::new`, from the dimension at `index` on.
unfoldable pub fill_shape : ℕ → List ℕ → List ℕ → Result CoreError (List ℕ)
fill_shape index [] fixed = ok fixed
fill_shape index (dimension ∷ rest) fixed =
    if dimension == 0
    then err (zero_tensor_dimension index)
    else fill_shape (suc index) rest (set fixed index dimension)

-- The check of `compute_strides`, from the dimension at `index` on.
unfoldable pub check_dimensions : ℕ → List ℕ → Result CoreError (Unit {0})
check_dimensions index [] = ok tt
check_dimensions index (dimension ∷ rest) =
    if dimension == 0 then err (zero_tensor_dimension index) else check_dimensions (suc index) rest

-- The loop `for index in 2..n_dims`, with the number of rounds left.
unfoldable pub stride_loop : ℕ → ℕ → List ℕ → List ℕ → Result CoreError (List ℕ)
stride_loop zero index ne strides = ok strides
stride_loop (suc rounds) index ne strides = do
  stride ←
      ok_or (checked_mul (get_or strides (index - 1) 0) (get_or ne (index - 1) 0))
        (arithmetic_overflow "GGML tensor stride")
  stride_loop rounds (suc index) ne (set strides index stride)

-- The strides after the checks.
unfoldable pub strides_of : List ℕ → ℕ → GgmlType → Result CoreError (List ℕ)
unfolding stride_loop
strides_of ne n_dims ty = do
  row ← row_size ty (get_or ne 0 0)
  if n_dims == 1
      then ok (type_size ty ∷ 0 ∷ 0 ∷ 0 ∷ [])
      else stride_loop (n_dims - 2) 2 ne (type_size ty ∷ row ∷ 0 ∷ 0 ∷ [])

unfoldable pub compute_strides : List ℕ → ℕ → GgmlType → Result CoreError (List ℕ)
compute_strides ne n_dims ty = do
  guard (valid_rank n_dims) (invalid_tensor_rank n_dims)
  check_dimensions 0 (take n_dims ne)
  strides_of ne n_dims ty

-- A rank that no `u32` holds is reported as the largest one.
unfoldable pub rank_of : List ℕ → Result CoreError ℕ
rank_of shape =
    if leb (length shape) u32_max then ok (length shape) else err (invalid_tensor_rank u32_max)

unfoldable pub new : String → List ℕ → GgmlType → ℕ → Result CoreError TensorDesc
new name shape ty relative_offset = do
  n_dims ← rank_of shape
  guard (valid_rank n_dims) (invalid_tensor_rank n_dims)
  fixed ← fill_shape 0 shape (1 ∷ 1 ∷ 1 ∷ 1 ∷ [])
  strides ← compute_strides fixed n_dims ty
  ok (record {
    name = name;
    fixed_shape = fixed;
    n_dims = n_dims;
    ty = ty;
    relative_offset = relative_offset;
    strides = strides;
  })

unfoldable pub shape : TensorDesc → List ℕ
shape t = take t.n_dims t.fixed_shape

unfoldable pub count_from : ℕ → List ℕ → Result CoreError ℕ
count_from total [] = ok total
count_from total (dimension ∷ rest) = do
  next ← ok_or (checked_mul total dimension) (arithmetic_overflow "tensor element count")
  count_from next rest

unfoldable pub element_count : TensorDesc → Result CoreError ℕ
unfolding count_from shape
element_count t = count_from 1 (shape t)

unfoldable pub row_bytes : TensorDesc → Result CoreError ℕ
row_bytes t = row_size t.ty (get_or t.fixed_shape 0 0)

unfoldable pub encoded_bytes : TensorDesc → Result CoreError ℕ
unfolding row_bytes
encoded_bytes t =
    if t.n_dims == 1
    then row_bytes t
    else (let last = t.n_dims - 1 in
        ok_or (checked_mul (get_or t.strides last 0) (get_or t.fixed_shape last 0))
          (arithmetic_overflow "tensor encoded byte length"))

-- The range as its two ends.
unfoldable pub checked_absolute_range : TensorDesc → ℕ → ℕ → Result CoreError (ℕ × ℕ)
checked_absolute_range t data_offset file_len = do
  start ←
      ok_or (checked_add data_offset t.relative_offset)
        (arithmetic_overflow "tensor absolute offset")
  bytes ← encoded_bytes t
  end ← ok_or (checked_add start bytes) (arithmetic_overflow "tensor absolute end offset")
  guard (leb end file_len) (tensor_out_of_bounds start end file_len)
  ok (start, end)
