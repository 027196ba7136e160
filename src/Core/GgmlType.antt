-- ===== src/Core/GgmlType.antt =====
-- crates/bridge-core/src/ggml_type.rs: the GGML element types, their discriminants and the sizes
-- of their blocks.
pub mod Discriminants
pub mod Rows
use light_bridge_engine.Base.{
  ℕ, ◌+◌, ◌*◌, ◌/◌, ◌%◌, ◌<◌, ◌≡◌, refl, ◌↔◌, String, Option, none, some, List, [], ◌∷◌, arith,
  Bool-cases, inl, inr, ◌==◌, ==_iff, if◌then◌else◌, Result, ok, err, ok_or, guard, ◌>>◌,
  checked_mul, word_modulus, checked_mul-some, true, false,
}
use light_bridge_engine.Core.Error.{
  CoreError, unknown_ggml_type, not_block_aligned, arithmetic_overflow,
}

pub data GgmlType : Type 0 where
  f32 f16 q4_0 q4_1 q5_0 q5_1 q8_0 q8_1 q2_k q3_k q4_k q5_k q6_k q8_k iq2_xxs iq2_xs iq3_xxs iq1_s
        iq4_nl iq3_s iq2_s iq4_xs i8 i16 i32 i64 f64 iq1_m bf16 tq1_0 tq2_0 mxfp4 nvfp4 q1_0 q2_0 :
      GgmlType

unfoldable pub discriminant : GgmlType → ℕ
discriminant f32 = 0
discriminant f16 = 1
discriminant q4_0 = 2
discriminant q4_1 = 3
discriminant q5_0 = 6
discriminant q5_1 = 7
discriminant q8_0 = 8
discriminant q8_1 = 9
discriminant q2_k = 10
discriminant q3_k = 11
discriminant q4_k = 12
discriminant q5_k = 13
discriminant q6_k = 14
discriminant q8_k = 15
discriminant iq2_xxs = 16
discriminant iq2_xs = 17
discriminant iq3_xxs = 18
discriminant iq1_s = 19
discriminant iq4_nl = 20
discriminant iq3_s = 21
discriminant iq2_s = 22
discriminant iq4_xs = 23
discriminant i8 = 24
discriminant i16 = 25
discriminant i32 = 26
discriminant i64 = 27
discriminant f64 = 28
discriminant iq1_m = 29
discriminant bf16 = 30
discriminant tq1_0 = 34
discriminant tq2_0 = 35
discriminant mxfp4 = 39
discriminant nvfp4 = 40
discriminant q1_0 = 41
discriminant q2_0 = 42

abbrev all : List GgmlType
all =
    f32 ∷ f16 ∷ q4_0 ∷ q4_1 ∷ q5_0 ∷ q5_1 ∷ q8_0 ∷ q8_1 ∷ q2_k ∷ q3_k ∷ q4_k ∷ q5_k ∷ q6_k ∷ q8_k
    ∷ iq2_xxs ∷ iq2_xs ∷ iq3_xxs ∷ iq1_s ∷ iq4_nl ∷ iq3_s ∷ iq2_s ∷ iq4_xs ∷ i8 ∷ i16 ∷ i32 ∷ i64
    ∷ f64 ∷ iq1_m ∷ bf16 ∷ tq1_0 ∷ tq2_0 ∷ mxfp4 ∷ nvfp4 ∷ q1_0 ∷ q2_0 ∷ []

-- The first type of a list with the given discriminant.
find_type : ℕ → List GgmlType → Option GgmlType
unfolding discriminant
find_type value [] = none
find_type value (ty ∷ rest) = if discriminant ty == value then some ty else find_type value rest

unfoldable pub from_discriminant : ℕ → Result CoreError GgmlType
unfolding find_type
from_discriminant value = ok_or (find_type value all) (unknown_ggml_type value)

unfoldable pub block_size : GgmlType → ℕ
block_size f32 = 1
block_size f16 = 1
block_size q4_0 = 32
block_size q4_1 = 32
block_size q5_0 = 32
block_size q5_1 = 32
block_size q8_0 = 32
block_size q8_1 = 32
block_size q2_k = 256
block_size q3_k = 256
block_size q4_k = 256
block_size q5_k = 256
block_size q6_k = 256
block_size q8_k = 256
block_size iq2_xxs = 256
block_size iq2_xs = 256
block_size iq3_xxs = 256
block_size iq1_s = 256
block_size iq4_nl = 32
block_size iq3_s = 256
block_size iq2_s = 256
block_size iq4_xs = 256
block_size i8 = 1
block_size i16 = 1
block_size i32 = 1
block_size i64 = 1
block_size f64 = 1
block_size iq1_m = 256
block_size bf16 = 1
block_size tq1_0 = 256
block_size tq2_0 = 256
block_size mxfp4 = 32
block_size nvfp4 = 64
block_size q1_0 = 128
block_size q2_0 = 64

unfoldable pub type_size : GgmlType → ℕ
type_size f32 = 4
type_size f16 = 2
type_size q4_0 = 18
type_size q4_1 = 20
type_size q5_0 = 22
type_size q5_1 = 24
type_size q8_0 = 34
type_size q8_1 = 36
type_size q2_k = 84
type_size q3_k = 110
type_size q4_k = 144
type_size q5_k = 176
type_size q6_k = 210
type_size q8_k = 292
type_size iq2_xxs = 66
type_size iq2_xs = 74
type_size iq3_xxs = 98
type_size iq1_s = 50
type_size iq4_nl = 18
type_size iq3_s = 110
type_size iq2_s = 82
type_size iq4_xs = 136
type_size i8 = 1
type_size i16 = 2
type_size i32 = 4
type_size i64 = 8
type_size f64 = 8
type_size iq1_m = 56
type_size bf16 = 2
type_size tq1_0 = 54
type_size tq2_0 = 66
type_size mxfp4 = 17
type_size nvfp4 = 36
type_size q1_0 = 18
type_size q2_0 = 18

pub name : GgmlType → String
name f32 = "F32"
name f16 = "F16"
name q4_0 = "Q4_0"
name q4_1 = "Q4_1"
name q5_0 = "Q5_0"
name q5_1 = "Q5_1"
name q8_0 = "Q8_0"
name q8_1 = "Q8_1"
name q2_k = "Q2_K"
name q3_k = "Q3_K"
name q4_k = "Q4_K"
name q5_k = "Q5_K"
name q6_k = "Q6_K"
name q8_k = "Q8_K"
name iq2_xxs = "IQ2_XXS"
name iq2_xs = "IQ2_XS"
name iq3_xxs = "IQ3_XXS"
name iq1_s = "IQ1_S"
name iq4_nl = "IQ4_NL"
name iq3_s = "IQ3_S"
name iq2_s = "IQ2_S"
name iq4_xs = "IQ4_XS"
name i8 = "I8"
name i16 = "I16"
name i32 = "I32"
name i64 = "I64"
name f64 = "F64"
name iq1_m = "IQ1_M"
name bf16 = "BF16"
name tq1_0 = "TQ1_0"
name tq2_0 = "TQ2_0"
name mxfp4 = "MXFP4"
name nvfp4 = "NVFP4"
name q1_0 = "Q1_0"
name q2_0 = "Q2_0"

-- Encoded bytes in one row whose leading dimension is `ne0`.
unfoldable pub row_size : GgmlType → ℕ → Result CoreError ℕ
row_size ty ne0 = do
  let block = block_size ty
  guard (ne0 % block == 0) (not_block_aligned (name ty) ne0 block)
  ok_or (checked_mul (ne0 / block) (type_size ty)) (arithmetic_overflow "GGML row size")
