-- ===== src/Base/Bits.antt =====
-- `&` with a mask of high bits, as arithmetic, at every width.
use Prim.Native.Nat.{
  ℕ, zero, suc, ◌+◌, ◌-◌, ◌*◌, ◌/◌, ◌%◌, ◌^◌, ◌≤◌, ◌<◌, min, bit_and, digits, bit_and-bitwise,
}
use mathlib.Core.Path.{◌≡◌, refl, ap, ◌∙◌}
use native.Mathlib.Nat.{pow-suc, one-le-pow, div-div-eq-div-mul}
use native.Mathlib.Omega.{arith}

-- The digit recursion that `bit_and` stands for, with its fuel.
abbrev both_bits : ℕ → ℕ → ℕ → ℕ
both_bits = digits (λ _. zero) min

both_bits-enough : (m n a b : ℕ) → a ≤ m → a ≤ n → both_bits m a b ≡ both_bits n a b
both_bits-enough zero zero zero b h k = refl
both_bits-enough zero (suc n) zero b h k = refl
both_bits-enough (suc m) zero zero b h k = refl
both_bits-enough (suc m) (suc n) zero b h k = refl
both_bits-enough zero n (suc a) b h k = absurd (omega arith)
both_bits-enough (suc m) zero (suc a) b h k = absurd (omega arith)
both_bits-enough (suc m) (suc n) (suc a) b h k =
    let rest = both_bits-enough m n (suc a / 2) (b / 2) (omega arith) (omega arith) in omega arith

-- The lowest bit of `&` is that of both sides.
bit_and-low_bit : (a b : ℕ) → bit_and a b ≡ bit_and (a / 2) (b / 2) * 2 + min (a % 2) (b % 2)
bit_and-low_bit zero b = omega (arith, bit_and-bitwise 0 b, bit_and-bitwise 0 (b / 2))
bit_and-low_bit (suc a) b =
    let half : ℕ = suc a / 2 in
    omega (
      arith,
      bit_and-bitwise (suc a) b,
      bit_and-bitwise half (b / 2),
      both_bits-enough a half half (b / 2) (omega arith) (omega arith),
    )

-- A mask of all `w` bits changes no number of `w` bits.
bit_and-all_ones : (w v : ℕ) → v < 2 ^ w → bit_and v (2 ^ w - 1) ≡ v
bit_and-all_ones zero zero h = refl
bit_and-all_ones zero (suc v) h = absurd (omega arith)
bit_and-all_ones (suc w) v h =
    let step = pow-suc 2 w in
    let some_ones = one-le-pow w 2 (omega arith) in
    let half : (2 ^ suc w - 1) / 2 ≡ 2 ^ w - 1 = omega arith in
    let odd : (2 ^ suc w - 1) % 2 ≡ 1 = omega arith in
    let rest = bit_and-all_ones w (v / 2) (omega arith) in
    bit_and-low_bit v (2 ^ suc w - 1) ∙ rw (half, rest, odd) (omega arith)

-- A mask of the bits from `k` to `w` clears the `k` low bits of a number of `w` bits.
pub bit_and-high_mask :
    (k w v : ℕ) → k ≤ w → v < 2 ^ w → bit_and v (2 ^ w - 2 ^ k) ≡ v / 2 ^ k * 2 ^ k
bit_and-high_mask zero w v h fits = bit_and-all_ones w v fits ∙ omega arith
bit_and-high_mask (suc k) zero v h fits = absurd (omega arith)
bit_and-high_mask (suc k) (suc w) v h fits =
    let ones = pow-suc 2 w in
    let step = pow-suc 2 k in
    let half : (2 ^ suc w - 2 ^ suc k) / 2 ≡ 2 ^ w - 2 ^ k = omega arith in
    let even : (2 ^ suc w - 2 ^ suc k) % 2 ≡ 0 = omega arith in
    let rest = bit_and-high_mask k w (v / 2) (omega arith) (omega arith) in
    let shifts : v / 2 / 2 ^ k ≡ v / 2 ^ suc k =
      div-div-eq-div-mul v 2 (2 ^ k) ∙ ap (λ (m : ℕ). v / m) (omega arith) in
    bit_and-low_bit v (2 ^ suc w - 2 ^ suc k)
    ∙ rw (half, rest, even, shifts) (omega (arith, ap (λ (t : ℕ). v / 2 ^ suc k * t) step))
