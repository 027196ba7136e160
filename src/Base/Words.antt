-- ===== src/Base/Words.antt =====
-- Rust's checked and saturating arithmetic on `u64` and `usize`, both 64 bits wide, and the word
-- operations that round up to an alignment.
use Prim.Native.Nat.{ℕ, zero, suc, ◌+◌, ◌-◌, ◌*◌, ◌/◌, ◌^◌, ◌≤◌, ◌<◌, ◌%◌, min, bit_and}
use mathlib.Core.Path.{◌≡◌}
use mathlib.Core.Bool.{Bool, true, false, ◌||◌}
use mathlib.Core.Logic.{inl, inr}
use mathlib.Core.Option.{Option, none, some}
use native.Mathlib.Nat.{one-le-pow, div-mul-le_self, lt-div-mul-add, mul-mod_left}
use native.Mathlib.Omega.{arith}
use light_bridge_engine.Base.Tests.{ltb, leb, ◌==◌, ==_iff, if◌then◌else◌, Bool-cases}
use light_bridge_engine.Base.Bits.{bit_and-high_mask}

abbrev pub word_modulus : ℕ
word_modulus = 2 ^ 64

abbrev pub word_max : ℕ
word_max = word_modulus - 1

unfoldable pub checked_add : ℕ → ℕ → Option ℕ
checked_add a b = if ltb (a + b) word_modulus then some (a + b) else none

unfoldable pub checked_sub : ℕ → ℕ → Option ℕ
checked_sub a b = if leb b a then some (a - b) else none

unfoldable pub checked_mul : ℕ → ℕ → Option ℕ
checked_mul a b = if ltb (a * b) word_modulus then some (a * b) else none

unfoldable pub saturating_add : ℕ → ℕ → ℕ
saturating_add a b = min (a + b) word_max

unfoldable pub saturating_sub : ℕ → ℕ → ℕ
saturating_sub a b = a - b

-- `value & !(align - 1)` on a 64-bit word.
unfoldable pub mask_down : ℕ → ℕ → ℕ
mask_down value align = bit_and value (word_max - (align - 1))

-- Whether `n` is one of the `k` lowest powers of two.
pub is_power_below : ℕ → ℕ → Bool
is_power_below zero n = false
is_power_below (suc k) n = (n == 2 ^ k) || is_power_below k n

-- `n.is_power_of_two()`.
unfoldable pub is_power_of_two : ℕ → Bool
unfolding is_power_below
is_power_of_two n = is_power_below 64 n

is_power_below_sound : (k n : ℕ) → is_power_below k n ≡ true → (j : ℕ) × (j < k) × (n ≡ 2 ^ j)
unfolding is_power_below
is_power_below_sound zero n h = cc
is_power_below_sound (suc k) n h = elim (Bool-cases (n == 2 ^ k)) [
  | inl here ↦ (k, omega arith, (==_iff n (2 ^ k)).0 here)
  | inr other ↦ let (j, below, e) = is_power_below_sound k n (rw other at h) in (j, omega arith, e)
]

-- A 64-bit word that passes the test is one of the 64 powers.
pub is_power_of_two_sound : (n : ℕ) → is_power_of_two n ≡ true → (j : ℕ) × (j < 64) × (n ≡ 2 ^ j)
unfolding is_power_of_two
is_power_of_two_sound n h = is_power_below_sound 64 n h

-- Clearing the bits below a power of two rounds a word down to a multiple of it.
pub mask_down-eq :
    (value align : ℕ)
    → value < word_modulus
    → is_power_of_two align ≡ true
    → mask_down value align ≡ value / align * align
unfolding mask_down
mask_down-eq value align small power =
    let (j, below, e) = is_power_of_two_sound align power in
    let one = one-le-pow j 2 (omega arith) in
    let mask : word_max - (2 ^ j - 1) ≡ 2 ^ 64 - 2 ^ j = omega arith in
    rw (e, mask) (bit_and-high_mask j 64 value (omega arith) small)

-- What a successful checked operation says.
pub checked_add-some : (a b c : ℕ) → checked_add a b ≡ some c → (c ≡ a + b) × (c < word_modulus)
unfolding checked_add
checked_add-some a b c h = ground arith

pub checked_sub-some : (a b c : ℕ) → checked_sub a b ≡ some c → (c ≡ a - b) × (b ≤ a)
unfolding checked_sub
checked_sub-some a b c h = ground arith

pub checked_mul-some : (a b c : ℕ) → checked_mul a b ≡ some c → (c ≡ a * b) × (c < word_modulus)
unfolding checked_mul
checked_mul-some a b c h = ground arith

pub checked_add-fits : (a b : ℕ) → a + b < word_modulus → checked_add a b ≡ some (a + b)
unfolding checked_add
checked_add-fits a b h = ground arith

pub checked_mul-fits : (a b : ℕ) → a * b < word_modulus → checked_mul a b ≡ some (a * b)
unfolding checked_mul
checked_mul-fits a b h = ground arith

-- `value.checked_add(align - 1).map(|sum| sum & !(align - 1))`.
unfoldable pub round_up : ℕ → ℕ → Option ℕ
round_up value align = elim (checked_add value (align - 1)) [
  | none ↦ none
  | some sum ↦ some (mask_down sum align)
]

pub is_power_of_two-pos : (n : ℕ) → is_power_of_two n ≡ true → 0 < n
is_power_of_two-pos n h =
    let (j, _, e) = is_power_of_two_sound n h in rw e (one-le-pow j 2 (omega arith))

-- Rounding up gives the least multiple that is not below the value, or fails where the sum
-- leaves the word.
pub round_up-eq :
    (value align : ℕ)
    → is_power_of_two align ≡ true
    → round_up value align ≡ (
        if ltb (value + (align - 1)) word_modulus
        then some ((value + (align - 1)) / align * align)
        else none)
unfolding round_up checked_add
round_up-eq value align power =
    let fits = mask_down-eq (value + (align - 1)) align in ground (arith, fits)

pub round_up-bounds :
    (value align : ℕ) {r : ℕ}
    → is_power_of_two align ≡ true
    → round_up value align ≡ some r
    → (r % align ≡ 0) × (value ≤ r) × (r < value + align) × (r < word_modulus)
round_up-bounds value align {r} power h =
    let sum : ℕ = value + (align - 1) in
    let pos = is_power_of_two-pos align power in
    let eq : r ≡ sum / align * align = ground (arith, round_up-eq value align power) in
    let fits : sum < word_modulus = ground (arith, round_up-eq value align power) in
    let low = div-mul-le_self sum align in
    let high = lt-div-mul-add {a = sum} pos in
    (rw eq (mul-mod_left (sum / align) align), omega arith, omega arith, omega arith)

pub checked_sub-fits : (a b : ℕ) → b ≤ a → checked_sub a b ≡ some (a - b)
unfolding checked_sub
checked_sub-fits a b h = ground arith
