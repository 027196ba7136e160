-- ===== src/Base/Bytes.antt =====
-- Little-endian integers, writes into a byte buffer, and byte strings.
use Prim.Native.Nat.{ℕ, zero, suc, ◌+◌, ◌*◌, ◌/◌, ◌^◌, ◌<◌, ◌%◌}
use mathlib.Core.Path.{◌≡◌}
use mathlib.Core.Logic.{◌↔◌}
use mathlib.Core.Bool.{Bool, true, false, ◌&&◌}
use mathlib.Core.List.{List, [], ◌∷◌, ◌++◌}
use native.Mathlib.Omega.{arith}
use light_bridge_engine.Base.Tests.{◌==◌}
use light_bridge_engine.Base.Lists.{length, take, drop}

-- `to_le_bytes` of an integer of `n` bytes.
unfoldable pub to_le_bytes : ℕ → ℕ → List ℕ
to_le_bytes zero v = []
to_le_bytes (suc n) v = v % 256 ∷ to_le_bytes n (v / 256)

-- `from_le_bytes`.
unfoldable pub from_le_bytes : List ℕ → ℕ
from_le_bytes [] = 0
from_le_bytes (b ∷ bytes) = b + 256 * from_le_bytes bytes

-- `buffer[offset..][..bytes.len()].copy_from_slice(bytes)`.
unfoldable pub copy_at : ℕ → List ℕ → List ℕ → List ℕ
copy_at offset bytes buffer = take offset buffer ++ bytes ++ drop (offset + length bytes) buffer

-- `==` on byte strings.
unfoldable pub same_bytes : List ℕ → List ℕ → Bool
same_bytes [] [] = true
same_bytes [] (b ∷ bs) = false
same_bytes (a ∷ xs) [] = false
same_bytes (a ∷ xs) (b ∷ bs) = (a == b) && same_bytes xs bs

-- An integer that fits `n` bytes is read back from them.
pub from_le_bytes-to_le_bytes : (n v : ℕ) → v < 256 ^ n → from_le_bytes (to_le_bytes n v) ≡ v
unfolding to_le_bytes from_le_bytes
from_le_bytes-to_le_bytes zero v h = omega arith
from_le_bytes-to_le_bytes (suc n) v h =
    let small : v / 256 < 256 ^ n = omega arith in
    omega (arith, from_le_bytes-to_le_bytes n (v / 256) small)

pub same_bytes_iff : (xs bs : List ℕ) → (same_bytes xs bs ≡ true) ↔ (xs ≡ bs)
unfolding same_bytes
same_bytes_iff [] [] = ground arith
same_bytes_iff [] (b ∷ bs) = ground arith
same_bytes_iff (a ∷ xs) [] = ground arith
same_bytes_iff (a ∷ xs) (b ∷ bs) = ground (arith, same_bytes_iff xs bs)
