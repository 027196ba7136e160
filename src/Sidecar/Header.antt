-- ===== src/Sidecar/Header.antt =====
-- `SidecarHeader`: the 64 bytes at the start of a sidecar.
use light_bridge_engine.Base.{
  ℕ, zero, suc, ◌^◌, ◌<◌, ◌≡◌, refl, ap, List, [], ◌∷◌, Bool, false, ◌||◌, not, ◌==◌, if◌then◌else◌,
  Result, ok, err, ◌>>=◌, length, take, drop, slice, replicate, arith,
}
use light_bridge_engine.Base.Bytes.{
  to_le_bytes, from_le_bytes, copy_at, same_bytes, from_le_bytes-to_le_bytes,
}
use light_bridge_engine.Sidecar.Types.{
  ExpertLayout, sequential, fused_gate_up, FormatError, header_length, bad_magic,
  non_zero_reserved_header, unknown_layout, sidecar_format_version, sidecar_header_bytes,
  sidecar_magic,
}

pub record SidecarHeader : Type 0 where
  pub format_version : ℕ
  pub layout : ExpertLayout
  pub alignment : ℕ
  pub record_count : ℕ

unfoldable pub code : ExpertLayout → ℕ
code sequential = 0
code fused_gate_up = 1

unfoldable pub from_code : ℕ → Result FormatError ExpertLayout
from_code zero = ok sequential
from_code (suc zero) = ok fused_gate_up
from_code (suc (suc n)) = err (unknown_layout (suc (suc n)))

unfoldable pub new_header : ExpertLayout → ℕ → ℕ → SidecarHeader
new_header layout alignment record_count = record {
  format_version = sidecar_format_version;
  layout = layout;
  alignment = alignment;
  record_count = record_count;
}

unfoldable pub encode : SidecarHeader → List ℕ
encode h =
    let bytes = replicate sidecar_header_bytes 0 in
    let magic = copy_at 0 sidecar_magic bytes in
    let versioned = copy_at 16 (to_le_bytes 4 h.format_version) magic in
    let coded = copy_at 20 (to_le_bytes 4 (code h.layout)) versioned in
    let aligned = copy_at 24 (to_le_bytes 8 h.alignment) coded in
    copy_at 32 (to_le_bytes 8 h.record_count) aligned

-- `iter().any(|&byte| byte != 0)`.
unfoldable pub any_non_zero : List ℕ → Bool
any_non_zero [] = false
any_non_zero (b ∷ bytes) = not (b == 0) || any_non_zero bytes

unfoldable pub decode : List ℕ → Result FormatError SidecarHeader
decode bytes =
    if not (length bytes == sidecar_header_bytes)
    then err (header_length sidecar_header_bytes (length bytes))
    else (if not (same_bytes (take 16 bytes) sidecar_magic)
        then err bad_magic
        else (if any_non_zero (drop 40 bytes)
            then err non_zero_reserved_header
            else (from_code (from_le_bytes (slice 20 24 bytes)) >>= λ layout. ok (record {
              format_version = from_le_bytes (slice 16 20 bytes);
              layout = layout;
              alignment = from_le_bytes (slice 24 32 bytes);
              record_count = from_le_bytes (slice 32 40 bytes);
            }))))

from_code-code : (l : ExpertLayout) → from_code (code l) ≡ ok l
unfolding from_code code
from_code-code sequential = refl
from_code-code fused_gate_up = refl

code-small : (l : ExpertLayout) → code l < 256 ^ 4
unfolding code
code-small sequential = omega arith
code-small fused_gate_up = omega arith

-- A header whose fields fit their words is read back from its own bytes.
pub decode-encode :
    (h : SidecarHeader)
    → h.format_version < 2 ^ 32
    → h.alignment < 2 ^ 64
    → h.record_count < 2 ^ 64
    → decode (encode h) ≡ ok h
unfolding decode encode copy_at any_non_zero same_bytes to_le_bytes
decode-encode h version alignment count =
    let l = from_le_bytes-to_le_bytes 4 (code h.layout) (code-small h.layout) in
    let v = from_le_bytes-to_le_bytes 4 h.format_version (omega arith) in
    let a = from_le_bytes-to_le_bytes 8 h.alignment (omega arith) in
    let c = from_le_bytes-to_le_bytes 8 h.record_count (omega arith) in
    rw (l, from_code-code h.layout) (ap ok (assembled h _ _ _ v a c))
  where
    assembled :
        (h : SidecarHeader) (v a c : ℕ)
        → v ≡ h.format_version
        → a ≡ h.alignment
        → c ≡ h.record_count
        → Path SidecarHeader
            (record { format_version = v; layout = h.layout; alignment = a; record_count = c })
            h
    assembled h v a c e f g = rw (e, f, g) refl
