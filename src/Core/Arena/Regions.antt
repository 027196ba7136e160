-- ===== src/Core/Arena/Regions.antt =====
-- Where the arena's regions lie.
use mathlib.Core.Option
use native.Mathlib.Nat.{one-le-pow}
use light_bridge_engine.Base.{
  ℕ, zero, suc, ◌+◌, ◌-◌, ◌*◌, ◌^◌, ◌%◌, is_power_of_two_sound, ◌≤◌, ◌<◌, ◌≡◌, refl, max, List, [],
  ◌∷◌, Option, none, some, arith, ok, Option-cases, inl, inr, is_power_of_two, round_up,
  round_up-bounds, checked_add, length, true, length-replicate, get_elem?, Bool, Result-cases,
  if◌then◌else◌, leb, ltb, ◌&&◌, ap, get_elem?-some, Bool-cases, ltb→lt, subst, sym,
}
use light_bridge_engine.Core.Arena.{
  Arena, Region, alloc_bytes, with_capacity_bytes, new_buffer, checked_layout, fill_zero,
  cache_line,
}

pub record IsValid (a : Arena) : Type 0 where
  pub cursor_low : a.cursor ≤ a.high_water
  pub within : a.high_water ≤ a.logical_capacity
  pub backed : a.logical_capacity ≤ length a.buffer.bytes
  pub based : a.base_alignment ≡ cache_line

checked_layout-le :
    (len align size : ℕ) → checked_layout len align ≡ ok size → (len ≤ size) × (0 < size)
unfolding checked_layout
checked_layout-le len align size h = elim (Option-cases (round_up (max len 1) align)) [
  | inl e ↦ absurd (ground arith)
  | inr (padded, e) ↦
      let power : is_power_of_two align ≡ true = ground arith in
      let bounds = round_up-bounds (max len 1) align power e in ground arith
]

-- A new arena is valid, empty, and has the capacity that was asked for.
pub with_capacity_bytes-IsValid :
    (has_room : ℕ → ℕ → Bool) (bytes : ℕ) (a : Arena)
    → with_capacity_bytes has_room bytes ≡ ok a
    → IsValid a × (a.cursor ≡ 0) × (a.logical_capacity ≡ bytes)
unfolding with_capacity_bytes new_buffer
with_capacity_bytes-IsValid has_room bytes a h =
    elim (Result-cases (checked_layout bytes cache_line)) [
      | inl (size, e) ↦
          let low = checked_layout-le bytes cache_line size e in
          ground (arith, length-replicate {A = ℕ} size 0)
      | inr (x, e) ↦ absurd (ground arith)
    ]

-- The bytes after `fill(0)`: zero in the region, and as they were outside.
get_elem?-fill_zero :
    (start end : ℕ) (bs : List ℕ) (i : ℕ)
    → get_elem? (fill_zero start end bs) i
      ≡ (if leb start i && ltb i end then Option.map (λ _. 0) (get_elem? bs i) else get_elem? bs i)
unfolding fill_zero
get_elem?-fill_zero start end [] i = ground arith
get_elem?-fill_zero zero zero (b ∷ bs) i = ground arith
get_elem?-fill_zero zero (suc end) (b ∷ bs) zero = ground arith
get_elem?-fill_zero zero (suc end) (b ∷ bs) (suc i) =
    ground (arith, get_elem?-fill_zero zero end bs i)
get_elem?-fill_zero (suc start) end (b ∷ bs) zero = ground arith
get_elem?-fill_zero (suc start) end (b ∷ bs) (suc i) =
    ground (arith, get_elem?-fill_zero start (end - 1) bs i)

length-fill_zero : (start end : ℕ) (bs : List ℕ) → length (fill_zero start end bs) ≡ length bs
unfolding fill_zero
length-fill_zero start end [] = refl
length-fill_zero zero zero (b ∷ bs) = refl
length-fill_zero zero (suc end) (b ∷ bs) = ap suc (length-fill_zero zero end bs)
length-fill_zero (suc start) end (b ∷ bs) = ap suc (length-fill_zero start (end - 1) bs)

-- What a granted request gives.
pub record Grants (a : Arena) (len align : ℕ) (b : Arena) (r : Region) : Type 0 where
  pub power : is_power_of_two align ≡ true
  pub narrow : align ≤ a.base_alignment
  pub aligned : r.start % align ≡ 0
  pub fresh : a.cursor ≤ r.start
  pub sized : r.end ≡ r.start + len
  pub fits : r.end ≤ a.logical_capacity
  pub moved : b.cursor ≡ r.end
  pub filled : b.buffer.bytes ≡ fill_zero r.start r.end a.buffer.bytes
  pub peak : b.high_water ≡ max a.high_water r.end
  pub capacity : b.logical_capacity ≡ a.logical_capacity
  pub base : b.base_alignment ≡ a.base_alignment

pub alloc_bytes-Grants :
    (a : Arena) (len align : ℕ) (b : Arena) (r : Region)
    → alloc_bytes a len align ≡ (b, some r)
    → Grants a len align b r
unfolding alloc_bytes checked_add
alloc_bytes-Grants a len align b r h = elim (Option-cases (round_up a.cursor align)) [
  | inl e ↦ absurd (ground arith)
  | inr (start, e) ↦
      let power : is_power_of_two align ≡ true = ground arith in
      let bounds = round_up-bounds a.cursor align power e in ground arith
]

-- A request that is refused leaves the arena as it was.
pub alloc_bytes-none :
    (a : Arena) (len align : ℕ) (b : Arena) → alloc_bytes a len align ≡ (b, none) → b ≡ a
unfolding alloc_bytes
alloc_bytes-none a len align b h = ground (arith, Option-cases (round_up a.cursor align))

Grants-IsValid :
    {a b : Arena} {len align : ℕ} {r : Region} → IsValid a → Grants a len align b r → IsValid b
Grants-IsValid {a} {r = r} v g =
    let same : length (fill_zero r.start r.end a.buffer.bytes) ≡ length a.buffer.bytes =
      length-fill_zero r.start r.end a.buffer.bytes in
    let bytes = ap length g.filled in
    record {
      cursor_low = omega arith;
      within = omega arith;
      backed = omega arith;
      based = omega arith;
    }

-- Every request keeps the arena valid, whether it is granted or refused.
pub alloc_bytes-IsValid :
    (a : Arena) (len align : ℕ) → IsValid a → IsValid (alloc_bytes a len align).0
alloc_bytes-IsValid a len align v = split (alloc_bytes a len align) refl
  where
    split : (out : Arena × Option Region) → alloc_bytes a len align ≡ out → IsValid out.0
    split (b, none) e = subst IsValid (sym (alloc_bytes-none a len align b e)) v
    split (b, some r) e = Grants-IsValid v (alloc_bytes-Grants a len align b r e)

zeroed_at :
    (start end : ℕ) (bs : List ℕ) (i : ℕ)
    → end ≤ length bs
    → get_elem? (fill_zero start end bs) i
      ≡ (if leb start i && ltb i end then some 0 else get_elem? bs i)
zeroed_at start end bs i within = elim (Bool-cases (ltb i (length bs))) [
  | inl inside ↦
      let (x, e) = get_elem?-some bs i (ltb→lt _ _ inside) in
      ground (arith, get_elem?-fill_zero start end bs i)
  | inr outside ↦ ground (arith, get_elem?-fill_zero start end bs i)
]

-- A power of two that is no greater than the cache line divides it.
cache_line-aligned :
    (q start align : ℕ)
    → is_power_of_two align ≡ true
    → align ≤ cache_line
    → start % align ≡ 0
    → (q * cache_line + start) % align ≡ 0
cache_line-aligned q start align power narrow h =
    let (j, _, e) = is_power_of_two_sound align power in
    let narrow' : 2 ^ j ≤ cache_line = rw e at narrow in
    rw e (by_power j q start narrow' (rw e at h))
  where
    by_power :
        (j q start : ℕ)
        → 2 ^ j ≤ cache_line
        → start % 2 ^ j ≡ 0
        → (q * cache_line + start) % 2 ^ j ≡ 0
    by_power zero q start n h = omega arith
    by_power (suc zero) q start n h = omega arith
    by_power (suc (suc zero)) q start n h = omega arith
    by_power (suc (suc (suc zero))) q start n h = omega arith
    by_power (suc (suc (suc (suc zero)))) q start n h = omega arith
    by_power (suc (suc (suc (suc (suc zero))))) q start n h = omega arith
    by_power (suc (suc (suc (suc (suc (suc zero)))))) q start n h = omega arith
    by_power (suc (suc (suc (suc (suc (suc (suc j))))))) q start n h =
        let one = one-le-pow j 2 (omega arith) in absurd (omega (arith, one))

-- In a valid arena, a granted region is aligned in the buffer, and in memory too when the buffer
-- starts at a multiple of the cache line. It starts at or behind the cursor, has the length that was
-- asked for, fits the capacity and holds zeros only, and every other byte of the arena is as it was.
pub alloc_bytes-zeroed :
    (a : Arena) (len align : ℕ) (b : Arena) (r : Region) (i q : ℕ)
    → IsValid a
    → alloc_bytes a len align ≡ (b, some r)
    → ((q * cache_line + r.start) % align ≡ 0)
      × (r.start % align ≡ 0)
      × (a.cursor ≤ r.start)
      × (r.end ≡ r.start + len)
      × (r.end ≤ a.logical_capacity)
      × (get_elem? b.buffer.bytes i
          ≡ (if leb r.start i && ltb i r.end then some 0 else get_elem? a.buffer.bytes i))
alloc_bytes-zeroed a len align b r i q v h =
    let g = alloc_bytes-Grants a len align b r h in
    (
      cache_line-aligned q r.start align g.power (omega (arith, g.narrow, v.based)) g.aligned,
      g.aligned,
      g.fresh,
      g.sized,
      g.fits,
      rw g.filled (zeroed_at r.start r.end a.buffer.bytes i (omega arith)),
    )
