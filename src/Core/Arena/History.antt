-- ===== src/Core/Arena/History.antt =====
-- The regions of a whole history of requests between two resets.
use light_bridge_engine.Base.{ℕ, ◌≤◌, ◌≡◌, refl, List, [], ◌∷◌, Option, none, some, arith, subst}
use light_bridge_engine.Core.Arena.{Arena, Region, alloc_bytes}
use light_bridge_engine.Core.Arena.Regions.{alloc_bytes-Grants, alloc_bytes-none}

keep : Option Region → List Region → List Region
keep none rs = rs
keep (some r) rs = r ∷ rs

-- The regions that a history grants, where each request is a length and an alignment.
unfoldable pub grants : Arena → List (ℕ × ℕ) → List Region
unfolding keep
grants a [] = []
grants a ((len, align) ∷ rest) = let (b, out) = alloc_bytes a len align in keep out (grants b rest)

-- The regions lie one behind the other between two bounds.
abbrev pub Stacked : ℕ → List Region → ℕ → Type 0
Stacked low [] high = Unit {0}
Stacked low (r ∷ rs) high =
    (low ≤ r.start) × (r.start ≤ r.end) × (r.end ≤ high) × Stacked r.end rs high

Stacked-from :
    {low low' high high' : ℕ} (rs : List Region)
    → low ≤ low'
    → high' ≡ high
    → Stacked low' rs high'
    → Stacked low rs high
Stacked-from [] l h s = tt
Stacked-from (r ∷ rs) l h s = rw (← h) (omega arith, s.1, s.2, s.3)

-- From any state, the regions of a history are disjoint and rise from the cursor to the capacity.
pub grants-Stacked :
    (a : Arena) (requests : List (ℕ × ℕ)) → Stacked a.cursor (grants a requests) a.logical_capacity
unfolding grants
grants-Stacked a [] = tt
grants-Stacked a ((len, align) ∷ rest) =
    split (alloc_bytes a len align) refl (λ b. grants-Stacked b rest)
  where
    split :
        (out : Arena × Option Region)
        → alloc_bytes a len align ≡ out
        → ((b : Arena) → Stacked b.cursor (grants b rest) b.logical_capacity)
        → Stacked a.cursor (keep out.1 (grants out.0 rest)) a.logical_capacity
    split (b, none) e ih =
        subst (λ (c : Arena). Stacked c.cursor (grants b rest) c.logical_capacity)
          (alloc_bytes-none a len align b e) (ih b)
    split (b, some r) e ih =
        let g = alloc_bytes-Grants a len align b r e in
        (g.fresh, omega arith, g.fits, Stacked-from (grants b rest) (omega arith) g.capacity (ih b))
