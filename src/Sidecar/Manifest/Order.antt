-- ===== src/Sidecar/Manifest/Order.antt =====
-- How the records of a valid manifest stand to one another.
use light_bridge_engine.Base.{
  ℕ, zero, suc, ◌+◌, ◌≤◌, ◌<◌, ◌≡◌, List, [], ◌∷◌, true, Option, some, get_elem?, arith, subst,
}
use light_bridge_engine.Sidecar.Types.{ExpertKey, ExpertRecord, SidecarManifest}
use light_bridge_engine.Sidecar.Manifest.{key_lt}
use light_bridge_engine.Sidecar.Manifest.Records.{IsPlaced, Chain}

key_lt_trans : (a b c : ExpertKey) → key_lt a b ≡ true → key_lt b c ≡ true → key_lt a c ≡ true
unfolding key_lt
key_lt_trans a b c h k = ground arith

-- What comes first in a chain comes before all that follows.
Chain-from :
    (m : SidecarManifest) (key : ExpertKey) (end : ℕ) (rs : List ExpertRecord) (j : ℕ)
    (r : ExpertRecord)
    → Chain m (some key) end rs
    → get_elem? rs j ≡ some r
    → (key_lt key r.key ≡ true) × (end ≤ r.offset) × IsPlaced m r
Chain-from m key end [] j r chain here = cc
Chain-from m key end (x ∷ rs) zero r chain here =
    let same : x ≡ r = ground arith in
    subst (λ y. (key_lt key y.key ≡ true) × (end ≤ y.offset) × IsPlaced m y) same
      (chain.0, chain.1, chain.2)
Chain-from m key end (x ∷ rs) (suc j) r chain here =
    let (after, low, placed) = Chain-from m x.key (x.offset + x.length) rs j r chain.3 here in
    (key_lt_trans key x.key r.key chain.0 after, omega (arith, chain.1), placed)

pub Chain-IsPlaced :
    (m : SidecarManifest) (previous : Option ExpertKey) (end : ℕ) (rs : List ExpertRecord) (j : ℕ)
    (r : ExpertRecord)
    → Chain m previous end rs
    → get_elem? rs j ≡ some r
    → (end ≤ r.offset) × IsPlaced m r
Chain-IsPlaced m previous end [] j r chain here = cc
Chain-IsPlaced m previous end (x ∷ rs) zero r chain here =
    let same : x ≡ r = ground arith in
    subst (λ y. (end ≤ y.offset) × IsPlaced m y) same (chain.1, chain.2)
Chain-IsPlaced m previous end (x ∷ rs) (suc j) r chain here =
    let (low, placed) = Chain-IsPlaced m (some x.key) (x.offset + x.length) rs j r chain.3 here in
    (omega (arith, chain.1), placed)

pub Chain-order :
    (m : SidecarManifest) (previous : Option ExpertKey) (end : ℕ) (rs : List ExpertRecord) (i j : ℕ)
    (q r : ExpertRecord)
    → Chain m previous end rs
    → i < j
    → get_elem? rs i ≡ some q
    → get_elem? rs j ≡ some r
    → (key_lt q.key r.key ≡ true) × (q.offset + q.length ≤ r.offset)
Chain-order m previous end [] i j q r chain before here there = cc
Chain-order m previous end (x ∷ rs) i zero q r chain before here there = absurd (omega arith)
Chain-order m previous end (x ∷ rs) zero (suc j) q r chain before here there =
    let same : x ≡ q = ground arith in
    let rest = Chain-from m x.key (x.offset + x.length) rs j r chain.3 there in
    subst (λ y. (key_lt y.key r.key ≡ true) × (y.offset + y.length ≤ r.offset)) same
      (rest.0, rest.1)
Chain-order m previous end (x ∷ rs) (suc i) (suc j) q r chain before here there =
    Chain-order m (some x.key) (x.offset + x.length) rs i j q r chain.3 (omega arith) here there
