-- ===== src/Cache/System/Drops.antt =====
-- Dropping a lease keeps the invariant.
use light_bridge_engine.Base.{
  ℕ, ◌-◌, ◌<◌, ◌≡◌, ◌≢◌, refl, subst, ◌∙◌, ◌⊎◌, inl, inr, List, Bool, true, false, Option, none,
  some, arith, ◌==◌, not, ◌&&◌, length, saturating_sub, Bool-cases, get_elem?,
}
use light_bridge_engine.Base.Table.{
  find, insert, erase, find-insert_self, find-insert_ne, find-erase_self, find-erase_ne,
  insert-Distinct, erase-Distinct, total-erase, total-insert_old,
}
use light_bridge_engine.Cache.Types.{State, CacheConfig, Entry, loading, ready, CacheLease}
use light_bridge_engine.Cache.Accounts.{ready_weight, loading_weight}
use light_bridge_engine.Cache.Leases.{release}
use light_bridge_engine.Cache.System.{remove_at}
use light_bridge_engine.Cache.System.Pins.{
  Agrees, AllAgree-change, pins_of-remove_at_self, pins_of-remove_at_ne, Hold-remove_at,
  lease-entry,
}
use light_bridge_engine.Cache.System.Invariant.{Inv}

stays_or_pinned :
    (resident : Bool) (pins : ℕ)
    → ((pins == 0) && not resident) ≡ false
    → (resident ≡ true) ⊎ (0 < pins)
stays_or_pinned true pins h = inl refl
stays_or_pinned false pins h = inr (ground arith)

module _ {K : Type 0} (dec : Discrete K) (c : CacheConfig) where
  -- With the last pin gone, an entry that is not resident goes.
  abbrev goes : ℕ → Bool → Bool
  goes pins resident = (pins - 1 == 0) && not resident

  module _ (s : State K) (ls : List (CacheLease K)) (loads : List (K × ℕ)) (i : ℕ)
      (l : CacheLease K) (held : get_elem? ls i ≡ some l) (pins t : ℕ) (resident : Bool)
      (found : find dec l.key s.entries ≡ some (ready l.bytes pins t resident))
      (v : Inv dec c s ls loads) where
    here : Agrees dec l.key (some (ready l.bytes pins t resident)) ls (find dec l.key loads)
    here = subst (λ o. Agrees dec l.key o ls (find dec l.key loads)) found (v.agree l.key)

    others :
        (q : K) (o : Option Entry) (load : Option ℕ)
        → l.key ≢ q
        → Agrees dec q o ls load
        → Agrees dec q o (remove_at i ls) load
    others q none load other a = (pins_of-remove_at_ne dec i ls l q held other ∙ a.0, a.1)
    others q (some (loading n r)) load other a =
        (pins_of-remove_at_ne dec i ls l q held other ∙ a.0, a.1)
    others q (some (ready bytes p u r)) load other a = (
      pins_of-remove_at_ne dec i ls l q held other ∙ a.0,
      Hold-remove_at dec i ls q bytes a.1,
      a.2,
      a.3,
    )

    erased-Inv :
        goes pins resident ≡ true
        → Inv dec c
            (record s {
              entries = erase dec l.key s.entries;
              used_bytes = s.used_bytes - length l.bytes;
            })
            (remove_at i ls)
            loads
    erased-Inv last =
        let used = total-erase dec ready_weight l.key s.entries _ found in
        let reserved = total-erase dec loading_weight l.key s.entries _ found in
        let gone = find-erase_self dec l.key s.entries v.accounts.distinct in
        let count = pins_of-remove_at_self dec i ls l held in
        let one : pins - 1 ≡ 0 = ground arith in
        record {
          word = v.word;
          accounts = record {
            distinct = erase-Distinct dec l.key s.entries v.accounts.distinct;
            used = omega (arith, v.accounts.used);
            reserved = omega (arith, v.accounts.reserved);
          };
          bounded = omega (arith, v.bounded);
          loads_distinct = v.loads_distinct;
          agree =
              AllAgree-change dec l.key s.entries _ ls (remove_at i ls) loads loads
                (λ q h. find-erase_ne dec l.key q s.entries h) (λ q h. refl)
                (λ q o load h a. others q o load h a) (rw gone (omega (arith, here.0), here.3))
                v.agree;
        }

    kept-Inv :
        goes pins resident ≡ false
        → Inv dec c
            (record s {
              entries = insert dec l.key (ready l.bytes (pins - 1) t resident) s.entries;
            })
            (remove_at i ls)
            loads
    kept-Inv more =
        let new = ready l.bytes (pins - 1) t resident in
        let used = total-insert_old dec ready_weight l.key s.entries new _ found in
        let reserved = total-insert_old dec loading_weight l.key s.entries new _ found in
        let count = pins_of-remove_at_self dec i ls l held in
        let stays : (resident ≡ true) ⊎ (0 < pins - 1) = stays_or_pinned resident (pins - 1) more in
        record {
          word = v.word;
          accounts = record {
            distinct = insert-Distinct dec l.key new s.entries v.accounts.distinct;
            used = omega (arith, v.accounts.used);
            reserved = omega (arith, v.accounts.reserved);
          };
          bounded = v.bounded;
          loads_distinct = v.loads_distinct;
          agree =
              AllAgree-change dec l.key s.entries _ ls (remove_at i ls) loads loads
                (λ q h. find-insert_ne dec l.key q new s.entries h) (λ q h. refl)
                (λ q o load h a. others q o load h a)
                (rw (find-insert_self dec l.key new s.entries) (
                  omega (arith, here.0),
                  Hold-remove_at dec i ls l.key l.bytes here.1,
                  stays,
                  here.3,
                ))
                v.agree;
        }

    released-Inv : Inv dec c (release dec s l.key) (remove_at i ls) loads
    unfolding release saturating_sub
    released-Inv = elim (Bool-cases (goes pins resident)) [
      | inl last ↦ rw (found, release, last) (erased-Inv last)
      | inr more ↦ rw (found, release, more) (kept-Inv more)
    ]

  -- Dropping any lease that is held keeps the invariant for the leases that are left.
  pub release-Inv :
      (s : State K) (ls : List (CacheLease K)) (loads : List (K × ℕ)) (i : ℕ) (l : CacheLease K)
      → get_elem? ls i ≡ some l
      → Inv dec c s ls loads
      → Inv dec c (release dec s l.key) (remove_at i ls) loads
  release-Inv s ls loads i l held v =
      let (pins, t, resident, found, _) =
        lease-entry dec i ls l (find dec l.key s.entries) _ held (v.agree l.key) in
      released-Inv s ls loads i l held pins t resident found v
