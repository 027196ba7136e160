-- ===== src/Cache/System/Invariant.antt =====
-- What holds of the cache and its callers, and the parts of a critical section that keep it.
use light_bridge_engine.Base.{
  ℕ, suc, ◌+◌, ◌≤◌, ◌<◌, ◌≡◌, refl, subst, inl, inr, List, ◌∷◌, Bool, some, arith, Result, ok, err,
  word_modulus, checked_add, Option-cases,
}
use light_bridge_engine.Base.Table.{
  find, Distinct, find-insert_self, find-insert_ne, insert-Distinct, total-insert_old,
}
use light_bridge_engine.Cache.Types.{State, CacheConfig, ready, CacheLease, CacheError}
use light_bridge_engine.Cache.Accounts.{Accounts, ready_weight, loading_weight}
use light_bridge_engine.Cache.Leases.{pin}
use light_bridge_engine.Cache.System.Pins.{
  Agrees, AllAgree, AllAgree-change, Agrees-cons, Agrees-pinned,
}

module _ {K : Type 0} (dec : Discrete K) (c : CacheConfig) where
  -- The state, the leases that are held and the loads in flight.
  pub record Inv (s : State K) (ls : List (CacheLease K)) (loads : List (K × ℕ)) : Type 0 where
    pub word : c.capacity_bytes < word_modulus
    pub accounts : Accounts dec s
    pub bounded : s.used_bytes + s.reserved_bytes ≤ c.capacity_bytes
    pub loads_distinct : Distinct dec loads
    pub agree : AllAgree dec s.entries ls loads

  -- A pinned use leaves one lease more, or the state as it was.
  abbrev pub Pinned :
      List (CacheLease K) → List (K × ℕ) → State K × Result CacheError (CacheLease K) → Type 0
  Pinned ls loads (s, ok lease) = Inv s (lease ∷ ls) loads
  Pinned ls loads (s, err e) = Inv s ls loads

  pub pin-Pinned :
      (s : State K) (ls : List (CacheLease K)) (loads : List (K × ℕ)) (k : K) (bytes : List ℕ)
      (pins last_used : ℕ) (resident : Bool)
      → find dec k s.entries ≡ some (ready bytes pins last_used resident)
      → Inv s ls loads
      → Pinned ls loads (pin dec s k bytes pins resident)
  unfolding pin checked_add
  pin-Pinned s ls loads k bytes pins last_used resident found v =
      elim (Option-cases (checked_add pins 1)) [
        | inl over ↦ rw (over, pin) v
        | inr (pins', e) ↦
            let here = subst (λ o. Agrees dec k o ls (find dec k loads)) found (v.agree k) in
            let counted : pins' ≡ suc pins = ground arith in
            let new = ready bytes pins' s.tick resident in
            let lease : CacheLease K = record { key = k; bytes = bytes } in
            let used = total-insert_old dec ready_weight k s.entries new _ found in
            let reserved = total-insert_old dec loading_weight k s.entries new _ found in
            rw (e, pin)
              (record {
                word = v.word;
                accounts = record {
                  distinct = insert-Distinct dec k new s.entries v.accounts.distinct;
                  used = omega (arith, v.accounts.used);
                  reserved = omega (arith, v.accounts.reserved);
                };
                bounded = v.bounded;
                loads_distinct = v.loads_distinct;
                agree =
                    AllAgree-change dec k s.entries _ ls (lease ∷ ls) loads loads
                      (λ q h. find-insert_ne dec k q new s.entries h) (λ q h. refl)
                      (λ q o load h a. Agrees-cons dec lease ls q o load h a)
                      (rw (find-insert_self dec k new s.entries, counted)
                        (Agrees-pinned dec lease ls bytes pins last_used s.tick resident _ refl
                          here))
                      v.agree;
              })
      ]
