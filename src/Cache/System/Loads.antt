-- ===== src/Cache/System/Loads.antt =====
-- Evictions, reservations and their ends keep the invariant.
use light_bridge_engine.Base.{
  ℕ, ◌+◌, ◌≤◌, ◌<◌, ◌≡◌, refl, subst, ◌∙◌, List, ◌∷◌, Bool, Option, none, some, arith, if_pos,
  if_neg, ok, ==_iff, length, word_modulus, saturating_sub, checked_add-fits, checked_sub-fits,
  saturating_add,
}
use light_bridge_engine.Base.Table.{
  find, erase, find-insert_self, find-insert_ne, find-erase_self, find-erase_ne, insert-Distinct,
  erase-Distinct, total-erase, total-insert_new, total-insert_old, le-total,
}
use light_bridge_engine.Cache.Types.{State, CacheConfig, Entry, loading, ready, CacheLease}
use light_bridge_engine.Cache.Accounts.{Accounts, ready_weight, loading_weight}
use light_bridge_engine.Cache.Leases.{reserve, reserve_entry, cancel, publish, commit, next_tick}
use light_bridge_engine.Cache.Reserve.Loop.{EvictsOne, EvictsOne-Accounts, Evicts, nothing, more}
use light_bridge_engine.Cache.System.Pins.{
  pins_of, Agrees, AllAgree-change, Agrees-cons, Agrees-first,
}
use light_bridge_engine.Cache.System.Invariant.{Inv}

module _ {K : Type 0} (dec : Discrete K) (c : CacheConfig) where
  EvictsOne-Inv :
      {s t : State K} (ls : List (CacheLease K)) (loads : List (K × ℕ))
      → EvictsOne dec s t
      → Inv dec c s ls loads
      → Inv dec c t ls loads
  EvictsOne-Inv {s} {t} ls loads e v =
      let here =
        subst (λ o. Agrees dec e.key o ls (find dec e.key loads)) e.found (v.agree e.key) in
      let gone = find-erase_self dec e.key s.entries v.accounts.distinct in
      let accounts = EvictsOne-Accounts dec e v.accounts in
      rw e.after (record {
        word = v.word;
        accounts = rw e.after at accounts;
        bounded = omega (arith, v.bounded);
        loads_distinct = v.loads_distinct;
        agree =
            AllAgree-change dec e.key s.entries _ ls ls loads loads
              (λ q h. find-erase_ne dec e.key q s.entries h) (λ q h. refl) (λ q o load h a. a)
              (rw gone (here.0, here.3)) v.agree;
      })

  pub Evicts-Inv :
      {s t : State K} (ls : List (CacheLease K)) (loads : List (K × ℕ))
      → Evicts dec s t
      → Inv dec c s ls loads
      → Inv dec c t ls loads
  Evicts-Inv ls loads nothing v = v
  Evicts-Inv ls loads (more e rest) v = Evicts-Inv ls loads rest (EvictsOne-Inv ls loads e v)

  EvictsOne-absent :
      {s t : State K} (k : K)
      → EvictsOne dec s t
      → Accounts dec s
      → find dec k s.entries ≡ none
      → find dec k t.entries ≡ none
  EvictsOne-absent {s} k e a h = rw e.after (elim (dec e.key k) [
    | yes same ↦
        subst (λ x. find dec x (erase dec e.key s.entries) ≡ none) same
          (find-erase_self dec e.key s.entries a.distinct)
    | no other ↦ find-erase_ne dec e.key k s.entries other ∙ h
  ])

  -- No eviction brings a key back.
  pub Evicts-absent :
      {s t : State K} (k : K)
      → Evicts dec s t
      → Accounts dec s
      → find dec k s.entries ≡ none
      → find dec k t.entries ≡ none
  Evicts-absent k nothing a h = h
  Evicts-absent k (more e rest) a h =
      Evicts-absent k rest (EvictsOne-Accounts dec e a) (EvictsOne-absent k e a h)

  -- With the room there, a reservation succeeds and puts one load in flight.
  pub reserve_entry-Inv :
      (s : State K) (ls : List (CacheLease K)) (loads : List (K × ℕ)) (k : K) (expected : ℕ)
      (resident : Bool)
      → find dec k s.entries ≡ none
      → s.used_bytes + s.reserved_bytes + expected ≤ c.capacity_bytes
      → Inv dec c s ls loads
      → ((reserve_entry dec s k expected resident).1 ≡ ok reserve)
        × Inv dec c (reserve_entry dec s k expected resident).0 ls ((k, expected) ∷ loads)
  unfolding reserve_entry find
  reserve_entry-Inv s ls loads k expected resident absent room v =
      let fits = checked_add-fits s.reserved_bytes expected (omega (arith, v.word)) in
      let new = loading expected resident in
      let used = total-insert_new dec ready_weight k s.entries new absent in
      let reserved = total-insert_new dec loading_weight k s.entries new absent in
      let here = subst (λ o. Agrees dec k o ls (find dec k loads)) absent (v.agree k) in
      rw (fits, reserve_entry)
        (
          refl,
          record {
            word = v.word;
            accounts = record {
              distinct = insert-Distinct dec k new s.entries v.accounts.distinct;
              used = omega (arith, v.accounts.used);
              reserved = omega (arith, v.accounts.reserved);
            };
            bounded = omega (arith, v.bounded);
            loads_distinct = (here.1, v.loads_distinct);
            agree =
                AllAgree-change dec k s.entries _ ls ls loads ((k, expected) ∷ loads)
                  (λ q h. find-insert_ne dec k q new s.entries h) (λ q h. if_neg (dec k q) h _ _)
                  (λ q o load h a. a)
                  (rw (find-insert_self dec k new s.entries) (here.0, if_pos (dec k k) refl _ _))
                  v.agree;
          },
        )

  -- A load in flight has its entry.
  pub load-entry :
      (k : K) (o : Option Entry) (ls : List (CacheLease K)) (expected : ℕ)
      → Agrees dec k o ls (some expected)
      → (resident : Bool) × (o ≡ some (loading expected resident)) × (pins_of dec k ls ≡ 0)
  load-entry k none ls expected a = cc (a.1)
  load-entry k (some (loading n resident)) ls expected a = (resident, ground (arith, a.1), a.0)
  load-entry k (some (ready bytes pins t r)) ls expected a = cc (a.3)

  -- A reservation that is dropped takes its entry and its bytes back.
  pub cancel-Inv :
      (s : State K) (ls : List (CacheLease K)) (loads : List (K × ℕ)) (k : K) (expected : ℕ)
      → find dec k loads ≡ some expected
      → Inv dec c s ls loads
      → Inv dec c (cancel dec s k expected) ls (erase dec k loads)
  unfolding cancel saturating_sub
  cancel-Inv s ls loads k expected flying v =
      let here = subst (λ l. Agrees dec k (find dec k s.entries) ls l) flying (v.agree k) in
      let (resident, found, unpinned) = load-entry k _ ls expected here in
      let used = total-erase dec ready_weight k s.entries _ found in
      let reserved = total-erase dec loading_weight k s.entries _ found in
      let gone = find-erase_self dec k s.entries v.accounts.distinct in
      let landed = find-erase_self dec k loads v.loads_distinct in
      rw (found, cancel, (==_iff expected expected).1 refl)
        (record {
          word = v.word;
          accounts = record {
            distinct = erase-Distinct dec k s.entries v.accounts.distinct;
            used = omega (arith, v.accounts.used);
            reserved = omega (arith, v.accounts.reserved);
          };
          bounded = omega (arith, v.bounded);
          loads_distinct = erase-Distinct dec k loads v.loads_distinct;
          agree =
              AllAgree-change dec k s.entries _ ls ls loads (erase dec k loads)
                (λ q h. find-erase_ne dec k q s.entries h) (λ q h. find-erase_ne dec k q loads h)
                (λ q o load h a. a) (rw (gone, landed) (unpinned, refl)) v.agree;
        })

  -- The bytes of a load in flight are always taken: the reservation is still there, both sums
  -- fit, and the caller gets a lease on the bytes.
  pub commit-Inv :
      (s : State K) (ls : List (CacheLease K)) (loads : List (K × ℕ)) (k : K) (n : ℕ)
      (bytes : List ℕ)
      → length bytes ≡ n
      → find dec k loads ≡ some n
      → Inv dec c s ls loads
      → let lease : CacheLease K = record { key = k; bytes = bytes } in
        ((commit dec s k n bytes).1 ≡ ok lease)
        × Inv dec c (commit dec s k n bytes).0 (lease ∷ ls) (erase dec k loads)
  unfolding commit next_tick
  commit-Inv s ls loads k n bytes sized flying v =
      let lease : CacheLease K = record { key = k; bytes = bytes } in
      let here = subst (λ l. Agrees dec k (find dec k s.entries) ls l) flying (v.agree k) in
      let (resident, found, unpinned) = load-entry k _ ls n here in
      let low = le-total dec loading_weight k s.entries _ found in
      let sub = checked_sub-fits s.reserved_bytes n (omega (arith, v.accounts.reserved)) in
      let reserved_room : s.used_bytes + n < word_modulus =
        omega (arith, v.accounts.reserved, v.bounded, v.word) in
      let add = checked_add-fits s.used_bytes n reserved_room in
      let new = ready bytes 1 (saturating_add s.tick 1) resident in
      let used = total-insert_old dec ready_weight k s.entries new _ found in
      let reserved = total-insert_old dec loading_weight k s.entries new _ found in
      let landed = find-erase_self dec k loads v.loads_distinct in
      rw (found, commit, (==_iff n n).1 refl, publish, sub, add)
        (
          refl,
          record {
            word = v.word;
            accounts = record {
              distinct = insert-Distinct dec k new s.entries v.accounts.distinct;
              used = omega (arith, v.accounts.used);
              reserved = omega (arith, v.accounts.reserved);
            };
            bounded = omega (arith, v.bounded, v.accounts.reserved);
            loads_distinct = erase-Distinct dec k loads v.loads_distinct;
            agree =
                AllAgree-change dec k s.entries _ ls (lease ∷ ls) loads (erase dec k loads)
                  (λ q h. find-insert_ne dec k q new s.entries h)
                  (λ q h. find-erase_ne dec k q loads h)
                  (λ q o load h a. Agrees-cons dec lease ls q o load h a)
                  (rw (find-insert_self dec k new s.entries, landed)
                    (Agrees-first dec lease ls (saturating_add s.tick 1) resident unpinned))
                  v.agree;
          },
        )
