-- ===== src/Cache/System/Clears.antt =====
-- Clearing keeps the invariant, and every entry that is in use.
use light_bridge_engine.Base.{
  ℕ, zero, suc, ◌+◌, ◌-◌, ◌≤◌, ◌≡◌, refl, sym, subst, ◌∙◌, List, [], ◌∷◌, Bool, Option, none, some,
  arith, if_pos, if_neg, Result, ok, length, All, checked_sub-fits,
}
use light_bridge_engine.Base.Table.{
  find, erase, find-erase_self, find-erase_ne, erase-Distinct, total-erase, Distinct,
}
use light_bridge_engine.Cache.Types.{
  State, CacheConfig, Entry, loading, ready, CacheLease, CacheError,
}
use light_bridge_engine.Cache.Accounts.{ready_weight, loading_weight}
use light_bridge_engine.Cache.Clear.{unpinned_keys, clear_entry, clear_keys, clear_unpinned}
use light_bridge_engine.Cache.Reserve.{candidate_tick}
use light_bridge_engine.Cache.System.Pins.{Agrees, AllAgree-change}
use light_bridge_engine.Cache.System.Invariant.{Inv}

module _ {K : Type 0} (dec : Discrete K) (c : CacheConfig) where
  -- A key may be cleared: it has no entry, or a ready one without a pin.
  abbrev Loose : Option Entry → Type 0
  Loose none = Unit
  Loose (some (loading expected resident)) = ⊥
  Loose (some (ready bytes zero last_used resident)) = Unit
  Loose (some (ready bytes (suc pins) last_used resident)) = ⊥

  Loose-erase :
      (k q : K) (m : List (K × Entry))
      → Distinct dec m
      → Loose (find dec q m)
      → Loose (find dec q (erase dec k m))
  Loose-erase k q m d h = elim (dec k q) [
    | yes same ↦
        subst (λ x. Loose (find dec x (erase dec k m))) same (rw (find-erase_self dec k m d) tt)
    | no other ↦ rw (find-erase_ne dec k q m other) h
  ]

  All-Loose-erase :
      (k : K) (ks : List K) (m : List (K × Entry))
      → Distinct dec m
      → All (λ q. Loose (find dec q m)) ks
      → All (λ q. Loose (find dec q (erase dec k m))) ks
  All-Loose-erase k [] m d h = tt
  All-Loose-erase k (q ∷ ks) m d (h, rest) = (Loose-erase k q m d h, All-Loose-erase k ks m d rest)

  -- The state without an entry that is ready and has no pin.
  without : State K → K → List ℕ → State K
  without s k bytes = record s {
    entries = erase dec k s.entries;
    used_bytes = s.used_bytes - length bytes;
  }

  without-Inv :
      (s : State K) (ls : List (CacheLease K)) (loads : List (K × ℕ)) (k : K) (bytes : List ℕ)
      (t : ℕ) (resident : Bool)
      → find dec k s.entries ≡ some (ready bytes 0 t resident)
      → Inv dec c s ls loads
      → (length bytes ≤ s.used_bytes) × Inv dec c (without s k bytes) ls loads
  unfolding without
  without-Inv s ls loads k bytes t resident found v =
      let here = subst (λ o. Agrees dec k o ls (find dec k loads)) found (v.agree k) in
      let gone = find-erase_self dec k s.entries v.accounts.distinct in
      let used = total-erase dec ready_weight k s.entries _ found in
      let reserved = total-erase dec loading_weight k s.entries _ found in
      let sum = v.accounts.used in
      let orders = v.accounts.reserved in
      (
        omega arith,
        record {
          word = v.word;
          accounts = record {
            distinct = erase-Distinct dec k s.entries v.accounts.distinct;
            used = omega arith;
            reserved = omega arith;
          };
          bounded = omega (arith, v.bounded);
          loads_distinct = v.loads_distinct;
          agree =
              AllAgree-change dec k s.entries _ ls ls loads loads
                (λ q h. find-erase_ne dec k q s.entries h) (λ q h. refl) (λ q o load h a. a)
                (rw gone (here.0, here.3)) v.agree;
        },
      )

  kept-without :
      (s : State K) (k : K) (bytes : List ℕ) (t : ℕ) (resident : Bool)
      → find dec k s.entries ≡ some (ready bytes 0 t resident)
      → (q : K) (e : Entry) → find dec q s.entries ≡ some e
      → candidate_tick e ≡ none
      → find dec q (without s k bytes).entries ≡ some e
  unfolding without candidate_tick
  kept-without s k bytes t resident found q e h held = elim (dec k q) [
    | no other ↦ find-erase_ne dec k q s.entries other ∙ h
    | yes same ↦ absurd (
        let here = subst (λ x. find dec x s.entries ≡ some e) (sym same) h in
        let one : ready bytes 0 t resident ≡ e = ground arith in
        let free = subst (λ x. candidate_tick x ≡ none) (sym one) held in cc)
  ]

  find-tail :
      (k : K) (x : Entry) (m : List (K × Entry)) (q : K) (e : Entry)
      → find dec k m ≡ none
      → find dec q m ≡ some e
      → find dec q ((k, x) ∷ m) ≡ some e
  unfolding find
  find-tail k x m q e fresh h = elim (dec k q) [
    | no other ↦ if_neg (dec k q) other _ _ ∙ h
    | yes same ↦ absurd (let gone = subst (λ y. find dec y m ≡ none) same fresh in cc)
  ]

  -- How clearing ends: with a count, in order, and with every entry that is in use as it was.
  pub record Cleared (s : State K) (ls : List (CacheLease K)) (loads : List (K × ℕ))
      (out : State K × Result CacheError ℕ) : Type 0 where
    pub removed : ℕ
    pub counted : out.1 ≡ ok removed
    pub sound : Inv dec c out.0 ls loads
    pub kept :
        (q : K) (e : Entry)
        → find dec q s.entries ≡ some e
        → candidate_tick e ≡ none
        → find dec q out.0.entries ≡ some e

  clear_keys-Cleared :
      (ks : List K) (s : State K) (n : ℕ) (ls : List (CacheLease K)) (loads : List (K × ℕ))
      → All (λ q. Loose (find dec q s.entries)) ks
      → Inv dec c s ls loads
      → Cleared s ls loads (clear_keys dec ks s n)
  unfolding clear_keys without
  clear_keys-Cleared [] s n ls loads loose v = record {
    removed = n;
    counted = refl;
    sound = v;
    kept = λ q e h k. h;
  }
  clear_keys-Cleared (k ∷ ks) s n ls loads (free, loose) v =
      cleared (find dec k s.entries) refl free
        (λ t n loose w. clear_keys-Cleared ks t n ls loads loose w)
    where
      cleared :
          (o : Option Entry)
          → find dec k s.entries ≡ o
          → Loose o
          → ((t : State K) (n : ℕ)
              → All (λ q. Loose (find dec q t.entries)) ks
              → Inv dec c t ls loads
              → Cleared t ls loads (clear_keys dec ks t n))
          → Cleared s ls loads (clear_entry dec (clear_keys dec ks) s n k o)
      cleared none e free next = next s n loose v
      cleared (some (loading m r)) e free next = absurd free
      cleared (some (ready bytes (suc pins) t r)) e free next = absurd free
      cleared (some (ready bytes zero t r)) e free next =
          let (fits, w) = without-Inv s ls loads k bytes t r e v in
          let left = checked_sub-fits s.used_bytes (length bytes) fits in
          let rest =
            next (without s k bytes) (n + 1)
              (All-Loose-erase k ks s.entries v.accounts.distinct loose) w in
          rw (clear_entry, left)
            (record {
              removed = rest.removed;
              counted = rest.counted;
              sound = rest.sound;
              kept = λ q x h held. rest.kept q x (kept-without s k bytes t r e q x h held) held;
            })

  -- The keys that are collected may be cleared.
  unpinned_keys-Loose :
      (m entries : List (K × Entry))
      → Distinct dec m
      → ((q : K) (e : Entry) → find dec q m ≡ some e → find dec q entries ≡ some e)
      → All (λ q. Loose (find dec q entries)) (unpinned_keys m)
  unfolding unpinned_keys find
  unpinned_keys-Loose [] entries d within = tt
  unpinned_keys-Loose ((k, loading n r) ∷ m) entries d within =
      unpinned_keys-Loose m entries d.1 (λ q e h. within q e (find-tail k _ m q e d.0 h))
  unpinned_keys-Loose ((k, ready bytes (suc pins) t r) ∷ m) entries d within =
      unpinned_keys-Loose m entries d.1 (λ q e h. within q e (find-tail k _ m q e d.0 h))
  unpinned_keys-Loose ((k, ready bytes zero t r) ∷ m) entries d within = (
    rw (within k (ready bytes 0 t r) (if_pos (dec k k) refl _ _)) tt,
    unpinned_keys-Loose m entries d.1 (λ q e h. within q e (find-tail k _ m q e d.0 h)),
  )

  -- Clearing never fails: it counts what it removes, keeps the accounts and the byte bound, and
  -- leaves every entry that is pinned or loading as it was.
  pub clear_unpinned-Cleared :
      (s : State K) (ls : List (CacheLease K)) (loads : List (K × ℕ))
      → Inv dec c s ls loads
      → Cleared s ls loads (clear_unpinned dec s)
  unfolding clear_unpinned
  clear_unpinned-Cleared s ls loads v =
      clear_keys-Cleared (unpinned_keys s.entries) s 0 ls loads
        (unpinned_keys-Loose s.entries s.entries v.accounts.distinct (λ q e h. h)) v
