-- ===== src/Cache/System/Pins.antt =====
-- How the entries agree with the leases that are held and the loads that are in flight.
use light_bridge_engine.Base.{
  ℕ, zero, suc, ◌+◌, ◌<◌, ◌≡◌, ◌≢◌, refl, sym, ap, subst, ◌∙◌, ◌⊎◌, inr, List, [], ◌∷◌, Bool, true,
  Option, none, some, arith, ite, if_pos, if_neg, get_elem?,
}
use light_bridge_engine.Base.Table.{find}
use light_bridge_engine.Cache.System.{remove_at}
use light_bridge_engine.Cache.Types.{Entry, loading, ready, CacheLease}

module _ {K : Type 0} (dec : Discrete K) where
  -- The leases that are held on a key.
  unfoldable pub pins_of : K → List (CacheLease K) → ℕ
  pins_of k [] = 0
  pins_of k (l ∷ ls) = ite (dec l.key k) (suc (pins_of k ls)) (pins_of k ls)

  pub pins_of-nil : (k : K) → pins_of k [] ≡ 0
  unfolding pins_of
  pins_of-nil k = refl

  -- Every lease on the key has the bytes.
  abbrev pub Hold : K → List ℕ → List (CacheLease K) → Type 0
  Hold k bytes [] = Unit
  Hold k bytes (l ∷ ls) = (l.key ≡ k → l.bytes ≡ bytes) × Hold k bytes ls

  -- An entry's pins are the leases on its key, which all have its bytes; a loading entry has a
  -- loader at work for the bytes that it reserves; an entry that is not resident is pinned.
  abbrev pub Agrees : K → Option Entry → List (CacheLease K) → Option ℕ → Type 0
  Agrees k none ls load = (pins_of k ls ≡ 0) × (load ≡ none)
  Agrees k (some (loading expected resident)) ls load = (pins_of k ls ≡ 0) × (load ≡ some expected)
  Agrees k (some (ready bytes pins last_used resident)) ls load =
      (pins_of k ls ≡ pins) × Hold k bytes ls × ((resident ≡ true) ⊎ (0 < pins)) × (load ≡ none)

  abbrev pub AllAgree : List (K × Entry) → List (CacheLease K) → List (K × ℕ) → Type 0
  AllAgree entries ls loads = (q : K) → Agrees q (find dec q entries) ls (find dec q loads)

  -- A change at one key.
  pub AllAgree-change :
      (k : K) (entries entries' : List (K × Entry)) (ls ls' : List (CacheLease K))
      (loads loads' : List (K × ℕ))
      → ((q : K) → k ≢ q → find dec q entries' ≡ find dec q entries)
      → ((q : K) → k ≢ q → find dec q loads' ≡ find dec q loads)
      → ((q : K) (o : Option Entry) (load : Option ℕ)
          → k ≢ q
          → Agrees q o ls load
          → Agrees q o ls' load)
      → Agrees k (find dec k entries') ls' (find dec k loads')
      → AllAgree entries ls loads
      → AllAgree entries' ls' loads'
  AllAgree-change k entries entries' ls ls' loads loads' same_entry same_load same_pins here all q =
      elim (dec k q) [
        | yes e ↦ subst (λ x. Agrees x (find dec x entries') ls' (find dec x loads')) e here
        | no other ↦ rw (same_entry q other, same_load q other) (same_pins q _ _ other (all q))
      ]

  -- A lease on one key says nothing of another key.
  pub Agrees-cons :
      (l : CacheLease K) (ls : List (CacheLease K)) (q : K) (o : Option Entry) (load : Option ℕ)
      → l.key ≢ q
      → Agrees q o ls load
      → Agrees q o (l ∷ ls) load
  unfolding pins_of
  Agrees-cons l ls q none load other a = (if_neg (dec l.key q) other _ _ ∙ a.0, a.1)
  Agrees-cons l ls q (some (loading n r)) load other a = (if_neg (dec l.key q) other _ _ ∙ a.0, a.1)
  Agrees-cons l ls q (some (ready bytes pins t r)) load other a =
      (if_neg (dec l.key q) other _ _ ∙ a.0, ((λ same. absurd (other same)), a.1), a.2, a.3)

  pub pins_of-cons_self :
      (l : CacheLease K) (ls : List (CacheLease K))
      → pins_of l.key (l ∷ ls) ≡ suc (pins_of l.key ls)
  unfolding pins_of
  pins_of-cons_self l ls = if_pos (dec l.key l.key) refl _ _

  -- A lease on an entry's bytes is one pin more.
  pub Agrees-pinned :
      (l : CacheLease K) (ls : List (CacheLease K)) (bytes : List ℕ) (pins t t' : ℕ)
      (resident : Bool) (load : Option ℕ)
      → l.bytes ≡ bytes
      → Agrees l.key (some (ready bytes pins t resident)) ls load
      → Agrees l.key (some (ready bytes (suc pins) t' resident)) (l ∷ ls) load
  Agrees-pinned l ls bytes pins t t' resident load e a =
      (pins_of-cons_self l ls ∙ ap suc a.0, ((λ same. e), a.1), inr (omega arith), a.3)

  Hold-of_unpinned :
      (k : K) (bytes : List ℕ) (ls : List (CacheLease K)) → pins_of k ls ≡ 0 → Hold k bytes ls
  unfolding pins_of
  Hold-of_unpinned k bytes [] h = tt
  Hold-of_unpinned k bytes (l ∷ ls) h = elim (dec l.key k) [
    | yes e ↦ absurd (let pinned = sym (if_pos (dec l.key k) e _ _) ∙ h in omega arith)
    | no other ↦ (
      (λ e. absurd (other e)),
      Hold-of_unpinned k bytes ls (sym (if_neg (dec l.key k) other _ _) ∙ h),
    )
  ]

  -- The first lease on an entry's bytes.
  pub Agrees-first :
      (l : CacheLease K) (ls : List (CacheLease K)) (t : ℕ) (resident : Bool)
      → pins_of l.key ls ≡ 0
      → Agrees l.key (some (ready l.bytes 1 t resident)) (l ∷ ls) none
  Agrees-first l ls t resident h = (
    pins_of-cons_self l ls ∙ ap suc h,
    ((λ same. refl), Hold-of_unpinned l.key l.bytes ls h),
    inr (omega arith),
    refl,
  )

  pub pins_of-remove_at_self :
      (i : ℕ) (ls : List (CacheLease K)) (l : CacheLease K)
      → get_elem? ls i ≡ some l
      → pins_of l.key (remove_at i ls) + 1 ≡ pins_of l.key ls
  unfolding pins_of remove_at
  pins_of-remove_at_self i [] l h = cc
  pins_of-remove_at_self zero (x ∷ ls) l h = ground arith
  pins_of-remove_at_self (suc i) (x ∷ ls) l h = ground (arith, pins_of-remove_at_self i ls l h)

  pub pins_of-remove_at_ne :
      (i : ℕ) (ls : List (CacheLease K)) (l : CacheLease K) (q : K)
      → get_elem? ls i ≡ some l
      → l.key ≢ q
      → pins_of q (remove_at i ls) ≡ pins_of q ls
  unfolding pins_of remove_at
  pins_of-remove_at_ne i [] l q h other = cc
  pins_of-remove_at_ne zero (x ∷ ls) l q h other = ground arith
  pins_of-remove_at_ne (suc i) (x ∷ ls) l q h other =
      ground (arith, pins_of-remove_at_ne i ls l q h other)

  pub Hold-remove_at :
      (i : ℕ) (ls : List (CacheLease K)) (q : K) (bytes : List ℕ)
      → Hold q bytes ls
      → Hold q bytes (remove_at i ls)
  unfolding remove_at
  Hold-remove_at i [] q bytes h = tt
  Hold-remove_at zero (x ∷ ls) q bytes h = h.1
  Hold-remove_at (suc i) (x ∷ ls) q bytes h = (h.0, Hold-remove_at i ls q bytes h.1)

  Hold-get_elem? :
      (i : ℕ) (ls : List (CacheLease K)) (l : CacheLease K) (bytes : List ℕ)
      → get_elem? ls i ≡ some l
      → Hold l.key bytes ls
      → l.bytes ≡ bytes
  Hold-get_elem? i [] l bytes h held = cc
  Hold-get_elem? zero (x ∷ ls) l bytes h held =
      let same : x ≡ l = ground arith in
      sym (ap (λ (y : CacheLease K). y.bytes) same) ∙ held.0 (ap (λ (y : CacheLease K). y.key) same)
  Hold-get_elem? (suc i) (x ∷ ls) l bytes h held = Hold-get_elem? i ls l bytes h held.1

  -- The entry of a lease that is held is ready, pinned, and has the lease's bytes.
  pub lease-entry :
      (i : ℕ) (ls : List (CacheLease K)) (l : CacheLease K) (o : Option Entry) (load : Option ℕ)
      → get_elem? ls i ≡ some l
      → Agrees l.key o ls load
      → (pins : ℕ) × (t : ℕ) × (resident : Bool) × (o ≡ some (ready l.bytes pins t resident))
        × (0 < pins)
  lease-entry i ls l none load h a =
      absurd (let here = pins_of-remove_at_self i ls l h in let zero = a.0 in omega arith)
  lease-entry i ls l (some (loading n r)) load h a =
      absurd (let here = pins_of-remove_at_self i ls l h in let zero = a.0 in omega arith)
  lease-entry i ls l (some (ready bytes pins t resident)) load h a =
      let here = pins_of-remove_at_self i ls l h in
      let count = a.0 in
      let same = Hold-get_elem? i ls l bytes h a.1 in (pins, t, resident, rw same, omega arith)
