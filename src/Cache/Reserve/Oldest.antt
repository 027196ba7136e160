-- ===== src/Cache/Reserve/Oldest.antt =====
-- The victim that a round of `reserve_capacity` chooses.
use light_bridge_engine.Base.{
  ℕ, zero, suc, ◌≤◌, ◌≡◌, refl, ◌∙◌, List, [], ◌∷◌, Bool, none, some, arith, Option-cases, inl, inr,
  if_pos, if_neg, leb, subst, Bool-cases, leb→le,
}
use light_bridge_engine.Base.Table.{find, Distinct}
use light_bridge_engine.Cache.Types.{Entry, loading, ready}
use light_bridge_engine.Cache.Reserve.{candidate_tick, oldest}

-- The entry may be evicted, and was last used at the tick.
pub candidate_tick-ready :
    (e : Entry) (tick : ℕ)
    → candidate_tick e ≡ some tick
    → (bytes : List ℕ) × (resident : Bool) × (e ≡ ready bytes 0 tick resident)
unfolding candidate_tick
candidate_tick-ready (loading expected resident) tick h = cc
candidate_tick-ready (ready bytes zero last_used resident) tick h = (bytes, resident, ground arith)
candidate_tick-ready (ready bytes (suc pins) last_used resident) tick h = cc

module _ {K : Type 0} where
  -- No entry that may be evicted was used before the tick.
  abbrev pub NoneOlder : ℕ → List (K × Entry) → Type 0
  NoneOlder tick [] = Unit
  NoneOlder tick ((j, e) ∷ m) = ((n : ℕ) → candidate_tick e ≡ some n → tick ≤ n) × NoneOlder tick m

  -- No entry may be evicted.
  abbrev pub AllHeld : List (K × Entry) → Type 0
  AllHeld [] = Unit
  AllHeld ((j, e) ∷ m) = (candidate_tick e ≡ none) × AllHeld m

  NoneOlder-le : {a b : ℕ} (m : List (K × Entry)) → a ≤ b → NoneOlder b m → NoneOlder a m
  NoneOlder-le [] h s = tt
  NoneOlder-le {a} {b} ((j, e) ∷ m) h s =
      ((λ n c. let low = s.0 n c in omega arith), NoneOlder-le m h s.1)

  NoneOlder-of_AllHeld : (tick : ℕ) (m : List (K × Entry)) → AllHeld m → NoneOlder tick m
  NoneOlder-of_AllHeld tick [] h = tt
  NoneOlder-of_AllHeld tick ((j, e) ∷ m) h =
      ((λ n c. let held = h.0 in cc), NoneOlder-of_AllHeld tick m h.1)

  pub oldest-none : (m : List (K × Entry)) → oldest m ≡ none → AllHeld m
  unfolding oldest
  oldest-none [] h = tt
  oldest-none ((j, e) ∷ m) h = (
    ground (arith, Option-cases (candidate_tick e), Option-cases (oldest m)),
    oldest-none m (ground (arith, Option-cases (candidate_tick e), Option-cases (oldest m))),
  )

-- An unpinned entry such that no other that may be evicted was used before it.
pub record Victim {K : Type 0} (dec : Discrete K) (m : List (K × Entry)) (key : K) (tick : ℕ)
    : Type 0 where
  pub entry : Entry
  pub found : find dec key m ≡ some entry
  pub candidate : candidate_tick entry ≡ some tick
  pub none_older : NoneOlder tick m

module _ {K : Type 0} (dec : Discrete K) where
  Victim-head :
      (j : K) (e : Entry) (m : List (K × Entry)) (n : ℕ)
      → candidate_tick e ≡ some n
      → NoneOlder n m
      → Victim dec ((j, e) ∷ m) j n
  unfolding find
  Victim-head j e m n c rest = record {
    entry = e;
    found = if_pos (dec j j) refl (some e) (find dec j m);
    candidate = c;
    none_older = ((λ n' c'. ground arith), rest);
  }

  Victim-tail :
      (j : K) (e : Entry) (m : List (K × Entry)) (key : K) (tick : ℕ)
      → find dec j m ≡ none
      → ((n : ℕ) → candidate_tick e ≡ some n → tick ≤ n)
      → Victim dec m key tick
      → Victim dec ((j, e) ∷ m) key tick
  unfolding find
  Victim-tail j e m key tick fresh late v = record {
    entry = v.entry;
    found =
        if_neg (dec j key)
          (λ same. let lost = subst (λ x. find dec x m ≡ none) same fresh in cc (v.found)) (some e)
          (find dec key m)
        ∙ v.found;
    candidate = v.candidate;
    none_older = (late, v.none_older);
  }

  -- The entry that `min_by_key` picks is such a victim.
  pub oldest-Victim :
      (m : List (K × Entry)) (key : K) (tick : ℕ)
      → Distinct dec m
      → oldest m ≡ some (key, tick)
      → Victim dec m key tick
  unfolding oldest
  oldest-Victim [] key tick d h = cc
  oldest-Victim ((j, e) ∷ m) key tick d h = elim (Option-cases (candidate_tick e)) [
    | inl held ↦
        Victim-tail j e m key tick d.0 (λ n c. absurd (cc))
          (oldest-Victim m key tick d.1 (ground arith))
    | inr (n, c) ↦
        let here = Victim-head j e m n c in
        elim (Option-cases (oldest m)) [
          | inl alone ↦
              let same_key : key ≡ j = ground arith in
              let same_tick : tick ≡ n = ground arith in
              rw (same_key, same_tick) (here (NoneOlder-of_AllHeld n m (oldest-none m alone)))
          | inr ((k, t), o) ↦
              let rest = oldest-Victim m k t d.1 o in
              elim (Bool-cases (leb n t)) [
                | inl earlier ↦
                    let same_key : key ≡ j = ground arith in
                    let same_tick : tick ≡ n = ground arith in
                    rw (same_key, same_tick)
                      (here (NoneOlder-le m (leb→le n t earlier) rest.none_older))
                | inr later ↦
                    let same_key : key ≡ k = ground arith in
                    let same_tick : tick ≡ t = ground arith in
                    rw (same_key, same_tick)
                      (Victim-tail j e m k t d.0 (λ n' c'. ground arith) rest)
              ]
        ]
  ]
