-- ===== src/Kv/Checks.antt =====
-- The checks of `append_tokens` pass exactly on what may be appended, and never panic.
use light_bridge_engine.Base.{
  ℕ, suc, ◌+◌, ◌*◌, ◌≤◌, ◌<◌, ◌≡◌, refl, sym, ◌∙◌, List, [], ◌∷◌, Bool, true, false, not, Option,
  none, some, String, ok, err, length, get_elem?, arith, get_elem?-some, word_modulus, Result, inl,
  inr, guard-then, unit-then, ok_or-then, ok_or, guard, ◌>>=◌, ◌>>◌, checked_add, checked_mul,
  checked_add-some, checked_mul-some, checked_add-fits, checked_mul-fits, lt→ltb, le→leb, All, ltb,
  leb, ◌==◌, ltb→lt, leb→le, ==_iff, Bool-cases,
}
use light_bridge_engine.Kv.Types.{
  Fault, refused, KvError, zero_parameter, PagedKvCache, F32, is_finite,
}
use light_bridge_engine.Kv.Pages.{validate_layer, length_at}
use light_bridge_engine.Kv.Rows.{require_length, finite_from, validate_finite, check_append}
use light_bridge_engine.Kv.Views.{CacheIsValid, Appendable, get_or-eq}

finite_from-ok :
    (name : String) (i : ℕ) (xs : List F32) (u : Unit {0})
    → finite_from name i xs ≡ ok u
    → All (λ x. is_finite x ≡ true) xs
unfolding finite_from
finite_from-ok name i [] u h = tt
finite_from-ok name i (x ∷ xs) u h = elim (Bool-cases (is_finite x)) [
  | inl e ↦ (e, finite_from-ok name (suc i) xs u (rw e at h))
  | inr e ↦ absurd (ground arith)
]

-- An append that passes its checks meets the conditions.
pub check_append-ok :
    (c : PagedKvCache) (layer count : ℕ) (keys values : List F32) (stored new_length : ℕ)
    → check_append c layer count keys values ≡ ok (stored, new_length)
    → Appendable c layer count keys values
      × (get_elem? c.lengths layer ≡ some stored)
      × (new_length ≡ stored + count)
      × (length keys < word_modulus)
      × (length values < word_modulus)
unfolding check_append validate_layer require_length validate_finite length_at
check_append-ok c layer count keys values stored new_length h =
    let (a, h1) = guard-then _ _ _ h in
    let (b, h2) =
      guard-then (not (count == 0)) (refused (zero_parameter "append token_count")) _ h1 in
    let (k, ke, h3) = ok_or-then _ _ _ h2 in
    let (v, ve, h4) = ok_or-then _ _ _ h3 in
    let (ek, eke, h5) = ok_or-then _ _ _ h4 in
    let (ev, eve, h6) = ok_or-then _ _ _ h5 in
    let (kl, h7) = guard-then _ _ _ h6 in
    let (vl, h8) = guard-then _ _ _ h7 in
    let (kf, h9) = unit-then _ _ h8 in
    let (vf, h10) = unit-then _ _ h9 in
    let (s, here, h11) = ok_or-then _ _ _ h10 in
    let (n, ne, h12) = ok_or-then _ _ _ h11 in
    let (r, h13) = guard-then _ _ _ h12 in
    let (k_eq, _) = checked_mul-some _ _ k ke in
    let (v_eq, _) = checked_mul-some _ _ v ve in
    let (ek_eq, ek_small) = checked_mul-some _ _ ek eke in
    let (ev_eq, ev_small) = checked_mul-some _ _ ev eve in
    let (n_eq, _) = checked_add-some _ _ n ne in
    let results : (s ≡ stored) × (n ≡ new_length) = ground arith in
    let keys_size : length keys ≡ ek = sym ((==_iff ek (length keys)).0 kl) in
    let values_size : length values ≡ ev = sym ((==_iff ev (length values)).0 vl) in
    (
      record {
        layer_in = ltb→lt layer c.layer_count a;
        some_tokens = ground arith;
        keys_whole = rw (← k_eq) (keys_size ∙ ek_eq);
        values_whole = rw (← v_eq) (values_size ∙ ev_eq);
        keys_finite = finite_from-ok _ 0 keys tt kf;
        values_finite = finite_from-ok _ 0 values tt vf;
        room = rw (get_or-eq c.lengths layer 0 s here) (rw n_eq at (leb→le n c.token_capacity r));
      },
      rw (← results.0) here,
      omega arith,
      rw keys_size ek_small,
      rw values_size ev_small,
    )

pub ok-ne-err {ℓ} : {A : Type ℓ} {a : A} {f : Fault} → ok a ≡ err f → ⊥
ok-ne-err h = cc

err_inj {ℓ} : (A : Type ℓ) {f g : Fault} → ◌≡◌ {A = Result Fault A} (err f) (err g) → f ≡ g
err_inj A h = cc

-- A call that returns, with a result or with an error, and does not panic.
pub data Returns {ℓ} {A : Type ℓ} : Result Fault A → Type ℓ where
  returned : (a : A) → Returns (ok a)
  was_refused : (e : KvError) → Returns (err (refused e))

pub Returns-err {ℓ} :
    {A : Type ℓ} {r : Result Fault A} {f : Fault}
    → Returns r
    → r ≡ err f
    → (e : KvError) × (f ≡ refused e)
Returns-err (returned a) h = absurd (ok-ne-err h)
Returns-err {A} (was_refused e) h = (e, err_inj A (sym h))

pub guard-Returns {ℓ} :
    {B : Type ℓ} (test : Bool) (e : KvError) (rest : Result Fault B)
    → (test ≡ true → Returns rest)
    → Returns (guard test (refused e) >> rest)
guard-Returns true e rest h = h refl
guard-Returns false e rest h = was_refused e

pub ok_or-Returns {ℓ κ} :
    {A : Type ℓ} {B : Type κ} (o : Option A) (e : KvError) (next : A → Result Fault B)
    → ((a : A) → Returns (next a))
    → Returns (ok_or o (refused e) >>= next)
ok_or-Returns none e next h = was_refused e
ok_or-Returns (some a) e next h = h a

pub bind-Returns {ℓ κ} :
    {A : Type ℓ} {B : Type κ} (m : Result Fault A) (next : A → Result Fault B)
    → Returns m
    → ((a : A) → Returns (next a))
    → Returns (m >>= next)
bind-Returns m next (returned a) k = k a
bind-Returns m next (was_refused e) k = was_refused e

pub unit-Returns {ℓ} :
    {B : Type ℓ} (m : Result Fault (Unit {0})) (rest : Result Fault B)
    → Returns m
    → Returns rest
    → Returns (m >> rest)
unit-Returns m rest (returned a) k = k
unit-Returns m rest (was_refused e) k = was_refused e

finite-Returns : (name : String) (i : ℕ) (xs : List F32) → Returns (finite_from name i xs)
unfolding finite_from
finite-Returns name i [] = returned tt
finite-Returns name i (x ∷ xs) = elim (Bool-cases (is_finite x)) [
  | inl e ↦ rw (e, finite_from) (finite-Returns name (suc i) xs)
  | inr e ↦ rw (e, finite_from) (was_refused _)
]

pub length_at-Returns :
    (c : PagedKvCache) (layer : ℕ)
    → CacheIsValid c
    → ltb layer c.layer_count ≡ true
    → Returns (length_at c layer)
unfolding length_at
length_at-Returns c layer valid h =
    let inside = ltb→lt layer c.layer_count h in
    let (n, here) = get_elem?-some c.lengths layer (omega (arith, valid.counted)) in
    rw here (returned n)

pub check_append-Returns :
    (c : PagedKvCache) (layer count : ℕ) (keys values : List F32)
    → CacheIsValid c
    → Returns (check_append c layer count keys values)
unfolding check_append validate_layer require_length validate_finite
check_append-Returns c layer count keys values valid = guard-Returns _ _ _ λ a.
    guard-Returns (not (count == 0)) (zero_parameter "append token_count") _ λ _.
      ok_or-Returns (checked_mul c.kv_head_count c.key_dimension) _ _ λ k.
        ok_or-Returns (checked_mul c.kv_head_count c.value_dimension) _ _ λ v.
          ok_or-Returns (checked_mul count k) _ _ λ ek.
            ok_or-Returns (checked_mul count v) _ _ λ ev. guard-Returns (ek == length keys) _ _ λ _.
              guard-Returns (ev == length values) _ _ λ _.
                unit-Returns (finite_from "append keys" 0 keys) _ (finite-Returns _ 0 keys) (
                  unit-Returns (finite_from "append values" 0 values) _ (finite-Returns _ 0 values)
                    (bind-Returns (length_at c layer) _ (length_at-Returns c layer valid a) λ n.
                      ok_or-Returns (checked_add n count) _ _
                        λ m. guard-Returns (leb m c.token_capacity) _ _ λ _. returned _))

finite_from-pass :
    (name : String) (i : ℕ) (xs : List F32)
    → All (λ x. is_finite x ≡ true) xs
    → finite_from name i xs ≡ ok tt
unfolding finite_from
finite_from-pass name i [] h = refl
finite_from-pass name i (x ∷ xs) h = rw (h.0, finite_from) (finite_from-pass name (suc i) xs h.1)

le-mul : (m n : ℕ) → 0 < m → n ≤ m * n
le-mul m n h = grind arith

-- What may be appended passes the checks.
pub check_append-pass :
    (c : PagedKvCache) (layer count : ℕ) (keys values : List F32) (stored : ℕ)
    → CacheIsValid c
    → Appendable c layer count keys values
    → length keys < word_modulus
    → length values < word_modulus
    → get_elem? c.lengths layer ≡ some stored
    → check_append c layer count keys values ≡ ok (stored, stored + count)
unfolding check_append validate_layer require_length validate_finite length_at
check_append-pass c layer count keys values stored valid given ks vs here =
    let k : ℕ = c.kv_head_count * c.key_dimension in
    let v : ℕ = c.kv_head_count * c.value_dimension in
    let k_whole : length keys ≡ count * k = given.keys_whole in
    let v_whole : length values ≡ count * v = given.values_whole in
    let pos = given.some_tokens in
    let fit : stored + count ≤ c.token_capacity =
      rw (get_or-eq c.lengths layer 0 stored here) at given.room in
    let inside : ltb layer c.layer_count ≡ true = lt→ltb _ _ given.layer_in in
    let not_none : (count == 0) ≡ false = ground arith in
    let k_fits : k < word_modulus = omega (arith, le-mul count k pos) in
    let v_fits : v < word_modulus = omega (arith, le-mul count v pos) in
    let k_one = checked_mul-fits c.kv_head_count c.key_dimension k_fits in
    let v_one = checked_mul-fits c.kv_head_count c.value_dimension v_fits in
    let k_all = checked_mul-fits count k (omega arith) in
    let v_all = checked_mul-fits count v (omega arith) in
    let k_same : (count * k == length keys) ≡ true = (==_iff _ _).1 (sym k_whole) in
    let v_same : (count * v == length values) ≡ true = (==_iff _ _).1 (sym v_whole) in
    let k_finite = finite_from-pass "append keys" 0 keys given.keys_finite in
    let v_finite = finite_from-pass "append values" 0 values given.values_finite in
    let sum = checked_add-fits stored count (omega (arith, valid.small)) in
    let room : leb (stored + count) c.token_capacity ≡ true = le→leb _ _ fit in
    rw
      (
        inside, not_none, k_one, v_one, k_all, v_all, k_same, v_same, k_finite, v_finite, here, sum,
        room,
      )
      refl
