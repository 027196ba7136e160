-- ===== src/Base/Results.antt =====
-- Rust's `Result`, with the monad that `?` stands for.
use mathlib.Core.Path.{◌≡◌, refl}
use mathlib.Core.Bool.{Bool, true, false}
use mathlib.Core.Option.{Option, none, some}
use mathlib.Core.Logic.{◌⊎◌, inl, inr}

pub data Result {ℓ κ} (E : Type ℓ) (A : Type κ) : Type (ℓ ⊔ κ) where
  ok : A → Result E A
  err : E → Result E A

-- `if !test { return Err(e) }`.
abbrev pub guard {ℓ} : {E : Type ℓ} → Bool → E → Result E (Unit {0})
guard true e = ok tt
guard false e = err e

abbrev pub ok_or {ℓ κ} : {E : Type ℓ} {A : Type κ} → Option A → E → Result E A
ok_or none e = err e
ok_or (some a) e = ok a

infixl 5 ◌>>=◌ ◌>>◌
abbrev pub ◌>>=◌ {ℓ κ μ} :
    {E : Type ℓ} {A : Type κ} {B : Type μ} → Result E A → (A → Result E B) → Result E B
err failure >>= next = err failure
ok value >>= next = next value

abbrev pub map_err {ℓ κ μ} :
    {E : Type ℓ} {F : Type κ} {A : Type μ} → (E → F) → Result E A → Result F A
map_err f (ok a) = ok a
map_err f (err e) = err (f e)

abbrev pub ◌>>◌ {ℓ κ} : {E : Type ℓ} {B : Type κ} → Result E (Unit {0}) → Result E B → Result E B
first >> next = first >>= λ done. next

module _ {ℓ κ} {E : Type ℓ} {A : Type κ} where
  -- To split on a computed result and keep the equation.
  pub Result-cases : (m : Result E A) → ((a : A) × (m ≡ ok a)) ⊎ ((e : E) × (m ≡ err e))
  Result-cases (ok a) = inl (a, refl)
  Result-cases (err e) = inr (e, refl)

  -- What a successful bind says of its parts.
  pub >>=-eq-ok {μ} :
      {B : Type μ} (first : Result E A) (next : A → Result E B) {result : B}
      → (first >>= next) ≡ ok result
      → (value : A) × (first ≡ ok value) × (next value ≡ ok result)
  >>=-eq-ok (err failure) next done = cc
  >>=-eq-ok (ok value) next done = (value, refl, done)

  -- A bind fails in its first part or in its second.
  pub >>=-eq-err {μ} :
      {B : Type μ} (first : Result E A) (next : A → Result E B) {e : E}
      → (first >>= next) ≡ err e
      → (first ≡ err e) ⊎ ((value : A) × (first ≡ ok value) × (next value ≡ err e))
  >>=-eq-err (err failure) next failed = inl (cc)
  >>=-eq-err (ok value) next failed = inr (value, refl, failed)

  pub ok_or-ok : (o : Option A) (e : E) (a : A) → ok_or o e ≡ ok a → o ≡ some a
  ok_or-ok none e a h = cc
  ok_or-ok (some x) e a h = cc

pub guard-ok {ℓ} :
    {E : Type ℓ} (test : Bool) (e : E) (u : Unit {0}) → guard test e ≡ ok u → test ≡ true
guard-ok true e u h = refl
guard-ok false e u h = cc

module _ {ℓ κ} {E : Type ℓ} {B : Type κ} where
  -- What a chain that succeeds says of its first check or look-up.
  pub guard-then :
      (test : Bool) (e : E) (rest : Result E B) {result : B}
      → (guard test e >> rest) ≡ ok result
      → (test ≡ true) × (rest ≡ ok result)
  guard-then true e rest h = (refl, h)
  guard-then false e rest h = cc

  pub unit-then :
      (first : Result E (Unit {0})) (rest : Result E B) {result : B}
      → (first >> rest) ≡ ok result
      → (first ≡ ok tt) × (rest ≡ ok result)
  unit-then (ok tt) rest h = (refl, h)
  unit-then (err e) rest h = cc

  pub ok_or-then {μ} :
      {A : Type μ} (o : Option A) (e : E) (next : A → Result E B) {result : B}
      → (ok_or o e >>= next) ≡ ok result
      → (a : A) × (o ≡ some a) × (next a ≡ ok result)
  ok_or-then (some a) e next h = (a, refl, h)
  ok_or-then none e next h = cc
