-- ===== src/Kv/Snapshots/Endings.antt =====
-- A call that ends with a value of a kind or with an error, and never panics.
use light_bridge_engine.Base.{
  ℕ, zero, suc, ◌-◌, ◌/◌, ◌≡◌, refl, ap, List, [], ◌∷◌, Bool, true, false, Option, none, some,
  String, Result, ok, err, guard, ok_or, ◌>>=◌, ◌>>◌, length, leb, ◌==◌, ◌⊎◌, inl, inr, checked_add,
  Bool-cases, length-replicate,
}
use light_bridge_engine.Kv.Types.{Fault, refused, zero_parameter, KvError, KvPage}
use light_bridge_engine.Kv.Pages.{
  parameters, zero_check, zeroed_vec, new_page, elements_of, new_table, new_tables,
  new_with_allocation,
}
use light_bridge_engine.Kv.Snapshots.Restore.{
  SnapshotCursor, cursor_take, cursor_word, cursor_lanes, read_lengths, check_configuration,
  check_uniform,
}

pub data Ends {A : Type 0} (P : A → Type 0) : Result Fault A → Type 0 where
  ended : (a : A) → P a → Ends P (ok a)
  failed : (e : KvError) → Ends P (err (refused e))

-- Nothing is said of the value.
abbrev pub Any : {A : Type 0} → A → Type 0
Any a = Unit

pub Ends-cases :
    {A : Type 0} {P : A → Type 0} {r : Result Fault A}
    → Ends P r
    → ((a : A) × (r ≡ ok a) × P a) ⊎ ((e : KvError) × (r ≡ err (refused e)))
Ends-cases (ended a p) = inl (a, refl, p)
Ends-cases (failed e) = inr (e, refl)

module _ {B : Type 0} {Q : B → Type 0} where
  pub Ends-guard :
      (test : Bool) (e : KvError) (rest : Result Fault B)
      → (test ≡ true → Ends Q rest)
      → Ends Q (guard test (refused e) >> rest)
  Ends-guard true e rest h = h refl
  Ends-guard false e rest h = failed e

  pub Ends-ok_or :
      {A : Type 0} (o : Option A) (e : KvError) (next : A → Result Fault B)
      → ((a : A) → o ≡ some a → Ends Q (next a))
      → Ends Q (ok_or o (refused e) >>= next)
  Ends-ok_or none e next h = failed e
  Ends-ok_or (some a) e next h = h a refl

  pub Ends-bind :
      {A : Type 0} {P : A → Type 0} (m : Result Fault A) (next : A → Result Fault B)
      → Ends P m
      → ((a : A) → P a → Ends Q (next a))
      → Ends Q (m >>= next)
  Ends-bind m next (ended a p) k = k a p
  Ends-bind m next (failed e) k = failed e

pub cursor_take-Ends : (cur : SnapshotCursor) (n : ℕ) → Ends Any (cursor_take cur n)
unfolding cursor_take
cursor_take-Ends cur n =
    Ends-ok_or (checked_add cur.offset n) _ _
      λ end _. Ends-guard (leb end (length cur.bytes)) _ _ λ _. ended _ tt

pub cursor_word-Ends : (cur : SnapshotCursor) (n : ℕ) → Ends Any (cursor_word cur n)
unfolding cursor_word
cursor_word-Ends cur n = Ends-bind _ _ (cursor_take-Ends cur n) λ r _. ended _ tt

-- As many floats as are asked for.
pub cursor_lanes-Ends :
    (cur : SnapshotCursor) (n : ℕ) → Ends (λ r. length r.0 ≡ n) (cursor_lanes cur n)
unfolding cursor_lanes
cursor_lanes-Ends cur zero = ended _ refl
cursor_lanes-Ends cur (suc n) =
    Ends-bind _ _ (cursor_word-Ends cur 4)
      λ (x, cur) _. Ends-bind _ _ (cursor_lanes-Ends cur n) λ (xs, cur) size. ended _ (ap suc size)

pub check_configuration-Ends :
    (cur : SnapshotCursor) (fields : List (String × ℕ)) → Ends Any (check_configuration cur fields)
unfolding check_configuration
check_configuration-Ends cur [] = ended _ tt
check_configuration-Ends cur ((name, expected) ∷ fields) =
    Ends-bind _ _ (cursor_word-Ends cur 8) λ (actual, cur) _.
      Ends-guard (actual == expected) _ _ λ _. check_configuration-Ends cur fields

pub read_lengths-Ends :
    (capacity : ℕ) (cur : SnapshotCursor) (layer left : ℕ)
    → Ends (λ r. length r.0 ≡ left) (read_lengths capacity cur layer left)
unfolding read_lengths
read_lengths-Ends capacity cur layer zero = ended _ refl
read_lengths-Ends capacity cur layer (suc left) =
    Ends-bind _ _ (cursor_word-Ends cur 8) λ (n, cur) _. Ends-guard (leb n capacity) _ _ λ _.
      Ends-bind _ _ (read_lengths-Ends capacity cur (suc layer) left)
        λ (rest, cur) size. ended _ (ap suc size)

pub check_uniform-Ends :
    (expected layer : ℕ) (lengths : List ℕ) → Ends Any (check_uniform expected layer lengths)
unfolding check_uniform
check_uniform-Ends expected layer [] = ended _ tt
check_uniform-Ends expected layer (n ∷ lengths) =
    Ends-guard (n == expected) _ _ λ _. check_uniform-Ends expected (suc layer) lengths

module _ (has_room : String → ℕ → Bool) where
  pub zeroed_vec-Ends :
      (n : ℕ) (name : String) → Ends (λ xs. length xs ≡ n) (zeroed_vec has_room n name)
  unfolding zeroed_vec
  zeroed_vec-Ends n name = Ends-guard (has_room name n) _ _ λ _. ended _ (length-replicate n 0)

  new_page-Ends :
      (page_tokens heads key_dim value_dim : ℕ)
      → Ends Any (new_page has_room page_tokens heads key_dim value_dim)
  unfolding new_page
  new_page-Ends page_tokens heads key_dim value_dim =
      Ends-ok_or (elements_of page_tokens heads key_dim) _ _ λ ks _.
        Ends-ok_or (elements_of page_tokens heads value_dim) _ _ λ vs _.
          Ends-bind _ _ (zeroed_vec-Ends ks "key page storage")
            λ keys _. Ends-bind _ _ (zeroed_vec-Ends vs "value page storage") λ values _. ended _ tt

  new_table-Ends :
      (made : Result Fault KvPage) (eager : Bool) (n : ℕ)
      → Ends Any made
      → Ends Any (new_table has_room made eager n)
  unfolding new_table
  new_table-Ends made eager zero h = ended _ tt
  new_table-Ends made false (suc n) h =
      Ends-bind _ _ (new_table-Ends made false n h) λ rest _. ended _ tt
  new_table-Ends made true (suc n) h =
      Ends-bind _ _ h λ p _. Ends-bind _ _ (new_table-Ends made true n h) λ rest _. ended _ tt

  new_tables-Ends :
      (made : Result Fault KvPage) (eager : Bool) (n layers : ℕ)
      → Ends Any made
      → Ends Any (new_tables has_room made eager n layers)
  unfolding new_tables
  new_tables-Ends made eager n zero h = ended _ tt
  new_tables-Ends made eager n (suc layers) h = Ends-guard (has_room "page table" n) _ _ λ _.
      Ends-bind _ _ (new_table-Ends made eager n h)
        λ table _. Ends-bind _ _ (new_tables-Ends made eager n layers h) λ rest _. ended _ tt

  zero_check-Ends : (fields : List (String × ℕ)) → Ends Any (zero_check fields)
  unfolding zero_check
  zero_check-Ends [] = ended _ tt
  zero_check-Ends ((name, value) ∷ fields) = elim (Bool-cases (value == 0)) [
    | inl e ↦ rw (e, zero_check) (failed (zero_parameter name))
    | inr e ↦ rw (e, zero_check) (zero_check-Ends fields)
  ]

  -- A new cache is made or refused.
  pub new-Ends :
      (layers heads key_dim value_dim page_tokens capacity : ℕ) (eager : Bool)
      → Ends Any
          (new_with_allocation has_room layers heads key_dim value_dim page_tokens capacity eager)
  unfolding new_with_allocation
  new-Ends layers heads key_dim value_dim page_tokens capacity eager =
      let fields : List (String × ℕ) =
        parameters layers heads key_dim value_dim page_tokens capacity in
      let made = new_page-Ends page_tokens heads key_dim value_dim in
      Ends-bind (zero_check fields) _ (zero_check-Ends fields) λ _ _.
        Ends-ok_or (checked_add capacity (page_tokens - 1)) _ _ λ rounded _.
          Ends-guard (has_room "layer page tables" layers) _ _ λ _.
            Ends-bind _ _ (new_tables-Ends _ eager (rounded / page_tokens) layers made) λ tables _.
              Ends-bind _ _ (zeroed_vec-Ends layers "layer lengths") λ lengths _. ended _ tt
