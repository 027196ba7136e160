-- ===== src/Io/Reads.antt =====
-- Positioned reads end, and return the bytes of the file or an error.
use light_bridge_engine.Base.{
  ℕ, zero, suc, ◌+◌, ◌≤◌, ◌<◌, ◌≡◌, refl, List, [], ◌∷◌, ◌++◌, Bool, true, false, some, ltb, Result,
  ok, err, length, checked_add, arith, Option-cases, Bool-cases, Result-cases, inl, inr,
  length-append,
}
use light_bridge_engine.Io.{
  ReadError, PositionedFile, Filled, after_read, after_flag, fill, start_fill, validate_range,
  read_exact_at_into, read_exact_at,
}

module _ {W E : Type 0} (is_cancelled : W → W × Bool)
    (read_at_once : W → ℕ → ℕ → W × Result E (List ℕ)) where
  abbrev Ends : Filled W E → Type 0
  Ends out = (r : W × Result (ReadError E) (List ℕ)) × (out ≡ some r)

  after_read-Ends :
      (next : List ℕ → W → Filled W E) (offset want : ℕ) (done : List ℕ) (current : ℕ)
      (out : W × Result E (List ℕ))
      → ((more : List ℕ) (w : W) → length done < length more → Ends (next more w))
      → Ends (after_read next offset want done current out)
  unfolding after_read
  after_read-Ends next offset want done current (w, err e) rest = (_, refl)
  after_read-Ends next offset want done current (w, ok []) rest = (_, refl)
  after_read-Ends next offset want done current (w, ok (b ∷ bytes)) rest =
      elim (Option-cases (checked_add (length done) (length (b ∷ bytes)))) [
        | inl e ↦ rw (after_read, e) (_, refl)
        | inr (n, e) ↦
            rw (after_read, e)
              (rest (done ++ b ∷ bytes) w (omega (arith, length-append done (b ∷ bytes))))
      ]

  after_flag-Ends :
      (next : List ℕ → W → Filled W E) (offset want : ℕ) (done : List ℕ) (flag : W × Bool)
      → ((more : List ℕ) (w : W) → length done < length more → Ends (next more w))
      → Ends (after_flag read_at_once next offset want done flag)
  unfolding after_flag
  after_flag-Ends next offset want done (w, true) rest = (_, refl)
  after_flag-Ends next offset want done (w, false) rest =
      elim (Option-cases (checked_add offset (length done))) [
        | inl e ↦ rw (after_flag, e) (_, refl)
        | inr (current, e) ↦
            rw (after_flag, e) (after_read-Ends next offset want done current _ rest)
      ]

  fill-Ends :
      (fuel offset want : ℕ) (done : List ℕ) (w : W)
      → want ≤ length done + fuel
      → Ends (fill is_cancelled read_at_once fuel offset want done w)
  unfolding fill
  fill-Ends zero offset want done w enough = elim (Bool-cases (ltb (length done) want)) [
    | inl more ↦ absurd (ground arith)
    | inr full ↦ rw (fill, full) (_, refl)
  ]
  fill-Ends (suc fuel) offset want done w enough = elim (Bool-cases (ltb (length done) want)) [
    | inr full ↦ rw (fill, full) (_, refl)
    | inl more ↦
        rw (fill, more)
          (after_flag-Ends (fill is_cancelled read_at_once fuel offset want) offset want done
            (is_cancelled w) (λ more w h. fill-Ends fuel offset want more w (omega arith)))
  ]

  start_fill-Ends :
      (offset want : ℕ) (flag : W × Bool)
      → Ends (start_fill is_cancelled read_at_once offset want flag)
  unfolding start_fill
  start_fill-Ends offset want (w, true) = (_, refl)
  start_fill-Ends offset want (w, false) = fill-Ends want offset want [] w (omega arith)

  read_exact_at_into-Ends :
      (f : PositionedFile) (offset want : ℕ) (w : W)
      → Ends (read_exact_at_into is_cancelled read_at_once f offset want w)
  unfolding read_exact_at_into
  read_exact_at_into-Ends f offset want w = elim (Option-cases (checked_add offset want)) [
    | inl e ↦ rw (read_exact_at_into, e) (_, refl)
    | inr (end, e) ↦ elim (Result-cases (validate_range {E = E} f offset end)) [
      | inl (n, v) ↦ rw (read_exact_at_into, e, v) (start_fill-Ends offset want (is_cancelled w))
      | inr (x, v) ↦ rw (read_exact_at_into, e, v) (_, refl)
    ]
  ]

  -- Whatever the system does, a positioned read ends, with bytes or with an error.
  pub read_exact_at-Ends :
      (has_room : ℕ → Bool) (f : PositionedFile) (start end : ℕ) (w : W)
      → (r : W × Result (ReadError E) (List ℕ)) × (read_exact_at is_cancelled read_at_once has_room
            f start end w
          ≡ some r)
  unfolding read_exact_at
  read_exact_at-Ends has_room f start end w =
      elim (Result-cases (validate_range {E = E} f start end)) [
        | inr (x, v) ↦ rw (read_exact_at, v) (_, refl)
        | inl (want, v) ↦ elim (Bool-cases (has_room want)) [
          | inl room ↦ rw (read_exact_at, v, room) (read_exact_at_into-Ends f start want w)
          | inr full ↦ rw (read_exact_at, v, full) (_, refl)
        ]
      ]
