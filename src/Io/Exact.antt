-- ===== src/Io/Exact.antt =====
-- The bytes that positioned reads return.
use light_bridge_engine.Base.{
  ℕ, zero, suc, ◌+◌, ◌-◌, ◌≤◌, ◌≡◌, refl, sym, List, [], ◌∷◌, ◌++◌, Bool, true, false, none, some,
  ltb, Result, ok, err, length, take, drop, slice, checked_add, checked_add-some, arith,
  Option-cases, Bool-cases, Result-cases, inl, inr, length-append, take_add, drop-drop, subst,
}
use light_bridge_engine.Io.{
  PositionedFile, Filled, after_read, after_flag, fill, start_fill, validate_range,
  read_exact_at_into, read_exact_at,
}

validate_range-ok :
    {E : Type 0} (f : PositionedFile) (start end want : ℕ)
    → validate_range {E = E} f start end ≡ ok want
    → want ≡ end - start
unfolding validate_range
validate_range-ok f start end want h = ground arith

module _ {W E : Type 0} (is_cancelled : W → W × Bool)
    (read_at_once : W → ℕ → ℕ → W × Result E (List ℕ)) where
  -- What the platform promises of a read: it serves a run of the file's bytes from the offset, and
  -- no more of them than there is room for.
  abbrev pub Serves : List ℕ → Type 0
  Serves content =
      (w : W) (room offset : ℕ) (w' : W) (bytes : List ℕ)
      → read_at_once w room offset ≡ (w', ok bytes)
      → (bytes ≡ take (length bytes) (drop offset content)) × (length bytes ≤ room)

  module _ (content : List ℕ) (serves : Serves content) where
    -- If bytes are returned, they are as many as are wanted, from the offset on.
    abbrev Exact : ℕ → ℕ → Filled W E → Type 0
    Exact offset want none = Unit
    Exact offset want (some (w, err e)) = Unit
    Exact offset want (some (w, ok bytes)) =
        (bytes ≡ take want (drop offset content)) × (length bytes ≡ want)

    -- The bytes so far.
    abbrev Begun : ℕ → ℕ → List ℕ → Type 0
    Begun offset want done =
        (done ≡ take (length done) (drop offset content)) × (length done ≤ want)

    Begun-more :
        (offset want : ℕ) (done bytes : List ℕ) (current : ℕ)
        → current ≡ offset + length done
        → bytes ≡ take (length bytes) (drop current content)
        → length bytes ≤ want - length done
        → Begun offset want done
        → Begun offset want (done ++ bytes)
    Begun-more offset want done bytes current e read fits begun =
        let long = length-append done bytes in
        (
          rw
              (
                long,
                take_add (length done) (length bytes) (drop offset content),
                drop-drop offset (length done) content,
                sym e,
                sym read,
                sym begun.0,
              )
              refl,
          omega (arith, begun.1),
        )

    after_read-Exact :
        (next : List ℕ → W → Filled W E) (offset want : ℕ) (done : List ℕ) (current : ℕ) (w : W)
        (out : W × Result E (List ℕ))
        → read_at_once w (want - length done) current ≡ out
        → current ≡ offset + length done
        → Begun offset want done
        → ((more : List ℕ) (w : W) → Begun offset want more → Exact offset want (next more w))
        → Exact offset want (after_read next offset want done current out)
    unfolding after_read
    after_read-Exact next offset want done current w (w', err e) read c begun rest = tt
    after_read-Exact next offset want done current w (w', ok []) read c begun rest = tt
    after_read-Exact next offset want done current w (w', ok (b ∷ bytes)) read c begun rest =
        elim (Option-cases (checked_add (length done) (length (b ∷ bytes)))) [
          | inl e ↦ rw (after_read, e) tt
          | inr (n, e) ↦
              let (run, fits) = serves w (want - length done) current w' (b ∷ bytes) read in
              rw (after_read, e)
                (rest (done ++ b ∷ bytes) w'
                  (Begun-more offset want done (b ∷ bytes) current c run fits begun))
        ]

    after_flag-Exact :
        (next : List ℕ → W → Filled W E) (offset want : ℕ) (done : List ℕ) (flag : W × Bool)
        → Begun offset want done
        → ((more : List ℕ) (w : W) → Begun offset want more → Exact offset want (next more w))
        → Exact offset want (after_flag read_at_once next offset want done flag)
    unfolding after_flag
    after_flag-Exact next offset want done (w, true) begun rest = tt
    after_flag-Exact next offset want done (w, false) begun rest =
        elim (Option-cases (checked_add offset (length done))) [
          | inl e ↦ rw (after_flag, e) tt
          | inr (current, e) ↦
              let c = (checked_add-some offset (length done) current e).0 in
              rw (after_flag, e)
                (after_read-Exact next offset want done current w _ refl c begun rest)
        ]

    fill-Exact :
        (fuel offset want : ℕ) (done : List ℕ) (w : W)
        → Begun offset want done
        → Exact offset want (fill is_cancelled read_at_once fuel offset want done w)
    unfolding fill
    fill-Exact zero offset want done w begun = elim (Bool-cases (ltb (length done) want)) [
      | inl more ↦ rw (fill, more) tt
      | inr full ↦
          let size : length done ≡ want = ground (arith, begun.1) in
          rw (fill, full) (subst (λ n. done ≡ take n (drop offset content)) size begun.0, size)
    ]
    fill-Exact (suc fuel) offset want done w begun = elim (Bool-cases (ltb (length done) want)) [
      | inr full ↦
          let size : length done ≡ want = ground (arith, begun.1) in
          rw (fill, full) (subst (λ n. done ≡ take n (drop offset content)) size begun.0, size)
      | inl more ↦
          rw (fill, more)
            (after_flag-Exact (fill is_cancelled read_at_once fuel offset want) offset want done
              (is_cancelled w) begun (λ more w h. fill-Exact fuel offset want more w h))
    ]

    start_fill-Exact :
        (offset want : ℕ) (flag : W × Bool)
        → Exact offset want (start_fill is_cancelled read_at_once offset want flag)
    unfolding start_fill
    start_fill-Exact offset want (w, true) = tt
    start_fill-Exact offset want (w, false) = fill-Exact want offset want [] w (refl, omega arith)

    read_exact_at_into-Exact :
        (f : PositionedFile) (offset want : ℕ) (w : W)
        → Exact offset want (read_exact_at_into is_cancelled read_at_once f offset want w)
    unfolding read_exact_at_into
    read_exact_at_into-Exact f offset want w = elim (Option-cases (checked_add offset want)) [
      | inl e ↦ rw (read_exact_at_into, e) tt
      | inr (end, e) ↦ elim (Result-cases (validate_range {E = E} f offset end)) [
        | inl (n, v) ↦ rw (read_exact_at_into, e, v) (start_fill-Exact offset want (is_cancelled w))
        | inr (x, v) ↦ rw (read_exact_at_into, e, v) tt
      ]
    ]

    read_exact_at-Exact :
        (has_room : ℕ → Bool) (f : PositionedFile) (start end : ℕ) (w : W)
        → Exact start (end - start) (read_exact_at is_cancelled read_at_once has_room f start end w)
    unfolding read_exact_at
    read_exact_at-Exact has_room f start end w =
        elim (Result-cases (validate_range {E = E} f start end)) [
          | inr (x, v) ↦ rw (read_exact_at, v) tt
          | inl (want, v) ↦
              let size : want ≡ end - start = validate_range-ok f start end want v in
              elim (Bool-cases (has_room want)) [
                | inl room ↦
                    rw (read_exact_at, v, room)
                      (rw (sym size) (read_exact_at_into-Exact f start want w))
                | inr full ↦ rw (read_exact_at, v, full) tt
              ]
        ]

    -- On a platform whose reads serve runs of the file's bytes, however short, a positioned read
    -- that returns bytes returns exactly those of the range that was asked for, all of them.
    pub read_exact_at-exact :
        (has_room : ℕ → Bool) (f : PositionedFile) (start end : ℕ) (w w' : W) (bytes : List ℕ)
        → read_exact_at is_cancelled read_at_once has_room f start end w ≡ some (w', ok bytes)
        → (bytes ≡ slice start end content) × (length bytes ≡ end - start)
    read_exact_at-exact has_room f start end w w' bytes h =
        subst (Exact start (end - start)) h (read_exact_at-Exact has_room f start end w)
