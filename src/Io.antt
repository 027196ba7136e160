-- ===== src/Io.antt =====
-- crates/bridge-io-windows/src/lib.rs: bounded positioned reads. The file behind a handle is the
-- platform's `read_at_once`, which may serve fewer bytes than it is asked for; the flag that cancels
-- a read belongs to another thread, so every look at it may differ.
pub mod Reads
pub mod Exact
use light_bridge_engine.Base.{
  ℕ, zero, suc, ◌+◌, ◌-◌, List, [], ◌∷◌, ◌++◌, Bool, true, false, Option, none, some, ltb, ◌==◌,
  if◌then◌else◌, Result, ok, err, length, checked_add,
}

-- The path in the errors is left out, since a handle has one path.
pub data ReadError (E : Type 0) : Type 0 where
  zero_request_limit : ReadError E
  open_failed : E → ReadError E
  metadata_failed : E → ReadError E
  not_a_file : ReadError E
  -- The start and the end.
  inverted_range : ℕ → ℕ → ReadError E
  -- The start, the end and the length of the file.
  range_out_of_bounds : ℕ → ℕ → ℕ → ReadError E
  -- The size asked for and the limit.
  request_too_large : ℕ → ℕ → ReadError E
  read_failed : ℕ → E → ReadError E
  -- The offset, and the bytes expected and read.
  unexpected_eof : ℕ → ℕ → ℕ → ReadError E
  cancelled : ReadError E
  arithmetic_overflow : ReadError E
  allocation_failed : ℕ → ReadError E

-- The length when the file was opened, and the limit on one request.
pub record PositionedFile : Type 0 where
  pub file_length : ℕ
  pub max_request_bytes : ℕ

-- What the system says of a path that is opened: the handle's error, or the metadata's error, or
-- whether it is a regular file and how long it is.
abbrev pub Opened : Type 0 → Type 0
Opened E = Result E (Result E (Bool × ℕ))

unfoldable pub open_with : {E : Type 0} → ℕ → Opened E → Result (ReadError E) PositionedFile
open_with limit opened = if limit == 0 then err zero_request_limit else elim opened [
  | err e ↦ err (open_failed e)
  | ok (err e) ↦ err (metadata_failed e)
  | ok (ok (false, n)) ↦ err not_a_file
  | ok (ok (true, n)) ↦ ok (record { file_length = n; max_request_bytes = limit })
]

unfoldable pub validate_range : {E : Type 0} → PositionedFile → ℕ → ℕ → Result (ReadError E) ℕ
validate_range f start end =
    if ltb end start
    then err (inverted_range start end)
    else (if ltb f.file_length end
        then err (range_out_of_bounds start end f.file_length)
        else (if ltb f.max_request_bytes (end - start)
            then err (request_too_large (end - start) f.max_request_bytes)
            else ok (end - start)))

-- The loop's result, with the state of the system; nothing where the fuel ends before the loop.
abbrev pub Filled : Type 0 → Type 0 → Type 0
Filled W E = Option (W × Result (ReadError E) (List ℕ))

module _ {W E : Type 0} where
  unfoldable pub after_read :
      (List ℕ → W → Filled W E) → ℕ → ℕ → List ℕ → ℕ → W × Result E (List ℕ) → Filled W E
  after_read next offset want done current (w, err e) = some (w, err (read_failed current e))
  after_read next offset want done current (w, ok []) =
      some (w, err (unexpected_eof offset want (length done)))
  after_read next offset want done current (w, ok (b ∷ bytes)) =
      elim (checked_add (length done) (length (b ∷ bytes))) [
        | none ↦ some (w, err arithmetic_overflow)
        | some completed ↦ next (done ++ b ∷ bytes) w
      ]

  unfoldable pub after_flag :
      (W → ℕ → ℕ → W × Result E (List ℕ))
      → (List ℕ → W → Filled W E)
      → ℕ
      → ℕ
      → List ℕ
      → W × Bool
      → Filled W E
  unfolding after_read
  after_flag read_at_once next offset want done (w, true) = some (w, err cancelled)
  after_flag read_at_once next offset want done (w, false) =
      elim (checked_add offset (length done)) [
        | none ↦ some (w, err arithmetic_overflow)
        | some current ↦
            after_read next offset want done current (read_at_once w (want - length done) current)
      ]

-- The rest of the system: its state, the flag, and a read of at most so many bytes at an offset.
module _ {W E : Type 0} (is_cancelled : W → W × Bool)
    (read_at_once : W → ℕ → ℕ → W × Result E (List ℕ)) where
  -- The loop of `read_exact_at_into`, with the bytes that are completed.
  unfoldable pub fill : ℕ → ℕ → ℕ → List ℕ → W → Filled W E
  unfolding after_flag
  fill zero offset want done w = if ltb (length done) want then none else some (w, ok done)
  fill (suc fuel) offset want done w = elim (ltb (length done) want) [
    | false ↦ some (w, ok done)
    | true ↦ after_flag read_at_once (fill fuel offset want) offset want done (is_cancelled w)
  ]

  -- What follows the first look at the flag.
  unfoldable pub start_fill : ℕ → ℕ → W × Bool → Filled W E
  unfolding fill
  start_fill offset want (w, true) = some (w, err cancelled)
  start_fill offset want (w, false) = fill want offset want [] w

  -- `read_exact_at_into` for a buffer of so many bytes. Every round of the loop that goes on reads
  -- a byte or more, so its fuel is the size of the buffer.
  unfoldable pub read_exact_at_into : PositionedFile → ℕ → ℕ → W → Filled W E
  unfolding start_fill
  read_exact_at_into f offset want w = elim (checked_add offset want) [
    | none ↦ some (w, err arithmetic_overflow)
    | some end ↦ elim (validate_range {E = E} f offset end) [
      | err e ↦ some (w, err e)
      | ok n ↦ start_fill offset want (is_cancelled w)
    ]
  ]

  -- The allocator has room for a buffer, or it has not.
  unfoldable pub read_exact_at : (ℕ → Bool) → PositionedFile → ℕ → ℕ → W → Filled W E
  unfolding read_exact_at_into
  read_exact_at has_room f start end w = elim (validate_range {E = E} f start end) [
    | err e ↦ some (w, err e)
    | ok want ↦
        if has_room want
        then read_exact_at_into f start want w
        else some (w, err (allocation_failed want))
  ]
