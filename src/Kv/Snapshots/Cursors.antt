-- ===== src/Kv/Snapshots/Cursors.antt =====
-- What a snapshot's cursor reads of bytes that were written.
use light_bridge_engine.Base.{
  ℕ, zero, suc, ◌+◌, ◌-◌, ◌/◌, ◌≤◌, ◌<◌, ◌≡◌, refl, sym, ap, ◌∙◌, List, [], ◌∷◌, ◌++◌, true, String,
  ok, length, drop, arith, word_modulus, All, leb, ◌==◌, ==_iff,
}
use light_bridge_engine.Base.{
  length-append, length-drop, drop-drop, map, take-length-append, drop-length-append,
  checked_add-fits, append_assoc, le→leb, ◌^◌,
}
use light_bridge_engine.Base.Bytes.{to_le_bytes, from_le_bytes-to_le_bytes}
use light_bridge_engine.Kv.Types.{F32}
use light_bridge_engine.Kv.Snapshots.Restore.{
  SnapshotCursor, Read, cursor_take, cursor_word, cursor_lanes, read_lengths, check_configuration,
}
use light_bridge_engine.Kv.Snapshots.Export.{encode_row, encode_words}

-- The bytes that a cursor has before it.
abbrev pub At : SnapshotCursor → List ℕ → Type 0
At cur rest =
    (drop cur.offset cur.bytes ≡ rest)
    × (cur.offset ≤ length cur.bytes)
    × (length cur.bytes < word_modulus)

-- A read gives a value and leaves the rest.
abbrev pub ReadsTo : {A : Type 0} → Read A → A → List ℕ → Type 0
ReadsTo r a rest = (cur : SnapshotCursor) × (r ≡ ok (a, cur)) × At cur rest

cursor_take-At :
    (cur : SnapshotCursor) (xs rest : List ℕ)
    → At cur (xs ++ rest)
    → ReadsTo (cursor_take cur (length xs)) xs rest
unfolding cursor_take
cursor_take-At cur xs rest (before, within, small) =
    let n : ℕ = length xs in
    let size : length cur.bytes - cur.offset ≡ n + length rest =
      sym (length-drop cur.offset cur.bytes) ∙ ap length before ∙ length-append xs rest in
    let inside : cur.offset + n ≤ length cur.bytes = omega arith in
    let sum = checked_add-fits cur.offset n (omega arith) in
    let test : leb (cur.offset + n) (length cur.bytes) ≡ true = le→leb _ _ inside in
    let span : cur.offset + n - cur.offset ≡ n = omega arith in
    (
      record cur { offset = cur.offset + n },
      rw (sum, test, span, before, take-length-append xs rest) refl,
      (
        sym (drop-drop cur.offset n cur.bytes) ∙ ap (drop n) before ∙ drop-length-append xs rest,
        inside,
        small,
      ),
    )

pub length-to_le_bytes : (n v : ℕ) → length (to_le_bytes n v) ≡ n
unfolding to_le_bytes
length-to_le_bytes zero v = refl
length-to_le_bytes (suc n) v = ap suc (length-to_le_bytes n (v / 256))

-- Bytes of a given length.
pub take-At :
    (cur : SnapshotCursor) (n : ℕ) (xs rest : List ℕ)
    → length xs ≡ n
    → At cur (xs ++ rest)
    → ReadsTo (cursor_take cur n) xs rest
take-At cur n xs rest size at = rw size at (cursor_take-At cur xs rest at)

pub word-At :
    (cur : SnapshotCursor) (n v : ℕ) (rest : List ℕ)
    → v < 256 ^ n
    → At cur (to_le_bytes n v ++ rest)
    → ReadsTo (cursor_word cur n) v rest
unfolding cursor_word
word-At cur n v rest small at =
    let (cur', taken, after) = take-At cur n (to_le_bytes n v) rest (length-to_le_bytes n v) at in
    (cur', rw (taken, from_le_bytes-to_le_bytes n v small) refl, after)

-- What a row of floats is read back as.
pub lanes-At :
    (cur : SnapshotCursor) (xs : List F32) (rest : List ℕ)
    → All (λ x. x < 256 ^ 4) xs
    → At cur (encode_row xs ++ rest)
    → ReadsTo (cursor_lanes cur (length xs)) xs rest
unfolding cursor_lanes encode_row
lanes-At cur [] rest small at = (cur, refl, at)
lanes-At cur (x ∷ xs) rest small at =
    let (one, first, at1) =
      word-At cur 4 x (encode_row xs ++ rest) small.0
        (rw (append_assoc (to_le_bytes 4 x) (encode_row xs) rest) at at) in
    let (end, others, at2) = lanes-At one xs rest small.1 at1 in (end, rw (first, others) refl, at2)

-- The configuration is read back where it is the same.
pub configuration-At :
    (cur : SnapshotCursor) (fields : List (String × ℕ)) (rest : List ℕ)
    → All (λ (f : String × ℕ). f.1 < word_modulus) fields
    → At cur (encode_words (map (λ (f : String × ℕ). f.1) fields) ++ rest)
    → ReadsTo (check_configuration cur fields) tt rest
unfolding check_configuration encode_words
configuration-At cur [] rest small at = (cur, refl, at)
configuration-At cur ((name, v) ∷ fields) rest small at =
    let words : List ℕ = encode_words (map (λ (f : String × ℕ). f.1) fields) in
    let (one, first, at1) =
      word-At cur 8 v (words ++ rest) small.0
        (rw (append_assoc (to_le_bytes 8 v) words rest) at at) in
    let (end, others, at2) = configuration-At one fields rest small.1 at1 in
    let same : (v == v) ≡ true = (==_iff v v).1 refl in (end, rw (first, same) others, at2)

pub lengths-At :
    (capacity : ℕ) (cur : SnapshotCursor) (layer : ℕ) (lengths rest : List ℕ)
    → capacity < word_modulus
    → All (λ n. n ≤ capacity) lengths
    → At cur (encode_words lengths ++ rest)
    → ReadsTo (read_lengths capacity cur layer (length lengths)) lengths rest
unfolding read_lengths encode_words
lengths-At capacity cur layer [] rest fits small at = (cur, refl, at)
lengths-At capacity cur layer (n ∷ lengths) rest fits small at =
    let within : n ≤ capacity = small.0 in
    let (one, first, at1) =
      word-At cur 8 n (encode_words lengths ++ rest) (omega arith)
        (rw (append_assoc (to_le_bytes 8 n) (encode_words lengths) rest) at at) in
    let (end, others, at2) = lengths-At capacity one (suc layer) lengths rest fits small.1 at1 in
    let test : leb n capacity ≡ true = le→leb _ _ within in
    (end, rw (first, test, others) refl, at2)
