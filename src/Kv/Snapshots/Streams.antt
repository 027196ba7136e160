-- ===== src/Kv/Snapshots/Streams.antt =====
-- The rows of a layer as the bytes that a snapshot has of them, and the buffers that they are read
-- into.
use light_bridge_engine.Base.{
  ℕ, zero, suc, ◌+◌, ◌*◌, ◌≤◌, ◌<◌, ◌≡◌, refl, sym, ap, ◌∙◌, List, [], ◌∷◌, ◌++◌, ok, length, take,
  drop, arith, word_modulus, All,
}
use light_bridge_engine.Base.{
  length-append, length-take, length-drop, append_assoc, take_add, take-length-append,
}
use light_bridge_engine.Kv.Types.{F32}
use light_bridge_engine.Kv.Rows.{copy_row}
use light_bridge_engine.Kv.Blocks.{take-append_right}
use light_bridge_engine.Kv.Slices.{copy_row-ok}
use light_bridge_engine.Kv.Snapshots.Export.{encode_row}

-- A row of a flat list.
abbrev pub row_at : ℕ → ℕ → List F32 → List F32
row_at n i xs = take n (drop (i * n) xs)

-- So many rows from one on, a key's before its value's.
unfoldable pub rows_stream : ℕ → ℕ → List F32 → List F32 → ℕ → ℕ → List ℕ
rows_stream k v xs ys i zero = []
rows_stream k v xs ys i (suc n) =
    encode_row (row_at k i xs) ++ (encode_row (row_at v i ys) ++ rows_stream k v xs ys (suc i) n)

pub rows_stream_add :
    (k v : ℕ) (xs ys : List F32) (i m n : ℕ)
    → rows_stream k v xs ys i (m + n) ≡ rows_stream k v xs ys i m ++ rows_stream k v xs ys (i + m) n
unfolding rows_stream
rows_stream_add k v xs ys i zero n =
    let a : 0 + n ≡ n = omega arith in let b : i + 0 ≡ i = omega arith in rw (a, b) refl
rows_stream_add k v xs ys i (suc m) n =
    let a : suc m + n ≡ suc (m + n) = omega arith in
    let b : i + suc m ≡ suc i + m = omega arith in
    let one : List ℕ = encode_row (row_at k i xs) in
    let two : List ℕ = encode_row (row_at v i ys) in
    let rest : List ℕ = rows_stream k v xs ys (suc i) m in
    let more : List ℕ = rows_stream k v xs ys (suc i + m) n in
    rw (a, b)
      (ap (λ zs. one ++ (two ++ zs)) (rows_stream_add k v xs ys (suc i) m n)
        ∙ ap (◌++◌ one) (sym (append_assoc two rest more))
        ∙ sym (append_assoc one (two ++ rest) more))

pub All-row : (P : F32 → Type 0) (n a : ℕ) (xs : List F32) → All P xs → All P (take n (drop a xs))
All-row P zero a xs all = tt
All-row P (suc n) zero [] all = tt
All-row P (suc n) zero (x ∷ xs) all = (all.0, All-row P n 0 xs all.1)
All-row P (suc n) (suc a) [] all = tt
All-row P (suc n) (suc a) (x ∷ xs) all = All-row P (suc n) a xs all.1

-- A row that is copied into a buffer behind those that are there.
pub copy-next :
    (n head size : ℕ) (row buffer target : List F32)
    → length buffer ≡ size
    → size < word_modulus
    → head * n + n ≤ size
    → length row ≡ n
    → row ≡ row_at n head target
    → take (head * n) buffer ≡ take (head * n) target
    → (buffer' : List F32) × (copy_row (head * n) n row buffer ≡ ok buffer')
      × (length buffer' ≡ size)
      × (take (suc head * n) buffer' ≡ take (suc head * n) target)
copy-next n head size row buffer target whole small within row_size is_row before =
    let start : ℕ = head * n in
    let front : List F32 = take start buffer in
    let back : List F32 = drop (start + n) buffer in
    let front_size : length front ≡ start = omega (arith, length-take start buffer) in
    let end : suc head * n ≡ length front + n = grind arith in
    let target_end : suc head * n ≡ start + n = grind arith in
    (
      front ++ row ++ back,
      copy_row-ok start n row buffer row_size (rw whole within) (rw whole small),
      omega (
        arith,
        length-append {0} (front ++ row) back,
        length-append {0} front row,
        length-drop {0} (start + n) buffer,
      ),
      ap (λ (m : ℕ). take m (front ++ row ++ back)) end
          ∙ ap (take (length front + n)) (append_assoc front row back)
          ∙ take-append_right n front (row ++ back)
          ∙ ap (◌++◌ front)
              (ap (λ (m : ℕ). take m (row ++ back)) (sym row_size) ∙ take-length-append row back)
          ∙ ap (λ zs. zs ++ row) before
          ∙ ap (◌++◌ (take start target)) is_row
          ∙ sym (take_add start n target)
          ∙ ap (λ (m : ℕ). take m target) (sym target_end),
    )
