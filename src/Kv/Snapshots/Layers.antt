-- ===== src/Kv/Snapshots/Layers.antt =====
-- The rows of the layers are read back and appended, one token at a time.
use native.Mathlib.Nat.{mul_assoc, add-mul, mul-le-mul_right}
use light_bridge_engine.Base.{
  ℕ, zero, suc, ◌+◌, ◌*◌, ◌≤◌, ◌<◌, ◌≡◌, refl, ap, ◌∙◌, subst, List, [], ◌∷◌, ◌++◌, Bool, true,
  some, String, ok, length, get_elem?, drop, arith, get_elem?-some, word_modulus,
}
use light_bridge_engine.Base.{append_assoc}
use light_bridge_engine.Kv.Types.{
  F32, PagedKvCache, after, Part, of_keys, of_values, dimension, pick,
}
use light_bridge_engine.Kv.Rows.{append}
use light_bridge_engine.Kv.Tables.{page_size}
use light_bridge_engine.Kv.Views.{CacheIsValid, per_token, tokens_of, view, get_or-eq}
use light_bridge_engine.Kv.Types.{Sizes, sizes}
use light_bridge_engine.Kv.Snapshots.Cursors.{At, ReadsTo}
use light_bridge_engine.Kv.Snapshots.Streams.{rows_stream, rows_stream_add}
use light_bridge_engine.Kv.Snapshots.Progress.{
  Filled, AreRows, token_rows, length-token_rows, next-Appendable, next-Filled, layer-Filled,
}
use light_bridge_engine.Kv.Snapshots.Singles.{length-view, pages_fit, append_one}
use light_bridge_engine.Kv.Snapshots.Restore.{
  SnapshotCursor, read_heads, finished, read_tokens, read_layers,
}
use light_bridge_engine.Kv.Snapshots.Tokens.{heads-At, nothing_yet}

-- The bytes of a layer's rows, and of all layers from one on.
abbrev pub layer_stream : PagedKvCache → ℕ → ℕ → ℕ → List ℕ
layer_stream c layer i n =
    rows_stream c.key_dimension c.value_dimension (view c of_keys layer) (view c of_values layer) i
      n

unfoldable pub layers_stream : PagedKvCache → ℕ → List ℕ → List ℕ
layers_stream c layer [] = []
layers_stream c layer (n ∷ lengths) =
    layer_stream c layer 0 (n * c.kv_head_count) ++ layers_stream c (suc layer) lengths

nil-ne-cons : {y : ℕ} {ys : List ℕ} → [] ≡ y ∷ ys → ⊥
nil-ne-cons h = cc

pub drop-cons :
    (xs : List ℕ) (i y : ℕ) (ys : List ℕ)
    → drop i xs ≡ y ∷ ys
    → (get_elem? xs i ≡ some y) × (drop (suc i) xs ≡ ys)
drop-cons [] zero y ys h = absurd (nil-ne-cons h)
drop-cons [] (suc i) y ys h = absurd (nil-ne-cons h)
drop-cons (x ∷ xs) zero y ys h = (cc, cc)
drop-cons (x ∷ xs) (suc i) y ys h = drop-cons xs i y ys h

module _ (has_room : String → ℕ → Bool) (grants : (name : String) (n : ℕ) → has_room name n ≡ true)
    (c : PagedKvCache) (valid : CacheIsValid c) (are : AreRows c) where
  token-small : (part : Part) → page_size part c < word_modulus → per_token part c < word_modulus
  token-small part fit =
      let whole : page_size part c ≡ c.page_tokens * per_token part c =
        mul_assoc c.page_tokens c.kv_head_count (dimension part c) in
      let holds : 1 ≤ c.page_tokens = valid.holds in
      omega (arith, mul-le-mul_right (per_token part c) holds)

  token-within :
      (part : Part) (layer t : ℕ)
      → layer < c.layer_count
      → t < tokens_of c layer
      → (t * c.kv_head_count + c.kv_head_count) * dimension part c ≤ length (view c part layer)
  token-within part layer t inside more =
      let n : ℕ = dimension part c in
      let heads : ℕ = c.kv_head_count in
      let per : ℕ = heads * n in
      let whole = length-view c part layer valid inside in
      let span : (t * heads + heads) * n ≡ t * per + per = simp (add-mul, mul_assoc) in
      let room : t * per + per ≤ tokens_of c layer * per = grind arith in omega arith

  -- One token is read and appended.
  token-At :
      (r : PagedKvCache) (cur : SnapshotCursor) (keys values : List F32) (layer t : ℕ)
      (rest : List ℕ)
      → layer < c.layer_count
      → t < tokens_of c layer
      → Filled c layer t r
      → length keys ≡ per_token of_keys c
      → length values ≡ per_token of_values c
      → At cur (layer_stream c layer (t * c.kv_head_count) c.kv_head_count ++ rest)
      → ReadsTo
          (read_heads (sizes c) cur keys values 0 c.kv_head_count)
          (token_rows c of_keys layer t, token_rows c of_values layer t)
          rest
        × ((r' : PagedKvCache) × (finished (
                append has_room r layer
                  (token_rows c of_keys layer t)
                  (token_rows c of_values layer t))
              ≡ ok r')
            × Filled c layer (suc t) r')
  token-At r cur keys values layer t rest inside more filled ks vs at =
      let base : ℕ = t * c.kv_head_count in
      let heads : ℕ = c.kv_head_count in
      let (n, here) = get_elem?-some c.lengths layer (omega (arith, valid.counted)) in
      let (table, there) = get_elem?-some c.pages layer (omega (arith, valid.tabled)) in
      let known = get_or-eq c.lengths layer 0 n here in
      let capacity : tokens_of c layer ≤ c.token_capacity =
        rw known (valid.tables layer n table here there).0 in
      let fit : (part : Part) → page_size part c < word_modulus =
        λ part. pages_fit c part layer valid inside (omega arith) in
      let small : (part : Part) → per_token part c < word_modulus =
        λ part. token-small part (fit part) in
      let room : (part : Part) → (base + heads) * dimension part c ≤ length (view c part layer) =
        λ part. token-within part layer t inside more in
      let first : base ≡ base + 0 = omega arith in
      let rows_read =
        heads-At c (view c of_keys layer) (view c of_values layer) base (small of_keys)
          (small of_values) (room of_keys) (room of_values) (are.words of_keys layer)
          (are.words of_values layer) cur keys values 0 heads rest (omega arith) ks vs
          (nothing_yet c.key_dimension keys (drop (base * c.key_dimension) (view c of_keys layer)))
          (nothing_yet c.value_dimension values
            (drop (base * c.value_dimension) (view c of_values layer)))
          (subst (λ (j : ℕ). At cur (layer_stream c layer j heads ++ rest)) first at) in
      let given = next-Appendable c layer t valid inside more r are filled capacity in
      let sizes_same : (part : Part) → page_size part r ≡ page_size part c = λ part.
        ap (λ (s : Sizes). s.page_tokens * s.heads * pick part s.key_size s.value_size)
          filled.same in
      let (r', appended, added) =
        append_one has_room grants r layer (token_rows c of_keys layer t)
          (token_rows c of_values layer t) filled.valid given
          (λ part. rw (sizes_same part) (fit part))
          (rw (length-token_rows c layer t valid inside more of_keys) (small of_keys))
          (rw (length-token_rows c layer t valid inside more of_values) (small of_values)) in
      (rows_read, (r', appended, next-Filled c layer t valid inside more r r' filled added))

  -- The rows of the next token stand before those of the others.
  layer_stream-next :
      (layer t left : ℕ) (rest : List ℕ)
      → layer_stream c layer (t * c.kv_head_count) (suc left * c.kv_head_count) ++ rest
        ≡ layer_stream c layer (t * c.kv_head_count) c.kv_head_count
          ++ (layer_stream c layer (suc t * c.kv_head_count) (left * c.kv_head_count) ++ rest)
  layer_stream-next layer t left rest =
      let heads : ℕ = c.kv_head_count in
      let count : suc left * heads ≡ heads + left * heads = omega arith in
      let next : t * heads + heads ≡ suc t * heads = omega arith in
      ap (λ (n : ℕ). layer_stream c layer (t * heads) n ++ rest) count
      ∙ ap (λ zs. zs ++ rest)
          (rows_stream_add c.key_dimension c.value_dimension (view c of_keys layer)
            (view c of_values layer) (t * heads) heads (left * heads))
      ∙ append_assoc (layer_stream c layer (t * heads) heads)
          (layer_stream c layer (t * heads + heads) (left * heads)) rest
      ∙ ap
          (λ (i : ℕ).
            layer_stream c layer (t * heads) heads
            ++ (layer_stream c layer i (left * heads) ++ rest))
          next

  -- The tokens that are left of a layer.
  tokens-At :
      (r : PagedKvCache) (cur : SnapshotCursor) (keys values : List F32) (layer t left : ℕ)
      (rest : List ℕ)
      → layer < c.layer_count
      → t + left ≡ tokens_of c layer
      → Filled c layer t r
      → length keys ≡ per_token of_keys c
      → length values ≡ per_token of_values c
      → At cur (layer_stream c layer (t * c.kv_head_count) (left * c.kv_head_count) ++ rest)
      → (r' : PagedKvCache) × (keys' : List F32) × (values' : List F32) × ReadsTo
          (read_tokens has_room (sizes c) r cur keys values layer left)
          (r', keys', values')
          rest
        × Filled c layer (tokens_of c layer) r'
        × (length keys' ≡ per_token of_keys c)
        × (length values' ≡ per_token of_values c)
  unfolding read_tokens rows_stream
  tokens-At r cur keys values layer t zero rest inside all filled ks vs at =
      let done : t ≡ tokens_of c layer = omega arith in
      let nothing : 0 * c.kv_head_count ≡ 0 = omega arith in
      (
        r,
        keys,
        values,
        (
          cur,
          refl,
          subst (λ (n : ℕ). At cur (layer_stream c layer (t * c.kv_head_count) n ++ rest)) nothing
              at,
        ),
        subst (λ (n : ℕ). Filled c layer n r) done filled,
        ks,
        vs,
      )
  tokens-At r cur keys values layer t (suc left) rest inside all filled ks vs at =
      let heads : ℕ = c.kv_head_count in
      let more : t < tokens_of c layer = omega arith in
      let split = layer_stream-next layer t left rest in
      let ((cur', rows_read, at'), (r', appended, filled')) =
        token-At r cur keys values layer t
          (layer_stream c layer (suc t * heads) (left * heads) ++ rest) inside more filled ks vs
          (subst (At cur) split at) in
      let (r2, keys2, values2, (end, others, after), full, ks2, vs2) =
        tokens-At r' cur' (token_rows c of_keys layer t) (token_rows c of_values layer t) layer
          (suc t) left rest inside (omega arith) filled'
          (length-token_rows c layer t valid inside more of_keys)
          (length-token_rows c layer t valid inside more of_values) at' in
      (r2, keys2, values2, (end, rw (rows_read, appended) others, after), full, ks2, vs2)

  -- The layers that are left, whose lengths stand at the end of the cache's.
  pub layers-At :
      (r : PagedKvCache) (cur : SnapshotCursor) (keys values : List F32) (layer : ℕ)
      (lengths rest : List ℕ)
      → drop layer c.lengths ≡ lengths
      → layer + length lengths ≡ c.layer_count
      → Filled c layer 0 r
      → length keys ≡ per_token of_keys c
      → length values ≡ per_token of_values c
      → At cur (layers_stream c layer lengths ++ rest)
      → (r' : PagedKvCache) × (keys' : List F32) × (values' : List F32) × ReadsTo
          (read_layers has_room (sizes c) r cur keys values layer lengths)
          (r', keys', values')
          rest
        × Filled c c.layer_count 0 r'
  unfolding read_layers layers_stream
  layers-At r cur keys values layer [] rest last all filled ks vs at =
      let end : layer ≡ c.layer_count = omega arith in
      (r, keys, values, (cur, refl, at), subst (λ (i : ℕ). Filled c i 0 r) end filled)
  layers-At r cur keys values layer (n ∷ lengths) rest last all filled ks vs at =
      let inside : layer < c.layer_count = omega arith in
      let (here, next) = drop-cons c.lengths layer n lengths last in
      let known : tokens_of c layer ≡ n = get_or-eq c.lengths layer 0 n here in
      let start : At cur (
          layer_stream c layer (0 * c.kv_head_count) (n * c.kv_head_count)
          ++ (layers_stream c (suc layer) lengths ++ rest)) =
        let zero_rows : 0 ≡ 0 * c.kv_head_count = omega arith in
        let others : List ℕ = layers_stream c (suc layer) lengths in
        subst (λ (i : ℕ). At cur (layer_stream c layer i (n * c.kv_head_count) ++ (others ++ rest)))
          zero_rows
          (subst (At cur) (append_assoc (layer_stream c layer 0 (n * c.kv_head_count)) others rest)
            at) in
      let (r1, keys1, values1, (cur1, tokens_read, at1), full, ks1, vs1) =
        tokens-At r cur keys values layer 0 n (layers_stream c (suc layer) lengths ++ rest) inside
          (omega (arith, known)) filled ks vs start in
      let (r2, keys2, values2, (cur2, others, at2), done) =
        layers-At r1 cur1 keys1 values1 (suc layer) lengths rest next (omega arith)
          (layer-Filled c layer r1 valid inside full) ks1 vs1 at1 in
      (r2, keys2, values2, (cur2, rw tokens_read others, at2), done)
