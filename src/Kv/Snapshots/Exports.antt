-- ===== src/Kv/Snapshots/Exports.antt =====
-- The bytes of a snapshot, as the rows of the flat lists.
use light_bridge_engine.Base.{
  ℕ, zero, suc, ◌+◌, ◌*◌, ◌<◌, ◌≡◌, refl, List, [], ◌∷◌, ◌++◌, ok, length, drop, arith, inl, inr,
}
use light_bridge_engine.Base.Bytes.{to_le_bytes}
use light_bridge_engine.Kv.Types.{PagedKvCache, sizes, Part, of_keys, of_values}
use light_bridge_engine.Kv.Rows.{row, key, value}
use light_bridge_engine.Kv.Reads.{row_lem, row_of}
use light_bridge_engine.Kv.Views.{CacheIsValid, tokens_of, view, get_or-eq}
use light_bridge_engine.Kv.Snapshots.Streams.{rows_stream, rows_stream_add}
use light_bridge_engine.Kv.Snapshots.Layers.{layer_stream, layers_stream, drop-cons}
use light_bridge_engine.Kv.Snapshots.Export.{
  export_heads, export_tokens, export_layers, snapshot_payload, encode_words, configured,
  kv_snapshot_magic, kv_snapshot_version,
}

module _ (c : PagedKvCache) (valid : CacheIsValid c) where
  row-there :
      (part : Part) (layer token head : ℕ)
      → layer < c.layer_count
      → token < tokens_of c layer
      → head < c.kv_head_count
      → row part c layer token head ≡ ok (row_of c part layer token head)
  row-there part layer token head a b d = elim (row_lem c valid part layer token head) [
    | inl (_, e) ↦ e
    | inr (_, _, out) ↦ absurd (out (a, b, d))
  ]

  heads-stream :
      (layer token head left : ℕ)
      → layer < c.layer_count
      → token < tokens_of c layer
      → head + left ≡ c.kv_head_count
      → export_heads c layer token head left
        ≡ ok (layer_stream c layer (token * c.kv_head_count + head) left)
  unfolding export_heads key value rows_stream
  heads-stream layer token head zero a b all = refl
  heads-stream layer token head (suc left) a b all =
      let k = row-there of_keys layer token head a b (omega arith) in
      let v = row-there of_values layer token head a b (omega arith) in
      let rest = heads-stream layer token (suc head) left a b (omega arith) in
      let next : token * c.kv_head_count + suc head ≡ suc (token * c.kv_head_count + head) =
        omega arith in
      rw (k, v, rest, next) refl

  tokens-stream :
      (layer token left : ℕ)
      → layer < c.layer_count
      → token + left ≡ tokens_of c layer
      → export_tokens c layer token left
        ≡ ok (layer_stream c layer (token * c.kv_head_count) (left * c.kv_head_count))
  unfolding export_tokens rows_stream
  tokens-stream layer token zero a all =
      let none_left : 0 * c.kv_head_count ≡ 0 = omega arith in rw none_left refl
  tokens-stream layer token (suc left) a all =
      let heads : ℕ = c.kv_head_count in
      let first = heads-stream layer token 0 heads a (omega arith) (omega arith) in
      let rest = tokens-stream layer (suc token) left a (omega arith) in
      let count : suc left * heads ≡ heads + left * heads = omega arith in
      let start : token * heads + 0 ≡ token * heads = omega arith in
      let next : suc token * heads ≡ token * heads + heads = omega arith in
      let split =
        rows_stream_add c.key_dimension c.value_dimension (view c of_keys layer)
          (view c of_values layer) (token * heads) heads (left * heads) in
      rw (first, rest, count, split, start, next) refl

  layers-stream :
      (layer : ℕ) (lengths : List ℕ)
      → drop layer c.lengths ≡ lengths
      → layer + length lengths ≡ c.layer_count
      → export_layers c layer lengths ≡ ok (layers_stream c layer lengths)
  unfolding export_layers layers_stream
  layers-stream layer [] last all = refl
  layers-stream layer (n ∷ lengths) last all =
      let (here, next) = drop-cons c.lengths layer n lengths last in
      let known : tokens_of c layer ≡ n = get_or-eq c.lengths layer 0 n here in
      let first = tokens-stream layer 0 n (omega arith) (omega (arith, known)) in
      let rest = layers-stream (suc layer) lengths next (omega arith) in
      let start : 0 * c.kv_head_count ≡ 0 = omega arith in rw (first, rest, start) refl

  -- What is hashed: the header, the lengths, and the rows layer by layer.
  pub payload_lem :
      (binding : List ℕ)
      → snapshot_payload c binding
        ≡ ok (
            kv_snapshot_magic
            ++ (to_le_bytes 4 kv_snapshot_version
                ++ (binding
                    ++ (encode_words (configured (sizes c))
                        ++ (encode_words c.lengths ++ layers_stream c 0 c.lengths)))))
  unfolding snapshot_payload
  payload_lem binding = rw (layers-stream 0 c.lengths refl (omega (arith, valid.counted))) refl
