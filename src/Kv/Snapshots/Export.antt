-- ===== src/Kv/Snapshots/Export.antt =====
-- crates/bridge-kv-gqa/src/cache.rs: how the committed rows are exported. A word of the machine has
-- the 64 bits of the format's, so the conversions between them never fail and are left out.
use light_bridge_engine.Base.{
  ℕ, zero, suc, List, [], ◌∷◌, ◌++◌, Option, none, some, String, Result, ok, ok_or, ◌>>=◌, length,
  map, checked_add, checked_mul,
}
use light_bridge_engine.Base.Bytes.{to_le_bytes}
use light_bridge_engine.Kv.Types.{Fault, overflow, PagedKvCache, Sizes, sizes, F32}
use light_bridge_engine.Kv.Rows.{key, value}

abbrev pub kv_snapshot_version : ℕ
kv_snapshot_version = 1

-- "LBKV0001".
abbrev pub kv_snapshot_magic : List ℕ
kv_snapshot_magic = 76 ∷ 66 ∷ 75 ∷ 86 ∷ 48 ∷ 48 ∷ 48 ∷ 49 ∷ []

abbrev pub kv_snapshot_digest_bytes : ℕ
kv_snapshot_digest_bytes = 32

-- `a.checked_add(b).and_then(|v| v.checked_add(c))`, and so on.
unfoldable pub checked_sum : ℕ → List ℕ → Option ℕ
checked_sum total [] = some total
checked_sum total (n ∷ ns) = elim (checked_add total n) [
  | none ↦ none
  | some sum ↦ checked_sum sum ns
]

unfoldable pub header_size : ℕ → List ℕ → Option ℕ
unfolding checked_sum
header_size layers binding = elim (checked_mul layers 8) [
  | none ↦ none
  | some lengths ↦
      checked_sum (length kv_snapshot_magic)
        (4 ∷ length binding ∷ 48 ∷ lengths ∷ kv_snapshot_digest_bytes ∷ [])
]

unfoldable pub payload_size : ℕ → ℕ → List ℕ → Result Fault ℕ
payload_size values_per_token total [] = ok total
payload_size values_per_token total (tokens ∷ lengths) =
    let fail = overflow "KV snapshot payload bytes" in
    do
      elements ← ok_or (checked_mul tokens values_per_token) fail
      bytes ← ok_or (checked_mul elements 4) fail
      total' ← ok_or (checked_add total bytes) fail
      payload_size values_per_token total' lengths

unfoldable pub snapshot_size : PagedKvCache → List ℕ → Result Fault ℕ
unfolding header_size payload_size
snapshot_size c binding = do
  header ← ok_or (header_size c.layer_count binding) (overflow "KV snapshot header bytes")
  dimensions ←
      ok_or (checked_add c.key_dimension c.value_dimension) (overflow "KV snapshot dimensions")
  per_token ←
      ok_or (checked_mul c.kv_head_count dimensions) (overflow "KV snapshot values per token")
  payload ← payload_size per_token 0 c.lengths
  ok_or (checked_add header payload) (overflow "KV snapshot total bytes")

unfoldable pub encode_row : List F32 → List ℕ
encode_row [] = []
encode_row (x ∷ xs) = to_le_bytes 4 x ++ encode_row xs

unfoldable pub encode_words : List ℕ → List ℕ
encode_words [] = []
encode_words (n ∷ ns) = to_le_bytes 8 n ++ encode_words ns

-- The parameters that a snapshot names, in their order.
abbrev pub configuration : Sizes → List (String × ℕ)
configuration d =
    ("layer_count", d.layers)
    ∷ ("kv_head_count", d.heads)
    ∷ ("key_dimension", d.key_size)
    ∷ ("value_dimension", d.value_size)
    ∷ ("page_tokens", d.page_tokens)
    ∷ ("token_capacity", d.capacity)
    ∷ []

abbrev pub configured : Sizes → List ℕ
configured d = map (λ (f : String × ℕ). f.1) (configuration d)

-- The loop over the heads of a token, with so many left.
unfoldable pub export_heads : PagedKvCache → ℕ → ℕ → ℕ → ℕ → Result Fault (List ℕ)
unfolding encode_row key value
export_heads c layer token head zero = ok []
export_heads c layer token head (suc left) = do
  k ← key c layer token head
  v ← value c layer token head
  rest ← export_heads c layer token (suc head) left
  ok (encode_row k ++ (encode_row v ++ rest))

unfoldable pub export_tokens : PagedKvCache → ℕ → ℕ → ℕ → Result Fault (List ℕ)
unfolding export_heads
export_tokens c layer token zero = ok []
export_tokens c layer token (suc left) = do
  heads ← export_heads c layer token 0 c.kv_head_count
  rest ← export_tokens c layer (suc token) left
  ok (heads ++ rest)

unfoldable pub export_layers : PagedKvCache → ℕ → List ℕ → Result Fault (List ℕ)
unfolding export_tokens
export_layers c layer [] = ok []
export_layers c layer (tokens ∷ lengths) = do
  rows ← export_tokens c layer 0 tokens
  rest ← export_layers c (suc layer) lengths
  ok (rows ++ rest)

-- What is hashed.
unfoldable pub snapshot_payload : PagedKvCache → List ℕ → Result Fault (List ℕ)
unfolding encode_words export_layers
snapshot_payload c binding = do
  rows ← export_layers c 0 c.lengths
  ok (
      kv_snapshot_magic
      ++ (to_le_bytes 4 kv_snapshot_version
          ++ (binding
              ++ (encode_words (configured (sizes c)) ++ (encode_words c.lengths ++ rows)))))
