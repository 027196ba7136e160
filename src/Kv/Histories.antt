-- ===== src/Kv/Histories.antt =====
-- Calls on flat lists of rows, and the steps that they make.
use light_bridge_engine.Base.{
  ℕ, ◌+◌, ◌*◌, ◌≤◌, ◌<◌, ◌≡◌, List, [], ◌∷◌, ◌++◌, Bool, true, false, String, length, take,
  word_modulus, ◌⊎◌, ℕ_discrete, ite, All,
}
use light_bridge_engine.Kv.Types.{PagedKvCache, F32, Part}
use light_bridge_engine.Kv.Updates.{source}
use light_bridge_engine.Kv.Views.{tokens_of, view}
use light_bridge_engine.Kv.Types.{Sizes}
use light_bridge_engine.Kv.Types.{pick, is_finite}

-- A call that may change the cache.
pub data Call : Type 0 where
  -- The layer, the tokens, and the rows of keys and of values.
  append_call : ℕ → ℕ → List F32 → List F32 → Call
  rewind_call : ℕ → Call
  reset_call : Call

-- A slice of rows has fewer elements than a word can count.
abbrev pub Callable : Call → Type 0
Callable (append_call layer count keys values) =
    (length keys < word_modulus) × (length values < word_modulus)
Callable (rewind_call n) = Unit
Callable reset_call = Unit

-- What a layer holds: its tokens, and the rows of each part as one list.
pub record Contents : Type 0 where
  pub tokens : ℕ
  pub rows_of : Part → List F32

abbrev pub Contained : Type 0
Contained = ℕ → Contents

abbrev pub contents : PagedKvCache → Contained
contents c layer = record { tokens = tokens_of c layer; rows_of = λ part. view c part layer }

-- The elements that a token has of a part.
abbrev pub token_size : Sizes → Part → ℕ
token_size d part = d.heads * pick part d.key_size d.value_size

-- Whether flat lists of these sizes take a call.
abbrev pub Allowed : Sizes → Contained → Call → Type 0
Allowed d s (append_call layer count keys values) =
    (layer < d.layers)
    × (0 < count)
    × ((part : Part) → length (source part keys values) ≡ count * token_size d part)
    × ((part : Part) → All (λ x. is_finite x ≡ true) (source part keys values))
    × ((s layer).tokens + count ≤ d.capacity)
Allowed d s (rewind_call n) = (layer : ℕ) → layer < d.layers → n ≤ (s layer).tokens
Allowed d s reset_call = Unit

-- What a call does to the flat lists.
abbrev pub cut_to : Sizes → ℕ → Contents → Contents
cut_to d n held = record {
  tokens = n;
  rows_of = λ part. take (n * token_size d part) (held.rows_of part);
}

abbrev pub effect : Sizes → Contained → Call → Contained
effect d s (append_call layer count keys values) i =
    ite (ℕ_discrete i layer)
      (record {
        tokens = (s layer).tokens + count;
        rows_of = λ part. (s layer).rows_of part ++ source part keys values;
      })
      (s i)
effect d s (rewind_call n) i = cut_to d n (s i)
effect d s reset_call i = cut_to d 0 (s i)

-- Two views show the same of every layer.
abbrev pub Agree : Sizes → Contained → Contained → Type 0
Agree d s t =
    (layer : ℕ)
    → layer < d.layers
    → ((s layer).tokens ≡ (t layer).tokens)
      × ((part : Part) → (s layer).rows_of part ≡ (t layer).rows_of part)

-- The allocator refuses a request, or a page has more elements than a word can count.
abbrev pub Lacks : (String → ℕ → Bool) → Sizes → Type 0
Lacks has_room d =
    ((name : String) × (n : ℕ) × (has_room name n ≡ false))
    ⊎ ((part : Part) × (word_modulus ≤ d.page_tokens * token_size d part))

-- Only an append may be denied though it is allowed.
abbrev pub Excused : (String → ℕ → Bool) → Sizes → Call → Type 0
Excused has_room d (append_call layer count keys values) = Lacks has_room d
Excused has_room d (rewind_call n) = ⊥
Excused has_room d reset_call = ⊥

-- The steps of flat lists: an allowed call has its effect, though an append may lack its pages; a
-- call that is not allowed changes nothing.
pub data Step (has_room : String → ℕ → Bool) (d : Sizes) (s : Contained) (call : Call)
    (t : Contained) : Type 0 where
  taken : Allowed d s call → Agree d t (effect d s call) → Step has_room d s call t
  denied : (Allowed d s call → Excused has_room d call) → Agree d t s → Step has_room d s call t

pub data Steps (has_room : String → ℕ → Bool) (d : Sizes) (s : Contained)
    : List Call → Contained → Type 0 where
  done : Steps has_room d s [] s
  more :
      {t u : Contained} {call : Call} {calls : List Call}
      → Steps has_room d s calls t
      → Step has_room d t call u
      → Steps has_room d s (call ∷ calls) u
