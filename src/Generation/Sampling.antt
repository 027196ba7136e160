-- ===== src/Generation/Sampling.antt =====
-- `SamplingConfig` of crates/bridge-runtime/src/sampling.rs, over an interface of the 32-bit floats.
use light_bridge_engine.Base.{
  ℕ, List, [], ◌∷◌, Bool, false, not, ◌&&◌, ◌||◌, leb, ◌==◌, if◌then◌else◌, Result, ok, err,
}

-- The tests and constants of `f32` that the code uses.
pub record Float32 (F : Type 0) : Type 0 where
  pub is_finite : F → Bool
  pub less : F → F → Bool
  pub less_eq : F → F → Bool
  pub zero : F
  pub one : F

-- `stop_tokens` is the set's elements in ascending order.
pub record SamplingConfig (F : Type 0) : Type 0 where
  pub max_new_tokens : ℕ
  pub temperature : F
  pub top_k : ℕ
  pub top_p : F
  pub seed : ℕ
  pub repetition_penalty : F
  pub repeat_last_n : ℕ
  pub stop_tokens : List ℕ
  pub emit_stop_token : Bool

pub data SamplingError (F : Type 0) : Type 0 where
  empty_vocabulary : SamplingError F
  invalid_temperature : F → SamplingError F
  invalid_top_p : F → SamplingError F
  invalid_repetition_penalty : F → SamplingError F
  -- The token and the size of the vocabulary.
  stop_token_out_of_range : ℕ → ℕ → SamplingError F
  -- The count expected and the actual one.
  logit_count_mismatch : ℕ → ℕ → SamplingError F
  nan_logit : ℕ → SamplingError F
  no_candidate : SamplingError F
  allocation_failed : SamplingError F

-- `contains` on a set.
unfoldable pub contains : List ℕ → ℕ → Bool
contains [] t = false
contains (x ∷ xs) t = (x == t) || contains xs t

module _ {F : Type 0} (f32 : Float32 F) where
  unfoldable pub check_stop_tokens : ℕ → List ℕ → Result (SamplingError F) (Unit {0})
  check_stop_tokens vocabulary_size [] = ok tt
  check_stop_tokens vocabulary_size (t ∷ ts) =
      if leb vocabulary_size t
      then err (stop_token_out_of_range t vocabulary_size)
      else check_stop_tokens vocabulary_size ts

  unfoldable pub validate : SamplingConfig F → ℕ → Result (SamplingError F) (Unit {0})
  unfolding check_stop_tokens
  validate c vocabulary_size =
      if vocabulary_size == 0
      then err empty_vocabulary
      else (if not (f32.is_finite c.temperature) || f32.less c.temperature f32.zero
          then err (invalid_temperature c.temperature)
          else (if not
                (f32.is_finite c.top_p && f32.less f32.zero c.top_p && f32.less_eq c.top_p f32.one)
              then err (invalid_top_p c.top_p)
              else (if not (f32.is_finite c.repetition_penalty)
                    || f32.less_eq c.repetition_penalty f32.zero
                  then err (invalid_repetition_penalty c.repetition_penalty)
                  else check_stop_tokens vocabulary_size c.stop_tokens)))
