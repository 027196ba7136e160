-- ===== src/Generation.antt =====
-- crates/bridge-runtime/src/generation.rs: generating tokens in a session. The model is the
-- interface of the trait, and the sampler is one too; the caller's callback and the flag that
-- cancels a generation act on the rest of the program, whose state is passed along.
pub mod Sampling
pub mod Loops
pub mod Feeds
pub mod Outcomes
pub mod Decoding
pub mod Guarantees
pub mod Requests
pub mod Poisoning
use light_bridge_engine.Base.{
  ℕ, zero, suc, ◌+◌, ◌-◌, min, List, [], ◌∷◌, ◌++◌, Bool, true, false, not, ◌&&◌, ◌||◌, Option,
  none, some, ltb, leb, ◌==◌, if◌then◌else◌, Result, ok, err, length, replicate, checked_add,
}
use light_bridge_engine.Generation.Sampling.{
  SamplingConfig, SamplingError, Float32, validate, contains,
}

-- The trait `CausalModel`: `S` is its session, `E` its error and `F` the numbers. Evaluating a
-- token may change the session and the logits also when it fails.
pub record CausalModel (S E F : Type 0) : Type 0 where
  pub vocabulary_size : ℕ
  pub context_length : ℕ
  pub new_session : Result E S
  pub reset_session : S → S
  pub position : S → ℕ
  pub evaluate_token : S → ℕ → List F → S × List F × Result E (Unit {0})

-- `Sampler`: `Q` is its state.
pub record Sampler (Q F : Type 0) : Type 0 where
  pub create : SamplingConfig F → ℕ → Result (SamplingError F) Q
  pub sample : Q → List F → List ℕ → Q × Result (SamplingError F) ℕ

-- `GenerationSession`.
pub record Session (S F : Type 0) : Type 0 where
  pub model : S
  pub history : List ℕ
  pub logits : List F
  pub has_logits : Bool
  pub healthy : Bool

pub data GenerationError (E F : Type 0) : Type 0 where
  model_failed : E → GenerationError E F
  sampling : SamplingError F → GenerationError E F
  session_poisoned : GenerationError E F
  -- The token and the size of the vocabulary.
  token_out_of_range : ℕ → ℕ → GenerationError E F
  -- The position, the tokens of the prompt and the length of the context.
  prompt_exceeds_context : ℕ → ℕ → ℕ → GenerationError E F
  empty_prompt : GenerationError E F
  arithmetic_overflow : GenerationError E F
  allocation_failed : GenerationError E F

pub data StopReason : Type 0 where
  stop_token : ℕ → StopReason
  stop_sequence : StopReason
  max_tokens : StopReason
  context_reached : StopReason
  cancelled : StopReason
  callback : StopReason

pub record GeneratedToken : Type 0 where
  pub token_id : ℕ
  pub index : ℕ

-- The durations are left out.
pub record GenerationOutcome : Type 0 where
  pub token_ids : List ℕ
  pub stop_reason : StopReason
  pub prompt_tokens : ℕ
  pub generated_tokens : ℕ

unfoldable pub outcome : List ℕ → StopReason → ℕ → GenerationOutcome
outcome token_ids reason prompt_tokens = record {
  token_ids = token_ids;
  stop_reason = reason;
  prompt_tokens = prompt_tokens;
  generated_tokens = length token_ids;
}

-- The caller: `W` is the state of the rest of the program. The callback says whether to break off.
pub record Caller (W : Type 0) : Type 0 where
  pub is_cancelled : W → W × Bool
  pub emit : W → GeneratedToken → W × Bool

module _ {S E F : Type 0} (m : CausalModel S E F) where
  unfoldable pub fresh_session : (ℕ → Bool) → F → Result (GenerationError E F) (Session S F)
  fresh_session has_room zero_logit = elim m.new_session [
    | err e ↦ err (model_failed e)
    | ok model ↦
        if has_room m.vocabulary_size
        then ok (record {
          model = model;
          history = [];
          logits = replicate m.vocabulary_size zero_logit;
          has_logits = false;
          healthy = true;
        })
        else err allocation_failed
  ]

  unfoldable pub reset : F → Session S F → Session S F
  reset zero_logit s = record {
    model = m.reset_session s.model;
    history = [];
    logits = replicate (length s.logits) zero_logit;
    has_logits = false;
    healthy = true;
  }

  unfoldable pub after_evaluate :
      Session S F
      → ℕ
      → S × List F × Result E (Unit {0})
      → Session S F × Result (GenerationError E F) (Unit {0})
  after_evaluate s token (model, logits, err e) = (
    record s { model = model; logits = logits; healthy = false; has_logits = false },
    err (model_failed e),
  )
  after_evaluate s token (model, logits, ok _) = (
    record s {
      model = model;
      logits = logits;
      history = s.history ++ token ∷ [];
      has_logits = true;
    },
    ok tt,
  )

  unfoldable pub evaluate : Session S F → ℕ → Session S F × Result (GenerationError E F) (Unit {0})
  unfolding after_evaluate
  evaluate s token = after_evaluate s token (m.evaluate_token s.model token s.logits)

  -- The loop over the tokens of the prompt before anything is changed.
  unfoldable pub check_tokens : List ℕ → Result (GenerationError E F) (Unit {0})
  check_tokens [] = ok tt
  check_tokens (t ∷ ts) =
      if leb m.vocabulary_size t
      then err (token_out_of_range t m.vocabulary_size)
      else check_tokens ts
