-- ===== src/Tests/OfGeneration.antt =====
-- The generation of crates/bridge-runtime at concrete inputs.
use light_bridge_engine.Base.{
  ℕ, suc, ◌+◌, ◌≤◌, ◌<◌, ◌≡◌, refl, sym, ap, List, [], ◌∷◌, Bool, true, false, Option, none, some,
  Result, ok, err, length, ltb, leb, ◌==◌, if◌then◌else◌, arith, replicate, Bool-cases, inl, inr,
  ==_iff,
}
use light_bridge_engine.Generation.Sampling.{
  SamplingConfig, Float32, validate, stop_token_out_of_range,
}
use light_bridge_engine.Generation.{
  CausalModel, Sampler, Caller, Session, GenerationOutcome, max_tokens, stop_token, GenerationError,
  model_failed, session_poisoned, sampling,
}
use light_bridge_engine.Generation.Loops.{generate_stream, generation_limit}
use light_bridge_engine.Generation.Feeds.{Advances}
use light_bridge_engine.Generation.Guarantees.{Generates}
use light_bridge_engine.Generation.Poisoning.{generate_stream-poisoned, Request, serve, serve_all}
use light_bridge_engine.Generation.Requests.{generate_stream-Generates, generate_stream-bounded}

-- The numbers stand for floats.
abbrev numbers : Float32 ℕ
numbers = record { is_finite = λ n. true; less = ltb; less_eq = leb; zero = 0; one = 1 }

abbrev settings : SamplingConfig ℕ
settings = record {
  max_new_tokens = 3;
  temperature = 1;
  top_k = 0;
  top_p = 1;
  seed = 0;
  repetition_penalty = 1;
  repeat_last_n = 64;
  stop_tokens = 6 ∷ [];
  emit_stop_token = false;
}

abbrev evaluate_counted : ℕ → ℕ → List ℕ → ℕ × List ℕ × Result (Unit {0}) (Unit {0})
evaluate_counted position token logits =
    if token == 9 then (position, logits, err tt) else (suc position, logits, ok tt)

-- A model that counts its positions and fails on token 9.
abbrev counter : CausalModel ℕ (Unit {0}) ℕ
counter = record {
  vocabulary_size = 10;
  context_length = 6;
  new_session = ok 0;
  reset_session = λ s. 0;
  position = λ s. s;
  evaluate_token = evaluate_counted;
}

-- A sampler of 4, 5, 6 and so on.
abbrev rising : Sampler ℕ ℕ
rising = record { create = λ c n. ok 4; sample = λ q logits history. (suc q, ok q) }

abbrev listener : Caller ℕ
listener = record { is_cancelled = λ w. (w, false); emit = λ w token. (suc w, false) }

abbrev new_session : Session ℕ ℕ
new_session = record {
  model = 0;
  history = [];
  logits = replicate 10 0;
  has_logits = false;
  healthy = true;
}

counter-Advances : Advances counter
counter-Advances s token logits t logits' h = elim (Bool-cases (token == 9)) [
  | inl nine ↦ let broken = rw nine at h in cc
  | inr other ↦
      let fed = rw other at h in
      sym (ap (λ (out : ℕ × List ℕ × Result (Unit {0}) (Unit {0})). out.0) fed)
]

abbrev after_stop : Session ℕ ℕ
after_stop = record {
  model = 5;
  history = 1 ∷ 2 ∷ 4 ∷ 5 ∷ 6 ∷ [];
  logits = replicate 10 0;
  has_logits = true;
  healthy = true;
}

abbrev stopped : GenerationOutcome
stopped = record {
  token_ids = 4 ∷ 5 ∷ [];
  stop_reason = stop_token 6;
  prompt_tokens = 2;
  generated_tokens = 2;
}

stops_at_six :
    generate_stream counter rising listener settings numbers (λ n. true) (1 ∷ 2 ∷ []) 0 new_session
    ≡ (2, after_stop, ok stopped)
unfolding generate_stream validate light_bridge_engine.Generation.check_tokens
    light_bridge_engine.Base.checked_add light_bridge_engine.Generation.evaluate
    light_bridge_engine.Generation.Sampling.contains light_bridge_engine.Generation.outcome
stops_at_six = refl

generate_stream-Generates_example :
    Generates counter rising listener settings
      (1 ∷ 2 ∷ [])
      (generation_limit counter rising listener settings (1 ∷ 2 ∷ []) new_session)
      new_session
      (generate_stream counter rising listener settings numbers
        (λ n. true)
        (1 ∷ 2 ∷ [])
        0
        new_session)
generate_stream-Generates_example =
    generate_stream-Generates counter rising listener settings numbers (λ n. true) (1 ∷ 2 ∷ []) 0
      new_session

generate_stream-bounded_example : (5 ≤ 6) × (5 + 0 ≡ 0 + 5) × (2 ≤ 3)
generate_stream-bounded_example =
    generate_stream-bounded counter rising listener settings numbers (λ n. true) (1 ∷ 2 ∷ []) 0 2
      new_session after_stop stopped counter-Advances stops_at_six

abbrev poisoned : Session ℕ ℕ
poisoned = record {
  model = 1;
  history = 1 ∷ [];
  logits = replicate 10 0;
  has_logits = false;
  healthy = false;
}

fails_at_nine :
    generate_stream counter rising listener settings numbers (λ n. true) (1 ∷ 9 ∷ []) 0 new_session
    ≡ (0, poisoned, err (model_failed tt))
unfolding generate_stream validate light_bridge_engine.Generation.check_tokens
    light_bridge_engine.Base.checked_add light_bridge_engine.Generation.evaluate
fails_at_nine = refl

abbrev asks : List ℕ → SamplingConfig ℕ → Request ℕ ℕ
asks prompt config = record {
  Draw = ℕ;
  sampler = rising;
  caller = listener;
  config = config;
  f32 = numbers;
  has_room = λ n. true;
  prompt = prompt;
}

-- The second of the later calls has a configuration that is not valid.
generate_stream-poisoned_example :
    serve_all counter
      (asks (3 ∷ []) settings ∷ asks [] (record settings { stop_tokens = 99 ∷ [] }) ∷ [])
      7
      poisoned
    ≡ (7, poisoned, err session_poisoned ∷ err (sampling (stop_token_out_of_range 99 10)) ∷ [])
unfolding serve generate_stream validate
generate_stream-poisoned_example =
    generate_stream-poisoned counter (asks (1 ∷ 9 ∷ []) settings)
      (asks (3 ∷ []) settings ∷ asks [] (record settings { stop_tokens = 99 ∷ [] }) ∷ []) 0 0 7
      new_session poisoned tt fails_at_nine
