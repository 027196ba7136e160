-- ===== src/Generation/Loops.antt =====
-- The loops of `generate_stream`, and the function itself.
use light_bridge_engine.Base.{
  ℕ, zero, suc, ◌-◌, min, List, [], ◌∷◌, ◌++◌, Bool, true, false, not, ◌||◌, Option, none, some,
  ltb, ◌==◌, if◌then◌else◌, Result, ok, err, ◌&&◌, length, checked_add,
}
use light_bridge_engine.Generation.Sampling.{
  SamplingConfig, SamplingError, Float32, validate, contains,
}
use light_bridge_engine.Generation.{
  CausalModel, Sampler, Session, GenerationError, sampling, session_poisoned,
  prompt_exceeds_context, empty_prompt, arithmetic_overflow, allocation_failed, StopReason,
  stop_token, max_tokens, context_reached, cancelled, callback, GenerationOutcome, outcome, Caller,
  evaluate, check_tokens,
}

-- The state of the rest of the program, the session and a result.
abbrev pub Ended : Type 0 → Type 0 → Type 0 → Type 0 → Type 0 → Type 0
Ended W S E F A = W × Session S F × Result (GenerationError E F) A

-- Whether the whole prompt was evaluated.
pub data Prefilled : Type 0 where
  completed : Prefilled
  interrupted : Prefilled

module _ {W S E F : Type 0} (m : CausalModel S E F) (caller : Caller W) where
  unfoldable pub prefill_evaluated :
      (W → Session S F → Ended W S E F Prefilled)
      → W
      → Session S F × Result (GenerationError E F) (Unit {0})
      → Ended W S E F Prefilled
  prefill_evaluated next w (s, err e) = (w, s, err e)
  prefill_evaluated next w (s, ok _) = next w s

  unfoldable pub prefill_checked :
      (W → Session S F → Ended W S E F Prefilled)
      → Session S F
      → ℕ
      → W × Bool
      → Ended W S E F Prefilled
  unfolding prefill_evaluated
  prefill_checked next s token (w, true) = (w, s, ok interrupted)
  prefill_checked next s token (w, false) = prefill_evaluated next w (evaluate m s token)

  -- The loop over the prompt.
  unfoldable pub prefill : List ℕ → W → Session S F → Ended W S E F Prefilled
  unfolding prefill_checked
  prefill [] w s = (w, s, ok completed)
  prefill (token ∷ tokens) w s = prefill_checked (prefill tokens) s token (caller.is_cancelled w)

-- The tokens that were kept, and why the loop was left; nothing where it ran to its end.
abbrev pub Decoded : Type 0
Decoded = List ℕ × Option StopReason

module _ {W S E F Q : Type 0} (m : CausalModel S E F) (sampler : Sampler Q F) (caller : Caller W)
    (c : SamplingConfig F) where
  -- Whether a token is kept and shown to the callback.
  unfoldable pub is_shown : ℕ → Bool
  is_shown token = not (contains c.stop_tokens token) || c.emit_stop_token

  unfoldable pub after_emit :
      (W → Ended W S E F Decoded) → Session S F → List ℕ → ℕ → W × Bool → Ended W S E F Decoded
  after_emit next s generated token (w, true) = (w, s, ok (generated, some callback))
  after_emit next s generated token (w, false) =
      if contains c.stop_tokens token
      then (w, s, ok (generated, some (stop_token token)))
      else next w

  -- What follows the evaluation of a token that was sampled.
  unfoldable pub deliver :
      (List ℕ → W → Session S F → Ended W S E F Decoded)
      → List ℕ
      → ℕ
      → ℕ
      → W
      → Session S F × Result (GenerationError E F) (Unit {0})
      → Ended W S E F Decoded
  unfolding after_emit is_shown
  deliver next generated index token w (s, err e) = (w, s, err e)
  deliver next generated index token w (s, ok _) =
      let kept = generated ++ token ∷ [] in
      if is_shown token
      then after_emit (λ v. next kept v s) s kept token
          (caller.emit w (record { token_id = token; index = index }))
      else (if contains c.stop_tokens token
          then (w, s, ok (generated, some (stop_token token)))
          else next generated w s)

  unfoldable pub after_sample :
      (Q → List ℕ → W → Session S F → Ended W S E F Decoded)
      → List ℕ
      → ℕ
      → W
      → Session S F
      → Q × Result (SamplingError F) ℕ
      → Ended W S E F Decoded
  unfolding deliver
  after_sample next generated index w s (q, err e) = (w, s, err (sampling e))
  after_sample next generated index w s (q, ok token) =
      deliver (next q) generated index token w (evaluate m s token)

  unfoldable pub decode_checked :
      (Q → List ℕ → W → Session S F → Ended W S E F Decoded)
      → ℕ
      → Q
      → List ℕ
      → Session S F
      → W × Bool
      → Ended W S E F Decoded
  unfolding after_sample
  decode_checked next index q generated s (w, true) = (w, s, ok (generated, some cancelled))
  decode_checked next index q generated s (w, false) =
      after_sample next generated index w s (sampler.sample q s.logits s.history)

  -- The loop over the new tokens, with the number of rounds that are left.
  unfoldable pub decode : ℕ → ℕ → Q → List ℕ → W → Session S F → Ended W S E F Decoded
  unfolding decode_checked
  decode zero index q generated w s = (w, s, ok (generated, none))
  decode (suc rounds) index q generated w s =
      decode_checked (decode rounds (suc index)) index q generated s (caller.is_cancelled w)

  -- What is returned after the loop.
  unfoldable pub finish : ℕ → ℕ → Ended W S E F Decoded → Ended W S E F GenerationOutcome
  finish limit prompt_tokens (w, s, err e) = (w, s, err e)
  finish limit prompt_tokens (w, s, ok (generated, some reason)) =
      (w, s, ok (outcome generated reason prompt_tokens))
  finish limit prompt_tokens (w, s, ok (generated, none)) = (
    w,
    s,
    ok (
        outcome generated (if ltb limit c.max_new_tokens then context_reached else max_tokens)
          prompt_tokens),
  )

  -- What follows the prompt.
  unfoldable pub after_prefill : ℕ → ℕ → Ended W S E F Prefilled → Ended W S E F GenerationOutcome
  unfolding decode finish
  after_prefill limit prompt_tokens (w, s, err e) = (w, s, err e)
  after_prefill limit prompt_tokens (w, s, ok interrupted) =
      (w, s, ok (outcome [] cancelled (length s.history)))
  after_prefill limit prompt_tokens (w, s, ok completed) =
      elim (sampler.create c m.vocabulary_size) [
        | err e ↦ (w, s, err (sampling e))
        | ok q ↦ finish limit prompt_tokens (decode limit 0 q [] w s)
      ]

  -- What follows the checks, the reservations and the first look at the flag.
  unfoldable pub begin : List ℕ → ℕ → Session S F → W × Bool → Ended W S E F GenerationOutcome
  unfolding after_prefill prefill
  begin prompt limit s (w, true) = (w, s, ok (outcome [] cancelled (length prompt)))
  begin prompt limit s (w, false) =
      after_prefill limit (length prompt) (prefill m caller prompt w s)

  -- The number of tokens that may be generated.
  unfoldable pub generation_limit : List ℕ → Session S F → ℕ
  generation_limit prompt s =
      min c.max_new_tokens (m.context_length - m.position s.model - length prompt)

  -- Whether the prompt fits the context, and there is something to go on from.
  unfoldable pub check_fit : List ℕ → Session S F → Result (GenerationError E F) (Unit {0})
  check_fit prompt s =
      if ltb m.context_length (m.position s.model)
        || ltb (m.context_length - m.position s.model) (length prompt)
      then err (prompt_exceeds_context (m.position s.model) (length prompt) m.context_length)
      else (if (length prompt == 0) && not s.has_logits then err empty_prompt else ok tt)

  -- The checks of the session and the prompt.
  unfoldable pub check_prompt :
      Bool → List ℕ → Session S F → Result (GenerationError E F) (Unit {0})
  unfolding check_fit
  check_prompt false prompt s = err session_poisoned
  check_prompt true prompt s = elim (check_tokens m prompt) [
    | err e ↦ err e
    | ok _ ↦ check_fit prompt s
  ]

  -- The checks before anything is changed.
  unfoldable pub check_request :
      Float32 F → List ℕ → Session S F → Result (GenerationError E F) (Unit {0})
  unfolding check_prompt
  check_request f32 prompt s = elim (validate f32 c m.vocabulary_size) [
    | err e ↦ err (sampling e)
    | ok _ ↦ check_prompt s.healthy prompt s
  ]

  -- What follows the checks. The allocator's answer is a test of the size.
  unfoldable pub started :
      (ℕ → Bool) → List ℕ → ℕ → W → Session S F → Ended W S E F GenerationOutcome
  unfolding begin
  started has_room prompt limit w s = elim (checked_add (length prompt) limit) [
    | none ↦ (w, s, err arithmetic_overflow)
    | some requested ↦
        if has_room requested && has_room limit
        then begin prompt limit s (caller.is_cancelled w)
        else (w, s, err allocation_failed)
  ]

  unfoldable pub generate_stream :
      Float32 F → (ℕ → Bool) → List ℕ → W → Session S F → Ended W S E F GenerationOutcome
  unfolding check_request generation_limit started
  generate_stream f32 has_room prompt w s = elim (check_request f32 prompt s) [
    | err e ↦ (w, s, err e)
    | ok _ ↦ started has_room prompt (generation_limit prompt s) w s
  ]
