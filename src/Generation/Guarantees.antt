-- ===== src/Generation/Guarantees.antt =====
-- How a generation ends once its request is accepted.
use light_bridge_engine.Base.{
  ℕ, ◌≤◌, ◌<◌, ◌≡◌, refl, List, [], ◌∷◌, ◌++◌, Bool, true, false, none, some, ok, err, length,
  arith, Bool-cases, Result-cases, inl, inr, ◌⊎◌, ltb,
}
use light_bridge_engine.Generation.Sampling.{SamplingConfig, contains}
use light_bridge_engine.Generation.{
  CausalModel, Sampler, Session, StopReason, stop_token, stop_sequence, max_tokens, context_reached,
  cancelled, callback, Caller, GenerationOutcome, outcome,
}
use light_bridge_engine.Generation.Loops.{
  Ended, Decoded, Prefilled, completed, interrupted, finish, after_prefill, begin,
}
use light_bridge_engine.Generation.Feeds.{Feeds, nothing, Feeds-append, Feeds-healthy}
use light_bridge_engine.Generation.Outcomes.{Failed, Failed-from, Prefills, prefill-Prefills}
use light_bridge_engine.Generation.Decoding.{shown, Free, Left, Decodes, decode-Decodes}

module _ {W S E F Q : Type 0} (m : CausalModel S E F) (sampler : Sampler Q F) (caller : Caller W)
    (c : SamplingConfig F) where
  -- Why a generation ended, after the tokens that it sampled.
  abbrev pub Stopped : ℕ → StopReason → List ℕ → Type 0
  Stopped limit (stop_token t) ts =
      (before : List ℕ) × (ts ≡ before ++ t ∷ [])
      × Free m sampler caller c before
      × (contains c.stop_tokens t ≡ true)
  Stopped limit stop_sequence ts = ⊥
  Stopped limit max_tokens ts = Free m sampler caller c ts × (length ts ≡ c.max_new_tokens)
  Stopped limit context_reached ts =
      Free m sampler caller c ts × (length ts ≡ limit) × (limit < c.max_new_tokens)
  Stopped limit cancelled ts = Free m sampler caller c ts
  Stopped limit callback ts = 0 < length ts

  -- A generation that was cancelled within its prompt.
  pub record Interrupted (prompt : List ℕ) (s t : Session S F) (o : GenerationOutcome)
      : Type 0 where
    pub fed : List ℕ
    pub rest : List ℕ
    pub split : fed ++ rest ≡ prompt
    pub feeds : Feeds m s fed t
    pub nothing_generated : o.token_ids ≡ []
    pub reason : o.stop_reason ≡ cancelled
    -- Cancelled before the first token, the outcome counts the prompt; later, the whole history.
    pub counted :
        ((fed ≡ []) × (o.prompt_tokens ≡ length prompt)) ⊎ (o.prompt_tokens ≡ length t.history)

  -- A generation that evaluated its prompt.
  pub record Continued (prompt : List ℕ) (limit : ℕ) (s t : Session S F) (o : GenerationOutcome)
      : Type 0 where
    pub sampled : List ℕ
    pub feeds : Feeds m s (prompt ++ sampled) t
    pub kept : o.token_ids ≡ shown m sampler caller c sampled
    pub few : length sampled ≤ limit
    pub stopped : Stopped limit o.stop_reason sampled
    pub counted : o.prompt_tokens ≡ length prompt

  abbrev pub Generates : List ℕ → ℕ → Session S F → Ended W S E F GenerationOutcome → Type 0
  Generates prompt limit s (w, t, err e) = Failed e s t
  Generates prompt limit s (w, t, ok o) = Interrupted prompt s t o ⊎ Continued prompt limit s t o

  finish-Generates :
      (prompt : List ℕ) (limit : ℕ) (s t : Session S F) (out : Ended W S E F Decoded)
      → Feeds m s prompt t
      → limit ≤ c.max_new_tokens
      → Decodes m sampler caller c limit t [] out
      → Generates prompt limit s (finish m sampler caller c limit (length prompt) out)
  unfolding finish outcome
  finish-Generates prompt limit s t (w, u, err e) fed small failed =
      Failed-from e s t u (Feeds-healthy m s t prompt fed) failed
  finish-Generates prompt limit s t (w, u, ok (generated, none)) fed small
        (ts, feeds, shows, few, (free, full)) =
      elim (Bool-cases (ltb limit c.max_new_tokens)) [
        | inl less ↦ rw less (
            inr (record {
              sampled = ts;
              feeds = Feeds-append m fed feeds;
              kept = shows;
              few = few;
              stopped = (free, full, ground (arith));
              counted = refl;
            }))
        | inr same ↦ rw same (
            inr (record {
              sampled = ts;
              feeds = Feeds-append m fed feeds;
              kept = shows;
              few = few;
              stopped = (free, ground (arith));
              counted = refl;
            }))
      ]
  finish-Generates prompt limit s t (w, u, ok (generated, some reason)) fed small
        (ts, feeds, shows, few, left) =
      inr (record {
        sampled = ts;
        feeds = Feeds-append m fed feeds;
        kept = shows;
        few = few;
        stopped = stopped reason left;
        counted = refl;
      })
    where
      stopped : (r : StopReason) → Left m sampler caller c (some r) limit ts → Stopped limit r ts
      stopped (stop_token t) left = left
      stopped cancelled left = left
      stopped callback left = left
      stopped stop_sequence left = left
      stopped max_tokens left = absurd left
      stopped context_reached left = absurd left

  after_prefill-Generates :
      (prompt : List ℕ) (limit : ℕ) (s : Session S F) (out : Ended W S E F Prefilled)
      → limit ≤ c.max_new_tokens
      → Prefills m caller prompt s out
      → Generates prompt limit s (after_prefill m sampler caller c limit (length prompt) out)
  unfolding after_prefill outcome
  after_prefill-Generates prompt limit s (w, t, err e) small failed = failed
  after_prefill-Generates prompt limit s (w, t, ok interrupted) small (fed, rest, split, feeds) =
      inl (record {
        fed = fed;
        rest = rest;
        split = split;
        feeds = feeds;
        nothing_generated = refl;
        reason = refl;
        counted = inr refl;
      })
  after_prefill-Generates prompt limit s (w, t, ok completed) small fed =
      elim (Result-cases (sampler.create c m.vocabulary_size)) [
        | inr (e, k) ↦ rw (after_prefill, k) (Feeds-healthy m s t prompt fed)
        | inl (q, k) ↦
            rw (after_prefill, k)
              (finish-Generates prompt limit s t _ fed small
                (decode-Decodes m sampler caller c limit 0 q [] w t))
      ]

  pub begin-Generates :
      (prompt : List ℕ) (limit : ℕ) (s : Session S F) (flag : W × Bool)
      → limit ≤ c.max_new_tokens
      → Generates prompt limit s (begin m sampler caller c prompt limit s flag)
  unfolding begin outcome
  begin-Generates prompt limit s (w, true) small = inl (record {
    fed = [];
    rest = prompt;
    split = refl;
    feeds = nothing;
    nothing_generated = refl;
    reason = refl;
    counted = inl (refl, refl);
  })
  begin-Generates prompt limit s (w, false) small =
      after_prefill-Generates prompt limit s _ small (prefill-Prefills m caller prompt w s)
