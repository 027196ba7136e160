-- ===== src/Generation/Poisoning.antt =====
-- What becomes of a session once the model has failed.
use light_bridge_engine.Base.{
  ℕ, ◌≡◌, refl, ap, List, [], ◌∷◌, Bool, false, Result, ok, err, Result-cases, inl, inr, subst, map,
}
use light_bridge_engine.Generation.Sampling.{SamplingConfig, SamplingError, Float32, validate}
use light_bridge_engine.Generation.{
  CausalModel, Sampler, Session, GenerationError, Caller, GenerationOutcome, session_poisoned,
  model_failed, sampling,
}
use light_bridge_engine.Generation.Loops.{
  generation_limit, check_request, check_prompt, generate_stream,
}
use light_bridge_engine.Generation.Guarantees.{Generates}
use light_bridge_engine.Generation.Requests.{generate_stream-Generates}

-- The error of a call on a poisoned session, from the check of its configuration.
abbrev pub refusal : {E F : Type 0} → Result (SamplingError F) (Unit {0}) → GenerationError E F
refusal (err e) = sampling e
refusal (ok u) = session_poisoned

module _ {W S E F Q : Type 0} (m : CausalModel S E F) (sampler : Sampler Q F) (caller : Caller W)
    (c : SamplingConfig F) where
  -- A session that is not healthy is refused as it is.
  refused :
      (f32 : Float32 F) (has_room : ℕ → Bool) (prompt : List ℕ) (w : W) (s : Session S F)
      → s.healthy ≡ false
      → generate_stream m sampler caller c f32 has_room prompt w s
        ≡ (w, s, err (refusal (validate f32 c m.vocabulary_size)))
  unfolding generate_stream check_request
  refused f32 has_room prompt w s sick = elim (Result-cases (validate f32 c m.vocabulary_size)) [
    | inr (e, v) ↦ rw (generate_stream, check_request, v) refl
    | inl (u, v) ↦
        let checked : check_request m sampler caller c f32 prompt s ≡ err session_poisoned =
          rw (check_request, v) (ap (λ b. check_prompt m sampler caller c b prompt s) sick) in
        rw (generate_stream, checked, v) refl
  ]

  -- The model's failure leaves the session poisoned.
  failed-poisons :
      (f32 : Float32 F) (has_room : ℕ → Bool) (prompt : List ℕ) (w w' : W) (s t : Session S F)
      (e : E)
      → generate_stream m sampler caller c f32 has_room prompt w s ≡ (w', t, err (model_failed e))
      → t.healthy ≡ false
  failed-poisons f32 has_room prompt w w' s t e h =
      subst (Generates m sampler caller c prompt (generation_limit m sampler caller c prompt s) s) h
        (generate_stream-Generates m sampler caller c f32 has_room prompt w s)

-- A call on a session, with its own configuration, sampler and caller.
pub record Request (W F : Type 0) : Type 1 where
  pub Draw : Type 0
  pub sampler : Sampler Draw F
  pub caller : Caller W
  pub config : SamplingConfig F
  pub f32 : Float32 F
  pub has_room : ℕ → Bool
  pub prompt : List ℕ

module _ {W S E F : Type 0} (m : CausalModel S E F) where
  unfoldable pub serve :
      Request W F
      → W
      → Session S F
      → W × Session S F × Result (GenerationError E F) GenerationOutcome
  unfolding generate_stream
  serve r = generate_stream m r.sampler r.caller r.config r.f32 r.has_room r.prompt

  -- The calls of a list, one after the other, and their results.
  unfoldable pub serve_all :
      List (Request W F)
      → W
      → Session S F
      → W × Session S F × List (Result (GenerationError E F) GenerationOutcome)
  unfolding serve
  serve_all [] w s = (w, s, [])
  serve_all (r ∷ requests) w s =
      let (w', s', result) = serve r w s in
      let (w'', s'', results) = serve_all requests w' s' in (w'', s'', result ∷ results)

  all_refused :
      (later : List (Request W F)) (v : W) (t : Session S F)
      → t.healthy ≡ false
      → serve_all later v t ≡ (
        v,
        t,
        map (λ (r : Request W F). err (refusal (validate r.f32 r.config m.vocabulary_size))) later,
      )
  unfolding serve_all serve
  all_refused [] v t sick = refl
  all_refused (r ∷ later) v t sick =
      let now = refused m r.sampler r.caller r.config r.f32 r.has_room r.prompt v t sick in
      rw (serve_all, serve, now, all_refused later v t sick) refl

  -- Once the model has failed in a call, all the calls that follow on that session before a reset,
  -- whatever their configurations, samplers, callers and prompts, are refused and change nothing:
  -- each returns the error of its configuration, or that the session is poisoned if that is valid.
  pub generate_stream-poisoned :
      (first : Request W F) (later : List (Request W F)) (w w' v : W) (s t : Session S F) (e : E)
      → serve first w s ≡ (w', t, err (model_failed e))
      → serve_all later v t ≡ (
        v,
        t,
        map (λ (r : Request W F). err (refusal (validate r.f32 r.config m.vocabulary_size))) later,
      )
  unfolding serve_all serve
  generate_stream-poisoned first later w w' v s t e h = all_refused later v t (
      failed-poisons m first.sampler first.caller first.config first.f32 first.has_room first.prompt
        w w' s t e h)
