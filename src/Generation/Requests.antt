-- ===== src/Generation/Requests.antt =====
-- What a whole call of `generate_stream` promises.
use light_bridge_engine.Base.{
  ℕ, ◌+◌, ◌-◌, ◌≤◌, ◌≡◌, refl, sym, ap, ◌∙◌, List, [], ◌∷◌, ◌++◌, Bool, true, false, not, ◌||◌,
  ◌&&◌, Result, ok, err, length, arith, Bool-cases, Option-cases, Result-cases, inl, inr, subst,
  ltb, leb, ◌==◌, checked_add, length-append,
}
use light_bridge_engine.Generation.Sampling.{SamplingConfig, Float32, validate}
use light_bridge_engine.Generation.{
  CausalModel, Sampler, Session, GenerationError, Caller, GenerationOutcome, check_tokens,
  token_out_of_range,
}
use light_bridge_engine.Generation.Loops.{
  generation_limit, check_request, check_fit, check_prompt, started, generate_stream,
}
use light_bridge_engine.Generation.Feeds.{Feeds, Feeds-history, Feeds-position, Advances}
use light_bridge_engine.Generation.Outcomes.{Failed}
use light_bridge_engine.Generation.Guarantees.{Generates, begin-Generates}
use light_bridge_engine.Generation.Decoding.{length-shown}

module _ {W S E F Q : Type 0} (m : CausalModel S E F) (sampler : Sampler Q F) (caller : Caller W)
    (c : SamplingConfig F) where
  check_tokens-Failed :
      (prompt : List ℕ) (s : Session S F) (e : GenerationError E F)
      → check_tokens m prompt ≡ err e
      → Failed e s s
  unfolding check_tokens
  check_tokens-Failed [] s e h = cc
  check_tokens-Failed (t ∷ ts) s e h = elim (Bool-cases (leb m.vocabulary_size t)) [
    | inl out ↦
        let error : token_out_of_range t m.vocabulary_size ≡ e = ground arith in
        subst (λ x. Failed x s s) error refl
    | inr in_range ↦ check_tokens-Failed ts s e (rw (check_tokens, in_range) at h)
  ]

  -- What the checks let pass, or the error that they return.
  abbrev Checked : List ℕ → Session S F → Result (GenerationError E F) (Unit {0}) → Type 0
  Checked prompt s (ok _) =
      (s.healthy ≡ true) × (m.position s.model + length prompt ≤ m.context_length)
  Checked prompt s (err e) = Failed e s s

  check_fit-Checked :
      (prompt : List ℕ) (s : Session S F)
      → s.healthy ≡ true
      → Checked prompt s (check_fit m sampler caller c prompt s)
  unfolding check_fit
  check_fit-Checked prompt s well =
      elim (Bool-cases (
        ltb m.context_length (m.position s.model)
        || ltb (m.context_length - m.position s.model) (length prompt))) [
          | inl over ↦ rw (check_fit, over) refl
          | inr fits ↦ elim (Bool-cases ((length prompt == 0) && not s.has_logits)) [
            | inl unknown ↦ rw (check_fit, fits, unknown) refl
            | inr known ↦ rw (check_fit, fits, known) (well, ground arith)
          ]
        ]

  check_prompt-Checked :
      (b : Bool) (prompt : List ℕ) (s : Session S F)
      → s.healthy ≡ b
      → Checked prompt s (check_prompt m sampler caller c b prompt s)
  unfolding check_prompt
  check_prompt-Checked false prompt s sick = refl
  check_prompt-Checked true prompt s well = elim (Result-cases (check_tokens m prompt)) [
    | inr (e, k) ↦ rw (check_prompt, k) (check_tokens-Failed prompt s e k)
    | inl (u, k) ↦ rw (check_prompt, k) (check_fit-Checked prompt s well)
  ]

  check_request-Checked :
      (f32 : Float32 F) (prompt : List ℕ) (s : Session S F)
      → Checked prompt s (check_request m sampler caller c f32 prompt s)
  unfolding check_request
  check_request-Checked f32 prompt s = elim (Result-cases (validate f32 c m.vocabulary_size)) [
    | inr (e, v) ↦ rw (check_request, v) refl
    | inl (u, v) ↦ rw (check_request, v) (check_prompt-Checked s.healthy prompt s refl)
  ]

  started-Generates :
      (has_room : ℕ → Bool) (prompt : List ℕ) (limit : ℕ) (w : W) (s : Session S F)
      → limit ≤ c.max_new_tokens
      → Generates m sampler caller c prompt limit s
          (started m sampler caller c has_room prompt limit w s)
  unfolding started
  started-Generates has_room prompt limit w s small =
      elim (Option-cases (checked_add (length prompt) limit)) [
        | inl e ↦ rw (started, e) refl
        | inr (requested, e) ↦ elim (Bool-cases (has_room requested && has_room limit)) [
          | inl room ↦
              rw (started, e, room)
                (begin-Generates m sampler caller c prompt limit s (caller.is_cancelled w) small)
          | inr full ↦ rw (started, e, full) refl
        ]
      ]

  limit-small :
      (prompt : List ℕ) (s : Session S F)
      → generation_limit m sampler caller c prompt s ≤ c.max_new_tokens
  unfolding generation_limit
  limit-small prompt s = omega arith

  -- How a call ends: with an error, which poisons the session if the model failed and leaves its
  -- health as it was otherwise; or cancelled within its prompt; or after the prompt and some tokens
  -- that it sampled, of which those that are shown are returned, for the reason that is returned.
  pub generate_stream-Generates :
      (f32 : Float32 F) (has_room : ℕ → Bool) (prompt : List ℕ) (w : W) (s : Session S F)
      → Generates m sampler caller c prompt
          (generation_limit m sampler caller c prompt s)
          s
          (generate_stream m sampler caller c f32 has_room prompt w s)
  unfolding generate_stream
  generate_stream-Generates f32 has_room prompt w s =
      let checked = check_request-Checked f32 prompt s in
      elim (Result-cases (check_request m sampler caller c f32 prompt s)) [
        | inr (e, k) ↦ rw (generate_stream, k) (rw k at checked)
        | inl (u, k) ↦
            rw (generate_stream, k) (started-Generates has_room prompt _ w s (limit-small prompt s))
      ]

  -- A call that returns tokens passed the checks.
  generate_stream-checked :
      (f32 : Float32 F) (has_room : ℕ → Bool) (prompt : List ℕ) (w w' : W) (s t : Session S F)
      (o : GenerationOutcome)
      → generate_stream m sampler caller c f32 has_room prompt w s ≡ (w', t, ok o)
      → (s.healthy ≡ true) × (m.position s.model + length prompt ≤ m.context_length)
  unfolding generate_stream
  generate_stream-checked f32 has_room prompt w w' s t o h =
      let checked = check_request-Checked f32 prompt s in
      elim (Result-cases (check_request m sampler caller c f32 prompt s)) [
        | inr (e, k) ↦ let broken = rw (generate_stream, k) at h in cc
        | inl (u, k) ↦ rw k at checked
      ]

  -- What a session gains when it is fed some tokens.
  Feeds-gain :
      (s t : Session S F) (fed : List ℕ)
      → Advances m
      → Feeds m s fed t
      → (m.position t.model ≡ m.position s.model + length fed)
        × (length t.history ≡ length s.history + length fed)
  Feeds-gain s t fed law feeds = (
    Feeds-position m law s t fed feeds,
    ap length (Feeds-history m s t fed feeds) ∙ length-append s.history fed,
  )

  -- On a model that counts its positions, a call that returns leaves the session within the
  -- context, the history grows by as many tokens as the position, and no more tokens are returned
  -- than were asked for.
  pub generate_stream-bounded :
      (f32 : Float32 F) (has_room : ℕ → Bool) (prompt : List ℕ) (w w' : W) (s t : Session S F)
      (o : GenerationOutcome)
      → Advances m
      → generate_stream m sampler caller c f32 has_room prompt w s ≡ (w', t, ok o)
      → (m.position t.model ≤ m.context_length)
        × (m.position t.model + length s.history ≡ m.position s.model + length t.history)
        × (length o.token_ids ≤ c.max_new_tokens)
  unfolding generation_limit
  generate_stream-bounded f32 has_room prompt w w' s t o law h =
      let limit : ℕ = generation_limit m sampler caller c prompt s in
      let (_, fits) = generate_stream-checked f32 has_room prompt w w' s t o h in
      let small : limit ≤ m.context_length - m.position s.model - length prompt = omega arith in
      let few : limit ≤ c.max_new_tokens = limit-small prompt s in
      elim (subst (Generates m sampler caller c prompt limit s) h
        (generate_stream-Generates f32 has_room prompt w s)) [
          | inl i ↦
              let (place, grown) = Feeds-gain s t i.fed law i.feeds in
              let part = ap length (sym i.split) ∙ length-append i.fed i.rest in
              let none_kept = ap length i.nothing_generated in
              (omega arith, omega arith, omega arith)
          | inr g ↦
              let (place, grown) = Feeds-gain s t (prompt ++ g.sampled) law g.feeds in
              let all = length-append prompt g.sampled in
              let some_kept = ap length g.kept in
              let shows = length-shown m sampler caller c g.sampled in
              let below = g.few in (omega arith, omega arith, omega arith)
        ]
