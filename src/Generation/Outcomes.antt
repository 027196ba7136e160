-- ===== src/Generation/Outcomes.antt =====
-- How the loops of a generation end.
use light_bridge_engine.Base.{
  ℕ, ◌≡◌, refl, sym, ap, ◌∙◌, List, [], ◌∷◌, ◌++◌, Bool, true, false, Result, ok, err, arith, subst,
}
use light_bridge_engine.Generation.{
  CausalModel, Session, GenerationError, model_failed, sampling, Caller, evaluate, after_evaluate,
  session_poisoned, token_out_of_range, prompt_exceeds_context, empty_prompt, arithmetic_overflow,
  allocation_failed,
}
use light_bridge_engine.Generation.Loops.{
  Ended, Prefilled, completed, interrupted, prefill_evaluated, prefill_checked, prefill,
}
use light_bridge_engine.Generation.Feeds.{Feeds, nothing, more, Feeds-healthy}

-- A model's failure poisons the session, and no other error changes its health.
abbrev pub Failed : {S E F : Type 0} → GenerationError E F → Session S F → Session S F → Type 0
Failed (model_failed e) s t = t.healthy ≡ false
Failed (sampling e) s t = t.healthy ≡ s.healthy
Failed session_poisoned s t = t.healthy ≡ s.healthy
Failed (token_out_of_range k n) s t = t.healthy ≡ s.healthy
Failed (prompt_exceeds_context p n c) s t = t.healthy ≡ s.healthy
Failed empty_prompt s t = t.healthy ≡ s.healthy
Failed arithmetic_overflow s t = t.healthy ≡ s.healthy
Failed allocation_failed s t = t.healthy ≡ s.healthy

pub Failed-from :
    {S E F : Type 0} (e : GenerationError E F) (s s' t : Session S F)
    → s'.healthy ≡ s.healthy
    → Failed e s' t
    → Failed e s t
Failed-from (model_failed e) s s' t h k = k
Failed-from (sampling e) s s' t h k = k ∙ h
Failed-from session_poisoned s s' t h k = k ∙ h
Failed-from (token_out_of_range i n) s s' t h k = k ∙ h
Failed-from (prompt_exceeds_context p n c) s s' t h k = k ∙ h
Failed-from empty_prompt s s' t h k = k ∙ h
Failed-from arithmetic_overflow s s' t h k = k ∙ h
Failed-from allocation_failed s s' t h k = k ∙ h

module _ {S E F : Type 0} (m : CausalModel S E F) where
  pub evaluate-Failed :
      (s t : Session S F) (token : ℕ) (e : GenerationError E F)
      → evaluate m s token ≡ (t, err e)
      → Failed e s t
  unfolding evaluate after_evaluate
  evaluate-Failed s t token e h = failed (m.evaluate_token s.model token s.logits) h
    where
      failed :
          (out : S × List F × Result E (Unit {0}))
          → after_evaluate m s token out ≡ (t, err e)
          → Failed e s t
      failed (model, logits, ok tt) k = cc
      failed (model, logits, err x) k =
          let error : model_failed x ≡ e = ground arith in
          subst (λ y. Failed y s t) error
            (sym
              (ap (λ (o : Session S F × Result (GenerationError E F) (Unit {0})). o.0.healthy) k))

module _ {W S E F : Type 0} (m : CausalModel S E F) (caller : Caller W) where
  -- The tokens that the loop over a prompt evaluated: all of them, or those before the
  -- interruption.
  abbrev pub Prefills : List ℕ → Session S F → Ended W S E F Prefilled → Type 0
  Prefills prompt s (w, t, err e) = Failed e s t
  Prefills prompt s (w, t, ok completed) = Feeds m s prompt t
  Prefills prompt s (w, t, ok interrupted) =
      (fed : List ℕ) × (rest : List ℕ) × (fed ++ rest ≡ prompt) × Feeds m s fed t

  Prefills-more :
      (token : ℕ) (tokens : List ℕ) (s t : Session S F) (out : Ended W S E F Prefilled)
      → evaluate m s token ≡ (t, ok tt)
      → Prefills tokens t out
      → Prefills (token ∷ tokens) s out
  Prefills-more token tokens s t (w, u, err e) one rest =
      Failed-from e s t u (Feeds-healthy m s t (token ∷ []) (more one nothing)) rest
  Prefills-more token tokens s t (w, u, ok completed) one rest = more one rest
  Prefills-more token tokens s t (w, u, ok interrupted) one (fed, left, split, feeds) =
      (token ∷ fed, left, ap (◌∷◌ token) split, more one feeds)

  prefill_evaluated-Prefills :
      (next : W → Session S F → Ended W S E F Prefilled) (token : ℕ) (tokens : List ℕ) (w : W)
      (s : Session S F) (out : Session S F × Result (GenerationError E F) (Unit {0}))
      → evaluate m s token ≡ out
      → ((v : W) (t : Session S F) → Prefills tokens t (next v t))
      → Prefills (token ∷ tokens) s (prefill_evaluated m caller next w out)
  unfolding prefill_evaluated
  prefill_evaluated-Prefills next token tokens w s (t, ok tt) one rest =
      Prefills-more token tokens s t (next w t) one (rest w t)
  prefill_evaluated-Prefills next token tokens w s (t, err e) one rest =
      evaluate-Failed m s t token e one

  prefill_checked-Prefills :
      (next : W → Session S F → Ended W S E F Prefilled) (token : ℕ) (tokens : List ℕ)
      (s : Session S F) (flag : W × Bool)
      → ((v : W) (t : Session S F) → Prefills tokens t (next v t))
      → Prefills (token ∷ tokens) s (prefill_checked m caller next s token flag)
  unfolding prefill_checked
  prefill_checked-Prefills next token tokens s (w, true) rest = ([], token ∷ tokens, refl, nothing)
  prefill_checked-Prefills next token tokens s (w, false) rest =
      prefill_evaluated-Prefills next token tokens w s (evaluate m s token) refl rest

  pub prefill-Prefills :
      (prompt : List ℕ) (w : W) (s : Session S F) → Prefills prompt s (prefill m caller prompt w s)
  unfolding prefill
  prefill-Prefills [] w s = nothing
  prefill-Prefills (token ∷ tokens) w s =
      prefill_checked-Prefills (prefill m caller tokens) token tokens s (caller.is_cancelled w)
        (λ v t. prefill-Prefills tokens v t)
