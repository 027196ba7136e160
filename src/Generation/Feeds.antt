-- ===== src/Generation/Feeds.antt =====
-- The evaluations that a session has been through.
use light_bridge_engine.Base.{
  ℕ, suc, ◌+◌, ◌≡◌, refl, sym, ap, ◌∙◌, List, [], ◌∷◌, ◌++◌, Result, ok, err, length, arith,
  append-nil, append_assoc,
}
use light_bridge_engine.Generation.{CausalModel, Session, GenerationError, evaluate, after_evaluate}

module _ {S E F : Type 0} (m : CausalModel S E F) where
  -- The model evaluates the tokens one after the other, each time with success.
  pub data Feeds : Session S F → List ℕ → Session S F → Type 0 where
    nothing : {s : Session S F} → Feeds s [] s
    more :
        {s t u : Session S F} {token : ℕ} {tokens : List ℕ}
        → evaluate m s token ≡ (t, ok tt)
        → Feeds t tokens u
        → Feeds s (token ∷ tokens) u

  pub Feeds-append :
      {s t u : Session S F} {xs ys : List ℕ} → Feeds s xs t → Feeds t ys u → Feeds s (xs ++ ys) u
  Feeds-append nothing k = k
  Feeds-append (more e h) k = more e (Feeds-append h k)

  -- What the model promises of the position: a token that it evaluates is one position more.
  abbrev pub Advances : Type 0
  Advances =
      (s : S) (token : ℕ) (logits : List F) (t : S) (logits' : List F)
      → m.evaluate_token s token logits ≡ (t, logits', ok tt)
      → m.position t ≡ suc (m.position s)

  -- A session after one more token.
  record Grown (s t : Session S F) (token : ℕ) : Type 0 where
    history : t.history ≡ s.history ++ token ∷ []
    healthy : t.healthy ≡ s.healthy
    position : Advances → m.position t.model ≡ suc (m.position s.model)

  evaluate-Grown :
      (s t : Session S F) (token : ℕ) → evaluate m s token ≡ (t, ok tt) → Grown s t token
  unfolding evaluate after_evaluate
  evaluate-Grown s t token h = grown (m.evaluate_token s.model token s.logits) refl h
    where
      grown :
          (out : S × List F × Result E (Unit {0}))
          → m.evaluate_token s.model token s.logits ≡ out
          → after_evaluate m s token out ≡ (t, ok tt)
          → Grown s t token
      grown (model, logits, ok tt) e k =
          let same =
            sym (ap (λ (o : Session S F × Result (GenerationError E F) (Unit {0})). o.0) k) in
          record {
            history = ap (λ (x : Session S F). x.history) same;
            healthy = ap (λ (x : Session S F). x.healthy) same;
            position = λ law.
                ap (λ (x : Session S F). m.position x.model) same
                ∙ law s.model token s.logits model logits e;
          }
      grown (model, logits, err e) _ k = cc

  -- The history is what was evaluated.
  pub Feeds-history :
      (s t : Session S F) (tokens : List ℕ) → Feeds s tokens t → t.history ≡ s.history ++ tokens
  Feeds-history s _ _ nothing = sym (append-nil s.history)
  Feeds-history s u _ (more {t = t} {token = token} {tokens = tokens} e h) =
      Feeds-history t u tokens h
      ∙ ap (λ x. x ++ tokens) (evaluate-Grown s t token e).history
      ∙ append_assoc s.history (token ∷ []) tokens

  pub Feeds-healthy :
      (s t : Session S F) (tokens : List ℕ) → Feeds s tokens t → t.healthy ≡ s.healthy
  Feeds-healthy s _ _ nothing = refl
  Feeds-healthy s u _ (more {t = t} {token = token} {tokens = tokens} e h) =
      Feeds-healthy t u tokens h ∙ (evaluate-Grown s t token e).healthy

  pub Feeds-position :
      Advances
      → (s t : Session S F) (tokens : List ℕ) → Feeds s tokens t
      → m.position t.model ≡ m.position s.model + length tokens
  Feeds-position law s _ _ nothing = omega arith
  Feeds-position law s u _ (more {t = t} {token = token} {tokens = tokens} e h) =
      let rest = Feeds-position law t u tokens h in
      let one = (evaluate-Grown s t token e).position law in omega arith
