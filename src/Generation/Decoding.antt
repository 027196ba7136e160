-- ===== src/Generation/Decoding.antt =====
-- How the loop over the new tokens ends.
use light_bridge_engine.Base.{
  ℕ, zero, suc, ◌≤◌, ◌<◌, ◌≡◌, refl, sym, ap, ◌∙◌, List, [], ◌∷◌, ◌++◌, Bool, true, false, Option,
  none, some, Result, ok, err, length, arith, append-nil, append_assoc, Bool-cases, inl, inr,
  if◌then◌else◌, All,
}
use light_bridge_engine.Generation.Sampling.{SamplingConfig, SamplingError, contains}
use light_bridge_engine.Generation.{
  CausalModel, Sampler, Session, GenerationError, StopReason, stop_token, stop_sequence, max_tokens,
  context_reached, cancelled, callback, Caller, evaluate,
}
use light_bridge_engine.Generation.Loops.{
  Ended, Decoded, is_shown, after_emit, deliver, after_sample, decode_checked, decode,
}
use light_bridge_engine.Generation.Feeds.{Feeds, nothing, more, Feeds-healthy}
use light_bridge_engine.Generation.Outcomes.{Failed, Failed-from, evaluate-Failed}

module _ {W S E F Q : Type 0} (m : CausalModel S E F) (sampler : Sampler Q F) (caller : Caller W)
    (c : SamplingConfig F) where
  abbrev shows : ℕ → Bool
  shows = is_shown m sampler caller c

  -- The tokens that are kept of those that were sampled.
  pub shown : List ℕ → List ℕ
  shown [] = []
  shown (t ∷ ts) = if shows t then t ∷ shown ts else shown ts

  abbrev pub Free : List ℕ → Type 0
  Free = All (λ t. contains c.stop_tokens t ≡ false)

  -- How the loop was left, after the tokens that it sampled: at the end of its rounds, at the
  -- first stop token, or before that by the caller.
  abbrev pub Left : Option StopReason → ℕ → List ℕ → Type 0
  Left none rounds ts = Free ts × (length ts ≡ rounds)
  Left (some (stop_token t)) rounds ts =
      (before : List ℕ) × (ts ≡ before ++ t ∷ []) × Free before × (contains c.stop_tokens t ≡ true)
  Left (some cancelled) rounds ts = Free ts
  Left (some callback) rounds ts = 0 < length ts
  Left (some stop_sequence) rounds ts = ⊥
  Left (some max_tokens) rounds ts = ⊥
  Left (some context_reached) rounds ts = ⊥

  abbrev pub Decodes : ℕ → Session S F → List ℕ → Ended W S E F Decoded → Type 0
  Decodes rounds s generated (w, t, err e) = Failed e s t
  Decodes rounds s generated (w, t, ok (generated', reason)) =
      (ts : List ℕ) × Feeds m s ts t
      × (generated' ≡ generated ++ shown ts)
      × (length ts ≤ rounds)
      × Left reason rounds ts

  Left-more :
      (reason : Option StopReason) (rounds token : ℕ) (ts : List ℕ)
      → contains c.stop_tokens token ≡ false
      → Left reason rounds ts
      → Left reason (suc rounds) (token ∷ ts)
  Left-more none rounds token ts free (rest, full) = ((free, rest), ap suc full)
  Left-more (some (stop_token t)) rounds token ts free (before, e, rest, stop) =
      (token ∷ before, ap (◌∷◌ token) e, (free, rest), stop)
  Left-more (some cancelled) rounds token ts free rest = (free, rest)
  Left-more (some callback) rounds token ts free rest = omega arith
  Left-more (some stop_sequence) rounds token ts free rest = absurd rest
  Left-more (some max_tokens) rounds token ts free rest = absurd rest
  Left-more (some context_reached) rounds token ts free rest = absurd rest

  Decodes-more :
      (rounds token : ℕ) (s t : Session S F) (generated kept : List ℕ) (out : Ended W S E F Decoded)
      → evaluate m s token ≡ (t, ok tt)
      → contains c.stop_tokens token ≡ false
      → ((ts : List ℕ) → kept ++ shown ts ≡ generated ++ shown (token ∷ ts))
      → Decodes rounds t kept out
      → Decodes (suc rounds) s generated out
  Decodes-more rounds token s t generated kept (w, u, err e) one free keeps rest =
      Failed-from e s t u (Feeds-healthy m s t (token ∷ []) (more one nothing)) rest
  Decodes-more rounds token s t generated kept (w, u, ok (generated', reason)) one free keeps
        (ts, feeds, seen, few, left) =
      (
        token ∷ ts,
        more one feeds,
        seen ∙ keeps ts,
        omega arith,
        Left-more reason rounds token ts free left,
      )

  shown-yes :
      (token : ℕ) (generated ts : List ℕ)
      → shows token ≡ true
      → (generated ++ token ∷ []) ++ shown ts ≡ generated ++ shown (token ∷ ts)
  unfolding shown
  shown-yes token generated ts h = rw h (append_assoc generated (token ∷ []) (shown ts))

  shown-no :
      (token : ℕ) (generated ts : List ℕ)
      → shows token ≡ false
      → generated ++ shown ts ≡ generated ++ shown (token ∷ ts)
  unfolding shown
  shown-no token generated ts h = rw h refl

  pub length-shown : (ts : List ℕ) → length (shown ts) ≤ length ts
  unfolding shown
  length-shown [] = omega arith
  length-shown (t ∷ ts) = elim (Bool-cases (shows t)) [
    | inl show ↦ rw show (omega (arith, length-shown ts))
    | inr hide ↦ rw hide (omega (arith, length-shown ts))
  ]

  shown-nil : (generated : List ℕ) → generated ++ shown [] ≡ generated
  unfolding shown
  shown-nil generated = append-nil generated

  -- The round that samples the last token.
  Decodes-last :
      (rounds token : ℕ) (s t : Session S F) (generated kept : List ℕ) (w : W) (reason : StopReason)
      → evaluate m s token ≡ (t, ok tt)
      → ((ts : List ℕ) → kept ++ shown ts ≡ generated ++ shown (token ∷ ts))
      → Left (some reason) (suc rounds) (token ∷ [])
      → Decodes (suc rounds) s generated (w, t, ok (kept, some reason))
  Decodes-last rounds token s t generated kept w reason one keeps left =
      (token ∷ [], more one nothing, sym (shown-nil kept) ∙ keeps [], omega arith, left)

  after_emit-Decodes :
      (next : W → Ended W S E F Decoded) (rounds token : ℕ) (s t : Session S F)
      (generated kept : List ℕ) (out : W × Bool)
      → evaluate m s token ≡ (t, ok tt)
      → ((ts : List ℕ) → kept ++ shown ts ≡ generated ++ shown (token ∷ ts))
      → ((w : W) → Decodes rounds t kept (next w))
      → Decodes (suc rounds) s generated (after_emit m sampler caller c next t kept token out)
  unfolding after_emit
  after_emit-Decodes next rounds token s t generated kept (w, true) one keeps rest =
      Decodes-last rounds token s t generated kept w callback one keeps (omega arith)
  after_emit-Decodes next rounds token s t generated kept (w, false) one keeps rest =
      elim (Bool-cases (contains c.stop_tokens token)) [
        | inl stop ↦
            rw (after_emit, stop)
              (Decodes-last rounds token s t generated kept w (stop_token token) one keeps
                ([], refl, tt, stop))
        | inr free ↦
            rw (after_emit, free)
              (Decodes-more rounds token s t generated kept (next w) one free keeps (rest w))
      ]

  deliver-Decodes :
      (next : List ℕ → W → Session S F → Ended W S E F Decoded) (rounds index token : ℕ)
      (s : Session S F) (generated : List ℕ) (w : W)
      (out : Session S F × Result (GenerationError E F) (Unit {0}))
      → evaluate m s token ≡ out
      → ((kept : List ℕ) (v : W) (t : Session S F) → Decodes rounds t kept (next kept v t))
      → Decodes
          (suc rounds)
          s
          generated
          (deliver m sampler caller c next generated index token w out)
  unfolding deliver
  deliver-Decodes next rounds index token s generated w (t, err e) one rest =
      evaluate-Failed m s t token e one
  deliver-Decodes next rounds index token s generated w (t, ok tt) one rest =
      elim (Bool-cases (shows token)) [
        | inl show ↦
            let kept = generated ++ token ∷ [] in
            rw (deliver, show)
              (after_emit-Decodes (λ v. next kept v t) rounds token s t generated kept _ one
                (λ ts. shown-yes token generated ts show) (λ v. rest kept v t))
        | inr hide ↦ elim (Bool-cases (contains c.stop_tokens token)) [
          | inl stop ↦
              rw (deliver, hide, stop)
                (Decodes-last rounds token s t generated generated w (stop_token token) one
                  (λ ts. shown-no token generated ts hide) ([], refl, tt, stop))
          | inr free ↦
              rw (deliver, hide, free)
                (Decodes-more rounds token s t generated generated (next generated w t) one free
                  (λ ts. shown-no token generated ts hide) (rest generated w t))
        ]
      ]

  after_sample-Decodes :
      (next : Q → List ℕ → W → Session S F → Ended W S E F Decoded) (rounds index : ℕ)
      (s : Session S F) (generated : List ℕ) (w : W) (out : Q × Result (SamplingError F) ℕ)
      → ((q : Q) (kept : List ℕ) (v : W) (t : Session S F)
          → Decodes rounds t kept (next q kept v t))
      → Decodes
          (suc rounds)
          s
          generated
          (after_sample m sampler caller c next generated index w s out)
  unfolding after_sample
  after_sample-Decodes next rounds index s generated w (q, err e) rest = refl
  after_sample-Decodes next rounds index s generated w (q, ok token) rest =
      deliver-Decodes (next q) rounds index token s generated w (evaluate m s token) refl (rest q)

  decode_checked-Decodes :
      (next : Q → List ℕ → W → Session S F → Ended W S E F Decoded) (rounds index : ℕ) (q : Q)
      (s : Session S F) (generated : List ℕ) (flag : W × Bool)
      → ((q : Q) (kept : List ℕ) (v : W) (t : Session S F)
          → Decodes rounds t kept (next q kept v t))
      → Decodes
          (suc rounds)
          s
          generated
          (decode_checked m sampler caller c next index q generated s flag)
  unfolding decode_checked
  decode_checked-Decodes next rounds index q s generated (w, true) rest =
      ([], nothing, sym (shown-nil generated), omega arith, tt)
  decode_checked-Decodes next rounds index q s generated (w, false) rest =
      after_sample-Decodes next rounds index s generated w _ rest

  pub decode-Decodes :
      (rounds index : ℕ) (q : Q) (generated : List ℕ) (w : W) (s : Session S F)
      → Decodes rounds s generated (decode m sampler caller c rounds index q generated w s)
  unfolding decode
  decode-Decodes zero index q generated w s =
      ([], nothing, sym (shown-nil generated), omega arith, (tt, refl))
  decode-Decodes (suc rounds) index q generated w s =
      decode_checked-Decodes (decode m sampler caller c rounds (suc index)) rounds index q s
        generated (caller.is_cancelled w)
        (λ q kept v t. decode-Decodes rounds (suc index) q kept v t)
