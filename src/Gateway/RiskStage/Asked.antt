-- ===== src/Gateway/RiskStage/Asked.antt =====
-- The gate of the risk stage (mcp-proxy/src/gateway/risk_stage.rs) over the scores of the open core's
-- engine (mcp-proxy/src/scoring/basic.rs).
use sqreen_core.Prelude.{
  ℕ, ◌-◌, min, max, leb, ◌≡◌, ◌⊎◌, inl, inr, refl, arith, ap, ap₂, ◌∙◌, sym, String, ◌&◌, Bool,
  true, false, subst, ◌&&◌, ◌||◌, is_some, some, List, [], ◌∷◌, ◌++◌, when, any, Member,
  if◌then◌else◌,
}
use mathlib.Core.List.{append_assoc}
use sqreen_core.Action.{Action}
use sqreen_core.Taxonomy.{secret, credential, touches_resource, category_str}
use sqreen_core.Risk.{RiskAnalysis}
use sqreen_core.Scoring.{
  secret_access, destructive_action, policy_sensitive_operation, unusual_tool, behavioral_anomaly,
  threat_intel, content_secret, same_kind, has_factor, RiskFactorKind, RiskFactor,
  ExplainableRiskScore, RiskLevelThresholds,
}
use sqreen_core.Scoring.Basic.{
  ToolKnowledge, known, partially_classified, unknown, greatest, content_factor, tool_factors,
  knowledge_factor, is_destructive, is_policy_sensitive_tool, factors_of, score_action, bucket,
}
use sqreen_core.Gateway.RiskStage.{
  assess_risk, effective_score, force_gate, gate_score, is_remediable, content_points,
}

-- Does a factor of the kind stand in the list?
abbrev holds_kind : RiskFactorKind → List RiskFactor → Bool
holds_kind kind fs = any (λ (f : RiskFactor). same_kind f.kind kind) fs

or_true : (a b : Bool) → b ≡ true → (a || b) ≡ true
or_true a b h = ground arith

or_false : (a : Bool) → (a || false) ≡ a
or_false true = refl
or_false false = refl

and_true : (a : Bool) → (a && true) ≡ a
and_true true = refl
and_true false = refl

or_assoc : (a b c : Bool) → (a || (b || c)) ≡ ((a || b) || c)
or_assoc true b c = refl
or_assoc false b c = refl

holds_kind-append :
    (kind : RiskFactorKind) (xs ys : List RiskFactor)
    → holds_kind kind (xs ++ ys) ≡ (holds_kind kind xs || holds_kind kind ys)
holds_kind-append kind [] ys = refl
holds_kind-append kind (x ∷ xs) ys =
    ap (λ (b : Bool). same_kind x.kind kind || b) (holds_kind-append kind xs ys)
    ∙ or_assoc (same_kind x.kind kind) (holds_kind kind xs) (holds_kind kind ys)

lacks-append :
    (kind : RiskFactorKind) (xs ys : List RiskFactor)
    → holds_kind kind xs ≡ false
    → holds_kind kind ys ≡ false
    → holds_kind kind (xs ++ ys) ≡ false
lacks-append kind xs ys h k =
    holds_kind-append kind xs ys ∙ ap (λ (b : Bool). b || holds_kind kind ys) h ∙ k

lacks-when :
    (kind : RiskFactorKind) (b : Bool) (f : RiskFactor)
    → same_kind f.kind kind ≡ false
    → holds_kind kind (when b f) ≡ false
lacks-when kind true f h = ground (arith, h)
lacks-when kind false f h = refl

-- The action and the tool alone give no factor of three kinds.
abbrev IsForeign : RiskFactorKind → Type 0
IsForeign kind = (kind ≡ content_secret) ⊎ ((kind ≡ threat_intel) ⊎ (kind ≡ behavioral_anomaly))

abbrev Distinct : RiskFactorKind → Type 0
Distinct kind =
    (same_kind secret_access kind ≡ false)
    × (same_kind destructive_action kind ≡ false)
    × (same_kind policy_sensitive_operation kind ≡ false)
    × (same_kind unusual_tool kind ≡ false)

foreign-Distinct : (kind : RiskFactorKind) → IsForeign kind → Distinct kind
foreign-Distinct kind (inl e) = subst Distinct (sym e) (refl, refl, refl, refl)
foreign-Distinct kind (inr (inl e)) = subst Distinct (sym e) (refl, refl, refl, refl)
foreign-Distinct kind (inr (inr e)) = subst Distinct (sym e) (refl, refl, refl, refl)

lacks-knowledge :
    (kind : RiskFactorKind) (tool : String) (knowledge : ToolKnowledge)
    → same_kind unusual_tool kind ≡ false
    → holds_kind kind (knowledge_factor tool knowledge) ≡ false
unfolding knowledge_factor bucket
lacks-knowledge kind tool known h = refl
lacks-knowledge kind tool partially_classified h = ground (arith, h)
lacks-knowledge kind tool unknown h = ground (arith, h)

lacks-four :
    (kind : RiskFactorKind) (a b c : Bool) (f g h : RiskFactor) (rest : List RiskFactor)
    → same_kind f.kind kind ≡ false
    → same_kind g.kind kind ≡ false
    → same_kind h.kind kind ≡ false
    → holds_kind kind rest ≡ false
    → holds_kind kind (when a f ++ when b g ++ when c h ++ rest) ≡ false
lacks-four kind a b c f g h rest x y z r =
    lacks-append kind (when a f ++ when b g ++ when c h) rest
      (lacks-append kind (when a f ++ when b g) (when c h)
        (lacks-append kind (when a f) (when b g) (lacks-when kind a f x) (lacks-when kind b g y))
        (lacks-when kind c h z))
      r

tool_factors-lacks :
    (action : Action) (knowledge : ToolKnowledge) (kind : RiskFactorKind)
    → IsForeign kind
    → holds_kind kind (tool_factors action knowledge) ≡ false
unfolding tool_factors bucket
tool_factors-lacks action knowledge kind h =
    let d = foreign-Distinct kind h in
    lacks-four kind
      (action.risk.credential_access
        || touches_resource action.resources secret
        || touches_resource action.resources credential)
      (action.risk.destructive || is_destructive action.category)
      (is_policy_sensitive_tool action.tool_name)
      (bucket secret_access 80 ("credential/secret material via `" & action.tool_name & "`"))
      (bucket destructive_action 70
        ("destructive action category `" & category_str action.category & "`"))
      (bucket policy_sensitive_operation 75
        ("tool `" & action.tool_name & "` is a high-impact policy-sensitive operation"))
      (knowledge_factor action.tool_name knowledge) d.0 d.1 d.2
      (lacks-knowledge kind action.tool_name knowledge d.3)

-- The points of the content are those of the content's factor.
content_points-append :
    (xs ys : List RiskFactor)
    → holds_kind content_secret xs ≡ false
    → content_points (xs ++ ys) ≡ content_points ys
content_points-append [] ys h = refl
content_points-append (x ∷ xs) ys h =
    let rest = content_points-append xs ys in ground (arith, rest, h)

greatest-append : (xs ys : List RiskFactor) → greatest (xs ++ ys) ≡ max (greatest xs) (greatest ys)
greatest-append [] ys = omega arith
greatest-append (x ∷ xs) ys = omega (arith, greatest-append xs ys)

-- What the tool and the action alone score
abbrev pub tool_score : Action → ToolKnowledge → ℕ
tool_score action knowledge = greatest (tool_factors action knowledge)

-- The score of the gate where no signal forces it
abbrev pub unforced_score : Action → ToolKnowledge → RiskAnalysis → ℕ
unforced_score action knowledge analysis =
    if is_some analysis.sanitized_params && leb 50 analysis.score
    then min (tool_score action knowledge) 100 - min analysis.score 85
    else min (max (tool_score action knowledge) analysis.score) 100

content_factor-points :
    (analysis : RiskAnalysis)
    → (holds_kind content_secret (content_factor (some analysis)) ≡ leb 50 analysis.score)
      × (content_points (content_factor (some analysis) ++ [])
          ≡ (if leb 50 analysis.score then min analysis.score 85 else 0))
      × (greatest (content_factor (some analysis))
          ≡ (if leb 50 analysis.score then min analysis.score 85 else 0))
unfolding content_factor bucket
content_factor-points analysis = by_score (leb 50 analysis.score)
  where
    by_score :
        (b : Bool)
        → (holds_kind content_secret (
              when b (
                bucket content_secret
                  (min analysis.score 85)
                  "content scanner flagged sensitive material"))
            ≡ b)
          × (content_points (
                when b (
                  bucket content_secret
                    (min analysis.score 85)
                    "content scanner flagged sensitive material")
                ++ [])
              ≡ (if b then min analysis.score 85 else 0))
          × (greatest (
                when b (
                  bucket content_secret
                    (min analysis.score 85)
                    "content scanner flagged sensitive material"))
              ≡ (if b then min analysis.score 85 else 0))
    by_score true = (refl, refl, omega arith)
    by_score false = (refl, refl, refl)

factors_of-lacks :
    (action : Action) (knowledge : ToolKnowledge) (analysis : RiskAnalysis) (kind : RiskFactorKind)
    → IsForeign kind
    → same_kind content_secret kind ≡ false
    → holds_kind kind (factors_of action knowledge (some analysis) false) ≡ false
unfolding factors_of content_factor bucket
factors_of-lacks action knowledge analysis kind h k =
    lacks-append kind (tool_factors action knowledge ++ content_factor (some analysis)) []
      (lacks-append kind (tool_factors action knowledge) (content_factor (some analysis))
        (tool_factors-lacks action knowledge kind h)
        (lacks-when kind (leb 50 analysis.score)
          (bucket content_secret (min analysis.score 85)
            "content scanner flagged sensitive material")
          k))
      refl

factors_of-content_secret :
    (action : Action) (knowledge : ToolKnowledge) (analysis : RiskAnalysis)
    → holds_kind content_secret (factors_of action knowledge (some analysis) false)
      ≡ leb 50 analysis.score
unfolding factors_of
factors_of-content_secret action knowledge analysis =
    holds_kind-append content_secret
      (tool_factors action knowledge ++ content_factor (some analysis)) []
    ∙ or_false (
        holds_kind content_secret (tool_factors action knowledge ++ content_factor (some analysis)))
    ∙ holds_kind-append content_secret (tool_factors action knowledge)
        (content_factor (some analysis))
    ∙ ap (λ (b : Bool). b || holds_kind content_secret (content_factor (some analysis)))
        (tool_factors-lacks action knowledge content_secret (inl refl))
    ∙ (content_factor-points analysis).0

factors_of-points :
    (action : Action) (knowledge : ToolKnowledge) (analysis : RiskAnalysis)
    → content_points (factors_of action knowledge (some analysis) false)
      ≡ (if leb 50 analysis.score then min analysis.score 85 else 0)
unfolding factors_of
factors_of-points action knowledge analysis =
    ap content_points
      (append_assoc (tool_factors action knowledge) (content_factor (some analysis)) [])
    ∙ content_points-append (tool_factors action knowledge) (content_factor (some analysis) ++ [])
        (tool_factors-lacks action knowledge content_secret (inl refl))
    ∙ (content_factor-points analysis).1

factors_of-greatest :
    (action : Action) (knowledge : ToolKnowledge) (analysis : RiskAnalysis)
    → greatest (factors_of action knowledge (some analysis) false)
      ≡ max
          (tool_score action knowledge)
          (if leb 50 analysis.score then min analysis.score 85 else 0)
unfolding factors_of
factors_of-greatest action knowledge analysis =
    greatest-append (tool_factors action knowledge ++ content_factor (some analysis)) []
    ∙ omega (
      arith,
      greatest-append (tool_factors action knowledge) (content_factor (some analysis)),
      (content_factor-points analysis).2,
    )

-- The gate where neither the session nor an indicator forces it
gate-unforced :
    (sanitize_detail : String → String) (show : ℕ → String) (bands : RiskLevelThresholds)
    (tool_name : String) (analysis : RiskAnalysis) (explanation : ExplainableRiskScore)
    (threshold : ℕ)
    → holds_kind behavioral_anomaly explanation.factors ≡ false
    → holds_kind threat_intel explanation.factors ≡ false
    → (assess_risk sanitize_detail show bands tool_name analysis false false explanation
        threshold).requires_approval
      ≡ leb threshold (
          if is_some analysis.sanitized_params && holds_kind content_secret explanation.factors
          then explanation.score - content_points explanation.factors
          else min (max explanation.score analysis.score) 100)
unfolding assess_risk effective_score force_gate gate_score is_remediable has_factor
gate-unforced sanitize_detail show bands tool_name analysis explanation threshold h k =
    ap
      (λ (forced : Bool).
        forced
        || leb threshold
            (gate_score explanation analysis forced (effective_score explanation analysis false)))
      (ap₂ ◌||◌ h k)
    ∙ ap
        (λ (b : Bool). leb threshold (
          if b
          then explanation.score - content_points explanation.factors
          else effective_score explanation analysis false))
        (and_true
          (is_some analysis.sanitized_params && holds_kind content_secret explanation.factors))

unforced_score-eq :
    (masked b : Bool) (top tool points content : ℕ)
    → top ≡ max tool (if b then min content 85 else 0)
    → points ≡ (if b then min content 85 else 0)
    → (if masked && b then min top 100 - points else min (max (min top 100) content) 100)
      ≡ (if masked && b then min tool 100 - min content 85 else min (max tool content) 100)
unforced_score-eq true true top tool points content h k = omega (arith, h, k)
unforced_score-eq true false top tool points content h k = omega (arith, h, k)
unforced_score-eq false true top tool points content h k = omega (arith, h, k)
unforced_score-eq false false top tool points content h k = omega (arith, h, k)

unforced-asks :
    (sanitize_detail : String → String) (show : ℕ → String) (bands : RiskLevelThresholds)
    (action : Action) (knowledge : ToolKnowledge) (analysis : RiskAnalysis) (threshold : ℕ)
    → (assess_risk sanitize_detail show bands action.tool_name analysis false false
        (score_action bands action knowledge (some analysis) false)
        threshold).requires_approval
      ≡ leb threshold (unforced_score action knowledge analysis)
unfolding score_action
unforced-asks sanitize_detail show bands action knowledge analysis threshold =
    let explanation = score_action bands action knowledge (some analysis) false in
    gate-unforced sanitize_detail show bands action.tool_name analysis explanation threshold
      (factors_of-lacks action knowledge analysis behavioral_anomaly (inr (inr refl)) refl)
      (factors_of-lacks action knowledge analysis threat_intel (inr (inl refl)) refl)
    ∙ ap
        (λ (b : Bool). leb threshold (
          if is_some analysis.sanitized_params && b
          then explanation.score - content_points explanation.factors
          else min (max explanation.score analysis.score) 100))
        (factors_of-content_secret action knowledge analysis)
    ∙ ap (leb threshold) (
        unforced_score-eq (is_some analysis.sanitized_params) (leb 50 analysis.score)
          (greatest (factors_of action knowledge (some analysis) false))
          (tool_score action knowledge)
          (content_points (factors_of action knowledge (some analysis) false)) analysis.score
          (factors_of-greatest action knowledge analysis)
          (factors_of-points action knowledge analysis))

same_kind_refl : (kind : RiskFactorKind) → same_kind kind kind ≡ true
same_kind_refl kind = ground arith

Member-holds_kind :
    (f : RiskFactor) (fs : List RiskFactor) (kind : RiskFactorKind)
    → Member f fs
    → f.kind ≡ kind
    → holds_kind kind fs ≡ true
Member-holds_kind f [] kind m e = elim m [ ]
Member-holds_kind f (g ∷ gs) kind (inl m) e =
    ap (λ (k : RiskFactorKind). same_kind k kind || holds_kind kind gs)
      (ap (λ (x : RiskFactor). x.kind) (sym m) ∙ e)
    ∙ ap (λ (b : Bool). b || holds_kind kind gs) (same_kind_refl kind)
Member-holds_kind f (g ∷ gs) kind (inr m) e =
    or_true (same_kind g.kind kind) (holds_kind kind gs) (Member-holds_kind f gs kind m e)

gate_or : (a b c d e : Bool) → (c ≡ true) ⊎ (d ≡ true) → (a || b || c || d || e) ≡ true
gate_or a b c d e (inl h) = ground arith
gate_or a b c d e (inr h) = ground arith

-- On a score of the open core's engine, the risk stage asks for an approval exactly where an indicator
-- matched, the session completes an exfiltration chain, or the threshold is reached: by the greater
-- of the scores of the tool and of the payload, up to 100; or, where the scan masked the payload and
-- scored it 50 or more, by the score of the tool less that of the payload, which counts up to 85.
pub assess_risk-asks :
    (sanitize_detail : String → String) (show : ℕ → String) (bands : RiskLevelThresholds)
    (action : Action) (knowledge : ToolKnowledge) (analysis : RiskAnalysis)
    (ioc_match anomaly : Bool) (threshold : ℕ)
    → (assess_risk sanitize_detail show bands action.tool_name analysis ioc_match anomaly
        (score_action bands action knowledge (some analysis) ioc_match)
        threshold).requires_approval
      ≡ (ioc_match || anomaly || leb threshold (unforced_score action knowledge analysis))
unfolding assess_risk force_gate
assess_risk-asks sanitize_detail show bands action knowledge analysis true anomaly threshold = refl
assess_risk-asks sanitize_detail show bands action knowledge analysis false true threshold = refl
assess_risk-asks sanitize_detail show bands action knowledge analysis false false threshold =
    unforced-asks sanitize_detail show bands action knowledge analysis threshold

-- Where the explanation holds a factor of the behavior of the session or of an indicator, whichever
-- engine gave it, the risk stage asks for an approval.
pub assess_risk-forced :
    (sanitize_detail : String → String) (show : ℕ → String) (bands : RiskLevelThresholds)
    (tool_name : String) (analysis : RiskAnalysis) (ioc_match anomaly : Bool)
    (explanation : ExplainableRiskScore) (threshold : ℕ) (f : RiskFactor)
    → Member f explanation.factors
    → (f.kind ≡ behavioral_anomaly) ⊎ (f.kind ≡ threat_intel)
    → (assess_risk sanitize_detail show bands tool_name analysis ioc_match anomaly explanation
        threshold).requires_approval
      ≡ true
unfolding assess_risk force_gate has_factor
assess_risk-forced sanitize_detail show bands tool_name analysis ioc_match anomaly explanation
      threshold f m (inl e) =
    gate_or ioc_match anomaly (holds_kind behavioral_anomaly explanation.factors)
      (holds_kind threat_intel explanation.factors)
      (leb threshold (
        gate_score explanation analysis (force_gate explanation ioc_match anomaly)
          (effective_score explanation analysis anomaly)))
      (inl (Member-holds_kind f explanation.factors behavioral_anomaly m e))
assess_risk-forced sanitize_detail show bands tool_name analysis ioc_match anomaly explanation
      threshold f m (inr e) =
    gate_or ioc_match anomaly (holds_kind behavioral_anomaly explanation.factors)
      (holds_kind threat_intel explanation.factors)
      (leb threshold (
        gate_score explanation analysis (force_gate explanation ioc_match anomaly)
          (effective_score explanation analysis anomaly)))
      (inr (Member-holds_kind f explanation.factors threat_intel m e))
