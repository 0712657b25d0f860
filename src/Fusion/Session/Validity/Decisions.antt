-- ===== src/Fusion/Session/Validity/Decisions.antt =====
-- What is asked of a decision, and of the results that a session gets.
use ai_proctor_engine.Base.{String, str_eq, ◌≡◌, ◌⊎◌, inl, inr, false, none, Bool-cases}
use ai_proctor_engine.Floats.{FloatOps}
use ai_proctor_engine.Inference.{InUnit}
use ai_proctor_engine.Fusion.Types.{FlagDecision}
use ai_proctor_engine.Fusion.Aggregator.{critical, medium}
use ai_proctor_engine.Fusion.Exemptions.{suppressed_severity}
use ai_proctor_engine.Fusion.Aggregator.Objects.{base_severity}
use ai_proctor_engine.Fusion.Session.{
  Call, face, liveness, gaze, identity, identity_unavailable, object, browser, audio,
}

-- A severity that the flag table knows.
abbrev pub Known : String → Type 0
Known s = (s ≡ critical) ⊎ (s ≡ medium) ⊎ (s ≡ suppressed_severity)

pub base_severity-medium : (c : String) → base_severity c ≡ medium
base_severity-medium c = elim (Bool-cases (str_eq c "book")) [ inl e ↦ rw e | inr e ↦ rw e ]

module _ {F : Type 0} ⦃ops : FloatOps F⦄ where
  -- The decision is one that the flag table takes, and its fields agree with one another.
  pub record Sound (d : FlagDecision F) : Type 0 where
    pub interval : InUnit d.confidence
    pub known : Known d.severity
    -- A termination is critical and is charged no score.
    pub terminating :
        (d.triggered_termination ≡ false) ⊎ ((d.severity ≡ critical) × (d.score_delta ≡ ops.zero_f))
    -- A suppressed detection is low, ends nothing and is charged no score.
    pub suppressed :
        (d.suppressed_by_exemption_id ≡ none)
        ⊎ ((d.severity ≡ suppressed_severity)
            × (d.triggered_termination ≡ false)
            × (d.score_delta ≡ ops.zero_f))

  -- The interval of a call's result is one that its constructor lets through.
  abbrev pub Checked : Call F → Type 0
  Checked (face result id) = InUnit result.confidence
  Checked (liveness result id) = InUnit result.confidence
  Checked (gaze result id now) = InUnit result.confidence
  Checked (identity result id) = InUnit result.confidence
  Checked (identity_unavailable id) = Unit
  Checked (object result id now) = InUnit result.confidence
  Checked (browser result id) = InUnit result.confidence
  Checked (audio result id) = InUnit result.confidence

  pub critical-Sound :
      (d : FlagDecision F)
      → InUnit d.confidence
      → d.severity ≡ critical
      → d.suppressed_by_exemption_id ≡ none
      → d.score_delta ≡ ops.zero_f
      → Sound d
  critical-Sound d c e n z = record {
    interval = c;
    known = inl e;
    terminating = inr (e, z);
    suppressed = inl n;
  }

  pub medium-Sound :
      (d : FlagDecision F)
      → InUnit d.confidence
      → d.severity ≡ medium
      → d.suppressed_by_exemption_id ≡ none
      → d.triggered_termination ≡ false
      → Sound d
  medium-Sound d c e n z = record {
    interval = c;
    known = inr (inl e);
    terminating = inl z;
    suppressed = inl n;
  }
