-- ===== src/Admission/Handler/Counts/Decisions.antt =====
-- What a decision adds to the metrics.
use drift_sentinel.Base.{
  ℕ, List, [], ◌∷◌, ◌++◌, map, if◌then◌else◌, Bool-cases, ◌≡◌, refl, ap, ◌∙◌, inl, inr,
}
use drift_sentinel.Base.Text.{Text}
use drift_sentinel.Metrics.Labels.{increment}
use drift_sentinel.Metrics.Registry.{Registry, Float64, record_admission, record_violation}
use drift_sentinel.Metrics.Counters.{Violation, record_violations}
use drift_sentinel.Admission.Review.{AdmissionRequest, Decision}
use drift_sentinel.Admission.Handler.{format_resource, record_denied, record_decision}

abbrev violations_at : Text → Text → Text → List Text → List Violation
violations_at namespace resource mode paths =
    map (λ path. record { namespace = namespace; resource = resource; field = path; mode = mode })
      paths

-- The paths of a denial, with the request's namespace and resource and the mode.
abbrev pub denials : AdmissionRequest → Decision → List Violation
denials req d =
    if d.allowed
    then []
    else violations_at req.namespace (format_resource req.resource) d.mode d.denied_paths

record_denied-count :
    (namespace resource mode : Text) (r : Registry) (paths : List Text)
    → (record_denied namespace resource mode r paths).duration_count ≡ r.duration_count
unfolding record_denied record_violation
record_denied-count namespace resource mode r [] = refl
record_denied-count namespace resource mode r (path ∷ paths) =
    record_denied-count namespace resource mode (record_violation r namespace resource path mode)
      paths

record_denied-eq :
    (namespace resource mode : Text) (r : Registry) (paths : List Text)
    → record_denied namespace resource mode r paths
      ≡ record_violations r (violations_at namespace resource mode paths)
unfolding record_denied
record_denied-eq namespace resource mode r [] = refl
record_denied-eq namespace resource mode r (path ∷ paths) =
    record_denied-eq namespace resource mode (record_violation r namespace resource path mode) paths

-- The violations do not hang on the rest of the registry.
pub record_violations-violations :
    (vs : List Violation) (r r' : Registry)
    → r.violations ≡ r'.violations
    → (record_violations r vs).violations ≡ (record_violations r' vs).violations
record_violations-violations [] r r' e = e
record_violations-violations (w ∷ vs) r r' e =
    record_violations-violations vs (record_violation r w.namespace w.resource w.field w.mode)
      (record_violation r' w.namespace w.resource w.field w.mode)
      (unfold record_violation in rw e refl)

pub record_violations-append :
    (r : Registry) (vs ws : List Violation)
    → record_violations r (vs ++ ws) ≡ record_violations (record_violations r vs) ws
record_violations-append r [] ws = refl
record_violations-append r (w ∷ vs) ws =
    record_violations-append (record_violation r w.namespace w.resource w.field w.mode) vs ws

module _ ⦃f : Float64⦄ where
  pub record_decision-count :
      (req : AdmissionRequest) (d : Decision) (duration : ℕ) (r : Registry)
      → (record_decision req d duration r).duration_count ≡ increment r.duration_count
  unfolding record_decision record_admission
  record_decision-count req d duration r = elim (Bool-cases d.allowed) [
    | inl e ↦ rw e
    | inr e ↦ rw e (
        record_denied-count req.namespace (format_resource req.resource) d.mode
          (record_admission r req.namespace (format_resource req.resource) d.result duration)
          d.denied_paths)
  ]

  pub record_decision-violations :
      (req : AdmissionRequest) (d : Decision) (duration : ℕ) (r : Registry)
      → (record_decision req d duration r).violations
        ≡ (record_violations r (denials req d)).violations
  unfolding record_decision
  record_decision-violations req d duration r = elim (Bool-cases d.allowed) [
    | inl e ↦ rw e (unfold record_admission in refl)
    | inr e ↦ rw e (
        ap (λ r. r.violations)
          (record_denied-eq req.namespace (format_resource req.resource) d.mode
            (record_admission r req.namespace (format_resource req.resource) d.result duration)
            d.denied_paths)
        ∙ record_violations-violations
            (violations_at req.namespace (format_resource req.resource) d.mode d.denied_paths)
            (record_admission r req.namespace (format_resource req.resource) d.result duration) r
            (unfold record_admission in refl))
  ]
