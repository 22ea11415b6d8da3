-- ===== src/Admission/Handler/Answer.antt =====
-- The responses of the handler.
use drift_sentinel.Base.{
  ℕ, true, false, [], Option, none, some, if◌then◌else◌, ◌==◌, Bool-cases, ◌≡◌, refl, inl, inr,
  arith,
}
use drift_sentinel.Base.Text.{Text, Unicode, text_eq}
use drift_sentinel.Admission.Review.{AdmissionRequest, AdmissionResponse, Decision, new_response}
use drift_sentinel.Admission.Flow.{Unmarshalled, Validator}
use drift_sentinel.Admission.Validator.{validate}
use drift_sentinel.Admission.Validator.Consistent.{
  IsConsistent, IsDenialCode, validate-IsConsistent,
}
use drift_sentinel.Admission.Handler.{response_code, answer}

-- The response tells the decision: the request that it is about, the verdict, the warnings; with a
-- denial, its status code and reason; with an allowance, no code, and the reason if there is one.
pub record Tells (req : AdmissionRequest) (d : Decision) (response : AdmissionResponse)
    : Type 0 where
  pub same_uid : response.uid ≡ req.uid
  pub same_verdict : response.allowed ≡ d.allowed
  pub same_warnings : response.warnings ≡ d.warnings
  pub denial :
      d.allowed ≡ false
      → (IsDenialCode d.status_code)
        × (response.status ≡ some (record { code = d.status_code; message = d.reason }))
  pub allowance :
      d.allowed ≡ true
      → response.status
        ≡ (if text_eq d.reason [] then none else some (record { code = 0; message = d.reason }))

abbrev pub Answers : AdmissionRequest → Decision → Option AdmissionResponse → Type 0
Answers req d none = ⊥
Answers req d (some response) = Tells req d response

not-zero : (code : ℕ) → IsDenialCode code → (code == 0) ≡ false
not-zero code (inl e) = ground arith
not-zero code (inr (inl e)) = ground arith
not-zero code (inr (inr e)) = ground arith

answer-Answers :
    (req : AdmissionRequest) (d : Decision) → IsConsistent d → Answers req d (answer req d).response
unfolding answer response_code new_response
answer-Answers req d (inl (allowed, code, result)) = record {
  same_uid = refl;
  same_verdict = refl;
  same_warnings = refl;
  denial = λ e. cc;
  allowance = λ e. rw e (elim (Bool-cases (text_eq d.reason [])) [ inl b ↦ rw b | inr b ↦ rw b ]);
}
answer-Answers req d (inr (denied, code, result)) = record {
  same_uid = refl;
  same_verdict = refl;
  same_warnings = refl;
  denial = λ e.
      let present = not-zero d.status_code code in
      (
        code,
        rw (e, present)
            (elim (Bool-cases (text_eq d.reason [])) [ inl b ↦ rw (b, present) | inr b ↦ rw b ]),
      );
  allowance = λ e. cc;
}

module _ ⦃u : Unicode⦄ where
  pub answer-validate :
      (unmarshal : Text → Unmarshalled) (v : Validator) (req : AdmissionRequest)
      → Answers req (validate unmarshal v req) (answer req (validate unmarshal v req)).response
  answer-validate unmarshal v req =
      answer-Answers req (validate unmarshal v req) (validate-IsConsistent unmarshal v req)
