-- ===== src/Admission/Review.antt =====
-- pkg/admission/review.go: the messages of the webhook, and the struct `Decision` of validator.go.
use drift_sentinel.Base.{
  ℕ, Bool, false, not, ◌||◌, List, [], ◌∷◌, ◌++◌, Option, none, some, if◌then◌else◌, ◌==◌,
}
use drift_sentinel.Base.Text.{Text, codes, text_eq}
use drift_sentinel.Base.Result.{Result, wrap}

abbrev pub admission_api_version : Text
admission_api_version = codes "admission.k8s.io/v1"

abbrev pub admission_kind : Text
admission_kind = codes "AdmissionReview"

pub record GroupVersionResource : Type 0 where
  pub group : Text
  pub version : Text
  pub resource : Text

pub record GroupVersionKind : Type 0 where
  pub group : Text
  pub version : Text
  pub kind : Text

pub record UserInfo : Type 0 where
  pub username : Text

-- The objects are raw JSON.
pub record AdmissionRequest : Type 0 where
  pub uid : Text
  pub operation : Text
  pub namespace : Text
  pub name : Text
  pub resource : GroupVersionResource
  pub kind : GroupVersionKind
  pub user_info : UserInfo
  pub object : Text
  pub old_object : Text

pub record Status : Type 0 where
  pub code : ℕ
  pub message : Text

pub record AdmissionResponse : Type 0 where
  pub uid : Text
  pub allowed : Bool
  pub status : Option Status
  pub warnings : List Text

pub record AdmissionReview : Type 0 where
  pub api_version : Text
  pub kind : Text
  pub request : Option AdmissionRequest
  pub response : Option AdmissionResponse

unfoldable pub new_response : Text → Bool → ℕ → Text → List Text → AdmissionReview
new_response uid allowed code message warnings = record {
  api_version = admission_api_version;
  kind = admission_kind;
  request = none;
  response = some (record {
    uid = uid;
    allowed = allowed;
    status =
        if not (text_eq message []) || not (code == 0)
        then some (record { code = code; message = message })
        else none;
    warnings = warnings;
  });
}

-- `json.Unmarshal` and `json.Marshal` on a review, with their errors.
pub record Json : Type 0 where
  pub unmarshal : Text → Result AdmissionReview
  pub marshal : AdmissionReview → Result Text

unfoldable pub decode_review : Json → Text → Result AdmissionReview
decode_review json content =
    wrap (λ e. codes "decode admission review: " ++ e) (json.unmarshal content)

abbrev pub or_default : Text → Text → Text
or_default default [] = default
or_default default (c ∷ s) = c ∷ s

unfoldable pub encode_review : Json → AdmissionReview → Result Text
encode_review json review =
    wrap (λ e. codes "encode admission review: " ++ e)
      (json.marshal (record review {
        api_version = or_default admission_api_version review.api_version;
        kind = or_default admission_kind review.kind;
      }))

pub record Decision : Type 0 where
  pub allowed : Bool
  pub status_code : ℕ
  pub reason : Text
  pub result : Text
  pub warnings : List Text
  pub changed_paths : List Text
  pub denied_paths : List Text
  pub rule_name : Text
  pub mode : Text

-- The zero value.
abbrev pub empty_decision : Decision
empty_decision = record {
  allowed = false;
  status_code = 0;
  reason = [];
  result = [];
  warnings = [];
  changed_paths = [];
  denied_paths = [];
  rule_name = [];
  mode = [];
}
