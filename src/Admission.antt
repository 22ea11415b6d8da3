-- ===== src/Admission.antt =====
-- pkg/admission: the decision on a request.
pub mod Review
pub mod Object
pub mod Scope
pub mod Flow
pub mod Validator
pub mod Handler
