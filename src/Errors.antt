-- ===== src/Errors.antt =====
-- libs/common/src/errors: the catalogue of error codes with their HTTP statuses, the failure class
-- of each code, and errors as values. `Result` is what an operation returns or throws.
use contents_factory.Common.{ℕ, Option, none, some}

pub data ErrorCode : Type 0 where
  auth_invalid_credentials : ErrorCode
  auth_token_expired : ErrorCode
  auth_forbidden : ErrorCode
  auth_account_locked : ErrorCode
  self_approval_denied : ErrorCode
  asset_not_found : ErrorCode
  asset_upload_not_found : ErrorCode
  artist_inactive : ErrorCode
  channel_inactive : ErrorCode
  order_not_found : ErrorCode
  order_invalid_state : ErrorCode
  order_validation_failed : ErrorCode
  insufficient_assets : ErrorCode
  selection_no_eligible_asset : ErrorCode
  selection_insufficient_coverage : ErrorCode
  license_channel_denied : ErrorCode
  license_expired : ErrorCode
  derivative_denied : ErrorCode
  spec_mismatch : ErrorCode
  budget_exceeded : ErrorCode
  agent_budget_exceeded : ErrorCode
  policy_violation : ErrorCode
  content_not_found : ErrorCode
  content_invalid_state : ErrorCode
  backend_unavailable : ErrorCode
  identity_rejected : ErrorCode
  qc_blocked : ErrorCode
  retry_exhausted : ErrorCode
  platform_upload_failed : ErrorCode
  rate_limited : ErrorCode
  channel_headroom_exceeded : ErrorCode
  channel_quarantined : ErrorCode
  provenance_signing_failed : ErrorCode
  task_not_found : ErrorCode
  task_invalid_state : ErrorCode
  invalid_input : ErrorCode
  not_found : ErrorCode
  conflict : ErrorCode
  internal_error : ErrorCode

-- the `http` column of ERROR_CATALOG
unfoldable pub http_status : ErrorCode → ℕ
http_status auth_invalid_credentials = 401
http_status auth_token_expired = 401
http_status auth_forbidden = 403
http_status auth_account_locked = 423
http_status self_approval_denied = 403
http_status asset_not_found = 404
http_status asset_upload_not_found = 400
http_status artist_inactive = 422
http_status channel_inactive = 422
http_status order_not_found = 404
http_status order_invalid_state = 409
http_status order_validation_failed = 422
http_status insufficient_assets = 422
http_status selection_no_eligible_asset = 422
http_status selection_insufficient_coverage = 422
http_status license_channel_denied = 422
http_status license_expired = 422
http_status derivative_denied = 422
http_status spec_mismatch = 422
http_status budget_exceeded = 422
http_status agent_budget_exceeded = 422
http_status policy_violation = 422
http_status content_not_found = 404
http_status content_invalid_state = 409
http_status backend_unavailable = 503
http_status identity_rejected = 422
http_status qc_blocked = 422
http_status retry_exhausted = 500
http_status platform_upload_failed = 502
http_status rate_limited = 429
http_status channel_headroom_exceeded = 429
http_status channel_quarantined = 409
http_status provenance_signing_failed = 500
http_status task_not_found = 404
http_status task_invalid_state = 409
http_status invalid_input = 400
http_status not_found = 404
http_status conflict = 409
http_status internal_error = 500

-- What the orchestrator's retry strategy branches on.
pub data FailureClass : Type 0 where
  transient backend_unavailable budget_exceeded policy_violation invalid_input : FailureClass
  retry_exhausted deferred : FailureClass

-- `defaultFailureClass`; the last clause is `default`.
unfoldable pub default_failure_class : ErrorCode → FailureClass
default_failure_class ErrorCode.backend_unavailable = FailureClass.backend_unavailable
default_failure_class ErrorCode.rate_limited = FailureClass.backend_unavailable
default_failure_class ErrorCode.budget_exceeded = FailureClass.budget_exceeded
default_failure_class ErrorCode.agent_budget_exceeded = FailureClass.budget_exceeded
default_failure_class ErrorCode.policy_violation = FailureClass.policy_violation
default_failure_class ErrorCode.qc_blocked = FailureClass.policy_violation
default_failure_class ErrorCode.license_expired = FailureClass.policy_violation
default_failure_class ErrorCode.license_channel_denied = FailureClass.policy_violation
default_failure_class ErrorCode.derivative_denied = FailureClass.policy_violation
default_failure_class ErrorCode.invalid_input = FailureClass.invalid_input
default_failure_class ErrorCode.spec_mismatch = FailureClass.invalid_input
default_failure_class ErrorCode.insufficient_assets = FailureClass.invalid_input
default_failure_class ErrorCode.selection_no_eligible_asset = FailureClass.invalid_input
default_failure_class ErrorCode.selection_insufficient_coverage = FailureClass.invalid_input
default_failure_class ErrorCode.channel_headroom_exceeded = FailureClass.deferred
default_failure_class ErrorCode.channel_quarantined = FailureClass.deferred
default_failure_class ErrorCode.provenance_signing_failed = FailureClass.transient
default_failure_class ErrorCode.retry_exhausted = FailureClass.retry_exhausted
default_failure_class _ = FailureClass.transient

-- `AppError`: its message and details are not read by the code that is modelled.
pub record AppError : Type 0 where
  pub code : ErrorCode
  pub failure_class : FailureClass

-- `new AppError(code, { failureClass })`
unfoldable pub app_error_of : ErrorCode → Option FailureClass → AppError
unfolding default_failure_class
app_error_of code none = record { code = code; failure_class = default_failure_class code }
app_error_of code (some cls) = record { code = code; failure_class = cls }

abbrev pub app_error : ErrorCode → AppError
app_error code = record { code = code; failure_class = default_failure_class code }

-- What a handler can catch: an AppError, or any other value.
pub data Thrown : Type 0 where
  app : AppError → Thrown
  other : Thrown

unfoldable pub classify : Thrown → FailureClass
classify (app e) = e.failure_class
classify other = FailureClass.transient

-- What an operation returns, or the error that it throws.
pub data Result (A : Type 0) : Type 0 where
  ok : A → Result A
  err : Thrown → Result A
