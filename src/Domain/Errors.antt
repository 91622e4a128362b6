-- ===== src/Domain/Errors.antt =====
-- What a use case may throw: the domain errors of backend/src/core/domain/errors, which carry a
-- code for the client, and the failures of the infrastructure, which are no `DomainError`.
use onion_architecture.Domain.Kinds.{Text, Cents}

pub data EntityName : Type 0 where
  branch slot reservation session payment user : EntityName

pub data DomainError : Type 0 where
  slot_not_available invalid_qr_code reservation_queue_unavailable session_not_active : DomainError
  payment_not_approved reservation_expired payment_service_unavailable : DomainError
  reservation_already_active reservation_not_started no_availability : DomainError
  session_already_active parking_service_unavailable : DomainError
  overstay_payment_insufficient : Cents → DomainError
  not_found : EntityName → Text → DomainError
  -- Of auth-service.
  invalid_credentials invalid_mfa_code mfa_already_enabled mfa_not_configured : DomainError
  email_already_registered : DomainError

pub data InfraError : Type 0 where
  -- `update` or `findUniqueOrThrow` of a row that is not there
  record_not_found : InfraError
  -- a second row with the value of a column that is `@unique`
  unique_violation : InfraError
  -- a field read from `null`
  type_error : InfraError
  -- a call of another service that fails
  call_failed : InfraError
  -- a setting that is missing
  not_configured : InfraError

pub data Failure : Type 0 where
  domain : DomainError → Failure
  infra : InfraError → Failure
