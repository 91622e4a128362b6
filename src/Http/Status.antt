-- ===== src/Http/Status.antt =====
-- `DomainExceptionFilter` of backend: the status of each error.
use onion_architecture.Base.{ℕ}
use onion_architecture.Domain.{
  DomainError, Failure, domain, infra, slot_not_available, invalid_qr_code,
  reservation_queue_unavailable, session_not_active, payment_not_approved, reservation_expired,
  payment_service_unavailable, reservation_already_active, reservation_not_started, no_availability,
  session_already_active, parking_service_unavailable, overstay_payment_insufficient, not_found,
  invalid_credentials, invalid_mfa_code, mfa_already_enabled, mfa_not_configured,
  email_already_registered,
}

-- `STATUS_BY_CODE[exception.code] ?? HttpStatus.BAD_REQUEST`
unfoldable pub status_of_error : DomainError → ℕ
status_of_error slot_not_available = 409
status_of_error reservation_already_active = 409
status_of_error session_not_active = 409
status_of_error session_already_active = 409
status_of_error payment_not_approved = 403
status_of_error reservation_expired = 410
status_of_error reservation_not_started = 409
status_of_error (not_found e i) = 404
status_of_error invalid_credentials = 401
status_of_error invalid_mfa_code = 401
status_of_error mfa_already_enabled = 409
status_of_error mfa_not_configured = 409
status_of_error email_already_registered = 409
status_of_error no_availability = 409
status_of_error invalid_qr_code = 400
status_of_error reservation_queue_unavailable = 503
status_of_error payment_service_unavailable = 503
status_of_error parking_service_unavailable = 400
status_of_error (overstay_payment_insufficient m) = 400

-- A failure that is no domain error is left to the framework, which answers 500.
abbrev pub status_of_failure : Failure → ℕ
status_of_failure (domain e) = status_of_error e
status_of_failure (infra e) = 500
