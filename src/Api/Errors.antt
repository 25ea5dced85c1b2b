-- ===== src/Api/Errors.antt =====
-- backend/app/services/api/errors.py: the exception classes as one type with their attributes.
-- The provider name and the message, which no code branches on here, are left out.
use sales_lead_gen.Base.{ℕ, String, Option, none, some}

pub data Kind : Type 0 where
  plain rate_limit authentication provider_unavailable : Kind

pub record ApiError : Type 0 where
  pub kind : Kind
  pub status_code : Option ℕ
  -- The text of the number in the Retry-After header.
  pub retry_after : Option String

abbrev pub api_error : Option ℕ → ApiError
api_error status = record { kind = Kind.plain; status_code = status; retry_after = none }

abbrev pub rate_limit_error : Option String → ApiError
rate_limit_error retry_after = record {
  kind = Kind.rate_limit;
  status_code = some 429;
  retry_after = retry_after;
}

abbrev pub authentication_error : ℕ → ApiError
authentication_error status = record {
  kind = Kind.authentication;
  status_code = some status;
  retry_after = none;
}

abbrev pub provider_unavailable_error : Option ℕ → ApiError
provider_unavailable_error status = record {
  kind = Kind.provider_unavailable;
  status_code = status;
  retry_after = none;
}
