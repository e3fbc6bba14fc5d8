-- ===== src/Platform/Errors.antt =====
-- internal/platform/apierror/apierror.go, and `Fail` of internal/adapter/http/middleware.go.
pub mod Answers
use Prim.Native.String.{String}
use evermore.Base.{ℕ, List, [], ◌∷◌, ◌++◌, Option, none, some, if◌then◌else◌}
use evermore.Text.{is_empty}
use evermore.Platform.Sanitize.{FieldFailure}

pub record FieldError : Type 0 where
  pub field : String
  pub code : String
  pub message : String

-- What is serialised.
pub record Body : Type 0 where
  pub status : ℕ
  pub code : String
  pub message : String
  pub fields : List FieldError
  pub trace_id : String

-- A Go error: of a driver, wrapped with a text, of an input guard, or of the API with its cause.
mutual
  pub data GoError : Type 0 where
    driver : String → GoError
    wrapped : String → GoError → GoError
    guarded : FieldFailure → GoError
    api : Body → Cause → GoError

  pub data Cause : Type 0 where
    no_cause : Cause
    caused : GoError → Cause

pub record ApiError : Type 0 where
  pub body : Body
  pub cause : Cause

abbrev pub new_error : ℕ → String → String → ApiError
new_error status code message = record {
  body = record { status = status; code = code; message = message; fields = []; trace_id = "" };
  cause = no_cause;
}

-- `WithCause` and `WithField` change a copy.
abbrev with_cause : ApiError → GoError → ApiError
with_cause e err = record { body = e.body; cause = caused err }

abbrev pub with_field : ApiError → FieldError → ApiError
with_field e f = record {
  body = record (e.body) { fields = e.body.fields ++ f ∷ [] };
  cause = e.cause;
}

abbrev or_default : String → String → String
or_default message default = if is_empty message then default else message

abbrev pub validation : String → ApiError
validation m = new_error 400 "VALIDATION_FAILED" (or_default m "The data sent is not valid.")

abbrev pub unauthenticated : String → ApiError
unauthenticated m = new_error 401 "UNAUTHENTICATED" (or_default m "Please sign in first.")

abbrev pub forbidden : String → ApiError
forbidden m = new_error 403 "FORBIDDEN" (or_default m "You do not have access to this resource.")

abbrev pub not_found : String → ApiError
not_found m = new_error 404 "NOT_FOUND" (or_default m "Not found.")

abbrev pub conflict : String → String → ApiError
conflict code m = new_error 409 code m

abbrev pub rate_limited : String → ApiError
rate_limited m = new_error 429 "RATE_LIMITED" m

abbrev pub internal : GoError → ApiError
internal cause =
    with_cause (new_error 500 "INTERNAL" "Something went wrong. Please try again.") cause

-- `errors.As` follows the chain to the first API error.
unfoldable pub as_api : GoError → Option ApiError
as_api (driver s) = none
as_api (wrapped s e) = as_api e
as_api (guarded f) = none
as_api (api b c) = some (record { body = b; cause = c })

-- `From`, of an error that is not nil.
unfoldable pub from_error : GoError → ApiError
from_error e = elim (as_api e) [ none ↦ internal e | some a ↦ a ]

-- The error as a value of the interface.
abbrev pub as_error : ApiError → GoError
as_error e = api e.body e.cause

-- What `Fail` does: the response, and the cause that is logged.
pub record Failed : Type 0 where
  pub response : Body
  pub logged : Cause

unfoldable pub fail_with : Option String → GoError → Failed
fail_with trace err =
    let e = from_error err in
    record {
      response = elim trace [ none ↦ e.body | some id ↦ record (e.body) { trace_id = id } ];
      logged = e.cause;
    }
