-- ===== src/Http/Sessions.antt =====
-- Who a request comes from: `PrincipalOf`, `CustomerIDOf` and `requireCustomer` of
-- internal/adapter/http, and the answers that the screens share.
use Prim.Native.String.{String}
use evermore.Base.{ℕ, Option, none, some, Result, ok, err}
use evermore.Auth.Tables.{Principal}
use evermore.Platform.Sanitize.{Text, FieldFailure}
use evermore.Platform.Errors.{GoError, driver, wrapped, guarded, api, no_cause, caused, as_api}

-- What a browser is told by `redirectWithErr`.
pub data Notice : Type 0 where
  cannot_save : Notice
  api_message : String → Notice
  field_message : FieldFailure → Notice

-- A redirect after success, to the form with a notice, to the sign-in page or to a page; the page
-- for staff, the page of a refused permission and of a missing one; an error of the API; a refusal of
-- the limiter, with the seconds to wait.
pub data Reply : Type 0 where
  saved : String → Reply
  sent_back : Notice → Reply
  to_sign_in : String → Reply
  to_page : String → Reply
  staff_page : Reply
  forbidden_page : Reply
  not_found_page : Reply
  failed : GoError → Reply
  too_many : Option Text → GoError → Reply

abbrev pub customer_id_of : Option Principal → Option ℕ
customer_id_of none = none
customer_id_of (some p) = p.customer_id

unfoldable pub require_customer : Option Principal → String → Result Reply ℕ
require_customer p next = elim (customer_id_of p) [
  | some c ↦ ok c
  | none ↦ elim p [ none ↦ err (to_sign_in next) | some _ ↦ err staff_page ]
]

-- `errors.As` for a failure of an input guard.
unfoldable pub as_guard : GoError → Option FieldFailure
as_guard (driver s) = none
as_guard (wrapped s e) = as_guard e
as_guard (guarded f) = some f
as_guard (api b no_cause) = none
as_guard (api b (caused e)) = as_guard e

-- `redirectWithErr`: a guard's message outranks that of an API error.
unfoldable pub notice_of : GoError → Notice
notice_of e = elim (as_guard e) [
  | some f ↦ field_message f
  | none ↦ elim (as_api e) [ none ↦ cannot_save | some a ↦ api_message a.body.message ]
]
