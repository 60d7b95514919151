-- ===== src/Server/Errors.antt =====
-- hope-server/src/error.rs: the errors of the handlers, and the status and the code of their
-- answers; `limited` of auth.rs.
use Prim.Native.String.{◌++◌ as ◌joined◌}
use hope.Base.{ℕ, String, Option, none, some, str_eq, ◌==◌, show_ℕ, if◌then◌else◌}

-- `Result<A, ApiError>`, with the status and the text of the error.
pub record ApiError : Type 0 where
  pub status : ℕ
  pub message : String

pub data ApiResult {ℓ} (A : Type ℓ) : Type ℓ where
  ok : A → ApiResult A
  err : ApiError → ApiResult A

-- `?`
infixl 5 ◌>>=◌
abbrev pub ◌>>=◌ {ℓ κ} : {A : Type ℓ} {B : Type κ} → ApiResult A → (A → ApiResult B) → ApiResult B
ok a >>= f = f a
err e >>= f = err e

abbrev pub bad : String → ApiError
bad message = record { status = 400; message = message }

abbrev pub unauthorized : ApiError
unauthorized = record { status = 401; message = "Authentication required" }

abbrev pub agent_revoked : ApiError
agent_revoked = record { status = 401; message = "Agent credential revoked" }

abbrev pub not_found : ApiError
not_found = record { status = 404; message = "Not found" }

-- Any other error becomes this one.
abbrev pub internal : ApiError
internal = record { status = 500; message = "Internal server error" }

-- The error of a refused attempt, from the seconds to wait.
unfoldable pub too_many : ℕ → ApiError
too_many wait = record {
  status = 429;
  message = "Too many attempts; retry in " joined (show_ℕ wait joined " seconds");
}

-- The code of `into_response`.
unfoldable pub error_code : ApiError → String
error_code e =
    if e.status == 400
    then "invalid_request"
    else if (e.status == 401)
    then (if str_eq e.message "Agent credential revoked"
        then "agent_revoked"
        else "authentication_required")
    else if e.status == 403
    then "forbidden"
    else if e.status == 404
    then "not_found"
    else if e.status == 409
    then "conflict"
    else if e.status == 429
    then "rate_limited"
    else if e.status == 503
    then "unavailable"
    else "internal_error"

-- The `Retry-After` of `into_response`.
unfoldable pub retry_header : ApiError → Option String
retry_header e = if e.status == 503 then some "2" else none
