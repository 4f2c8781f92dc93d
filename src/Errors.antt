-- ===== src/Errors.antt =====
-- The errors of the server and the responses made of them (padlockcloud/error.go, and the error values
-- of padlockcloud/storage.go). `http.StatusText` is the library's, an argument.
use padlock_cloud.Prelude.{ℕ, ◌++◌, Text, codes}
use padlock_cloud.Decimal.{decimal}

-- An error that is no response: the storage's own, or another one with its text.
pub data Failure : Type 0 where
  err_not_found err_unregistered_storable err_storage_closed : Failure
  other : Text → Failure

-- The types that implement `ErrorResponse`.
pub data ErrorResponse : Type 0 where
  bad_request : (msg : Text) → ErrorResponse
  invalid_auth_token expired_auth_token : (email token : Text) → ErrorResponse
  invalid_csrf_token : (reason : Text) → ErrorResponse
  method_not_allowed : (method : Text) → ErrorResponse
  unsupported_endpoint : (path : Text) → ErrorResponse
  account_not_found : (email : Text) → ErrorResponse
  unsupported_api_version : (found expected : ℕ) → ErrorResponse
  rate_limit_exceeded : ErrorResponse
  server_error : Failure → ErrorResponse
  unauthorized_error : ErrorResponse

pub data Error : Type 0 where
  failure : Failure → Error
  response : ErrorResponse → Error

pub data Result {ℓ} (A : Type ℓ) : Type ℓ where
  ok : A → Result A
  err : Error → Result A

infixl 5 ◌>>=◌
abbrev pub ◌>>=◌ {ℓ κ} : {A : Type ℓ} {B : Type κ} → Result A → (A → Result B) → Result B
ok a >>= f = f a
err e >>= f = err e

unfoldable pub code : ErrorResponse → Text
code (bad_request msg) = codes "bad_request"
code (invalid_auth_token email token) = codes "invalid_auth_token"
code (expired_auth_token email token) = codes "expired_auth_token"
code (invalid_csrf_token reason) = codes "invalid_csrf_token"
code (method_not_allowed method) = codes "method_not_allowed"
code (unsupported_endpoint path) = codes "unsupported_endpoint"
code (account_not_found email) = codes "account_not_found"
code (unsupported_api_version found expected) = codes "deprecated_api_version"
code rate_limit_exceeded = codes "rate_limit_exceeded"
code (server_error e) = codes "internal_server_error"
code unauthorized_error = codes "unauthorized"

unfoldable pub status : ErrorResponse → ℕ
status (bad_request msg) = 400
status (invalid_auth_token email token) = 401
status (expired_auth_token email token) = 401
status (invalid_csrf_token reason) = 403
status (method_not_allowed method) = 405
status (unsupported_endpoint path) = 404
status (account_not_found email) = 404
status (unsupported_api_version found expected) = 406
status rate_limit_exceeded = 429
status (server_error e) = 500
status unauthorized_error = 401

module _ (status_text : ℕ → Text) where
  unfoldable pub message : ErrorResponse → Text
  message (bad_request msg) = status_text 400 ++ (codes ": " ++ msg)
  message (invalid_auth_token email token) =
      status_text 401 ++ (codes " - " ++ codes "No valid authorization token provided")
  message (expired_auth_token email token) =
      status_text 401 ++ (codes " - " ++ codes "The provided authorization token has expired")
  message (invalid_csrf_token reason) =
      status_text 403 ++ (codes " - " ++ codes "Invalid CSRF Token")
  message (method_not_allowed method) = status_text 405
  message (unsupported_endpoint path) = status_text 404
  message (account_not_found email) = status_text 404
  message (unsupported_api_version found expected) =
      codes "The api version you are using ("
      ++ (decimal found ++ (codes ") is not supported. Please use version " ++ decimal expected))
  message rate_limit_exceeded = status_text 429
  message (server_error e) =
      codes
        "Something went wrong on our side, sorry! Our team has been notified and will resolve the problem as soon as possible!"
  message unauthorized_error =
      status_text 401 ++ (codes " - " ++ codes "You are not authorized to view this page.")

  -- `JsonifyErrorResponse`
  unfoldable pub jsonify_error_response : ErrorResponse → Text
  unfolding code message
  jsonify_error_response e =
      codes "{\"error\":\"" ++ (code e ++ (codes "\",\"message\":\"" ++ (message e ++ codes "\"}")))

-- The test of `Server.HandleError`: an error that is no response is wrapped.
unfoldable pub to_response : Error → ErrorResponse
to_response (failure e) = server_error e
to_response (response e) = e
