-- ===== src/Provider/Errors.antt =====
-- internal/provider/errors.go: the normalised error of a provider adapter. An error value of the
-- code is an `Error`: a `*GatewayError`, a cancelled or expired context, or any other error; `%w`
-- wrapping, through which `errors.As` and `errors.Is` look, is `wrapped`.
use llm_router.Common.{
  ℕ, ◌≤◌, String, ◌≡◌, ◌↔◌, ◌⊎◌, Bool, true, false, ◌||◌, Option, none, some, arith, leb, ◌==◌,
  if◌then◌else◌,
}

pub data GatewayErrorCode : Type 0 where
  invalid_request auth_failed permission_denied model_not_found context_too_long : GatewayErrorCode
  rate_limited provider_error timeout network_error overloaded : GatewayErrorCode

-- The wire name of a code.
unfoldable pub code_string : GatewayErrorCode → String
code_string invalid_request = "invalid_request_error"
code_string auth_failed = "authentication_error"
code_string permission_denied = "permission_error"
code_string model_not_found = "model_not_found"
code_string context_too_long = "context_length_exceeded"
code_string rate_limited = "rate_limit_error"
code_string provider_error = "provider_error"
code_string timeout = "timeout_error"
code_string network_error = "network_error"
code_string overloaded = "overloaded_error"

pub record GatewayError : Type 0 where
  pub code : GatewayErrorCode
  pub message : String
  pub http_status : ℕ
  pub retry_after : ℕ

unfoldable pub code_retryable : GatewayErrorCode → Bool
code_retryable rate_limited = true
code_retryable provider_error = true
code_retryable timeout = true
code_retryable network_error = true
code_retryable overloaded = true
code_retryable _ = false

unfoldable pub is_retryable : GatewayError → Bool
unfolding code_retryable
is_retryable e = code_retryable e.code

unfoldable pub new_network_error : String → GatewayError
new_network_error msg = record {
  code = network_error;
  message = msg;
  http_status = 503;
  retry_after = 0;
}

-- `retry_after` is the result of `ParseRetryAfterHeader`, a float that `strconv` parses.
unfoldable pub normalize_http_error : ℕ → String → ℕ → GatewayError
normalize_http_error status msg retry_after =
    let client = λ (c : GatewayErrorCode) (s : ℕ).
      let r : GatewayError = record { code = c; message = msg; http_status = s; retry_after = 0 } in
      r in
    let server = λ (c : GatewayErrorCode) (s : ℕ).
      let r : GatewayError = record {
        code = c;
        message = msg;
        http_status = s;
        retry_after = retry_after;
      } in
      r in
    if status == 400
    then client invalid_request 400
    else if status == 401
    then client auth_failed 401
    else if status == 403
    then client permission_denied 403
    else if status == 404
    then client model_not_found 404
    else if status == 413 || status == 422
    then client invalid_request status
    else if status == 429
    then server rate_limited 429
    else if status == 503
    then server overloaded 503
    else if status == 504
    then server timeout 504
    else if leb 500 status
    then server provider_error 502
    else client invalid_request status

pub data CtxError : Type 0 where
  canceled deadline_exceeded : CtxError

pub data Error : Type 0 where
  gateway : GatewayError → Error
  context : CtxError → Error
  other : String → Error
  wrapped : String → Error → Error

-- `errors.As(err, &gwErr)`.
unfoldable pub as_gateway : Error → Option GatewayError
as_gateway (gateway g) = some g
as_gateway (context c) = none
as_gateway (other s) = none
as_gateway (wrapped s e) = as_gateway e

-- `errors.Is(err, context.Canceled) || errors.Is(err, context.DeadlineExceeded)`.
unfoldable pub is_context : Error → Bool
is_context (gateway g) = false
is_context (context c) = true
is_context (other s) = false
is_context (wrapped s e) = is_context e

-- A status becomes a retryable error exactly when it is 429 or from 500 on, whatever the message
-- and the Retry-After header; the header's value is kept in just those errors.
pub normalize_http_error_class :
    (status : ℕ) (msg : String) (retry_after : ℕ)
    → ((is_retryable (normalize_http_error status msg retry_after) ≡ true)
        ↔ ((status ≡ 429) ⊎ (500 ≤ status)))
      × ((normalize_http_error status msg retry_after).retry_after
          ≡ (if is_retryable (normalize_http_error status msg retry_after) then retry_after else 0))
unfolding is_retryable normalize_http_error
normalize_http_error_class status msg retry_after = (grind arith, ground arith)
