-- ===== src/Outbox/Errors.antt =====
-- backend/src/error.rs and backend/src/routes/send.rs: which failures of a send are worth another
-- attempt.
use rav.Common.{Bool, false, not, Text, codes, contains, ◌++◌}

pub data AppError : Type 0 where
  internal_error not_found bad_request unauthorized service_unavailable forbidden : Text → AppError

-- `error_code`
abbrev pub error_code : AppError → Text
error_code (internal_error _) = codes "INTERNAL_ERROR"
error_code (not_found _) = codes "NOT_FOUND"
error_code (bad_request _) = codes "BAD_REQUEST"
error_code (unauthorized _) = codes "UNAUTHORIZED"
error_code (service_unavailable _) = codes "SERVICE_UNAVAILABLE"
error_code (forbidden _) = codes "FORBIDDEN"

abbrev pub message : AppError → Text
message (internal_error m) = m
message (not_found m) = m
message (bad_request m) = m
message (unauthorized m) = m
message (service_unavailable m) = m
message (forbidden m) = m

-- `fmt`: what `to_string` gives.
unfoldable pub display : AppError → Text
display e = codes "[" ++ error_code e ++ codes "] " ++ message e

unfoldable pub is_retryable : AppError → Bool
unfolding contains
is_retryable (service_unavailable msg) = not (contains msg (codes "Authentication failed"))
is_retryable (internal_error _) = false
is_retryable (not_found _) = false
is_retryable (bad_request _) = false
is_retryable (unauthorized _) = false
is_retryable (forbidden _) = false
