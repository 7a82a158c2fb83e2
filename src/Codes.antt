-- ===== src/Codes.antt =====
-- bridge/errors.go: the stable codes, and what the code can learn of a Go error value.
use croton_mcp.Base.{Bool, Option, some}

pub data Code : Type 0 where
  invalid_config invalid_endpoint tls_required tls_mismatch tls_negotiation : Code
  credential_command credential_timeout credential_output credential_overflow : Code
  bridge_unreachable bounds_exceeded operation_canceled command_timed_out : Code
  authentication mailbox_not_found stale_message_id message_not_found : Code
  invalid_request unsupported imap_command imap_protocol adapter_closed : Code

-- An error as `errors.Is` and `errors.As` show it: whether its chain holds `context.Canceled` or
-- `context.DeadlineExceeded`, and the code of the first bridge error in the chain.
pub record GoError : Type 0 where
  pub is_canceled : Bool
  pub is_deadline_exceeded : Bool
  pub code_of : Option Code

-- `CodeOf(err) == CodeOperationCanceled`.
abbrev pub is_operation_canceled : Option Code → Bool
is_operation_canceled (some operation_canceled) = Bool.true
is_operation_canceled _ = Bool.false
