-- ===== src/Exceptions.antt =====
-- libs/common-exceptions/src: the error codes and the two kinds of application exceptions. Messages
-- are translated texts and are left out where only the kind, the code and the status decide.
use ocean_chat_private.Prelude.{ℕ}

pub data ErrorCode : Type 0 where
  username_already_exists username_too_short username_too_long username_invalid_characters :
      ErrorCode
  password_too_short password_no_digit password_no_lowercase password_no_uppercase : ErrorCode
  password_no_special_char : ErrorCode
  invalid_credentials user_not_found creation_error : ErrorCode
  unauthorized refresh_token_reused_or_revoked token_refresh_error : ErrorCode
  idempotency_conflict invalid_sequence_key malformed_event : ErrorCode
  failed_to_fetch_scoped_roles error_code_token_expired : ErrorCode
  service_error service_unavailable unexpected_error : ErrorCode

-- The numbers of the enum.
unfoldable pub code_number : ErrorCode → ℕ
code_number username_already_exists = 10001
code_number username_too_short = 10002
code_number username_too_long = 10003
code_number username_invalid_characters = 10004
code_number password_too_short = 10010
code_number password_no_digit = 10011
code_number password_no_lowercase = 10012
code_number password_no_uppercase = 10013
code_number password_no_special_char = 10014
code_number invalid_credentials = 10020
code_number user_not_found = 10021
code_number creation_error = 10022
code_number unauthorized = 10030
code_number refresh_token_reused_or_revoked = 10031
code_number token_refresh_error = 10032
code_number idempotency_conflict = 10050
code_number invalid_sequence_key = 40000
code_number malformed_event = 40001
code_number failed_to_fetch_scoped_roles = 20001
code_number error_code_token_expired = 20002
code_number service_error = 50300
code_number service_unavailable = 50301
code_number unexpected_error = 99999

-- What a service throws: a DomainException or an InfrastructureException with its code and HTTP
-- status, or any other error, such as one of a driver.
pub data Exception : Type 0 where
  domain infrastructure : (code : ErrorCode) (status : ℕ) → Exception
  other : Exception
