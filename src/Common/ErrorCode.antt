-- ===== src/Common/ErrorCode.antt =====
-- include/common/ErrorCode.h
use user_center.Base.{ℕ, Bytes, codes}

pub data ErrorCode : Type 0 where
  success rate_limit_exceeded : ErrorCode
  invalid_json missing_param param_too_long param_invalid method_not_allowed : ErrorCode
  invalid_credentials unauthorized token_missing token_expired token_invalid : ErrorCode
  old_password_wrong : ErrorCode
  user_not_found user_exists permission_denied : ErrorCode
  database_error redis_failure internal_error : ErrorCode

-- `static_cast<int>(code)`
unfoldable pub code_value : ErrorCode → ℕ
code_value success = 0
code_value rate_limit_exceeded = 429
code_value invalid_json = 1001
code_value missing_param = 1002
code_value param_too_long = 1003
code_value param_invalid = 1004
code_value method_not_allowed = 1005
code_value invalid_credentials = 2001
code_value unauthorized = 2002
code_value token_missing = 2003
code_value token_expired = 2004
code_value token_invalid = 2005
code_value old_password_wrong = 2006
code_value user_not_found = 3001
code_value user_exists = 3002
code_value permission_denied = 3003
code_value database_error = 5001
code_value redis_failure = 5002
code_value internal_error = 5003

unfoldable pub error_message : ErrorCode → Bytes
error_message success = codes "success"
error_message rate_limit_exceeded = codes "Too many requests, please slow down"
error_message invalid_json = codes "Invalid JSON format"
error_message missing_param = codes "Missing required parameter"
error_message param_too_long = codes "Parameter too long"
error_message param_invalid = codes "Invalid parameter value"
error_message method_not_allowed = codes "Method Not Allowed"
error_message invalid_credentials = codes "Invalid Credentials"
error_message unauthorized = codes "Unauthorized"
error_message token_missing = codes "Missing token"
error_message token_expired = codes "Token expired"
error_message token_invalid = codes "Invalid token"
error_message old_password_wrong = codes "Old password is incorrect"
error_message user_not_found = codes "User not found"
error_message user_exists = codes "User already exists"
error_message permission_denied = codes "Permission denied"
error_message database_error = codes "Database error"
error_message redis_failure = codes "Redis error"
error_message internal_error = codes "Internal server error"

unfoldable pub http_status : ErrorCode → ℕ
http_status success = 200
http_status rate_limit_exceeded = 429
http_status invalid_json = 400
http_status missing_param = 400
http_status param_too_long = 400
http_status param_invalid = 400
http_status method_not_allowed = 405
http_status invalid_credentials = 401
http_status unauthorized = 401
http_status token_missing = 401
http_status token_expired = 401
http_status token_invalid = 401
http_status old_password_wrong = 401
http_status user_not_found = 404
http_status user_exists = 409
http_status permission_denied = 403
http_status database_error = 500
http_status redis_failure = 500
http_status internal_error = 500
