-- ===== src/Service/Handlers.antt =====
-- include/service/UserHandler.h and src/service/UserHandler.cpp. A handler takes the response and
-- gives it back filled; an exception that it lets pass leaves it by `throw`.
pub mod Updates
pub mod Guards
use user_center.Base.{
  ℕ, List, [], ◌∷◌, ◌++◌, Option, none, some, Bool, true, false, not, ◌&&◌, ◌||◌, Bytes, codes,
  bytes_eq, length, take, drop, ltb, if◌then◌else◌, ◌==◌, ℤ, pos, negsuc, positive,
}
use user_center.World.{Env, M, Exn, ◌>>=◌, ◌>>◌, pure, raise, lift, try_catch, is_parse_error}
use user_center.Http.Request.{HttpRequest, Method, get_header}
use user_center.Http.Response.{HttpResponse, set_status_code, is_empty, is_missing}
use user_center.Common.ErrorCode.{
  ErrorCode, success, invalid_json, missing_param, param_too_long, param_invalid,
  method_not_allowed, token_missing, token_invalid, user_exists, database_error,
}
use user_center.Common.ResponseHelper.{send_success, send_error, send_error_code, send_error_status}
use user_center.Router.{method_number}
use user_center.Auth.{verify_token, remove_token}
use user_center.Db.Client.{MySqlClient}
use user_center.Service.Users.{Login, register_user, login_user, change_password}
use user_center.Service.Profile.{
  Info, refused, found, ProfileUpdate, get_user_info_json, update_profile,
}

-- `req.getMethod() == m`
abbrev pub has_method : HttpRequest → Method → Bool
has_method req m = method_number req.method == method_number m

abbrev pub bearer : Bytes
bearer = codes "Bearer "

-- The text behind "Bearer ", or the empty string.
unfoldable pub bearer_token : HttpRequest → Bytes
unfolding get_header
bearer_token req =
    let auth = get_header (codes "Authorization") req in
    if bytes_eq (take 7 auth) bearer then drop 7 auth else []

module _ (env : Env) (lease : M (env.World) (Option (MySqlClient (env.Handle)))) where
  open env use {
    World, Json, json_parse, json_contains, json_at, json_is_string, json_is_integer, json_to_text,
    json_to_int, json_value_text, json_text, json_object,
  }

  -- `json::parse`
  unfoldable pub parse_body : HttpRequest → M World Json
  parse_body req = elim (json_parse req.body) [
    | some j ↦ pure j
    | none ↦ raise Exn.json_parse_error
  ]

  unfoldable pub invalid_json_answer : HttpResponse → M World HttpResponse
  unfolding send_error
  invalid_json_answer resp = send_error env resp invalid_json (codes "Invalid JSON") 400

  -- The user's id with the response as it was, or -1 with the error in the response.
  unfoldable pub verified : HttpResponse → ℤ → M World (ℤ × HttpResponse)
  unfolding send_error_status
  verified resp user_id =
      if positive user_id
      then pure (user_id, resp)
      else (do filled ← send_error_status env resp token_invalid 401; pure (negsuc 0, filled))

  unfoldable pub verify_request : HttpRequest → HttpResponse → M World (ℤ × HttpResponse)
  unfolding bearer_token verified
  verify_request req resp =
      if is_empty (bearer_token req)
      then (do
        filled ← send_error_status env (set_status_code 401 resp) token_missing 401
        pure (negsuc 0, filled))
      else (do user_id ← verify_token env (bearer_token req); verified resp user_id)

  unfoldable pub register_answer : HttpResponse → Bytes → ErrorCode → M World HttpResponse
  unfolding send_success send_error
  register_answer resp username success =
      send_success env resp (json_object ((codes "username", json_text username) ∷ [])) 201
  register_answer resp username user_exists =
      send_error env resp user_exists (codes "Username already exists") 409
  register_answer resp username other =
      send_error env resp database_error (codes "Database error") 500

  abbrev pub has_credentials : Json → Bool
  has_credentials body =
      json_contains body (codes "username") && json_contains body (codes "password")

  unfoldable pub register_parsed : HttpResponse → Json → M World HttpResponse
  unfolding send_error register_user register_answer
  register_parsed resp body =
      if has_credentials body
      then (do
        username ← lift (json_to_text (json_at body (codes "username")))
        password ← lift (json_to_text (json_at body (codes "password")))
        email ← lift (json_value_text body (codes "email") [])
        ret ← register_user env lease username password email
        register_answer resp username ret)
      else send_error env resp missing_param (codes "Missing username or password") 400

  unfoldable pub handle_register : HttpRequest → HttpResponse → M World HttpResponse
  unfolding parse_body register_parsed invalid_json_answer
  handle_register req resp =
      if has_method req Method.post
      then try_catch is_parse_error (parse_body req >>= register_parsed resp)
          (invalid_json_answer resp)
      else send_error_status env resp method_not_allowed 405

  -- A login that succeeds without a token is answered like an error, with its code.
  unfoldable pub login_answer : HttpResponse → Bytes → Login → M World HttpResponse
  unfolding send_success send_error_code
  login_answer resp username login = elim login.code [
    | success ↦
        if is_empty login.token
        then send_error_code env resp success
        else send_success env resp
            (json_object (
              (codes "token", json_text login.token)
              ∷ (
                codes "nickname",
                json_text (if is_empty login.nickname then username else login.nickname),
              )
              ∷ []))
            200
    | other ↦ send_error_code env resp login.code
  ]

  unfoldable pub login_parsed : HttpResponse → Json → M World HttpResponse
  unfolding send_error login_user login_answer
  login_parsed resp body =
      if has_credentials body
      then (do
        username ← lift (json_to_text (json_at body (codes "username")))
        password ← lift (json_to_text (json_at body (codes "password")))
        login ← login_user env lease username password
        login_answer resp username login)
      else send_error env resp missing_param (codes "Missing username or password") 400

  unfoldable pub handle_login : HttpRequest → HttpResponse → M World HttpResponse
  unfolding parse_body login_parsed invalid_json_answer
  handle_login req resp =
      if has_method req Method.post
      then try_catch is_parse_error (parse_body req >>= login_parsed resp)
          (invalid_json_answer resp)
      else send_error_status env resp method_not_allowed 405

  unfoldable pub handle_logout : HttpRequest → HttpResponse → M World HttpResponse
  unfolding bearer_token remove_token send_error send_success
  handle_logout req resp =
      if is_empty (bearer_token req)
      then send_error env resp token_missing (codes "Missing token") 400
      else (do remove_token env (bearer_token req); send_success env resp (json_object []) 200)

  unfoldable pub info_answer : HttpResponse → Info Json → M World HttpResponse
  unfolding send_success send_error_code
  info_answer resp (refused code) = send_error_code env resp code
  info_answer resp (found j) = send_success env resp j 200

  unfoldable pub user_info_for : ℤ × HttpResponse → M World HttpResponse
  unfolding get_user_info_json info_answer
  user_info_for (user_id, resp) =
      if positive user_id
      then (do info ← get_user_info_json env lease user_id; info_answer resp info)
      else pure resp

  unfoldable pub handle_get_user_info : HttpRequest → HttpResponse → M World HttpResponse
  unfolding verify_request user_info_for
  handle_get_user_info req resp =
      if has_method req Method.get
      then verify_request req resp >>= user_info_for
      else send_error_status env resp method_not_allowed 405
