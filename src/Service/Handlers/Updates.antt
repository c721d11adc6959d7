-- ===== src/Service/Handlers/Updates.antt =====
-- src/service/UserHandler.cpp: the update of a profile with the checks of its fields, and the change of
-- a password.
use user_center.Base.{
  ℕ, [], Option, none, some, Bool, false, ◌&&◌, ◌||◌, Bytes, codes, length, ltb, if◌then◌else◌, ℤ,
  pos, negsuc, positive,
}
use user_center.World.{Env, M, ◌>>=◌, pure, lift}
use user_center.Http.Request.{HttpRequest, Method}
use user_center.Http.Response.{HttpResponse, is_missing}
use user_center.Common.ErrorCode.{
  ErrorCode, success, missing_param, param_too_long, param_invalid, method_not_allowed,
}
use user_center.Common.ResponseHelper.{send_success, send_error, send_error_code, send_error_status}
use user_center.Db.Client.{MySqlClient}
use user_center.Service.Users.{change_password}
use user_center.Service.Profile.{
  Info, refused, found, ProfileUpdate, get_user_info_json, update_profile,
}
use user_center.Service.Handlers.{has_method, verify_request, invalid_json_answer}

-- A check of the body: the answer is filled already, or here is what was read.
pub data Checked (A : Type 0) : Type 0 where
  rejected : HttpResponse → Checked A
  accepted : A → Checked A

module _ (env : Env) (lease : M (env.World) (Option (MySqlClient (env.Handle)))) where
  open env use {
    World, Json, json_parse, json_contains, json_at, json_is_string, json_is_integer, json_to_text,
    json_to_int, json_value_text, json_text, json_object,
  }

  -- `sendError` and `return false`.
  abbrev pub refuse : {A : Type 0} → M World HttpResponse → M World (Checked A)
  refuse m = m >>= (λ filled. pure (rejected filled))

  -- A text field: absent, or a string of at most `limit` bytes.
  unfoldable pub check_text :
      HttpResponse → Json → Bytes → ℕ → Bytes → Bytes → M World (Checked (Option Bytes))
  unfolding send_error
  check_text resp body key limit no_string too_long =
      if json_contains body key
      then if json_is_string (json_at body key)
        then (do
          val ← lift (json_to_text (json_at body key))
          if ltb limit (length val)
              then refuse (send_error env resp param_too_long too_long 400)
              else pure (accepted (some val)))
        else refuse (send_error env resp param_invalid no_string 400)
      else pure (accepted none)

  -- 0, 1 or 2
  abbrev pub gender_ok : ℤ → Bool
  gender_ok (pos n) = ltb n 3
  gender_ok (negsuc n) = false

  unfoldable pub check_gender : HttpResponse → Json → M World (Checked (Option ℤ))
  unfolding send_error
  check_gender resp body =
      if json_contains body (codes "gender")
      then if json_is_integer (json_at body (codes "gender"))
        then if gender_ok (json_to_int (json_at body (codes "gender")))
          then pure (accepted (some (json_to_int (json_at body (codes "gender")))))
          else refuse (send_error env resp param_invalid (codes "Gender must be 0,1,2") 400)
        else refuse (send_error env resp param_invalid (codes "gender must be integer") 400)
      else pure (accepted none)

  abbrev pub continued :
      {A B : Type 0} → (A → M World (Checked B)) → Checked A → M World (Checked B)
  continued f (rejected resp) = pure (rejected resp)
  continued f (accepted a) = f a

  abbrev pub and_then :
      {A B : Type 0} → M World (Checked A) → (A → M World (Checked B)) → M World (Checked B)
  and_then m f = m >>= continued f

  unfoldable pub check_nickname : HttpResponse → Json → M World (Checked (Option Bytes))
  check_nickname resp body =
      check_text resp body (codes "nickname") 64 (codes "nickname must be string")
        (codes "Nickname too long")

  unfoldable pub check_avatar_url : HttpResponse → Json → M World (Checked (Option Bytes))
  check_avatar_url resp body =
      check_text resp body (codes "avatar_url") 256 (codes "avatar_url must be string")
        (codes "Avatar URL too long")

  unfoldable pub check_bio : HttpResponse → Json → M World (Checked (Option Bytes))
  check_bio resp body =
      check_text resp body (codes "bio") 500 (codes "bio must be string") (codes "Bio too long")

  -- The four checks, in the source's order.
  unfoldable pub then_gender :
      HttpResponse
      → Json
      → Option Bytes
      → Option Bytes
      → Option Bytes
      → M World (Checked ProfileUpdate)
  then_gender resp body nickname avatar_url bio = and_then (check_gender resp body) (λ gender.
      pure (
        accepted
          (record { nickname = nickname; avatar_url = avatar_url; bio = bio; gender = gender })))

  unfoldable pub then_bio :
      HttpResponse → Json → Option Bytes → Option Bytes → M World (Checked ProfileUpdate)
  then_bio resp body nickname avatar_url =
      and_then (check_bio resp body) (then_gender resp body nickname avatar_url)

  unfoldable pub then_avatar_url :
      HttpResponse → Json → Option Bytes → M World (Checked ProfileUpdate)
  then_avatar_url resp body nickname =
      and_then (check_avatar_url resp body) (then_bio resp body nickname)

  unfoldable pub get_update_profile : Json → HttpResponse → M World (Checked ProfileUpdate)
  get_update_profile body resp = and_then (check_nickname resp body) (then_avatar_url resp body)

  -- After the update the new information is read; where that fails the answer is an empty success.
  unfoldable pub updated_answer : HttpResponse → Info Json → M World HttpResponse
  unfolding send_success
  updated_answer resp (refused code) = send_success env resp (json_object []) 200
  updated_answer resp (found j) = send_success env resp j 200

  unfoldable pub update_answer : HttpResponse → ℤ → ErrorCode → M World HttpResponse
  unfolding get_user_info_json updated_answer send_error_code
  update_answer resp user_id success = do
    info ← get_user_info_json env lease user_id
    updated_answer resp info
  update_answer resp user_id code = send_error_code env resp code

  -- No field has a value.
  abbrev pub nothing_set : ProfileUpdate → Bool
  nothing_set u =
      is_missing u.nickname && is_missing u.avatar_url && is_missing u.bio && is_missing u.gender

  unfoldable pub apply_update : HttpResponse → ℤ → Checked ProfileUpdate → M World HttpResponse
  unfolding update_profile update_answer send_error
  apply_update resp user_id (rejected filled) = pure filled
  apply_update resp user_id (accepted u) =
      if nothing_set u
      then send_error env resp missing_param (codes "No fields to update") 400
      else (do code ← update_profile env lease user_id u; update_answer resp user_id code)

  unfoldable pub update_parsed : HttpResponse → ℤ → Option Json → M World HttpResponse
  unfolding get_update_profile apply_update invalid_json_answer
  update_parsed resp user_id none = invalid_json_answer env lease resp
  update_parsed resp user_id (some body) = do
    update ← get_update_profile body resp
    apply_update resp user_id update

  unfoldable pub update_for : HttpRequest → ℤ × HttpResponse → M World HttpResponse
  unfolding update_parsed
  update_for req (user_id, resp) =
      if positive user_id then update_parsed resp user_id (json_parse req.body) else pure resp

  unfoldable pub handle_update_profile : HttpRequest → HttpResponse → M World HttpResponse
  unfolding verify_request update_for
  handle_update_profile req resp =
      if has_method req Method.put || has_method req Method.patch
      then verify_request env lease req resp >>= update_for req
      else send_error_status env resp method_not_allowed 405

  abbrev pub text_at : Json → Bytes → Bool
  text_at body key = json_contains body key && json_is_string (json_at body key)

  unfoldable pub code_answer : HttpResponse → ErrorCode → M World HttpResponse
  unfolding send_success send_error_code
  code_answer resp success = send_success env resp (json_object []) 200
  code_answer resp code = send_error_code env resp code

  unfoldable pub change_checked : HttpResponse → ℤ → Bytes → Bytes → M World HttpResponse
  unfolding change_password code_answer send_error
  change_checked resp user_id old_password new_password =
      if ltb (length new_password) 6
      then send_error env resp param_invalid (codes "Password too short") 400
      else (do
        code ← change_password env lease user_id old_password new_password
        code_answer resp code)

  unfoldable pub change_parsed : HttpResponse → ℤ → Option Json → M World HttpResponse
  unfolding change_checked invalid_json_answer
  change_parsed resp user_id none = invalid_json_answer env lease resp
  change_parsed resp user_id (some body) =
      if text_at body (codes "old_password") && text_at body (codes "new_password")
      then (do
        old_password ← lift (json_to_text (json_at body (codes "old_password")))
        new_password ← lift (json_to_text (json_at body (codes "new_password")))
        change_checked resp user_id old_password new_password)
      else send_error env resp missing_param (codes "Missing old_password or new_password") 400

  unfoldable pub change_for : HttpRequest → ℤ × HttpResponse → M World HttpResponse
  unfolding change_parsed
  change_for req (user_id, resp) =
      if positive user_id then change_parsed resp user_id (json_parse req.body) else pure resp

  unfoldable pub handle_change_password : HttpRequest → HttpResponse → M World HttpResponse
  unfolding verify_request change_for
  handle_change_password req resp =
      if has_method req Method.put
      then verify_request env lease req resp >>= change_for req
      else send_error_status env resp method_not_allowed 405
