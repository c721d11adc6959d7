-- ===== src/Common/ResponseHelper.antt =====
-- include/common/ResponseHelper.h: the bodies are {"code", "msg"} and, where there are data, "data".
use user_center.Base.{ℕ, [], ◌∷◌, List, Bytes, codes, pos, if◌then◌else◌}
use user_center.World.{Env, M, ◌>>=◌, pure, lift}
use user_center.Http.Response.{HttpResponse, set_status_code, set_body, set_content_type}
use user_center.Common.ErrorCode.{ErrorCode, success, code_value, error_message, http_status}

module _ (env : Env) where
  open env use {World, Json, json_object, json_text, json_int, json_empty, json_dump}

  -- Status, body and content type, in the source's order.
  unfoldable pub filled : HttpResponse → ℕ → Json → M World HttpResponse
  filled resp status body = do
    text ← lift (json_dump body)
    pure (set_content_type (codes "application/json") (set_body text (set_status_code status resp)))

  unfoldable pub data_field : Json → List (Bytes × Json)
  data_field data_part = if json_empty data_part then [] else (codes "data", data_part) ∷ []

  unfoldable pub send_success : HttpResponse → Json → ℕ → M World HttpResponse
  unfolding filled data_field
  send_success resp data_part status = filled resp status (
      json_object (
        (codes "code", json_int (pos (code_value success)))
        ∷ (codes "msg", json_text (error_message success))
        ∷ data_field data_part))

  -- The four overloads come down to the one with a message and a status.
  unfoldable pub send_error : HttpResponse → ErrorCode → Bytes → ℕ → M World HttpResponse
  unfolding filled
  send_error resp code msg status = filled resp status (
      json_object
        ((codes "code", json_int (pos (code_value code))) ∷ (codes "msg", json_text msg) ∷ []))

  unfoldable pub send_error_code : HttpResponse → ErrorCode → M World HttpResponse
  unfolding send_error
  send_error_code resp code = send_error resp code (error_message code) (http_status code)

  unfoldable pub send_error_status : HttpResponse → ErrorCode → ℕ → M World HttpResponse
  unfolding send_error
  send_error_status resp code status = send_error resp code (error_message code) status
