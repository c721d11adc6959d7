-- ===== src/Main/Limits.antt =====
-- main.cpp: the message callback and the limit of requests, up to the bytes that a refused client reads.
use user_center.Base.{
  suc, bytes_eq, ◌<◌, ◌≤◌, ◌≡◌, ◌∙◌, ◌⊎◌, ◌++◌, inl, inr, refl, sym, ap, [], ◌∷◌, Option, some,
  Bytes, codes, arith, length, pos, leb, if_true, if_false, Bool-cases, to_string,
}
use mathlib.Core.List.{Permᴰ}
use user_center.World.{Env, M, ok, after_ok, pure, lift}
use user_center.Base.Strtol.{int_max}
use user_center.Http.Request.{HttpRequest, Headers, find_header, put_header}
use user_center.Http.Response.{
  HttpResponse, new_response, set_status_code, set_content_type, set_header, set_body, status_text,
  serialize,
}
use user_center.Http.Response.Client.{Received, read_response}
use user_center.Http.Response.Framing.{IsSendable, received, read_response-serialize}
use user_center.Common.ErrorCode.{code_value}
use user_center.Common.ResponseHelper.{filled, send_error}
use user_center.Common.RateLimiter.Window.{CountLaws}
use user_center.Db.Client.{MySqlClient}
use user_center.Main.{sends, submits, too_many, request_callback}
use user_center.Main.Answers.{limit_key, request_callback-limit}
use user_center.Main.Exchange.{every-Perm, is_sendable-every, lacks_length-every}
use user_center.ThreadPool.{TaskPool, submit}

-- The answer to a client over the limit.
abbrev limited : Bytes → HttpResponse
limited text = record {
  status_code = 429;
  status_message = codes "Unknown";
  body = text;
  headers = (codes "Content-Type", codes "application/json") ∷ [];
}

module _ (order : Headers → Headers) (walk : (hs : Headers) → Permᴰ (order hs) hs) where
  limited-IsSendable : (text : Bytes) → length text ≤ int_max → IsSendable order (limited text)
  unfolding find_header bytes_eq
  limited-IsSendable text h =
      let hs = (limited text).headers in
      record {
        message = refl;
        headers =
            is_sendable-every (order hs)
            ∙ every-Perm _ (walk hs) (sym (is_sendable-every hs) ∙ refl);
        no_length =
            lacks_length-every (order hs)
            ∙ every-Perm _ (walk hs) (sym (lacks_length-every hs) ∙ refl);
        length_missing = refl;
        body = h;
      }

-- What a client reads that is over the limit, with `next` behind it.
pub record Limits (sent body next : Bytes) : Type 0 where
  pub response : Received
  pub read : read_response (sent ++ next) ≡ some response
  pub status : response.status ≡ codes "HTTP/1.1 429 Unknown"
  pub body_is : response.body ≡ body
  pub unread : response.unread ≡ next

module _ (env : Env) (lease : M (env.World) (Option (MySqlClient (env.Handle))))
    (order : Headers → Headers) where
  open env use {World, Json, json_dump, json_object, json_text, json_int}

  -- The body that says that there were too many requests.
  abbrev pub limit_body : Json
  limit_body = json_object (
      (codes "code", json_int (pos 429))
      ∷ (codes "msg", json_text (codes "Too many requests"))
      ∷ [])

  too_many_lem :
      (text : Bytes) (w : World)
      → json_dump limit_body ≡ ok text
      → too_many env lease order w ≡ (ok (limited text), w)
  unfolding too_many send_error filled code_value set_content_type set_header put_header
      set_status_code status_text
  too_many_lem text w e =
      ap
        (λ r. after_ok (lift r w) (λ t. pure (
          set_content_type (codes "application/json")
            (set_body t (set_status_code 429 new_response)))))
        e

  limited-Limits :
      (walk : (hs : Headers) → Permᴰ (order hs) hs) (text next : Bytes)
      → length text ≤ int_max
      → Limits (serialize order (limited text)) text next
  unfolding to_string
  limited-Limits walk text next h = record {
    response = received order (limited text) next;
    read = read_response-serialize order (limited text) next (limited-IsSendable order walk text h);
    status = refl;
    body_is = refl;
    unread = refl;
  }

  -- While Redis counts as documented, and the JSON library prints the refusal: a request from an address
  -- that has had fewer than 60 in the window goes to the pool; with 60 or more it does not, and the client
  -- reads the status line with 429, the body that says so, and nothing of what is sent behind it,
  -- whatever the order of the response's headers. The request is counted either way.
  pub request_callback_lem :
      (laws : CountLaws env) (walk : (hs : Headers) → Permᴰ (order hs) hs) (ip : Bytes)
      (req : HttpRequest) (pool : TaskPool HttpRequest) (text next : Bytes) (w : World)
      → json_dump limit_body ≡ ok text
      → length text ≤ int_max
      → (v : World) × (laws.count v (limit_key ip) ≡ suc (laws.count w (limit_key ip)))
        × (((laws.count w (limit_key ip) < 60)
              × (request_callback env lease order ip req pool w
                  ≡ (ok (submits (submit req pool)), v)))
            ⊎ ((60 ≤ laws.count w (limit_key ip))
                × ((sent : Bytes) × (request_callback env lease order ip req pool w
                      ≡ (ok (sends sent), v))
                    × Limits sent text next)))
  request_callback_lem laws walk ip req pool text next w dump small =
      let (v, more, e) = request_callback-limit env lease order laws ip req pool w in
      (
        v,
        more,
        elim (Bool-cases (leb (suc (laws.count w (limit_key ip))) 60)) [
          | inl passes ↦ inl (ground (arith, passes), e ∙ if_true _ _ passes)
          | inr over ↦ inr (
            ground (arith, over),
            (
              serialize order (limited text),
              e
                  ∙ if_false _ _ over
                  ∙ ap (λ o. after_ok o (λ resp. pure (sends (serialize order resp))))
                      (too_many_lem text v dump),
              limited-Limits walk text next small,
            ),
          )
        ],
      )
