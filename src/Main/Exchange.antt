-- ===== src/Main/Exchange.antt =====
-- main.cpp, from the bytes of a request to the bytes of its answer: what a client without a token is sent.
use user_center.Base.{
  ◌≤◌, ◌≡◌, ◌∙◌, ◌++◌, refl, sym, ap, [], ◌∷◌, Option, some, Bool, true, false, not, ◌&&◌, Bytes,
  codes, bytes_eq, arith, length, to_string, pos, if◌then◌else◌,
}
use mathlib.Core.List.{Permᴰ}
use user_center.World.{Env, M, ok, after_ok, pure, lift}
use user_center.Base.Searching.{lacks}
use user_center.Base.Strtol.{int_max}
use user_center.Buffer.{Buffer, contents}
use user_center.Buffer.Memory.{IsValid}
use user_center.Http.Request.{HttpRequest, Headers, find_header, put_header}
use user_center.Http.Response.{
  HttpResponse, new_response, set_status_code, set_content_type, set_header, set_body, status_text,
  serialize,
}
use user_center.Http.Response.Client.{Received, read_response}
use user_center.Http.Response.Lines.{is_sendable}
use user_center.Http.Response.Framing.{IsSendable, received, read_response-serialize}
use user_center.Http.Context.{Parsed, parse, reset}
use user_center.Http.Context.Messages.{Message, IsMessage, render, request_of, lacks_length}
use user_center.Http.Context.Messages.Parsing.{parse-render}
use user_center.Common.ErrorCode.{token_missing, code_value, error_message}
use user_center.Common.ResponseHelper.{filled, send_error, send_error_status}
use user_center.Db.Client.{MySqlClient}
use user_center.Service.Handlers.{bearer_token}
use user_center.Main.{Answer, keep_alive, mark_connection, finish, answer}
use user_center.Main.Routes.{Route, Reaches}
use user_center.Main.Answers.{needs_token, finished, answer_no_token}

abbrev pub every : (Bytes × Bytes → Bool) → Headers → Bool
every f [] = true
every f (h ∷ hs) = f h && every f hs

-- What holds of every header holds of every header in another order.
pub every-Perm :
    (f : Bytes × Bytes → Bool) {hs ks : Headers}
    → Permᴰ hs ks
    → every f ks ≡ true
    → every f hs ≡ true
every-Perm f Permᴰ.nil h = h
every-Perm f (Permᴰ.cons e d) h = ground (arith, every-Perm f d, ap f e)
every-Perm f (Permᴰ.swap e g) h = ground (arith, ap f e, ap f g)
every-Perm f (Permᴰ.trans d d') h = every-Perm f d (every-Perm f d' h)

pub is_sendable-every :
    (hs : Headers) → is_sendable hs ≡ every (λ h. lacks 58 h.0 && lacks 13 h.0 && lacks 13 h.1) hs
is_sendable-every [] = refl
is_sendable-every ((name, value) ∷ hs) = ground (arith, is_sendable-every hs)

pub lacks_length-every :
    (hs : Headers) → lacks_length hs ≡ every (λ h. not (bytes_eq h.0 (codes "Content-Length"))) hs
lacks_length-every [] = refl
lacks_length-every ((name, value) ∷ hs) = ground (arith, lacks_length-every hs)

-- The answer to a request without a token, with the value of its header Connection.
abbrev refusal : Bool → Bytes → HttpResponse
refusal keep text = record {
  status_code = 401;
  status_message = codes "Unknown";
  body = text;
  headers =
      (codes "Content-Type", codes "application/json")
      ∷ (codes "Connection", if keep then codes "keep-alive" else codes "close")
      ∷ [];
}

abbrev refused : Bytes → HttpResponse
refused text =
    set_content_type (codes "application/json")
      (set_body text (set_status_code 401 (set_status_code 401 new_response)))

refused-refusal :
    (keep : Bool) (text : Bytes) → mark_connection keep (refused text) ≡ refusal keep text
unfolding mark_connection set_content_type set_header put_header set_status_code status_text
    bytes_eq
refused-refusal true text = refl
refused-refusal false text = refl

keeps_line :
    (keep : Bool) → (lacks 13 (if keep then codes "keep-alive" else codes "close") && true) ≡ true
keeps_line true = refl
keeps_line false = refl

module _ (order : Headers → Headers) (walk : (hs : Headers) → Permᴰ (order hs) hs) where
  refusal-IsSendable :
      (keep : Bool) (text : Bytes) → length text ≤ int_max → IsSendable order (refusal keep text)
  unfolding find_header bytes_eq
  refusal-IsSendable keep text h =
      let hs = (refusal keep text).headers in
      record {
        message = refl;
        headers =
            is_sendable-every (order hs)
            ∙ every-Perm _ (walk hs) (sym (is_sendable-every hs) ∙ keeps_line keep);
        no_length =
            lacks_length-every (order hs)
            ∙ every-Perm _ (walk hs) (sym (lacks_length-every hs) ∙ refl);
        length_missing = refl;
        body = h;
      }

module _ (env : Env) (lease : M (env.World) (Option (MySqlClient (env.Handle))))
    (order : Headers → Headers) where
  open env use {World, Json, json_dump, json_object, json_text, json_int}

  -- The body that says that there is no token.
  abbrev pub missing_body : Json
  missing_body = json_object (
      (codes "code", json_int (pos (code_value token_missing)))
      ∷ (codes "msg", json_text (error_message token_missing))
      ∷ [])

  abbrev fill : M World HttpResponse
  fill = send_error_status env (set_status_code 401 new_response) token_missing 401

  fill_lem :
      (text : Bytes) (w : World)
      → json_dump missing_body ≡ ok text
      → fill w ≡ (ok (refused text), w)
  unfolding send_error_status send_error filled
  fill_lem text w e =
      ap
        (λ r. after_ok (lift r w) (λ t. pure (
          set_content_type (codes "application/json")
            (set_body t (set_status_code 401 (set_status_code 401 new_response))))))
        e

  answered :
      (req : HttpRequest) (text : Bytes) (w : World)
      → json_dump missing_body ≡ ok text
      → finished env lease order req fill w ≡ (ok (finish env lease order req (refused text)), w)
  answered req text w e =
      ap (λ o. after_ok o (λ resp. pure (finish env lease order req resp))) (fill_lem text w e)

  -- What the client is sent for a request without a token, and what it makes of it.
  pub record Refuses (req : HttpRequest) (body next : Bytes) (a : Answer) : Type 0 where
    pub closes : a.shuts_down ≡ not (keep_alive req)
    pub response : Received
    pub read : read_response (a.text ++ next) ≡ some response
    pub status : response.status ≡ codes "HTTP/1.1 401 Unknown"
    pub body_is : response.body ≡ body
    pub unread : response.unread ≡ next

  finish-Refuses :
      (walk : (hs : Headers) → Permᴰ (order hs) hs) (req : HttpRequest) (text next : Bytes)
      → length text ≤ int_max
      → Refuses req text next (finish env lease order req (refused text))
  unfolding finish serialize to_string
  finish-Refuses walk req text next h =
      let keep = keep_alive req in
      let same = refused-refusal keep text in
      record {
        closes = refl;
        response = received order (refusal keep text) next;
        read =
            ap (λ r. read_response (serialize order r ++ next)) same
            ∙ read_response-serialize order (refusal keep text) next
                (refusal-IsSendable order walk keep text h);
        status = refl;
        body_is = refl;
        unread = refl;
      }

  -- A client writes a well-formed request for the information, an update of the profile or a change of the
  -- password without a bearer token, with anything behind it; the response's headers may be walked in
  -- any order, and the JSON library prints the refusal. The parser takes exactly that request, the
  -- worker's answer leaves the world as it was, and the client reads from it the status line with 401,
  -- the body that says that the token is missing, and nothing of what is sent behind it; the connection
  -- is shut down exactly when it is not kept alive.
  pub parse-answer_no_token :
      (walk : (hs : Headers) → Permᴰ (order hs) hs) (m : Message) (r : Route) (b : Buffer)
      (rest text next : Bytes) (w : World)
      → IsMessage m
      → Reaches r (request_of m)
      → needs_token env lease order r ≡ true
      → bearer_token (request_of m) ≡ []
      → IsValid b
      → contents b ≡ render m ++ rest
      → json_dump missing_body ≡ ok text
      → length text ≤ int_max
      → (p : Parsed Buffer) × (parse reset b ≡ some p)
        × (p.complete ≡ true)
        × (contents p.buffer ≡ rest)
        × ((a : Answer) × (answer env lease order p.context.request w ≡ (ok a, w))
            × Refuses (request_of m) text next a)
  parse-answer_no_token walk m r b rest text next w h reaches needs missing v e dump small =
      let (p, found, _, request, done, _, left) = parse-render m rest b h v e in
      let req = request_of m in
      (
        p,
        found,
        done,
        left,
        (
          finish env lease order req (refused text),
          ap (λ q. answer env lease order q w) request
              ∙ answer_no_token env lease order r req w needs reaches missing
              ∙ answered req text w dump,
          finish-Refuses walk req text next small,
        ),
      )
