-- ===== src/Main/Answers.antt =====
-- main.cpp: what a request is answered, from the limiter through the routes to the bytes that are sent.
use user_center.Base.{
  suc, ◌≡◌, ◌∙◌, inl, inr, refl, ap, [], Option, Bool, true, false, Bytes, codes, if◌then◌else◌,
  leb, ◌==◌, ◌||◌, Bool-cases,
}
use user_center.World.{Env, M, ok, after_ok, ◌>>=◌, pure}
use user_center.Http.Request.{HttpRequest, Headers, Method}
use user_center.Http.Response.{HttpResponse, new_response, serialize, is_empty, set_status_code}
use user_center.Common.ErrorCode.{token_missing}
use user_center.Common.ResponseHelper.{send_error_status}
use user_center.Common.RateLimiter.{count_key}
use user_center.Common.RateLimiter.Window.{CountLaws, is_allowed_lem}
use user_center.Router.{dispatch, method_number}
use user_center.Db.Client.{MySqlClient}
use user_center.Service.Handlers.{bearer_token}
use user_center.Service.Handlers.Guards
use user_center.Service.Handlers.Guards.{Protected, profile, takes, handle, handle_no_token}
use user_center.Main.{Answer, sends, submits, finish, answer, too_many, request_callback}
use user_center.Main.Routes.{
  Route, register, login, info, logout, put_profile, patch_profile, password, Reaches, handler_of,
  routes-choose,
}
use user_center.ThreadPool.{TaskPool, submit}

-- The key that the limiter counts for an address.
abbrev pub limit_key : Bytes → Bytes
limit_key ip = count_key (if is_empty ip then codes "unknown" else ip)

module _ (env : Env) (lease : M (env.World) (Option (MySqlClient (env.Handle))))
    (order : Headers → Headers) where
  open env use {World}

  -- What a handler leaves becomes the text that is sent.
  abbrev pub finished : HttpRequest → M World HttpResponse → M World Answer
  finished req m = m >>= (λ resp. pure (finish env lease order req resp))

  answer_route :
      (r : Route) (req : HttpRequest) (w : World)
      → Reaches r req
      → answer env lease order req w
        ≡ finished req (handler_of env lease order r req new_response) w
  unfolding answer dispatch
  answer_route r req w h = rw (routes-choose env lease order r req h, dispatch) refl

  -- The routes of a user who has logged in; a logout without a token is answered elsewhere.
  abbrev pub needs_token : Route → Bool
  needs_token info = true
  needs_token put_profile = true
  needs_token patch_profile = true
  needs_token password = true
  needs_token _ = false

  abbrev takes_method : Protected env lease → Method → Bool
  takes_method Guards.info m = method_number m == method_number Method.get
  takes_method Guards.profile m =
      method_number m == method_number Method.put || method_number m == method_number Method.patch
  takes_method Guards.password m = method_number m == method_number Method.put

  refused :
      (p : Protected env lease) (r : Route) (req : HttpRequest) (w : World)
      → Reaches r req
      → handler_of env lease order r ≡ handle env lease p
      → takes env lease p req ≡ true
      → bearer_token req ≡ []
      → answer env lease order req w
        ≡ finished req
            (send_error_status env (set_status_code 401 new_response) token_missing 401)
            w
  refused p r req w h same method missing =
      answer_route r req w h
      ∙ ap (λ f. finished req (f req new_response) w) same
      ∙ ap (λ o. after_ok o (λ resp. pure (finish env lease order req resp)))
          (handle_no_token env lease p req new_response w method missing)

  -- A request for the user's information, for an update of the profile or for a change of the password,
  -- by its method and its path with or without a slash behind, that has no bearer token, is sent
  -- TokenMissing with status 401: no token is looked up, and nothing else is read or written.
  pub answer_no_token :
      (r : Route) (req : HttpRequest) (w : World)
      → needs_token r ≡ true
      → Reaches r req
      → bearer_token req ≡ []
      → answer env lease order req w
        ≡ finished req
            (send_error_status env (set_status_code 401 new_response) token_missing 401)
            w
  answer_no_token info req w n h missing =
      refused Guards.info info req w h refl (ap (takes_method Guards.info) h.0) missing
  answer_no_token put_profile req w n h missing =
      refused Guards.profile put_profile req w h refl (ap (takes_method Guards.profile) h.0) missing
  answer_no_token patch_profile req w n h missing =
      refused Guards.profile patch_profile req w h refl (ap (takes_method Guards.profile) h.0)
        missing
  answer_no_token password req w n h missing =
      refused Guards.password password req w h refl (ap (takes_method Guards.password) h.0) missing
  answer_no_token register req w n h missing = cc
  answer_no_token login req w n h missing = cc
  answer_no_token logout req w n h missing = cc

  -- While Redis counts as documented: a request from an address that has had fewer than 60 in the window
  -- goes to the pool, and with 60 or more it is sent 429 and does not reach the pool.
  pub request_callback-limit :
      (laws : CountLaws env) (ip : Bytes) (req : HttpRequest) (pool : TaskPool HttpRequest)
      (w : World)
      → (v : World) × (laws.count v (limit_key ip) ≡ suc (laws.count w (limit_key ip)))
        × (request_callback env lease order ip req pool w ≡ (
            if leb (suc (laws.count w (limit_key ip))) 60
            then (ok (submits (submit req pool)), v)
            else (too_many env lease order >>= λ resp. pure (sends (serialize order resp))) v))
  unfolding request_callback
  request_callback-limit laws ip req pool w =
      let (v, e, more) =
        is_allowed_lem env laws (if is_empty ip then codes "unknown" else ip) 60 60 w in
      (
        v,
        more,
        elim (Bool-cases (leb (suc (laws.count w (limit_key ip))) 60)) [
          | inl passes ↦ rw (e, passes) refl
          | inr over ↦ rw (e, over) refl
        ],
      )
