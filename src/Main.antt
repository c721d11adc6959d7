-- ===== src/Main.antt =====
-- main.cpp: the routes, the callback that a connection calls with a request, and the task that a
-- worker runs for it.
pub mod Routes
pub mod Answers
pub mod SetUp
pub mod Exchange
pub mod Limits
use user_center.Base.{
  List, [], ◌∷◌, Option, Bool, true, false, not, Bytes, codes, bytes_eq, if◌then◌else◌,
}
use user_center.World.{Env, M, ◌>>=◌, pure}
use user_center.Http.Request.{HttpRequest, Headers, Method, get_header}
use user_center.Http.Response.{HttpResponse, new_response, set_header, serialize, is_empty}
use user_center.Common.ErrorCode.{rate_limit_exceeded}
use user_center.Common.ResponseHelper.{send_error}
use user_center.Common.RateLimiter.{is_allowed}
use user_center.Router.{RouteKey, add_route, dispatch}
use user_center.Db.Client.{MySqlClient}
use user_center.Service.Handlers.{
  handle_register, handle_login, handle_get_user_info, handle_logout,
}
use user_center.Service.Handlers.Updates.{handle_update_profile, handle_change_password}
use user_center.ThreadPool.{TaskPool, Submitted, submit}

unfoldable pub keep_alive : HttpRequest → Bool
unfolding get_header
keep_alive req =
    if bytes_eq req.version (codes "HTTP/1.1")
    then not (bytes_eq (get_header (codes "Connection") req) (codes "close"))
    else bytes_eq (get_header (codes "Connection") req) (codes "keep-alive")

unfoldable pub mark_connection : Bool → HttpResponse → HttpResponse
unfolding set_header
mark_connection keep resp =
    if keep
    then set_header (codes "Connection") (codes "keep-alive") resp
    else set_header (codes "Connection") (codes "close") resp

-- What the task of a worker asks of the connection: a text to send, and whether to shut it down then.
pub record Answer : Type 0 where
  pub text : Bytes
  pub shuts_down : Bool

-- What the callback does: it sends a text, or hands the request to the pool, which takes it or throws.
pub data Handled : Type 0 where
  sends : Bytes → Handled
  submits : Submitted HttpRequest → Handled

module _ (env : Env) (lease : M (env.World) (Option (MySqlClient (env.Handle))))
    (order : Headers → Headers) where
  open env use {World}

  abbrev pub Handler : Type 0
  Handler = HttpRequest → HttpResponse → M World HttpResponse

  unfoldable pub routes : List (RouteKey × Handler)
  unfolding add_route
  routes = add_route (codes "/user/password") Method.put (handle_change_password env lease) (
      add_route (codes "/user/profile") Method.patch (handle_update_profile env lease) (
        add_route (codes "/user/profile") Method.put (handle_update_profile env lease) (
          add_route (codes "/user/logout") Method.post (handle_logout env lease) (
            add_route (codes "/user/info") Method.get (handle_get_user_info env lease) (
              add_route (codes "/user/login") Method.post (handle_login env lease)
                (add_route (codes "/user/register") Method.post (handle_register env lease) []))))))

  unfoldable pub finish : HttpRequest → HttpResponse → Answer
  unfolding keep_alive mark_connection serialize
  finish req resp = record {
    text = serialize order (mark_connection (keep_alive req) resp);
    shuts_down = not (keep_alive req);
  }

  unfoldable pub answer : HttpRequest → M World Answer
  unfolding routes dispatch finish
  answer req = do resp ← dispatch pure routes req new_response; pure (finish req resp)

  unfoldable pub too_many : M World HttpResponse
  unfolding send_error
  too_many = send_error env new_response rate_limit_exceeded (codes "Too many requests") 429

  unfoldable pub request_callback : Bytes → HttpRequest → TaskPool HttpRequest → M World Handled
  unfolding is_allowed too_many serialize submit
  request_callback ip req pool = do
    passes ← is_allowed env (if is_empty ip then codes "unknown" else ip) 60 60
    if passes
        then pure (submits (submit req pool))
        else (too_many >>= λ resp. pure (sends (serialize order resp)))
