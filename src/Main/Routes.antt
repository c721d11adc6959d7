-- ===== src/Main/Routes.antt =====
-- main.cpp: which handler a request reaches.
use user_center.Base.{
  ◌≡◌, ◌∙◌, ◌⊎◌, inl, inr, refl, ap, ◌++◌, Option, some, Bytes, codes, bytes_eq, ap₂,
}
use user_center.World.{Env, M}
use user_center.Http.Request.{HttpRequest, Headers, Method}
use user_center.Router.{
  choose, find_route, put_route, add_route, find_trimmed, same_key, ends_with_slash,
}
use user_center.Db.Client.{MySqlClient}
use user_center.Service.Handlers.{
  handle_register, handle_login, handle_get_user_info, handle_logout,
}
use user_center.Service.Handlers.Updates.{handle_update_profile, handle_change_password}
use user_center.Main.{Handler, routes}

pub data Route : Type 0 where
  register login info logout put_profile patch_profile password : Route

abbrev pub path_of : Route → Bytes
path_of register = codes "/user/register"
path_of login = codes "/user/login"
path_of info = codes "/user/info"
path_of logout = codes "/user/logout"
path_of put_profile = codes "/user/profile"
path_of patch_profile = codes "/user/profile"
path_of password = codes "/user/password"

abbrev pub method_of : Route → Method
method_of register = Method.post
method_of login = Method.post
method_of info = Method.get
method_of logout = Method.post
method_of put_profile = Method.put
method_of patch_profile = Method.patch
method_of password = Method.put

abbrev at_line : HttpRequest → Method → Bytes → HttpRequest
at_line req method path = record req { method = method; path = path }

-- The path of a request, as it is or with a slash behind.
abbrev pub Reaches : Route → HttpRequest → Type 0
Reaches r req =
    (req.method ≡ method_of r) × ((req.path ≡ path_of r) ⊎ (req.path ≡ path_of r ++ codes "/"))

module _ (env : Env) (lease : M (env.World) (Option (MySqlClient (env.Handle))))
    (order : Headers → Headers) where
  abbrev pub handler_of : Route → Handler env lease order
  handler_of register = handle_register env lease
  handler_of login = handle_login env lease
  handler_of info = handle_get_user_info env lease
  handler_of logout = handle_logout env lease
  handler_of put_profile = handle_update_profile env lease
  handler_of patch_profile = handle_update_profile env lease
  handler_of password = handle_change_password env lease

  at_path :
      (r : Route) (req : HttpRequest)
      → choose (record req { method = method_of r; path = path_of r }) (routes env lease order)
        ≡ some (handler_of r)
  unfolding routes choose find_route put_route add_route same_key bytes_eq
  at_path register req = refl
  at_path login req = refl
  at_path info req = refl
  at_path logout req = refl
  at_path put_profile req = refl
  at_path patch_profile req = refl
  at_path password req = refl

  at_slash :
      (r : Route) (req : HttpRequest)
      → choose
          (record req { method = method_of r; path = path_of r ++ codes "/" })
          (routes env lease order)
        ≡ some (handler_of r)
  unfolding routes choose find_route put_route add_route same_key find_trimmed ends_with_slash
      bytes_eq
  at_slash register req = refl
  at_slash login req = refl
  at_slash info req = refl
  at_slash logout req = refl
  at_slash put_profile req = refl
  at_slash patch_profile req = refl
  at_slash password req = refl

  -- Each of the seven routes leads a request with its method and its path, with or without a slash
  -- behind, to its own handler.
  pub routes-choose :
      (r : Route) (req : HttpRequest)
      → Reaches r req
      → choose req (routes env lease order) ≡ some (handler_of r)
  routes-choose r req (m, inl p) =
      ap (λ q. choose q (routes env lease order)) (ap₂ (at_line req) m p) ∙ at_path r req
  routes-choose r req (m, inr p) =
      ap (λ q. choose q (routes env lease order)) (ap₂ (at_line req) m p) ∙ at_slash r req
