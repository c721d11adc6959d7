-- ===== src/Service/Handlers/Guards.antt =====
-- What the handlers of src/service/UserHandler.cpp let through: the token that every protected
-- handler asks for first, and the limits on a profile.
use user_center.Base.{
  ℕ, ◌≡◌, ◌≤◌, ◌∙◌, inl, inr, refl, ap, subst, [], Option, none, some, Bool, true, false, ◌||◌,
  Bytes, codes, length, arith, ℤ, pos, negsuc, positive, if◌then◌else◌, Bool-cases, ltb,
}
use user_center.World.{Env, M, Result, ok, throw, ◌>>=◌, after_ok}
use user_center.World.Laws.{>>=-eq-ok}
use user_center.Http.Request.{HttpRequest, Method}
use user_center.Http.Response.{HttpResponse, set_status_code, is_empty}
use user_center.Common.ErrorCode.{param_invalid, param_too_long, token_missing, token_invalid}
use user_center.Common.ResponseHelper.{send_error_status, send_error}
use user_center.Auth.{verify_token}
use user_center.Db.Client.{MySqlClient}
use user_center.Service.Profile.{ProfileUpdate}
use user_center.Service.Handlers.{
  has_method, bearer_token, verified, verify_request, user_info_for, handle_get_user_info,
}
use user_center.Service.Handlers.Updates.{
  update_for, handle_update_profile, change_for, handle_change_password, Checked, rejected,
  accepted, check_text, check_gender, get_update_profile, and_then, then_avatar_url, then_bio,
  then_gender, check_nickname, check_avatar_url, check_bio, continued, refuse, gender_ok,
}

module _ (env : Env) (lease : M (env.World) (Option (MySqlClient (env.Handle)))) where
  open env use {World, Json, json_dump}

  -- The handlers that need a user, with the methods that they take.
  pub data Protected : Type 0 where
    info profile password : Protected

  abbrev pub takes : Protected → HttpRequest → Bool
  takes info req = has_method req Method.get
  takes profile req = has_method req Method.put || has_method req Method.patch
  takes password req = has_method req Method.put

  abbrev pub handle : Protected → HttpRequest → HttpResponse → M World HttpResponse
  handle info = handle_get_user_info env lease
  handle profile = handle_update_profile env lease
  handle password = handle_change_password env lease

  abbrev after_verify : Protected → HttpRequest → ℤ × HttpResponse → M World HttpResponse
  after_verify info req = user_info_for env lease
  after_verify profile req = update_for env lease req
  after_verify password req = change_for env lease req

  handle_takes :
      (p : Protected) (req : HttpRequest) (resp : HttpResponse) (w : World)
      → takes p req ≡ true
      → handle p req resp w ≡ (verify_request env lease req resp >>= after_verify p req) w
  unfolding handle_get_user_info handle_update_profile handle_change_password
  handle_takes info req resp w e = rw e
  handle_takes profile req resp w e = rw e
  handle_takes password req resp w e = rw e

  -- A user that is refused goes no further.
  stops :
      (p : Protected) (req : HttpRequest) (r : Result HttpResponse × World)
      → after_ok (after_ok r (λ f w. (ok (negsuc 0, f), w))) (after_verify p req) ≡ r
  unfolding user_info_for update_for change_for
  stops info req (ok f, w) = refl
  stops profile req (ok f, w) = refl
  stops password req (ok f, w) = refl
  stops p req (throw e, w) = refl

  -- Without a bearer token every protected handler, called with a method that it takes, answers
  -- TokenMissing with status 401, and neither Redis nor the database is asked anything.
  pub handle_no_token :
      (p : Protected) (req : HttpRequest) (resp : HttpResponse) (w : World)
      → takes p req ≡ true
      → bearer_token req ≡ []
      → handle p req resp w ≡ send_error_status env (set_status_code 401 resp) token_missing 401 w
  unfolding verify_request send_error_status
  handle_no_token p req resp w method missing =
      handle_takes p req resp w method ∙ rw (missing, verify_request) (stops p req _)

  -- A protected handler, called with a method that it takes and a bearer token whose verification
  -- returns no positive id, because the token has expired, was removed or never was, or because Redis
  -- failed, answers TokenInvalid with status 401, and does nothing after the verification.
  pub handle_bad_token :
      (p : Protected) (req : HttpRequest) (resp : HttpResponse) (w v : World) (u : ℤ)
      → takes p req ≡ true
      → is_empty (bearer_token req) ≡ false
      → verify_token env (bearer_token req) w ≡ (ok u, v)
      → positive u ≡ false
      → handle p req resp w ≡ send_error_status env resp token_invalid 401 v
  unfolding verify_request send_error_status
  handle_bad_token p req resp w v u method given checked bad =
      handle_takes p req resp w method
      ∙ rw (given, checked, bad, verify_request, verified) (stops p req _)

  -- The limits that the source sets on the fields.
  abbrev pub TextWithin : ℕ → Option Bytes → Type 0
  TextWithin limit none = Unit {0}
  TextWithin limit (some s) = length s ≤ limit

  abbrev pub GenderWithin : Option ℤ → Type 0
  GenderWithin none = Unit {0}
  GenderWithin (some (pos n)) = n ≤ 2
  GenderWithin (some (negsuc n)) = ⊥

  pub record Within (u : ProfileUpdate) : Type 0 where
    pub nickname_fits : TextWithin 64 u.nickname
    pub avatar_fits : TextWithin 256 u.avatar_url
    pub bio_fits : TextWithin 500 u.bio
    pub gender_fits : GenderWithin u.gender

  checked_case :
      {A B : Type 0} (c : Checked A) (f : A → M World (Checked B)) (u : World) {b : B} {v : World}
      → continued env lease f c u ≡ (ok (accepted b), v)
      → (a : A) × (c ≡ accepted a) × (f a u ≡ (ok (accepted b), v))
  checked_case (rejected resp) f u e = cc
  checked_case (accepted a) f u e = (a, refl, e)

  and_then-accepted :
      {A B : Type 0} (m : M World (Checked A)) (f : A → M World (Checked B)) (w : World) {b : B}
      {v : World}
      → and_then env lease m f w ≡ (ok (accepted b), v)
      → (a : A) × (u : World) × (m w ≡ (ok (accepted a), u)) × (f a u ≡ (ok (accepted b), v))
  and_then-accepted m f w e =
      let (c, u, ran, rest) = >>=-eq-ok m _ w e in
      let (a, same, next) = checked_case c f u rest in (a, u, ran ∙ ap (λ d. (ok d, u)) same, next)

  -- A refusal is never an acceptance.
  rejected_case :
      {A : Type 0} (m : M World HttpResponse) (u : World) {a : A} {v : World}
      → refuse env lease {A = A} m u ≡ (ok (accepted a), v)
      → ⊥
  rejected_case {A} m u {a} {v} e = refused (m u) e
    where
      refused :
          (r : Result HttpResponse × World)
          → after_ok {B = Checked A} r (λ f w. (ok (rejected f), w)) ≡ (ok (accepted a), v)
          → ⊥
      refused (ok resp, w) d = cc
      refused (throw x, w) d = cc

  text_case :
      (r : Result Bytes) (limit : ℕ) (m : M World HttpResponse) (w : World) {o : Option Bytes}
      {v : World}
      → after_ok
          (r, w)
          (λ val.
            if ltb limit (length val)
            then refuse env lease m
            else (λ u. (ok (accepted (some val)), u)))
        ≡ (ok (accepted o), v)
      → TextWithin limit o
  text_case (throw x) limit m w e = cc
  text_case (ok val) limit m w {o} e = elim (Bool-cases (ltb limit (length val))) [
    | inl long ↦ absurd (rejected_case m w (rw long at e))
    | inr fits ↦ within o (rw fits at e)
  ]
    where
      within :
          (p : Option Bytes) {u : World}
          → ◌≡◌ {A = Result (Checked (Option Bytes)) × World}
              (ok (accepted (some val)), w)
              (ok (accepted p), u)
          → TextWithin limit p
      within none d = tt
      within (some s) d = let same : val ≡ s = cc in rw (← same) (ground arith)

  check_text-TextWithin :
      (resp : HttpResponse) (body : Json) (key : Bytes) (limit : ℕ) (a b : Bytes) (w : World)
      (o : Option Bytes) (v : World)
      → check_text env lease resp body key limit a b w ≡ (ok (accepted o), v)
      → TextWithin limit o
  unfolding check_text
  check_text-TextWithin resp body key limit a b w none v e = tt
  check_text-TextWithin resp body key limit a b w (some s) v e =
      elim (Bool-cases (env.json_contains body key)) [
        | inr absent ↦ cc (rw absent at e)
        | inl there ↦ elim (Bool-cases (env.json_is_string (env.json_at body key))) [
          | inl text ↦
              text_case (env.json_to_text (env.json_at body key)) limit
                (send_error env resp param_too_long b 400) w (rw (there, text) at e)
          | inr other ↦
              absurd
                (rejected_case (send_error env resp param_invalid a 400) w (rw (there, other) at e))
        ]
      ]

  gender_within : (n : ℤ) → gender_ok env lease n ≡ true → GenderWithin (some n)
  gender_within (pos n) e = ground arith
  gender_within (negsuc n) e = cc

  check_gender-GenderWithin :
      (resp : HttpResponse) (body : Json) (w : World) (o : Option ℤ) (v : World)
      → check_gender env lease resp body w ≡ (ok (accepted o), v)
      → GenderWithin o
  unfolding check_gender
  check_gender-GenderWithin resp body w none v e = tt
  check_gender-GenderWithin resp body w (some n) v e =
      elim (Bool-cases (env.json_contains body (codes "gender"))) [
        | inr absent ↦ cc (rw absent at e)
        | inl there ↦
            let j = env.json_at body (codes "gender") in
            elim (Bool-cases (env.json_is_integer j)) [
              | inr other ↦ absurd (
                  rejected_case
                    (send_error env resp param_invalid (codes "gender must be integer") 400) w
                    (rw (there, other) at e))
              | inl integer ↦ elim (Bool-cases (gender_ok env lease (env.json_to_int j))) [
                | inr out ↦ absurd (
                    rejected_case
                      (send_error env resp param_invalid (codes "Gender must be 0,1,2") 400) w
                      (rw (there, integer, out) at e))
                | inl fits ↦
                    let d = rw (there, integer, fits) at e in
                    let same : env.json_to_int j ≡ n = cc in
                    subst (λ k. GenderWithin (some k)) same (gender_within _ fits)
              ]
            ]
      ]

  -- Whatever the body of a profile request holds, an update that is accepted keeps the limits: 64,
  -- 256 and 500 bytes for the texts, and a gender from 0 to 2.
  pub get_update_profile-Within :
      (body : Json) (resp : HttpResponse) (w : World) (u : ProfileUpdate) (v : World)
      → get_update_profile env lease body resp w ≡ (ok (accepted u), v)
      → Within u
  unfolding get_update_profile then_avatar_url then_bio then_gender check_nickname check_avatar_url
      check_bio
  get_update_profile-Within body resp w u v e =
      let (a, w1, ea, e1) =
        and_then-accepted (check_nickname env lease resp body) (then_avatar_url env lease resp body)
          w e in
      let (b, w2, eb, e2) =
        and_then-accepted (check_avatar_url env lease resp body) (then_bio env lease resp body a) w1
          e1 in
      let (c, w3, ec, e3) =
        and_then-accepted (check_bio env lease resp body) (then_gender env lease resp body a b) w2
          e2 in
      let (d, w4, ed, e4) =
        and_then-accepted (check_gender env lease resp body)
          (λ g w'.
            (ok (accepted (record { nickname = a; avatar_url = b; bio = c; gender = g })), w'))
          w3 e3 in
      let same : ◌≡◌ {A = ProfileUpdate}
          (record { nickname = a; avatar_url = b; bio = c; gender = d }) u =
        cc in
      subst Within same (record {
        nickname_fits = check_text-TextWithin resp body _ 64 _ _ w a w1 ea;
        avatar_fits = check_text-TextWithin resp body _ 256 _ _ w1 b w2 eb;
        bio_fits = check_text-TextWithin resp body _ 500 _ _ w2 c w3 ec;
        gender_fits = check_gender-GenderWithin resp body w3 d w4 ed;
      })
