-- ===== src/Service/Profile/Cache.antt =====
-- src/service/UserService.cpp: the cache of a user's information beside the database.
use user_center.Base.{
  ◌≡◌, ◌∙◌, refl, sym, ap, subst, List, ◌∷◌, ◌++◌, Option, none, some, Bytes, ℤ, bytes_eq,
}
use user_center.World.{Env, Exn, M, Result, ok, throw, caught, is_sql_error, pure, ◌>>=◌, after_ok}
use user_center.World.Laws.{>>=-eq-ok}
use user_center.World.Redis.{RedisLaws, put_self}
use user_center.Common.ErrorCode.{ErrorCode, success, database_error, user_not_found}
use user_center.Db.Client.{MySqlClient, prepare_statement}
use user_center.Service.Users.{with_statement, connected_client}
use user_center.Service.Profile.{
  ProfileUpdate, refused, cache_key, null_mark, fields_of, drop_cached, upsert, update_on,
  update_profile, upsert_params, upsert_sql, set_clause, get_cached, read_cached, from_cache,
  load_and_remember, get_user_info_json, get_user_info_json_from_db, to_cache, remember,
}

module _ (env : Env) (laws : RedisLaws env)
    (lease : M (env.World) (Option (MySqlClient (env.Handle)))) where
  open env use {World, Handle}
  open laws use {value}

  drop_lem :
      (u : ℤ) (w : World)
      → (v : World) × (drop_cached env lease u w ≡ (ok tt, v)) × (value v (cache_key u) ≡ none)
  unfolding drop_cached
  drop_lem u w =
      let (v, e, val) = laws.del_law (cache_key u) w in
      (
        v,
        rw (laws.ready w, e),
        ap (λ f. f (cache_key u)) val ∙ put_self (cache_key u) none (value w),
      )

  abbrev Cleared : ℤ → M World ErrorCode → Type 0
  Cleared u m = (w : World) (v : World) → m w ≡ (ok success, v) → value v (cache_key u) ≡ none

  Cleared-bind :
      {A : Type 0} (u : ℤ) (m : M World A) (f : A → M World ErrorCode)
      → ((a : A) → Cleared u (f a))
      → Cleared u (m >>= f)
  Cleared-bind u m f each w v e = let (a, w1, _, rest) = >>=-eq-ok m f w e in each a w1 v rest

  Cleared-option :
      {A : Type 0} (u : ℤ) (o : Option A) (use_it : A → M World ErrorCode)
      → ((a : A) → Cleared u (use_it a))
      → Cleared u (elim o [ none ↦ pure database_error | some a ↦ use_it a ])
  Cleared-option u none use_it each w v e = cc
  Cleared-option u (some a) use_it each w v e = each a w v e

  Cleared-caught :
      (u : ℤ) (r : Result ErrorCode × World) (v : World)
      → ((v' : World) → r ≡ (ok success, v') → value v' (cache_key u) ≡ none)
      → caught is_sql_error (pure database_error) r ≡ (ok success, v)
      → value v (cache_key u) ≡ none
  Cleared-caught u (ok code, w) v each e = each v e
  Cleared-caught u (throw Exn.redis_error, w) v each e = cc
  Cleared-caught u (throw Exn.sql_error, w) v each e = cc
  Cleared-caught u (throw Exn.json_parse_error, w) v each e = cc
  Cleared-caught u (throw Exn.json_type_error, w) v each e = cc
  Cleared-caught u (throw Exn.std_error, w) v each e = cc

  dropped_last :
      (u : ℤ) (r : Result (Unit {0}) × World) (w2 v : World)
      → r ≡ (ok tt, w2)
      → after_ok r (λ _. pure success) ≡ (ok success, v)
      → value w2 (cache_key u) ≡ none
      → value v (cache_key u) ≡ none
  dropped_last u (ok x, w) w2 v e f gone =
      let same : w2 ≡ v = cc in subst (λ x. value x (cache_key u) ≡ none) same gone
  dropped_last u (throw x, w) w2 v e f gone = cc

  Cleared-upsert :
      (h : Handle) (sql : Bytes) (u : ℤ) (p : ProfileUpdate)
      → Cleared u (upsert env lease h sql u p)
  unfolding upsert
  Cleared-upsert h sql u p = Cleared-bind u (env.sql_update h sql (upsert_params u p)) _ (λ n w v e.
      let (w2, dropped, gone) = drop_lem u w in
      dropped_last u (drop_cached env lease u w) w2 v dropped e gone)

  Cleared-update_on :
      (c : MySqlClient Handle) (u : ℤ) (p : ProfileUpdate) (f : Bytes) (fs : List Bytes)
      → Cleared u (update_on env lease c u p (f ∷ fs))
  unfolding update_on with_statement
  Cleared-update_on c u p f fs =
      let sql = upsert_sql ++ set_clause (f ∷ fs) in
      Cleared-bind u (prepare_statement env c sql) _ (λ stmt.
        Cleared-option u stmt _
          (λ h w v. Cleared-caught u (upsert env lease h sql u p w) v (Cleared-upsert h sql u p w)))

  -- While Redis answers as documented: an update of at least one field that returns Success leaves no information of the user in the
  -- cache, whatever the database did in between: the next reader asks the database.
  pub update_profile-clears :
      (u : ℤ) (p : ProfileUpdate) (f : Bytes) (fs : List Bytes) (w v : World)
      → fields_of p ≡ f ∷ fs
      → update_profile env lease u p w ≡ (ok success, v)
      → (value v (cache_key u) ≡ none)
        × (get_user_info_json env lease u v ≡ load_and_remember env lease u v)
  unfolding update_profile get_user_info_json from_cache get_cached
  update_profile-clears u p f fs w v some_field e =
      let gone : value v (cache_key u) ≡ none =
        Cleared-bind u (connected_client env lease) _
          (λ conn. Cleared-option u conn _ (λ c.
            subst (λ names. Cleared u (update_on env lease c u p names)) (sym some_field)
              (Cleared-update_on c u p f fs)))
          w v e in
      (gone, rw (laws.ready v, laws.get_law (cache_key u) v, gone) refl)

  -- A user whose entry is the mark of a missing user is answered from the cache.
  null-from_cache :
      (u : ℤ) (w : World)
      → value w (cache_key u) ≡ some null_mark
      → get_user_info_json env lease u w ≡ (ok (refused user_not_found), w)
  unfolding get_user_info_json from_cache get_cached read_cached bytes_eq
  null-from_cache u w e = rw (laws.ready w, laws.get_law (cache_key u) w, e) refl

  -- While Redis answers as documented: when the cache holds nothing of a user and the database has no
  -- such user, the first call answers UserNotFound, and so does the next one, from the cache alone: it
  -- changes nothing and does not ask the database again.
  pub missing-remembered :
      (u : ℤ) (w v : World)
      → value w (cache_key u) ≡ none
      → get_user_info_json_from_db env lease u w ≡ (ok (refused user_not_found), v)
      → (x : World) × (get_user_info_json env lease u w ≡ (ok (refused user_not_found), x))
        × (get_user_info_json env lease u x ≡ (ok (refused user_not_found), x))
  unfolding get_user_info_json from_cache get_cached load_and_remember to_cache remember
  missing-remembered u w v empty absent =
      let (x, marked, val, _) = laws.setex_law (cache_key u) 60 null_mark v in
      (
        x,
        rw (
          laws.ready w,
          laws.get_law (cache_key u) w,
          empty,
          load_and_remember,
          absent,
          to_cache,
          laws.ready v,
          remember,
          marked,
        ),
        null-from_cache u x
            (ap (λ f. f (cache_key u)) val ∙ put_self (cache_key u) (some null_mark) (value v)),
      )
