-- ===== src/Auth/Tokens.antt =====
-- The life of a token of src/auth/TokenManager.cpp: handed out, verified, taken back alone or with
-- all tokens of its user.
use user_center.Base.{
  ℕ, suc, ◌≡◌, ◌≢◌, ◌∙◌, inl, inr, refl, sym, ap, List, [], ◌∷◌, none, some, false, Bytes, length,
  arith, ℤ, negsuc, int_string,
}
use user_center.Base.Decimal.{IsInt, stoi-int_string}
use user_center.World.{Env, ok}
use user_center.World.Redis.{RedisLaws, put, put_self, put_other, put-none, Elem}
use user_center.Http.Response.{is_empty}
use user_center.Auth.{
  get_key, set_key, hex, user_of, random_buffer, generate_token, store_token, create_token, look_up,
  verify_token, drop_token, find_and_drop, remove_token, delete_all, clear_set,
  remove_all_tokens_for_user,
}

abbrev first_byte : Bytes → ℕ
first_byte [] = 0
first_byte (c ∷ s) = c

get_key_injective : (s t : Bytes) → get_key s ≡ get_key t → s ≡ t
unfolding get_key
get_key_injective s t e = cc

get_key-ne-set_key : (s : Bytes) (u : ℤ) → get_key s ≢ set_key u
unfolding get_key set_key
get_key-ne-set_key s u e = omega (arith, ap first_byte e)

user_of_int : {W : Type 0} (u : ℤ) (w : W) → IsInt u → user_of (int_string u) w ≡ (ok u, w)
unfolding user_of
user_of_int u w h = rw (stoi-int_string u h, user_of)

not_empty : (t : Bytes) → t ≢ [] → is_empty t ≡ false
not_empty [] h = absurd (h refl)
not_empty (c ∷ t) h = refl

hex_not_empty : (r : Bytes) (n : ℕ) → length r ≡ suc n → hex r ≢ []
unfolding hex
hex_not_empty [] n e h = omega arith
hex_not_empty (c ∷ r) n e h = cc

module _ (env : Env) (laws : RedisLaws env) where
  open env use {World}
  open laws use {value, members}

  -- Verification reads the key of the token.
  verify_some :
      (t : Bytes) (u : ℤ) (w : World)
      → t ≢ []
      → IsInt u
      → value w (get_key t) ≡ some (int_string u)
      → verify_token env t w ≡ (ok u, w)
  unfolding verify_token look_up
  verify_some t u w h i e =
      rw (laws.ready w, not_empty t h, laws.get_law (get_key t) w, e, user_of_int u w i)

  verify_none :
      (t : Bytes) (w : World)
      → value w (get_key t) ≡ none
      → verify_token env t w ≡ (ok (negsuc 0), w)
  unfolding verify_token look_up
  verify_none [] w e = rw (laws.ready w)
  verify_none (c ∷ t) w e = rw (laws.ready w, laws.get_law (get_key (c ∷ t)) w, e)

  store_lem :
      (u : ℤ) (n : ℕ) (t : Bytes) (w : World)
      → (v : World) × (store_token env u n t w ≡ (ok t, v))
        × (value v ≡ put (get_key t) (some (int_string u)) (value w))
        × Elem t (members v (set_key u))
        × ((j y : Bytes) → j ≢ get_key t → Elem y (members w j) → Elem y (members v j))
  unfolding store_token
  store_lem u n t w =
      let (w1, e1, val1, kept1) = laws.setex_law (get_key t) n (int_string u) w in
      let (w2, e2, val2, there, kept2) = laws.sadd_law (set_key u) t w1 in
      let (w3, e3, val3, mem3) = laws.expire_law (set_key u) n w2 in
      (
        w3,
        rw (e1, e2, e3),
        val3 ∙ val2 ∙ val1,
        rw mem3 there,
        λ j y other held. rw mem3 (kept2 j y (kept1 j y other held)),
      )

  -- While Redis and RAND_bytes answer as documented, a token that is handed out to a user whose id is an
  -- int verifies as that user at once, and stands in the set of the user's tokens.
  pub create-verify :
      (u : ℤ) (n : ℕ) (w : World)
      → IsInt u
      → (t : Bytes) × (v : World) × (create_token env u n w ≡ (ok t, v))
        × (verify_token env t v ≡ (ok u, v))
        × Elem t (members v (set_key u))
  unfolding create_token generate_token random_buffer
  create-verify u n w i =
      let (r, w1, drawn, long, _, _) = laws.rand_law 32 w in
      let t = hex r in
      let (v, stored, val, there, _) = store_lem u n t w1 in
      (
        t,
        v,
        rw (laws.ready w, drawn, stored),
        verify_some t u v (hex_not_empty r 31 long) i
            (ap (λ f. f (get_key t)) val ∙ put_self (get_key t) (some (int_string u)) (value w1)),
        there,
      )

  -- While Redis answers as documented, a non-empty token that stands for a user and is taken back does
  -- not verify any more, and the key of any other token is as it was.
  pub remove-verify :
      (t s : Bytes) (u : ℤ) (w : World)
      → t ≢ []
      → IsInt u
      → value w (get_key t) ≡ some (int_string u)
      → s ≢ t
      → (v : World) × (remove_token env t w ≡ (ok tt, v))
        × (verify_token env t v ≡ (ok (negsuc 0), v))
        × (value v (get_key s) ≡ value w (get_key s))
  unfolding remove_token find_and_drop drop_token
  remove-verify t s u w h i e other =
      let (w1, e1, val1) = laws.srem_law (set_key u) t w in
      let (v, e2, val2) = laws.del_law (get_key t) w1 in
      (
        v,
        rw (laws.ready w, not_empty t h, laws.get_law (get_key t) w, e, user_of_int u w i, e1, e2),
        verify_none t v (ap (λ f. f (get_key t)) val2 ∙ put_self (get_key t) none (value w1)),
        ap (λ f. f (get_key s)) val2
            ∙ put_other (get_key t) (get_key s) none (value w1)
                (λ same. other (get_key_injective s t (sym same)))
            ∙ ap (λ f. f (get_key s)) val1,
      )

  -- The loop over the set: its tokens are gone, and no other text changes.
  delete_all_lem :
      (ts : List Bytes) (w : World)
      → (v : World) × (delete_all env ts w ≡ (ok tt, v))
        × ((t : Bytes) → Elem t ts → value v (get_key t) ≡ none)
        × ((t : Bytes) → value w (get_key t) ≡ none → value v (get_key t) ≡ none)
        × ((t : Bytes) → ¬ Elem t ts → value v (get_key t) ≡ value w (get_key t))
  unfolding delete_all
  delete_all_lem [] w = (w, refl, λ t h. absurd h, λ t e. e, λ t h. refl)
  delete_all_lem (x ∷ ts) w =
      let (w1, e1, val) = laws.del_law (get_key x) w in
      let (v, e2, gone, stays, others) = delete_all_lem ts w1 in
      let x_gone : value w1 (get_key x) ≡ none =
        ap (λ f. f (get_key x)) val ∙ put_self (get_key x) none (value w) in
      (
        v,
        rw (e1, e2),
        λ t m. elim m [ inl e ↦ rw e (stays x x_gone) | inr later ↦ gone t later ],
        λ t e. stays t (ap (λ f. f (get_key t)) val ∙ put-none (get_key x) (get_key t) (value w) e),
        λ t absent.
            others t (λ m. absent (inr m))
            ∙ ap (λ f. f (get_key t)) val
            ∙ put_other (get_key x) (get_key t) none (value w)
                (λ same. absent (inl (get_key_injective t x (sym same)))),
      )

  -- While Redis answers as documented: after all tokens of a user are removed, as a change of password does, no token that the user's set
  -- held verifies any more, and the key of a token outside the set is as it was.
  pub remove_all-verify :
      (u : ℤ) (w : World) (t s : Bytes)
      → Elem t (members w (set_key u))
      → ¬ Elem s (members w (set_key u))
      → (v : World) × (remove_all_tokens_for_user env u w ≡ (ok tt, v))
        × (verify_token env t v ≡ (ok (negsuc 0), v))
        × (value v (get_key s) ≡ value w (get_key s))
  unfolding remove_all_tokens_for_user clear_set
  remove_all-verify u w t s there absent =
      let held = members w (set_key u) in
      let (w1, e1, gone, _, others) = delete_all_lem held w in
      let (v, e2, val) = laws.del_law (set_key u) w1 in
      let same = λ (t : Bytes).
        ap (λ f. f (get_key t)) val
        ∙ put_other (set_key u) (get_key t) none (value w1) (λ e. get_key-ne-set_key t u (sym e)) in
      (
        v,
        rw (laws.ready w, laws.smembers_law (set_key u) w, e1, e2),
        verify_none t v (same t ∙ gone t there),
        same s ∙ others s absent,
      )
