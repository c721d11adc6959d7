-- ===== src/Service/Users/Transactions.antt =====
-- The transaction of registerUser in src/service/UserService.cpp.
use user_center.Base.{
  ℕ, [], ◌∷◌, ◌≡◌, ◌≢◌, ◌⊎◌, inl, inr, sym, ap, ◌∙◌, Option, none, some, Bool, true, false, Bytes,
  codes, if◌then◌else◌, ltb,
}
use user_center.World.{Env, M, Result, ok, ◌>>=◌, pure, text, uint, after_ok}
use user_center.Service.Uuid.{generate_uuid}
use user_center.World.Laws.{>>=-eq-ok}
use user_center.Common.ErrorCode.{ErrorCode, success, database_error, user_exists}
use user_center.Db.Client.{MySqlClient, execute_update, prepare_statement, get_last_insert_id}
use user_center.Service.Users.{
  rollback, commit, with_statement, insert_profile, insert_user, create_user,
  register_in_transaction, register_on, check_sql, insert_sql, profile_sql, first_row,
}

module _ (env : Env) where
  open env use {
    World, Handle, is_valid, sql_execute, sql_prepare, sql_query, sql_update, bcrypt_hash,
  }

  -- A connection that holds: it answers as valid, and carries out the statements that it is given.
  -- `last` is the statement that was carried out last.
  pub record Holds (c : MySqlClient Handle) (h : Handle) (last : World → Bytes) : Type 0 where
    pub connected : c.connected ≡ true
    pub handle : c.handle ≡ some h
    pub valid : (w : World) → is_valid h w ≡ (ok true, w)
    pub executes :
        (q : Bytes) (w : World)
        → (n : ℕ) × (v : World) × (sql_execute h q w ≡ (ok n, v)) × (last v ≡ q)

  module _ (lease : M World (Option (MySqlClient Handle))) (c : MySqlClient Handle) (h : Handle)
      (last : World → Bytes) (holds : Holds c h last) where
    execute_lem :
        (q : Bytes) (w : World)
        → (n : ℕ) × (v : World) × (execute_update env c q w ≡ (ok (some n), v)) × (last v ≡ q)
    unfolding execute_update
    execute_lem q w =
        let (n, v, e, l) = holds.executes q w in
        (n, v, rw (holds.connected, holds.handle, holds.valid w, e), l)

    -- Where the transaction stands when the function has returned a code.
    abbrev pub Final : ErrorCode → World → Type 0
    Final code w =
        ((code ≡ success) × (last w ≡ codes "COMMIT"))
        ⊎ ((code ≢ success) × (last w ≡ codes "ROLLBACK"))

    abbrev Ends : M World ErrorCode → Type 0
    Ends m = (w : World) (code : ErrorCode) (v : World) → m w ≡ (ok code, v) → Final code v

    Ends-bind :
        {A : Type 0} (m : M World A) (f : A → M World ErrorCode)
        → ((a : A) → Ends (f a))
        → Ends (m >>= f)
    Ends-bind m f each w code v e = let (a, u, _, rest) = >>=-eq-ok m f w e in each a u code v rest

    Ends-if : (b : Bool) {m n : M World ErrorCode} → Ends m → Ends n → Ends (if b then m else n)
    Ends-if true em en = em
    Ends-if false em en = en

    closing :
        (q : Bytes) (code code' : ErrorCode) (w v : World)
        → (execute_update env c q >>= (λ _. pure code)) w ≡ (ok code', v)
        → (code' ≡ code) × (last v ≡ q)
    closing q code code' w v e =
        let (n, u, ran, l) = execute_lem q w in
        let done : ◌≡◌ {A = Result ErrorCode × World} (ok code, u) (ok code', v) =
          sym (ap (λ r. after_ok r (λ _. pure code)) ran) ∙ e in
        (cc, cc)

    Ends-rollback : (code : ErrorCode) → code ≢ success → Ends (rollback env lease c code)
    unfolding rollback
    Ends-rollback code bad w code' v e =
        let (same, l) = closing (codes "ROLLBACK") code code' w v e in
        inr (λ good. bad (sym same ∙ good), l)

    Ends-commit : Ends (commit env lease c)
    unfolding commit
    Ends-commit w code v e = inl (closing (codes "COMMIT") success code w v e)

    Ends-option :
        {A : Type 0} (o : Option A) {failed : M World ErrorCode} {use_it : A → M World ErrorCode}
        → Ends failed
        → ((a : A) → Ends (use_it a))
        → Ends (elim o [ none ↦ failed | some a ↦ use_it a ])
    Ends-option none ef eu = ef
    Ends-option (some a) ef eu = eu a

    Ends-statement :
        (sql : Bytes) (failed : M World ErrorCode) (use_it : Handle → M World ErrorCode)
        → Ends failed
        → ((k : Handle) → Ends (use_it k))
        → Ends (with_statement env lease c sql failed use_it)
    unfolding with_statement
    Ends-statement sql failed use_it ef eu =
        Ends-bind (prepare_statement env c sql) _ (λ stmt. Ends-option stmt ef eu)

    database_rollback : Ends (rollback env lease c database_error)
    database_rollback = Ends-rollback database_error (λ e. cc)

    Ends-insert_profile : (user_id : ℕ) → Ends (insert_profile env lease c user_id)
    unfolding insert_profile
    Ends-insert_profile user_id = Ends-statement profile_sql _ _ database_rollback (λ k.
        Ends-bind (sql_update k profile_sql (uint user_id ∷ [])) _
          (λ n. Ends-if (ltb 0 n) Ends-commit database_rollback))

    Ends-insert_user :
        (uuid username email hash : Bytes) → Ends (insert_user env lease c uuid username email hash)
    unfolding insert_user
    Ends-insert_user uuid username email hash =
        let values = text uuid ∷ text username ∷ text email ∷ text hash ∷ [] in
        Ends-statement insert_sql _ _ database_rollback (λ k.
          Ends-bind (sql_update k insert_sql values) _ (λ n.
            Ends-if (ltb 0 n) (Ends-bind (get_last_insert_id env c) _ Ends-insert_profile)
              database_rollback))

    Ends-create_user :
        (username password email : Bytes) → Ends (create_user env lease c username password email)
    unfolding create_user
    Ends-create_user username password email = Ends-bind (generate_uuid env) _ (λ uuid.
        Ends-bind (bcrypt_hash password 12) _ (λ hash. Ends-insert_user uuid username email hash))

    Ends-register :
        (username password email : Bytes)
        → Ends (register_in_transaction env lease c username password email)
    unfolding register_in_transaction
    Ends-register username password email = Ends-statement check_sql _ _ database_rollback (λ k.
        Ends-bind (sql_query k check_sql (text username ∷ text email ∷ [])) _ (λ rows.
          Ends-option (first_row rows) (Ends-create_user username password email)
            (λ r. Ends-rollback user_exists (λ e. cc))))

    -- A registration that returns has ended its transaction: with COMMIT as the last statement exactly
    -- when it returns Success, with ROLLBACK when it returns any other code. This holds whatever the
    -- database answers to the statements in between, on a connection that holds.
    pub register_ends_transaction :
        (username password email : Bytes) (w : World) (code : ErrorCode) (v : World)
        → register_on env lease c username password email w ≡ (ok code, v)
        → Final code v
    unfolding register_on
    register_ends_transaction username password email w code v e =
        Ends-bind (execute_update env c (codes "START TRANSACTION")) _
          (λ _. Ends-register username password email) w code v e
