-- ===== src/Examples/Services.antt =====
-- The services in the toy world.
use user_center.Base.{
  ℕ, ◌≡◌, ◌≢◌, inl, inr, [], ◌∷◌, none, some, Bytes, codes, refl, arith, ap, pos, negsuc,
  int_string, bytes_eq, ◌-◌,
}
use user_center.Service.Users.{
  connected_client, with_statement, register_on, register_in_transaction, create_user, insert_user,
  insert_profile, commit,
}
use user_center.Service.Profile.{
  get_user_info_json_from_db, info_on, ProfileUpdate, refused, cache_key, null_mark, fields_of,
  update_profile, get_user_info_json, load_and_remember,
}
use user_center.Db.Client.{prepare_statement, execute_update, get_last_insert_id}
use user_center.World.{ok}
use user_center.World.Redis.{put, put_self, Elem}
use user_center.Common.ErrorCode.{success, token_missing, token_invalid, user_not_found}
use user_center.Common.ResponseHelper.{send_error_status}
use user_center.Http.Request.{
  HttpRequest, Method, empty_request, add_header, find_header, put_header,
}
use user_center.Http.Response.{new_response, set_status_code}
use user_center.Auth.{
  get_key, set_key, create_token, verify_token, remove_token, remove_all_tokens_for_user, look_up,
}
use user_center.Auth.Tokens.{create-verify, remove-verify, remove_all-verify}
use user_center.Service.Uuid.{generate_uuid}
use user_center.Service.Users.Transactions.{Final, register_ends_transaction}
use user_center.Service.Profile.Cache.{update_profile-clears, missing-remembered}
use user_center.Service.Handlers.{bearer_token}
use user_center.Service.Handlers.Updates.{
  accepted, get_update_profile, check_nickname, check_text, check_avatar_url, check_bio,
  check_gender, then_avatar_url, then_bio, then_gender,
}
use user_center.Service.Handlers.Guards.{
  info, handle, handle_no_token, handle_bad_token, Within, get_update_profile-Within,
}
use user_center.Common.RateLimiter.Window.{passed, passed-limit}
use Prim.Native.Nat.{min}
use user_center.Examples.ToyWorld.{
  toy_counts, ToyState, toy, toy_laws, empty_world, client, lease, client_holds,
}

create-verify_example :
    (t : Bytes) × (v : ToyState) × (create_token toy (pos 7) 3600 empty_world ≡ (ok t, v))
    × (verify_token toy t v ≡ (ok (pos 7), v))
    × Elem t (v.sets (set_key (pos 7)))
create-verify_example = create-verify toy toy_laws (pos 7) 3600 empty_world (omega arith)

-- User 7 with the token `ab`, which the store and the user's set hold.
abbrev one_token : ToyState
one_token = record empty_world {
  values = put (get_key (codes "ab")) (some (int_string (pos 7))) (λ k. none);
  sets = λ k. codes "ab" ∷ [];
}

abbrev first_byte : Bytes → ℕ
first_byte [] = 0
first_byte (c ∷ s) = c

cd-ne-ab : codes "cd" ≢ codes "ab"
cd-ne-ab e = omega (arith, ap first_byte e)

remove-verify_example :
    (v : ToyState) × (remove_token toy (codes "ab") one_token ≡ (ok tt, v))
    × (verify_token toy (codes "ab") v ≡ (ok (negsuc 0), v))
    × (v.values (get_key (codes "cd")) ≡ one_token.values (get_key (codes "cd")))
remove-verify_example =
    remove-verify toy toy_laws (codes "ab") (codes "cd") (pos 7) one_token (λ e. cc) (omega arith)
      (put_self (get_key (codes "ab")) (some (int_string (pos 7))) (λ k. none)) cd-ne-ab

remove_all-verify_example :
    (v : ToyState) × (remove_all_tokens_for_user toy (pos 7) one_token ≡ (ok tt, v))
    × (verify_token toy (codes "ab") v ≡ (ok (negsuc 0), v))
    × (v.values (get_key (codes "cd")) ≡ one_token.values (get_key (codes "cd")))
remove_all-verify_example =
    remove_all-verify toy toy_laws (pos 7) one_token (codes "ab") (codes "cd") (inl refl)
      (λ m. elim m [ inl e ↦ cd-ne-ab e | inr later ↦ later ])

-- A registration that goes through.
abbrev registered : ToyState
registered = record empty_world { last_sql = codes "COMMIT" }

registers :
    register_on toy lease client (codes "ann") (codes "secret") (codes "a@b") empty_world
    ≡ (ok success, registered)
unfolding register_on execute_update register_in_transaction with_statement create_user
    generate_uuid insert_user get_last_insert_id insert_profile commit
registers = refl

register_ends_transaction_example :
    Final toy lease client tt (λ w. w.last_sql) client_holds success registered
register_ends_transaction_example =
    register_ends_transaction toy lease client tt (λ w. w.last_sql) client_holds (codes "ann")
      (codes "secret") (codes "a@b") empty_world success registered registers

-- `GET` without a token, and with one that nobody was given.
abbrev get_request : HttpRequest
get_request = record empty_request { method = Method.get }

abbrev stranger : HttpRequest
stranger = add_header (codes "Authorization") (codes "Bearer ab") get_request

no_token : bearer_token get_request ≡ []
unfolding bearer_token find_header bytes_eq
no_token = refl

some_token : bearer_token stranger ≡ codes "ab"
unfolding bearer_token find_header add_header put_header bytes_eq
some_token = refl

unknown : verify_token toy (codes "ab") empty_world ≡ (ok (negsuc 0), empty_world)
unfolding verify_token look_up
unknown = refl

handle_no_token_example :
    handle toy lease info get_request new_response empty_world
    ≡ send_error_status toy (set_status_code 401 new_response) token_missing 401 empty_world
handle_no_token_example =
    handle_no_token toy lease info get_request new_response empty_world refl no_token

handle_bad_token_example :
    handle toy lease info stranger new_response empty_world
    ≡ send_error_status toy new_response token_invalid 401 empty_world
unfolding add_header
handle_bad_token_example =
    handle_bad_token toy lease info stranger new_response empty_world empty_world (negsuc 0) refl
      (rw some_token refl) (rw some_token unknown) refl

-- A profile request that sets the nickname.
abbrev nickname_update : ProfileUpdate
nickname_update = record {
  nickname = some (codes "Ann");
  avatar_url = none;
  bio = none;
  gender = none;
}

accepts :
    get_update_profile toy lease (codes "Ann") new_response empty_world
    ≡ (ok (accepted nickname_update), empty_world)
unfolding get_update_profile check_nickname check_text bytes_eq then_avatar_url check_avatar_url
    then_bio check_bio then_gender check_gender
accepts = refl

get_update_profile-Within_example : Within toy lease nickname_update
get_update_profile-Within_example =
    get_update_profile-Within toy lease (codes "Ann") new_response empty_world nickname_update
      empty_world accepts

-- User 7's information is in the cache before the update.
abbrev cached : ToyState
cached = record empty_world { values = put (cache_key (pos 7)) (some null_mark) (λ k. none) }

abbrev cleared : ToyState
cleared = record cached {
  values = put (cache_key (pos 7)) none cached.values;
  sets = put (cache_key (pos 7)) [] cached.sets;
}

one_field : fields_of nickname_update ≡ codes "nickname" ∷ []
unfolding fields_of
one_field = refl

updates : update_profile toy lease (pos 7) nickname_update cached ≡ (ok success, cleared)
unfolding update_profile
updates = refl

update_profile-clears_example :
    (cleared.values (cache_key (pos 7)) ≡ none)
    × (get_user_info_json toy lease (pos 7) cleared ≡ load_and_remember toy lease (pos 7) cleared)
update_profile-clears_example =
    update_profile-clears toy toy_laws lease (pos 7) nickname_update (codes "nickname") [] cached
      cleared one_field updates

absent :
    get_user_info_json_from_db toy lease (pos 7) empty_world
    ≡ (ok (refused user_not_found), empty_world)
unfolding get_user_info_json_from_db connected_client info_on with_statement prepare_statement
absent = refl

missing-remembered_example :
    (x : ToyState) × (get_user_info_json toy lease (pos 7) empty_world
      ≡ (ok (refused user_not_found), x))
    × (get_user_info_json toy lease (pos 7) x ≡ (ok (refused user_not_found), x))
missing-remembered_example =
    missing-remembered toy toy_laws lease (pos 7) empty_world empty_world refl absent

-- Five requests of one client under a limit of three.
passed-limit_example :
    (v : ToyState) × (passed toy toy_counts (codes "ip") 3 60 5 empty_world
      ≡ (ok (min 5 (3 - 0)), v))
passed-limit_example = passed-limit toy toy_counts (codes "ip") 3 60 5 empty_world
