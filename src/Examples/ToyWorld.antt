-- ===== src/Examples/ToyWorld.antt =====
-- A world in which the services can run: a key-value store, a database that accepts every statement
-- and finds no row, and a JSON library whose values are texts.
use user_center.Base.{
  ℕ, suc, List, [], ◌∷◌, Option, none, some, true, false, Bytes, codes, bytes_eq, if◌then◌else◌,
  replicate, refl, pos, length-replicate, Bool-cases, inl, inr, bytes_eq_refl,
}
use user_center.World.{Env, Result, ok}
use user_center.World.Redis.{RedisLaws, put, put_self, Elem}
use user_center.Common.RateLimiter.Window.{CountLaws}
use user_center.Db.Client.{MySqlClient}
use user_center.Service.Users.Transactions.{Holds}

pub record ToyState : Type 0 where
  pub values : Bytes → Option Bytes
  pub sets : Bytes → List Bytes
  pub counts : Bytes → ℕ
  pub last_sql : Bytes

abbrev pub without : Bytes → List Bytes → List Bytes
without x [] = []
without x (y ∷ ys) = let rest = without x ys in if bytes_eq x y then rest else y ∷ rest

abbrev pub added : Bytes → Bytes → ToyState → Bytes → List Bytes
added k x w j = if bytes_eq k j then x ∷ w.sets j else w.sets j

abbrev pub removed : Bytes → Bytes → ToyState → Bytes → List Bytes
removed k x w j = if bytes_eq k j then without x (w.sets j) else w.sets j

abbrev pub toy : Env
toy = record {
  World = ToyState;
  has_redis = λ w. true;
  redis_get = λ k w. (ok (w.values k), w);
  redis_setex = λ k n x w. (ok tt, record w { values = put k (some x) w.values });
  redis_sadd = λ k x w. (ok tt, record w { sets = added k x w });
  redis_srem = λ k x w. (ok tt, record w { sets = removed k x w });
  redis_expire = λ k n w. (ok tt, w);
  redis_del = λ k w. (ok tt, record w { values = put k none w.values; sets = put k [] w.sets });
  redis_smembers = λ k w. (ok (w.sets k), w);
  redis_incr =
      λ k w. (ok (suc (w.counts k)), record w { counts = put k (suc (w.counts k)) w.counts });
  Handle = Unit;
  Row = Unit;
  is_valid = λ h w. (ok true, w);
  sql_execute = λ h q w. (ok 0, record w { last_sql = q });
  sql_select = λ h q w. (ok (tt ∷ []), w);
  sql_prepare = λ h q w. (ok tt, w);
  sql_query = λ h q ps w. (ok (some []), w);
  sql_update = λ h q ps w. (ok 1, w);
  row_int = λ r c. pos 0;
  row_text = λ r c. [];
  row_is_null = λ r c. true;
  row_uint = λ r i. 1;
  bcrypt_hash = λ p cost w. (ok (codes "hash"), w);
  bcrypt_check = λ p h w. (ok true, w);
  rand_bytes = λ n w. (ok (some (replicate n 7)), w);
  fallback_bytes = λ n w. (ok (replicate n 9), w);
  random_below = λ n w. (ok 0, w);
  Json = Bytes;
  json_parse = λ s. some s;
  json_dump = λ j. ok j;
  json_contains = λ j k. bytes_eq k (codes "nickname");
  json_at = λ j k. j;
  json_is_string = λ j. true;
  json_is_integer = λ j. false;
  json_to_text = λ j. ok j;
  json_to_int = λ j. pos 0;
  json_value_text = λ j k d. ok d;
  json_text = λ s. s;
  json_int = λ n. codes "0";
  json_object = λ fs. codes "{}";
  json_empty = λ j. false;
}

abbrev pub empty_world : ToyState
empty_world = record { values = λ k. none; sets = λ k. []; counts = λ k. 0; last_sql = [] }

pub added-Elem :
    (k x : Bytes) (w : ToyState) (j y : Bytes) → Elem y (w.sets j) → Elem y (added k x w j)
added-Elem k x w j y h = elim (Bool-cases (bytes_eq k j)) [ inl e ↦ rw e (inr h) | inr e ↦ rw e h ]

pub added_self : (k x : Bytes) (w : ToyState) → Elem x (added k x w k)
added_self k x w = rw (bytes_eq_refl k) (inl refl)

abbrev pub toy_laws : RedisLaws toy
toy_laws = record {
  value = λ w. w.values;
  members = λ w. w.sets;
  ready = λ w. refl;
  get_law = λ k w. refl;
  setex_law =
      λ k n x w. (record w { values = put k (some x) w.values }, refl, refl, λ j y other h. h);
  sadd_law =
      λ k x w. (record w { sets = added k x w }, refl, refl, added_self k x w, added-Elem k x w);
  srem_law = λ k x w. (record w { sets = removed k x w }, refl, refl);
  expire_law = λ k n w. (w, refl, refl, refl);
  del_law = λ k w. (record w { values = put k none w.values; sets = put k [] w.sets }, refl, refl);
  smembers_law = λ k w. refl;
  rand_law = λ n w. (replicate n 7, w, refl, length-replicate n 7, refl, refl);
}

abbrev pub client : MySqlClient Unit
client = record { connected = true; handle = some tt }

abbrev pub lease : ToyState → Result (Option (MySqlClient Unit)) × ToyState
lease w = (ok (some client), w)

pub client_holds : Holds toy client tt (λ w. w.last_sql)
client_holds = record {
  connected = refl;
  handle = refl;
  valid = λ w. refl;
  executes = λ q w. (0, record w { last_sql = q }, refl, refl);
}

abbrev pub toy_counts : CountLaws toy
toy_counts = record {
  count = λ w. w.counts;
  ready = λ w. refl;
  incr_law = λ k w. (
    record w { counts = put k (suc (w.counts k)) w.counts },
    refl,
    put_self k (suc (w.counts k)) w.counts,
  );
  expire_law = λ k n w. (w, refl, refl);
}
