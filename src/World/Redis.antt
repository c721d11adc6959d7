-- ===== src/World/Redis.antt =====
-- What the services rely on of Redis, while it answers: each key holds a text or a set, and a
-- command does to them what its documentation says. Expiry by time is not part of it.
use user_center.Base.{
  ℕ, ◌≡◌, ◌≢◌, ◌⊎◌, inl, inr, List, [], ◌∷◌, Option, none, some, true, Bytes, bytes_eq, bytes_eq→eq,
  bytes_eq_refl, if◌then◌else◌, length, Bool-cases,
}
use user_center.World.{Env, ok}

-- A map with one entry given anew.
abbrev pub put {ℓ} : {A : Type ℓ} → Bytes → A → (Bytes → A) → Bytes → A
put k x f j = if bytes_eq k j then x else f j

pub put_self {ℓ} : {A : Type ℓ} (k : Bytes) (x : A) (f : Bytes → A) → put k x f k ≡ x
put_self k x f = rw (bytes_eq_refl k)

pub put_other {ℓ} : {A : Type ℓ} (k j : Bytes) (x : A) (f : Bytes → A) → k ≢ j → put k x f j ≡ f j
put_other k j x f other = elim (Bool-cases (bytes_eq k j)) [
  | inl same ↦ absurd (other (bytes_eq→eq k j same))
  | inr differ ↦ rw differ
]

pub put-none {ℓ} :
    {A : Type ℓ} (k j : Bytes) (f : Bytes → Option A) → f j ≡ none → put k none f j ≡ none
put-none k j f e = elim (Bool-cases (bytes_eq k j)) [
  | inl same ↦ rw same
  | inr differ ↦ rw differ e
]

abbrev pub Elem : Bytes → List Bytes → Type 0
Elem x [] = ⊥
Elem x (y ∷ ys) = (x ≡ y) ⊎ Elem x ys

module _ (env : Env) where
  open env use {
    World, has_redis, redis_get, redis_setex, redis_sadd, redis_srem, redis_expire, redis_del,
    redis_smembers, rand_bytes, fallback_bytes,
  }

  pub record RedisLaws : Type 0 where
    pub value : World → Bytes → Option Bytes
    pub members : World → Bytes → List Bytes
    pub ready : (w : World) → has_redis w ≡ true
    pub get_law : (k : Bytes) (w : World) → redis_get k w ≡ (ok (value w k), w)
    pub setex_law :
        (k : Bytes) (n : ℕ) (x : Bytes) (w : World)
        → (v : World) × (redis_setex k n x w ≡ (ok tt, v))
          × (value v ≡ put k (some x) (value w))
          × ((j y : Bytes) → j ≢ k → Elem y (members w j) → Elem y (members v j))
    pub sadd_law :
        (k x : Bytes) (w : World)
        → (v : World) × (redis_sadd k x w ≡ (ok tt, v))
          × (value v ≡ value w)
          × Elem x (members v k)
          × ((j y : Bytes) → Elem y (members w j) → Elem y (members v j))
    pub srem_law :
        (k x : Bytes) (w : World)
        → (v : World) × (redis_srem k x w ≡ (ok tt, v)) × (value v ≡ value w)
    pub expire_law :
        (k : Bytes) (n : ℕ) (w : World)
        → (v : World) × (redis_expire k n w ≡ (ok tt, v))
          × (value v ≡ value w)
          × (members v ≡ members w)
    pub del_law :
        (k : Bytes) (w : World)
        → (v : World) × (redis_del k w ≡ (ok tt, v)) × (value v ≡ put k none (value w))
    pub smembers_law : (k : Bytes) (w : World) → redis_smembers k w ≡ (ok (members w k), w)
    pub rand_law :
        (n : ℕ) (w : World)
        → (r : Bytes) × (v : World) × (rand_bytes n w ≡ (ok (some r), v))
          × (length r ≡ n)
          × (value v ≡ value w)
          × (members v ≡ members w)
