-- ===== src/Auth.antt =====
-- Tokens: backend/app/core/security.py, core/redis.py and core/deps.py, and the handlers `refresh` and
-- `logout` of backend/app/api/v1/auth.py. The clock counts milliseconds, an expiry is in seconds.
pub mod Blacklist
pub mod Revocation
pub mod Rotation
use sales_lead_gen.Base.{
  ℕ, zero, suc, ◌+◌, ◌-◌, ◌*◌, ◌/◌, ◌%◌, ◌^◌, ◌≤◌, ◌<◌, min, max, String, ◌≡◌, refl, sym, ap, ◌∙◌,
  subst, ◌≢◌, ◌↔◌, ◌⊎◌, inl, inr, Bool, true, false, not, ◌&&◌, ◌||◌, Option, none, some, List, [],
  ◌∷◌, ◌++◌, map, arith, str_eq, eq_iff, ltb, leb, ◌==◌, if◌then◌else◌, ==_iff, Bool-cases,
  Option-cases, is_some, length, length-append, select, any, find, All,
}
use sales_lead_gen.Auth.Blacklist.{Redis, add_token_to_blacklist, is_token_blacklisted}

pub record User : Type 0 where
  pub id : ℕ
  pub role : String
  pub email : String

pub data TokenType : Type 0 where
  access refresh_type other_type : TokenType

abbrev pub is_access : TokenType → Bool
is_access access = true
is_access _ = false

abbrev pub is_refresh : TokenType → Bool
is_refresh refresh_type = true
is_refresh _ = false

-- The claims of a token. A subject is the decimal text of an identifier, which stands for it.
pub record Payload : Type 0 where
  pub sub : Option ℕ
  pub role : String
  pub email : String
  pub token_type : TokenType
  pub jti : Option String
  pub exp : ℕ

-- `decode` is `decode_token`, which calls the library `jose` at the time that is given; the minutes and
-- the days are settings.
pub record Env : Type 0 where
  pub decode : ℕ → String → Option Payload
  pub access_token_expire_minutes : ℕ
  pub refresh_token_expire_days : ℕ
  pub users : List User

pub data Detail : Type 0 where
  invalid_token invalid_token_type token_revoked invalid_payload user_not_found : Detail

-- The two identifiers are those that `uuid4` draws.
unfoldable pub create_access_token : Env → ℕ → String → User → Payload
create_access_token env now uuid user = record {
  sub = some user.id;
  role = user.role;
  email = user.email;
  token_type = access;
  jti = some uuid;
  exp = now / 1000 + 60 * env.access_token_expire_minutes;
}

unfoldable pub create_refresh_token : Env → ℕ → String → User → Payload
create_refresh_token env now uuid user = record {
  sub = some user.id;
  role = user.role;
  email = "";
  token_type = refresh_type;
  jti = some uuid;
  exp = now / 1000 + 86400 * env.refresh_token_expire_days;
}

pub data Current : Type 0 where
  current : User → Current
  refused : Detail → Current

pub data Refreshed : Type 0 where
  issued : Payload → Payload → Refreshed
  unauthorized : Detail → Refreshed

unfoldable pub user_of : List User → Option ℕ → Option User
user_of users none = none
user_of users (some i) = find (λ (u : User). u.id == i) users

abbrev pub is_revoked : ℕ → Redis → Option String → Bool
is_revoked now redis none = false
is_revoked now redis (some jti) =
    if str_eq jti "" then false else is_token_blacklisted now jti redis

-- `if jti: … await add_token_to_blacklist(jti, ttl)`, with `ttl = max(int(exp - time.time()), 1)`
unfoldable pub revoke : ℕ → Payload → Redis → Redis
revoke now p redis = elim p.jti [
  | none ↦ redis
  | some jti ↦
      if str_eq jti ""
      then redis
      else add_token_to_blacklist now jti (max ((1000 * p.exp - now) / 1000) 1) redis
]

abbrev pub missing_user : Option ℕ → Detail
missing_user none = invalid_payload
missing_user (some i) = user_not_found

unfoldable pub get_current_user : Env → ℕ → Redis → String → Current
get_current_user env now redis token = elim (env.decode now token) [
  | none ↦ refused invalid_token
  | some p ↦
      if not (is_access p.token_type)
      then refused invalid_token_type
      else if is_revoked now redis p.jti
      then refused token_revoked
      else elim (user_of env.users p.sub) [
        | none ↦ refused (missing_user p.sub)
        | some user ↦ current user
      ]
]

unfoldable pub refresh : Env → ℕ → String → String → String → Redis → Refreshed × Redis
refresh env now uuid_a uuid_r token redis = elim (env.decode now token) [
  | none ↦ (unauthorized invalid_token, redis)
  | some p ↦
      if not (is_refresh p.token_type)
      then (unauthorized invalid_token_type, redis)
      else if is_revoked now redis p.jti
      then (unauthorized token_revoked, redis)
      else elim (user_of env.users p.sub) [
        | none ↦ (unauthorized user_not_found, redis)
        | some user ↦ (
          issued (create_access_token env now uuid_a user)
              (create_refresh_token env now uuid_r user),
          revoke now p redis,
        )
      ]
]

-- The refresh token in the body of a logout.
unfoldable pub revoke_refresh : Env → ℕ → Option String → Redis → Redis
revoke_refresh env now none redis = redis
revoke_refresh env now (some token) redis =
    if str_eq token "" then redis else elim (env.decode now token) [
      | none ↦ redis
      | some p ↦ if is_refresh p.token_type then revoke now p redis else redis
    ]

unfoldable pub revoke_access : Env → ℕ → String → Redis → Redis
revoke_access env now token redis = elim (env.decode now token) [
  | none ↦ redis
  | some p ↦ revoke now p redis
]

-- `logout`, behind `get_current_user`.
unfoldable pub logout : Env → ℕ → String → Option String → Redis → Current × Redis
logout env now token body redis = elim (get_current_user env now redis token) [
  | refused d ↦ (refused d, redis)
  | current user ↦ (current user, revoke_refresh env now body (revoke_access env now token redis))
]
