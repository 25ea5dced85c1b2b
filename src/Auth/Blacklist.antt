-- ===== src/Auth/Blacklist.antt =====
-- backend/app/core/redis.py: the blacklist of token identifiers, with the Redis commands `SETEX` and
-- `EXISTS`. A key holds until its time to live, in seconds, is over.
use sales_lead_gen.Base.{
  ℕ, ◌+◌, ◌*◌, String, Bool, false, Option, none, some, List, [], ◌∷◌, str_eq, ltb, if◌then◌else◌,
}

-- The keys, the latest first, with the time in milliseconds at which each expires.
abbrev pub Redis : Type 0
Redis = List (String × ℕ)

unfoldable pub expiry : String → Redis → Option ℕ
expiry jti [] = none
expiry jti ((k, e) ∷ redis) = let rest = expiry jti redis in if str_eq k jti then some e else rest

abbrev pub is_alive : ℕ → Option ℕ → Bool
is_alive now none = false
is_alive now (some e) = ltb now e

unfoldable pub add_token_to_blacklist : ℕ → String → ℕ → Redis → Redis
add_token_to_blacklist now jti ttl_seconds redis = (jti, now + 1000 * ttl_seconds) ∷ redis

unfoldable pub is_token_blacklisted : ℕ → String → Redis → Bool
is_token_blacklisted now jti redis = is_alive now (expiry jti redis)
