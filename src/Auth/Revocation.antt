-- ===== src/Auth/Revocation.antt =====
-- How long a revoked identifier stays in the blacklist of backend/app/core/redis.py.
use sales_lead_gen.Base.{
  ℕ, ◌+◌, ◌-◌, ◌*◌, ◌/◌, ◌%◌, ◌≤◌, ◌<◌, max, String, ◌≡◌, refl, ap, ◌∙◌, subst, ◌≢◌, inl, inr, true,
  false, some, arith, str_eq, eq_iff, Bool-cases, Option-cases,
}
use sales_lead_gen.Auth.Blacklist.{Redis, expiry, add_token_to_blacklist, is_token_blacklisted}
use sales_lead_gen.Auth.{Payload, Env, revoke, is_revoked}

-- What the program relies on: a token always carries the same claims, and no two tokens with the same
-- identifier expire at different times.
pub record IsSteady (env : Env) : Type 0 where
  pub same_claims :
      (now now' : ℕ) (t : String) (p p' : Payload)
      → env.decode now t ≡ some p
      → env.decode now' t ≡ some p'
      → p ≡ p'
  pub one_expiry :
      (now now' : ℕ) (t t' : String) (p p' : Payload) (j : String)
      → env.decode now t ≡ some p
      → env.decode now' t' ≡ some p'
      → p.jti ≡ some j
      → p'.jti ≡ some j
      → p.exp ≡ p'.exp

-- The identifier is in the blacklist until less than a second before the time, in seconds.
pub record IsCovered (j : String) (exp : ℕ) (redis : Redis) : Type 0 where
  pub until : ℕ
  pub listed : expiry j redis ≡ some until
  pub late : 1000 * exp < until + 1000

same_text : (j : String) → str_eq j j ≡ true
same_text j = ground (arith, eq_iff j j)

pub revoke-IsCovered :
    (now : ℕ) (p : Payload) (redis : Redis) (j : String)
    → p.jti ≡ some j
    → str_eq j "" ≡ false
    → IsCovered j p.exp (revoke now p redis)
unfolding revoke add_token_to_blacklist expiry
revoke-IsCovered now p redis j id filled = record {
  until = now + 1000 * max ((1000 * p.exp - now) / 1000) 1;
  listed = rw (id, filled, expiry, same_text j) refl;
  late = omega arith;
}

pub revoke-keeps :
    (now : ℕ) (p : Payload) (redis : Redis) (j : String) (exp : ℕ)
    → (p.jti ≡ some j → p.exp ≡ exp)
    → IsCovered j exp redis
    → IsCovered j exp (revoke now p redis)
unfolding revoke add_token_to_blacklist expiry
revoke-keeps now p redis j exp same c = elim (Option-cases p.jti) [
  | inl e ↦ rw e c
  | inr (k, e) ↦ elim (Bool-cases (str_eq k "")) [
    | inl x ↦ rw (e, x) c
    | inr x ↦ elim (Bool-cases (str_eq k j)) [
      | inl y ↦
          let alike : k ≡ j = ground (arith, eq_iff k j) in
          let id : p.jti ≡ some j = e ∙ ap some alike in
          subst (λ until. IsCovered j until (revoke now p redis)) (same id)
            (revoke-IsCovered now p redis j id (subst (λ t. str_eq t "" ≡ false) alike x))
      | inr y ↦
          rw (e, x) record { until = c.until; listed = rw (expiry, y) c.listed; late = c.late }
    ]
  ]
]

pub IsCovered-is_revoked :
    (j : String) (exp now : ℕ) (redis : Redis)
    → str_eq j "" ≡ false
    → now + 1000 ≤ 1000 * exp
    → IsCovered j exp redis
    → is_revoked now redis (some j) ≡ true
unfolding is_token_blacklisted
IsCovered-is_revoked j exp now redis filled early c = rw (filled, c.listed) (ground (arith, c.late))

-- A blacklist entry lasts for whole seconds: if a token is revoked between two whole seconds, more
-- than a second before it expires, there is a time before its expiry at which the blacklist no longer
-- has its identifier.
pub revocation_ends_early :
    (now : ℕ) (p : Payload) (redis : Redis) (j : String)
    → p.jti ≡ some j
    → str_eq j "" ≡ false
    → now % 1000 ≢ 0
    → now + 1000 < 1000 * p.exp
    → (now' : ℕ) × (now < now')
      × (now' < 1000 * p.exp)
      × (is_token_blacklisted now' j (revoke now p redis) ≡ false)
unfolding is_token_blacklisted revoke add_token_to_blacklist expiry
revocation_ends_early now p redis j id filled between early = (
  now + 1000 * max ((1000 * p.exp - now) / 1000) 1,
  omega arith,
  ground (arith, between),
  rw (id, filled, expiry, same_text j) (ground arith),
)
