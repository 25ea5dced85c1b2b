-- ===== src/Tests/Sessions.antt =====
-- Tokens at concrete inputs.
use sales_lead_gen.Base.{
  ℕ, ◌*◌, ◌<◌, String, ◌≡◌, refl, sym, ◌∙◌, false, Option, none, some, [], ◌∷◌, arith, str_eq,
  if◌then◌else◌,
}
use sales_lead_gen.Auth.{
  Payload, TokenType, Env, access, refresh_type, get_current_user, refresh, logout, revoke, user_of,
}
use sales_lead_gen.Auth.Blacklist.{is_token_blacklisted, expiry}
use sales_lead_gen.Auth.Revocation.{IsSteady, revocation_ends_early}
use sales_lead_gen.Auth.Rotation.{
  refresh_request, logout_request, after_requests, is_issued, is_current, refresh_once,
  logout_revokes,
}

abbrev payload : String → TokenType → Payload
payload jti type = record {
  sub = some 1;
  role = "user";
  email = "";
  token_type = type;
  jti = some jti;
  exp = 100;
}

-- Two tokens: an access token, and a refresh token.
abbrev decode : ℕ → String → Option Payload
decode now t =
    if str_eq t "access"
    then some (payload "j1" access)
    else if str_eq t "refresh"
    then some (payload "j2" refresh_type)
    else none

abbrev env : Env
env = record {
  decode = decode;
  access_token_expire_minutes = 15;
  refresh_token_expire_days = 7;
  users = record { id = 1; role = "user"; email = "a@acme.nl" } ∷ [];
}

one_expiry : (now : ℕ) (t : String) (p : Payload) → decode now t ≡ some p → p.exp ≡ 100
one_expiry now t p h = ground arith

env-IsSteady : IsSteady env
env-IsSteady = record {
  same_claims = λ now now' t p p' d d'. cc;
  one_expiry =
      λ now now' t t' p p' j d d' i i'. one_expiry now t p d ∙ sym (one_expiry now' t' p' d');
}

refresh_once_example :
    is_issued
      (refresh env 60500 "e" "f" "refresh" (
        after_requests env
          ((60200, logout_request "access" (some "refresh")) ∷ [])
          (refresh env 50500 "a" "b" "refresh" []).1)).0
    ≡ false
unfolding refresh user_of is_token_blacklisted expiry
refresh_once_example =
    refresh_once env env-IsSteady 50500 "refresh" (payload "j2" refresh_type) "j2" refl refl refl
      "a" "b" "e" "f" [] refl ((60200, logout_request "access" (some "refresh")) ∷ []) 60500
      (omega arith)

logout_revokes_example :
    is_current (
      get_current_user env 60500
        (after_requests env
          ((60200, refresh_request "a" "b" "refresh") ∷ [])
          (logout env 50500 "access" none []).1)
        "access")
    ≡ false
unfolding logout get_current_user user_of is_token_blacklisted expiry
logout_revokes_example =
    logout_revokes env env-IsSteady 50500 "access" (payload "j1" access) "j1" refl refl refl none []
      refl ((60200, refresh_request "a" "b" "refresh") ∷ []) 60500 (omega arith)

revocation_ends_early_example :
    (now' : ℕ) × (50500 < now')
    × (now' < 1000 * 100)
    × (is_token_blacklisted now' "j2" (revoke 50500 (payload "j2" refresh_type) []) ≡ false)
revocation_ends_early_example =
    revocation_ends_early 50500 (payload "j2" refresh_type) [] "j2" refl refl
      (λ h. omega (arith, h)) (omega arith)
