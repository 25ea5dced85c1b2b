-- ===== src/Auth/Rotation.antt =====
-- What revocation promises: the handlers `refresh` and `logout` of backend/app/api/v1/auth.py, and
-- `get_current_user` of backend/app/core/deps.py.
use sales_lead_gen.Base.{
  ℕ, ◌+◌, ◌*◌, ◌≤◌, String, ◌≡◌, refl, sym, ap, ◌∙◌, ◌⊎◌, inl, inr, Bool, true, false, Option, none,
  some, List, [], ◌∷◌, str_eq, Bool-cases, Option-cases,
}
use mathlib.Core.Bool.{false≢true}
use sales_lead_gen.Auth.Blacklist.{Redis}
use sales_lead_gen.Auth.Revocation.{
  IsSteady, IsCovered, revoke-IsCovered, revoke-keeps, IsCovered-is_revoked,
}
use sales_lead_gen.Auth.{
  Payload, Env, User, revoke, is_revoked, is_access, is_refresh, get_current_user, refresh,
  revoke_refresh, revoke_access, logout, refused, current, issued, unauthorized, Refreshed, Current,
  Detail, user_of,
}

-- A request to one of the two handlers, with what it draws.
pub data Request : Type 0 where
  refresh_request : String → String → String → Request
  logout_request : String → Option String → Request

unfoldable pub after_request : Env → ℕ → Request → Redis → Redis
after_request env now (refresh_request a r token) redis = (refresh env now a r token redis).1
after_request env now (logout_request token body) redis = (logout env now token body redis).1

unfoldable pub after_requests : Env → List (ℕ × Request) → Redis → Redis
after_requests env [] redis = redis
after_requests env ((now, q) ∷ qs) redis = after_requests env qs (after_request env now q redis)

abbrev pub is_issued : Refreshed → Bool
is_issued (issued a r) = true
is_issued (unauthorized d) = false

abbrev pub is_current : Current → Bool
is_current (current u) = true
is_current (refused d) = false

Current-cases : (c : Current) → ((d : Detail) × (c ≡ refused d)) ⊎ ((u : User) × (c ≡ current u))
Current-cases (refused d) = inl (d, refl)
Current-cases (current u) = inr (u, refl)

module _ (env : Env) (steady : IsSteady env) (start : ℕ) (token : String) (p : Payload) (j : String)
    (decoded : env.decode start token ≡ some p) (id : p.jti ≡ some j)
    (filled : str_eq j "" ≡ false) where
  -- A later revocation of any token keeps the entry.
  keeps :
      (now : ℕ) (t : String) (q : Payload) (redis : Redis)
      → env.decode now t ≡ some q
      → IsCovered j p.exp redis
      → IsCovered j p.exp (revoke now q redis)
  keeps now t q redis d =
      revoke-keeps now q redis j p.exp
        (λ same. steady.one_expiry now start t token q p j d decoded same id)

  revoke_access-keeps :
      (now : ℕ) (t : String) (redis : Redis)
      → IsCovered j p.exp redis
      → IsCovered j p.exp (revoke_access env now t redis)
  unfolding revoke_access
  revoke_access-keeps now t redis c = elim (Option-cases (env.decode now t)) [
    | inl e ↦ rw (e, revoke_access) c
    | inr (q, e) ↦ rw (e, revoke_access) (keeps now t q redis e c)
  ]

  revoke_refresh-keeps :
      (now : ℕ) (b : Option String) (redis : Redis)
      → IsCovered j p.exp redis
      → IsCovered j p.exp (revoke_refresh env now b redis)
  unfolding revoke_refresh
  revoke_refresh-keeps now none redis c = c
  revoke_refresh-keeps now (some t) redis c = elim (Bool-cases (str_eq t "")) [
    | inl x ↦ rw x c
    | inr x ↦ elim (Option-cases (env.decode now t)) [
      | inl e ↦ rw (x, e) c
      | inr (q, e) ↦ elim (Bool-cases (is_refresh q.token_type)) [
        | inl y ↦ rw (x, e) (simp y (keeps now t q redis e c))
        | inr y ↦ rw (x, e) (simp y c)
      ]
    ]
  ]

  refresh-keeps :
      (now : ℕ) (a r t : String) (redis : Redis)
      → IsCovered j p.exp redis
      → IsCovered j p.exp (refresh env now a r t redis).1
  unfolding refresh
  refresh-keeps now a r t redis c = elim (Option-cases (env.decode now t)) [
    | inl e ↦ rw (e, refresh) c
    | inr (q, e) ↦ elim (Bool-cases (is_refresh q.token_type)) [
      | inr y ↦ rw (e, refresh) (simp y c)
      | inl y ↦ elim (Bool-cases (is_revoked now redis q.jti)) [
        | inl z ↦ rw (e, refresh) (simp (y, z) c)
        | inr z ↦ elim (Option-cases (user_of env.users q.sub)) [
          | inl u ↦ rw (e, refresh) (simp (y, z, u) c)
          | inr (user, u) ↦ rw (e, refresh) (simp (y, z, u) (keeps now t q redis e c))
        ]
      ]
    ]
  ]

  logout-keeps :
      (now : ℕ) (t : String) (b : Option String) (redis : Redis)
      → IsCovered j p.exp redis
      → IsCovered j p.exp (logout env now t b redis).1
  unfolding logout
  logout-keeps now t b redis c = elim (Current-cases (get_current_user env now redis t)) [
    | inl (d, e) ↦ rw (e, logout) c
    | inr (user, e) ↦
        rw (e, logout) (revoke_refresh-keeps now b _ (revoke_access-keeps now t redis c))
  ]

  after_requests-keeps :
      (qs : List (ℕ × Request)) (redis : Redis)
      → IsCovered j p.exp redis
      → IsCovered j p.exp (after_requests env qs redis)
  unfolding after_requests after_request
  after_requests-keeps [] redis c = c
  after_requests-keeps ((now, refresh_request a r t) ∷ qs) redis c =
      after_requests-keeps qs _ (refresh-keeps now a r t redis c)
  after_requests-keeps ((now, logout_request t b) ∷ qs) redis c =
      after_requests-keeps qs _ (logout-keeps now t b redis c)

  refresh-IsCovered :
      (a r : String) (redis : Redis)
      → is_issued (refresh env start a r token redis).0 ≡ true
      → IsCovered j p.exp (refresh env start a r token redis).1
  unfolding refresh
  refresh-IsCovered a r redis h = elim (Bool-cases (is_refresh p.token_type)) [
    | inr y ↦
        let no : is_issued (refresh env start a r token redis).0 ≡ false =
          rw (decoded, refresh) (simp y refl) in
        elim (false≢true (sym no ∙ h)) [ ]
    | inl y ↦ elim (Bool-cases (is_revoked start redis p.jti)) [
      | inl z ↦
          let no : is_issued (refresh env start a r token redis).0 ≡ false =
            rw (decoded, refresh) (simp (y, z) refl) in
          elim (false≢true (sym no ∙ h)) [ ]
      | inr z ↦ elim (Option-cases (user_of env.users p.sub)) [
        | inl u ↦
            let no : is_issued (refresh env start a r token redis).0 ≡ false =
              rw (decoded, refresh) (simp (y, z, u) refl) in
            elim (false≢true (sym no ∙ h)) [ ]
        | inr (user, u) ↦
            rw (decoded, refresh) (simp (y, z, u) (revoke-IsCovered start p redis j id filled))
      ]
    ]
  ]

  logout-IsCovered :
      (body : Option String) (redis : Redis)
      → is_current (logout env start token body redis).0 ≡ true
      → IsCovered j p.exp (logout env start token body redis).1
  unfolding logout revoke_access
  logout-IsCovered body redis h = elim (Current-cases (get_current_user env start redis token)) [
    | inl (d, e) ↦
        let no : is_current (logout env start token body redis).0 ≡ false = rw (e, logout) refl in
        elim (false≢true (sym no ∙ h)) [ ]
    | inr (user, e) ↦
        rw (e, logout)
          (revoke_refresh-keeps start body _
            (rw (decoded, revoke_access) (revoke-IsCovered start p redis j id filled)))
  ]

  -- While the entry lasts, the token passes neither check.
  covered-is_issued :
      (now : ℕ) (a r : String) (redis : Redis)
      → now + 1000 ≤ 1000 * p.exp
      → IsCovered j p.exp redis
      → is_issued (refresh env now a r token redis).0 ≡ false
  unfolding refresh
  covered-is_issued now a r redis early c = elim (Option-cases (env.decode now token)) [
    | inl e ↦ rw (e, refresh) refl
    | inr (q, e) ↦
        let same : q ≡ p = steady.same_claims now start token q p e decoded in
        let revoked : is_revoked now redis q.jti ≡ true =
          ap (λ (x : Payload). is_revoked now redis x.jti) same
          ∙ ap (is_revoked now redis) id
          ∙ IsCovered-is_revoked j p.exp now redis filled early c in
        elim (Bool-cases (is_refresh q.token_type)) [
          | inl y ↦ rw (e, refresh) (simp (y, revoked) refl)
          | inr y ↦ rw (e, refresh) (simp y refl)
        ]
  ]

  covered-is_current :
      (now : ℕ) (redis : Redis)
      → now + 1000 ≤ 1000 * p.exp
      → IsCovered j p.exp redis
      → is_current (get_current_user env now redis token) ≡ false
  unfolding get_current_user
  covered-is_current now redis early c = elim (Option-cases (env.decode now token)) [
    | inl e ↦ rw (e, get_current_user) refl
    | inr (q, e) ↦
        let same : q ≡ p = steady.same_claims now start token q p e decoded in
        let revoked : is_revoked now redis q.jti ≡ true =
          ap (λ (x : Payload). is_revoked now redis x.jti) same
          ∙ ap (is_revoked now redis) id
          ∙ IsCovered-is_revoked j p.exp now redis filled early c in
        elim (Bool-cases (is_access q.token_type)) [
          | inl y ↦ rw (e, get_current_user) (simp (y, revoked) refl)
          | inr y ↦ rw (e, get_current_user) (simp y refl)
        ]
  ]

  -- If a token always carries the same claims and tokens with one identifier expire at one time, a
  -- refresh token with an identifier works once: after it was exchanged, and whatever requests were
  -- handled since, it is refused until the last second before its expiry.
  pub refresh_once :
      (a r a' r' : String) (redis : Redis)
      → is_issued (refresh env start a r token redis).0 ≡ true
      → (later : List (ℕ × Request)) (now : ℕ) → now + 1000 ≤ 1000 * p.exp
      → is_issued
          (refresh env now a' r' token
            (after_requests env later (refresh env start a r token redis).1)).0
        ≡ false
  refresh_once a r a' r' redis first later now early =
      covered-is_issued now a' r' _ early
        (after_requests-keeps later _ (refresh-IsCovered a r redis first))

  -- If a token always carries the same claims and tokens with one identifier expire at one time, an
  -- access token with an identifier does not outlive a logout: after a logout with it, and whatever
  -- requests were handled since, it is refused until the last second before its expiry.
  pub logout_revokes :
      (body : Option String) (redis : Redis)
      → is_current (logout env start token body redis).0 ≡ true
      → (later : List (ℕ × Request)) (now : ℕ) → now + 1000 ≤ 1000 * p.exp
      → is_current (
          get_current_user env now
            (after_requests env later (logout env start token body redis).1)
            token)
        ≡ false
  logout_revokes body redis first later now early =
      covered-is_current now _ early
        (after_requests-keeps later _ (logout-IsCovered body redis first))
