-- ===== src/Profiles/Handlers.antt =====
-- The handlers of backend/app/api/v1/icp_profiles.py that change the table of profiles.
use sales_lead_gen.Base.{ℕ, Bool, true, not, none, some, List, [], ◌∷◌, if◌then◌else◌}
use sales_lead_gen.Discovery.Score.{IcpProfile}
use sales_lead_gen.Profiles.{
  ProfileCreate, ProfileUpdate, Profiles, validate_create, validate_update, get_profile,
  create_profile, update_profile, activate_profile, deactivate_profile, delete_profile,
}

-- A request of a client.
pub data Request : Type 0 where
  create : ProfileCreate → Request
  update : ℕ → ProfileUpdate → Request
  activate deactivate delete : ℕ → Request

-- An operation on a profile that is not there is answered with 404, and one that its state forbids
-- with 409.
unfoldable pub if_found : ℕ → (IcpProfile → Bool) → Profiles → Profiles → Profiles
if_found i allowed t after = elim (get_profile i t.rows) [
  | none ↦ t
  | some p ↦ if allowed p then after else t
]

abbrev pub always : IcpProfile → Bool
always p = true

abbrev pub is_inactive : IcpProfile → Bool
is_inactive p = not p.is_active

unfoldable pub handle : Request → Profiles → Profiles
handle (create data') t = if validate_create data' then create_profile data' t else t
handle (update i u) t = if validate_update u then if_found i always t (update_profile i u t) else t
handle (activate i) t = if_found i always t (activate_profile i t)
handle (deactivate i) t = if_found i (λ p. p.is_active) t (deactivate_profile i t)
handle (delete i) t = if_found i is_inactive t (delete_profile i t)

unfoldable pub handle_all : List Request → Profiles → Profiles
handle_all [] t = t
handle_all (q ∷ qs) t = handle_all qs (handle q t)
