-- ===== src/Profiles/Active.antt =====
-- One profile at most is active: the operations of backend/app/services/icp_profile.py, as the handlers
-- of backend/app/api/v1/icp_profiles.py call them.
use sales_lead_gen.Base.{
  ℕ, suc, ◌+◌, ◌≤◌, ◌<◌, ◌≡◌, refl, sym, ap, ◌∙◌, subst, ◌≢◌, inl, inr, Bool, true, false, not,
  List, [], ◌∷◌, arith, ◌==◌, if◌then◌else◌, ==_iff, Bool-cases, Option-cases, length, select, All,
}
use sales_lead_gen.Discovery.Score.{IcpProfile}
use sales_lead_gen.Profiles.Handlers.{
  Request, create, update, activate, deactivate, delete, if_found, handle, handle_all,
}
use sales_lead_gen.Profiles.{
  ProfileCreate, ProfileUpdate, Profiles, multiple_results, scalar_one_or_none, validate_create,
  validate_update, get_profile, create_profile, update_profile, activate_profile,
  deactivate_profile, delete_profile, update_where, updated, set_active, deactivate_all,
  get_active_icp,
}

abbrev pub ids : List IcpProfile → List ℕ
ids [] = []
ids (r ∷ rs) = r.id ∷ ids rs

abbrev pub Apart : List ℕ → Type 0
Apart [] = Unit
Apart (i ∷ is) = All (λ j. j ≢ i) is × Apart is

abbrev pub active_count : List IcpProfile → ℕ
active_count [] = 0
active_count (r ∷ rs) = (if r.is_active then 1 else 0) + active_count rs

record IsValid (t : Profiles) : Type 0 where
  below : All (λ i. i < t.next_id) (ids t.rows)
  distinct : Apart (ids t.rows)
  single : active_count t.rows ≤ 1

ids-deactivate_all : (rs : List IcpProfile) → ids (deactivate_all rs) ≡ ids rs
unfolding deactivate_all set_active
ids-deactivate_all [] = refl
ids-deactivate_all (r ∷ rs) = ap (λ is. r.id ∷ is) (ids-deactivate_all rs)

active_count-deactivate_all : (rs : List IcpProfile) → active_count (deactivate_all rs) ≡ 0
unfolding deactivate_all set_active
active_count-deactivate_all [] = refl
active_count-deactivate_all (r ∷ rs) = omega (arith, active_count-deactivate_all rs)

module _ (i : ℕ) (f : IcpProfile → IcpProfile) (same_id : (r : IcpProfile) → (f r).id ≡ r.id) where
  ids-update_where : (rs : List IcpProfile) → ids (update_where i f rs) ≡ ids rs
  unfolding update_where
  ids-update_where [] = refl
  ids-update_where (r ∷ rs) = elim (Bool-cases (r.id == i)) [
    | inl e ↦ rw (e, same_id r, ids-update_where rs) refl
    | inr e ↦ rw (e, ids-update_where rs) refl
  ]

  -- An update of a row that is not there.
  update_where-absent :
      (rs : List IcpProfile) → All (λ j. j ≢ i) (ids rs) → update_where i f rs ≡ rs
  unfolding update_where
  update_where-absent [] h = refl
  update_where-absent (r ∷ rs) (n, h) = elim (Bool-cases (r.id == i)) [
    | inl e ↦ ground (arith, ==_iff r.id i, n)
    | inr e ↦ rw (e, update_where-absent rs h) refl
  ]

active_count-update_where :
    (i : ℕ) (f : IcpProfile → IcpProfile) (rs : List IcpProfile)
    → ((r : IcpProfile) → (f r).is_active ≡ true → r.is_active ≡ true)
    → active_count (update_where i f rs) ≤ active_count rs
unfolding update_where
active_count-update_where i f [] h = omega arith
active_count-update_where i f (r ∷ rs) h = ground (arith, active_count-update_where i f rs h, h r)

active_count-activate :
    (i : ℕ) (rs : List IcpProfile)
    → Apart (ids rs)
    → active_count rs ≡ 0
    → active_count (update_where i (set_active true) rs) ≤ 1
unfolding update_where set_active
active_count-activate i [] d h = omega arith
active_count-activate i (r ∷ rs) (n, d) h = elim (Bool-cases (r.id == i)) [
  | inl e ↦
      let same : r.id ≡ i = ground (arith, ==_iff r.id i) in
      let absent = subst (λ x. All (λ j. j ≢ x) (ids rs)) same n in
      rw (e, update_where-absent i (set_active true) (λ _. refl) rs absent) (ground arith)
  | inr e ↦ rw e (ground (arith, active_count-activate i rs d))
]

module _ (q : IcpProfile → Bool) where
  ids-select : (P : ℕ → Type 0) (rs : List IcpProfile) → All P (ids rs) → All P (ids (select q rs))
  ids-select P [] h = tt
  ids-select P (r ∷ rs) (p, h) = elim (Bool-cases (q r)) [
    | inl e ↦ rw e (p, ids-select P rs h)
    | inr e ↦ rw e (ids-select P rs h)
  ]

  select-Distinct : (rs : List IcpProfile) → Apart (ids rs) → Apart (ids (select q rs))
  select-Distinct [] h = tt
  select-Distinct (r ∷ rs) (p, h) = elim (Bool-cases (q r)) [
    | inl e ↦ rw e (ids-select (λ j. j ≢ r.id) rs p, select-Distinct rs h)
    | inr e ↦ rw e (select-Distinct rs h)
  ]

  active_count-select : (rs : List IcpProfile) → active_count (select q rs) ≤ active_count rs
  active_count-select [] = omega arith
  active_count-select (r ∷ rs) = ground (arith, active_count-select rs)

below-suc : (n : ℕ) (is : List ℕ) → All (λ i. i < n) is → All (λ i. i < suc n) is
below-suc n [] h = tt
below-suc n (i ∷ is) (p, h) = (omega (arith, p), below-suc n is h)

below-other : (n : ℕ) (is : List ℕ) → All (λ i. i < n) is → All (λ j. j ≢ n) is
below-other n [] h = tt
below-other n (i ∷ is) (p, h) = ((λ e. omega (arith, p, e)), below-other n is h)

create_profile-IsValid :
    (data' : ProfileCreate) (t : Profiles) → IsValid t → IsValid (create_profile data' t)
unfolding create_profile
create_profile-IsValid data' t v = record {
  below = (omega arith, below-suc t.next_id _ v.below);
  distinct = (below-other t.next_id _ v.below, v.distinct);
  single = omega (arith, v.single);
}

-- A write that keeps the identifiers keeps what is said of them.
same_ids-IsValid :
    (t : Profiles) (rows : List IcpProfile)
    → ids rows ≡ ids t.rows
    → active_count rows ≤ 1
    → IsValid t
    → IsValid (record t { rows = rows })
same_ids-IsValid t rows same single v = record {
  below = subst (λ is. All (λ i. i < t.next_id) is) (sym same) v.below;
  distinct = subst Apart (sym same) v.distinct;
  single = single;
}

update_profile-IsValid :
    (i : ℕ) (u : ProfileUpdate) (t : Profiles) → IsValid t → IsValid (update_profile i u t)
unfolding update_profile updated
update_profile-IsValid i u t v =
    same_ids-IsValid t _ (ids-update_where i (updated u) (λ _. refl) t.rows)
      (omega (arith, active_count-update_where i (updated u) t.rows (λ _ h. h), v.single)) v

deactivate_profile-IsValid : (i : ℕ) (t : Profiles) → IsValid t → IsValid (deactivate_profile i t)
unfolding deactivate_profile set_active
deactivate_profile-IsValid i t v =
    same_ids-IsValid t _ (ids-update_where i (set_active false) (λ _. refl) t.rows)
      (omega (arith, active_count-update_where i (set_active false) t.rows (λ r h. cc), v.single)) v

activate_profile-IsValid : (i : ℕ) (t : Profiles) → IsValid t → IsValid (activate_profile i t)
unfolding activate_profile set_active
activate_profile-IsValid i t v =
    let kept = ids-deactivate_all t.rows in
    same_ids-IsValid t _
      (ids-update_where i (set_active true) (λ _. refl) (deactivate_all t.rows) ∙ kept)
      (active_count-activate i (deactivate_all t.rows) (subst Apart (sym kept) v.distinct)
        (active_count-deactivate_all t.rows))
      v

delete_profile-IsValid : (i : ℕ) (t : Profiles) → IsValid t → IsValid (delete_profile i t)
unfolding delete_profile
delete_profile-IsValid i t v = record {
  below = ids-select _ (λ j. j < t.next_id) t.rows v.below;
  distinct = select-Distinct _ t.rows v.distinct;
  single =
      omega (arith, active_count-select (λ (p : IcpProfile). not (p.id == i)) t.rows, v.single);
}

if_found-IsValid :
    (i : ℕ) (allowed : IcpProfile → Bool) (t after : Profiles)
    → IsValid t
    → IsValid after
    → IsValid (if_found i allowed t after)
unfolding if_found
if_found-IsValid i allowed t after v w = elim (Option-cases (get_profile i t.rows)) [
  | inl e ↦ rw (e, if_found) v
  | inr (p, e) ↦ elim (Bool-cases (allowed p)) [
    | inl a ↦ rw (e, if_found) (rw a w)
    | inr a ↦ rw (e, if_found) (rw a v)
  ]
]

handle-IsValid : (q : Request) (t : Profiles) → IsValid t → IsValid (handle q t)
unfolding handle
handle-IsValid (create data') t v = elim (Bool-cases (validate_create data')) [
  | inl e ↦ rw e (create_profile-IsValid data' t v)
  | inr e ↦ rw e v
]
handle-IsValid (update i u) t v = elim (Bool-cases (validate_update u)) [
  | inl e ↦ rw e (if_found-IsValid i _ t _ v (update_profile-IsValid i u t v))
  | inr e ↦ rw e v
]
handle-IsValid (activate i) t v = if_found-IsValid i _ t _ v (activate_profile-IsValid i t v)
handle-IsValid (deactivate i) t v = if_found-IsValid i _ t _ v (deactivate_profile-IsValid i t v)
handle-IsValid (delete i) t v = if_found-IsValid i _ t _ v (delete_profile-IsValid i t v)

handle_all-IsValid : (qs : List Request) (t : Profiles) → IsValid t → IsValid (handle_all qs t)
unfolding handle_all
handle_all-IsValid [] t v = v
handle_all-IsValid (q ∷ qs) t v = handle_all-IsValid qs (handle q t) (handle-IsValid q t v)

abbrev pub no_profiles : Profiles
no_profiles = record { next_id = 1; rows = [] }

length-actives :
    (rs : List IcpProfile) → length (select (λ (p : IcpProfile). p.is_active) rs) ≡ active_count rs
length-actives [] = refl
length-actives (r ∷ rs) = ground (arith, length-actives rs)

scalar_one_or_none-single :
    (ps : List IcpProfile) → length ps ≤ 1 → scalar_one_or_none ps ≢ multiple_results
scalar_one_or_none-single [] h e = cc
scalar_one_or_none-single (p ∷ []) h e = cc
scalar_one_or_none-single (p ∷ q ∷ ps) h e = omega (arith, h)

-- Whatever requests have been handled since the table was empty, the query for the active profile
-- never finds more than one row, so that it never raises.
pub get_active_icp_single :
    (qs : List Request) → get_active_icp (handle_all qs no_profiles) ≢ multiple_results
unfolding get_active_icp
get_active_icp_single qs =
    let v =
      handle_all-IsValid qs no_profiles
        record { below = tt; distinct = tt; single = omega arith } in
    scalar_one_or_none-single _
      (omega (arith, length-actives (handle_all qs no_profiles).rows, v.single))
