-- ===== src/Scoring/Monitoring.antt =====
-- Which companies are monitored after a scoring: backend/app/services/lead_scoring.py.
use sales_lead_gen.Base.{
  ℕ, suc, ◌+◌, ◌≡◌, refl, sym, ap, ◌∙◌, subst, inl, inr, Bool, true, false, not, ◌&&◌, some, List,
  [], ◌∷◌, map, arith, ◌==◌, Bool-cases, Option-cases, length, select, find,
}
use sales_lead_gen.Models.{is_archived}
use sales_lead_gen.Discovery.Score.{IcpProfile}
use sales_lead_gen.Scoring.Fractions.{round}
use sales_lead_gen.Scoring.{
  any_excluded, calc_icp_fit, Env, Tables, ScoredCompany, scored, load_company, put_company,
  score_company, score_each, score_all,
}

-- What a scoring leaves of a company: its id, its status, the pin, and the flag if it is pinned.
abbrev pub pinned_view : ScoredCompany → ℕ × Bool × Bool
pinned_view c = (c.id, c.monitor_pinned, c.monitor_pinned && c.monitor)

pinned_view-scored :
    (env : Env) (now : ℕ) (t : Tables) (c : ScoredCompany)
    → pinned_view (scored env now t c) ≡ pinned_view c
unfolding scored
pinned_view-scored env now t c = ground arith

id-scored : (env : Env) (now : ℕ) (t : Tables) (c : ScoredCompany) → (scored env now t c).id ≡ c.id
unfolding scored
id-scored env now t c = refl

some-injective {ℓ} : {A : Type ℓ} (x y : A) → some x ≡ some y → x ≡ y
some-injective x y e = cc e

pinned_view-put_company :
    (c c' : ScoredCompany) (cs : List ScoredCompany)
    → c'.id ≡ c.id
    → load_company c.id cs ≡ some c
    → pinned_view c' ≡ pinned_view c
    → map pinned_view (put_company c' cs) ≡ map pinned_view cs
unfolding put_company load_company
pinned_view-put_company c c' [] id found same = refl
pinned_view-put_company c c' (r ∷ rs) id found same = elim (Bool-cases (r.id == c.id)) [
  | inl here ↦
      let test : (r.id == c'.id) ≡ true = ground (arith, here, id) in
      let first : some r ≡ some c = rw here at found in
      rw test
        (ap (λ v. v ∷ map pinned_view rs) (same ∙ ap pinned_view (sym (some-injective r c first))))
  | inr later ↦
      let test : (r.id == c'.id) ≡ false = ground (arith, later, id) in
      rw test (
        ap (λ vs. pinned_view r ∷ vs) (pinned_view-put_company c c' rs id (rw later at found) same))
]

id-load_company :
    (i : ℕ) (cs : List ScoredCompany) (c : ScoredCompany) → load_company i cs ≡ some c → c.id ≡ i
unfolding load_company
id-load_company i [] c found = cc
id-load_company i (r ∷ rs) c found = ground (arith, id-load_company i rs c)

load_company-put_company :
    (i : ℕ) (c' : ScoredCompany) (cs : List ScoredCompany) (c : ScoredCompany)
    → c'.id ≡ i
    → load_company i cs ≡ some c
    → load_company i (put_company c' cs) ≡ some c'
unfolding load_company put_company
load_company-put_company i c' [] c same found = cc
load_company-put_company i c' (r ∷ rs) c same found =
    ground (arith, load_company-put_company i c' rs c same)

score_company-keeps :
    (env : Env) (now i : ℕ) (t : Tables)
    → map pinned_view (score_company env now i t).1.companies ≡ map pinned_view t.companies
unfolding score_company
score_company-keeps env now i t = elim (Option-cases (load_company i t.companies)) [
  | inl gone ↦ rw (gone, score_company) refl
  | inr (c, found) ↦
      rw (found, score_company)
        (pinned_view-put_company c (scored env now t c) t.companies (id-scored env now t c)
          (subst (λ j. load_company j t.companies ≡ some c)
            (sym (id-load_company i t.companies c found)) found)
          (pinned_view-scored env now t c))
]

score_each-keeps :
    (env : Env) (now : ℕ → ℕ) (fails : ℕ → Bool) (is : List ℕ) (n : ℕ) (t : Tables)
    → (let s = score_each env now fails is (n, t) in
        (map pinned_view s.1.companies ≡ map pinned_view t.companies)
        × (s.0 ≡ n + length (select (λ i. not (fails i)) is)))
unfolding score_each
score_each-keeps env now fails [] n t = (refl, omega arith)
score_each-keeps env now fails (i ∷ is) n t = elim (Bool-cases (fails i)) [
  | inl failed ↦ rw failed (score_each-keeps env now fails is n t)
  | inr done ↦
      let t' = (score_company env (now i) i t).1 in
      let (kept, counted) = score_each-keeps env now fails is (suc n) t' in
      rw done (kept ∙ score_company-keeps env (now i) i t, omega (arith, counted))
]

-- The ids of the companies that are not archived.
abbrev pub active_ids : Tables → List ℕ
active_ids t =
    map (λ (c : ScoredCompany). c.id)
      (select (λ (c : ScoredCompany). not (is_archived c.status)) t.companies)

-- A scoring of all companies, whichever of them fail, keeps their order, their ids and their pins, and
-- whether a pinned one is monitored. It counts the companies that are not archived and do not fail.
pub score_all_keeps_pinned :
    (env : Env) (now : ℕ → ℕ) (fails : ℕ → Bool) (t : Tables)
    → (let s = score_all env now fails t in
        (map pinned_view s.1.companies ≡ map pinned_view t.companies)
        × (s.0 ≡ length (select (λ i. not (fails i)) (active_ids t))))
unfolding score_all
score_all_keeps_pinned env now fails t =
    let (kept, counted) = score_each-keeps env now fails (active_ids t) 0 t in
    (kept, omega (arith, counted))

calc_icp_fit-excluded :
    (env : Env) (profiles : List IcpProfile) (c : ScoredCompany) (profile : IcpProfile)
    → find (λ (p : IcpProfile). p.is_active) profiles ≡ some profile
    → any_excluded env.texts profile.negative_filters c.industry ≡ true
    → round (calc_icp_fit env profiles c) ≡ 0
unfolding calc_icp_fit round
calc_icp_fit-excluded env profiles c profile active excluded =
    rw (active, excluded, calc_icp_fit) refl

-- When the industry of a company is one that the active profile excludes, the scoring of the company
-- stores a score of 0 for its fit, and takes it off the monitoring unless it is pinned.
pub score_company_excluded :
    (env : Env) (now i : ℕ) (t : Tables) (c : ScoredCompany) (profile : IcpProfile)
    → load_company i t.companies ≡ some c
    → find (λ (p : IcpProfile). p.is_active) t.profiles ≡ some profile
    → any_excluded env.texts profile.negative_filters c.industry ≡ true
    → (c' : ScoredCompany) × (load_company i (score_company env now i t).1.companies ≡ some c')
      × (c'.icp_score ≡ some 0)
      × (c'.monitor ≡ (c.monitor_pinned && c.monitor))
unfolding scored score_company
score_company_excluded env now i t c profile found active excluded =
    let id = id-load_company i t.companies c found in
    let zero_fit = calc_icp_fit-excluded env t.profiles c profile active excluded in
    (
      scored env now t c,
      rw (found, score_company)
          (load_company-put_company i (scored env now t c) t.companies c
            (id-scored env now t c ∙ id) found),
      ap (λ n. some n) zero_fit,
      ground (arith, zero_fit),
    )
