-- ===== src/Discovery/Ranking.antt =====
-- How good a score is: `calculate_icp_score` of backend/app/services/discovery.py.
use sales_lead_gen.Base.{ℕ, zero, suc, ◌≤◌, ◌≡◌, refl, ◌≢◌, ◌↔◌, List, [], ◌∷◌, arith, length, All}
use sales_lead_gen.Texts.{Texts}
use sales_lead_gen.Discovery.Score.{
  IcpProfile, Facts, Criterion, absent, failed, matched, criteria, total_criteria,
  matching_criteria, percentage, calculate_icp_score,
}

matching-le-total : (cs : List Criterion) → matching_criteria cs ≤ total_criteria cs
unfolding matching_criteria total_criteria
matching-le-total [] = omega arith
matching-le-total (absent ∷ cs) = omega (arith, matching-le-total cs)
matching-le-total (failed ∷ cs) = omega (arith, matching-le-total cs)
matching-le-total (matched ∷ cs) = omega (arith, matching-le-total cs)

total-le-length : (cs : List Criterion) → total_criteria cs ≤ length cs
unfolding total_criteria
total-le-length [] = omega arith
total-le-length (absent ∷ cs) = omega (arith, total-le-length cs)
total-le-length (failed ∷ cs) = omega (arith, total-le-length cs)
total-le-length (matched ∷ cs) = omega (arith, total-le-length cs)

-- Whether the criteria that count match all, and one counts.
abbrev pub Perfect : List Criterion → Type 0
Perfect cs = (total_criteria cs ≢ 0) × All (λ c. c ≢ failed) cs

matching-total_iff :
    (cs : List Criterion) → (matching_criteria cs ≡ total_criteria cs) ↔ All (λ c. c ≢ failed) cs
unfolding matching_criteria total_criteria
matching-total_iff [] = ((λ _. tt), λ _. refl)
matching-total_iff (absent ∷ cs) =
    let (to, from) = matching-total_iff cs in
    ((λ h. ((λ e. cc), to (omega arith))), λ (_, h). let same = from h in omega (arith, same))
matching-total_iff (failed ∷ cs) =
    ((λ h. ground (arith, matching-le-total cs)), λ (n, h). ground (arith, n refl))
matching-total_iff (matched ∷ cs) =
    let (to, from) = matching-total_iff cs in
    ((λ h. ((λ e. cc), to (omega arith))), λ (_, h). let same = from h in omega (arith, same))

percentage_le : (m t : ℕ) → m ≤ t → t ≤ 4 → percentage m t ≤ 1000
unfolding percentage
percentage_le m zero h b = omega arith
percentage_le m (suc zero) h b = omega arith
percentage_le m (suc (suc zero)) h b = omega arith
percentage_le m (suc (suc (suc zero))) h b = omega arith
percentage_le m (suc (suc (suc (suc zero)))) h b = omega arith
percentage_le m (suc (suc (suc (suc (suc t))))) h b = omega arith

percentage_full : (m t : ℕ) → m ≤ t → t ≤ 4 → t ≢ 0 → (percentage m t ≡ 1000) ↔ (m ≡ t)
unfolding percentage
percentage_full m zero h b n = ground (arith, n refl)
percentage_full m (suc zero) h b n = ((λ e. omega arith), λ e. omega arith)
percentage_full m (suc (suc zero)) h b n = ((λ e. omega arith), λ e. omega arith)
percentage_full m (suc (suc (suc zero))) h b n = ((λ e. omega arith), λ e. omega arith)
percentage_full m (suc (suc (suc (suc zero)))) h b n = ((λ e. omega arith), λ e. omega arith)
percentage_full m (suc (suc (suc (suc (suc t))))) h b n = ground arith

percentage_none : (m t : ℕ) → t ≡ 0 → percentage m t ≡ 500
unfolding percentage
percentage_none m zero e = refl
percentage_none m (suc t) e = ground arith

four-criteria :
    (texts : Texts) (profile : IcpProfile) (facts : Facts)
    → length (criteria texts profile facts) ≤ 4
unfolding criteria
four-criteria texts profile facts = omega arith

-- A score lies between 0 and 100; it is 50 if no criterion counts, and 100 exactly if a criterion
-- counts and none of those that count fails.
pub calculate_icp_score_bands :
    (texts : Texts) (profile : IcpProfile) (facts : Facts)
    → (calculate_icp_score texts profile facts ≤ 1000)
      × (total_criteria (criteria texts profile facts) ≡ 0
          → calculate_icp_score texts profile facts ≡ 500)
      × ((calculate_icp_score texts profile facts ≡ 1000) ↔ Perfect (criteria texts profile facts))
unfolding calculate_icp_score
calculate_icp_score_bands texts profile facts =
    let cs = criteria texts profile facts in
    let below = matching-le-total cs in
    let four : total_criteria cs ≤ 4 =
      omega (arith, total-le-length cs, four-criteria texts profile facts) in
    let (to, from) = matching-total_iff cs in
    let some_count : percentage (matching_criteria cs) (total_criteria cs) ≡ 1000
        → total_criteria cs ≢ 0 =
      λ h none_counts.
        ground (arith, percentage_none (matching_criteria cs) (total_criteria cs) none_counts) in
    (
      percentage_le _ _ below four,
      percentage_none _ _,
      (
        (λ h.
            let n = some_count h in
            let (equal, _) = percentage_full _ _ below four n in (n, to (equal h))),
        λ (n, h). let (_, full) = percentage_full _ _ below four n in full (from h),
      ),
    )
