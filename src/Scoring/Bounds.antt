-- ===== src/Scoring/Bounds.antt =====
-- The dimensions of a score lie between 0 and 100: backend/app/services/lead_scoring.py.
use sales_lead_gen.Base.{
  ℕ, ◌+◌, ◌*◌, ◌≤◌, ◌≡◌, ap, ◌∙◌, subst, inl, inr, Bool, true, some, List, [], ◌∷◌, arith, ◌==◌,
  Bool-cases, Option-cases, length, select, find, All,
}
use native.Mathlib.Nat.{
  mul-le-mul_right, mul-le-mul_left, mul_assoc, mul_comm, add-mul, div-le_of_le-mul,
  div-lt_iff_lt-mul,
}
use sales_lead_gen.Models.{Signal}
use sales_lead_gen.Texts.{Texts}
use sales_lead_gen.Discovery.Score.{IcpProfile}
use sales_lead_gen.Discovery.Ranking.{calculate_icp_score_bands}
use sales_lead_gen.Scoring.Fractions.{Fraction, whole, ◌⊕◌, times, cap, round}
use sales_lead_gen.Scoring.{
  Env, Tables, ScoredCompany, ScoredContact, is_text, is_verified, is_decision_maker, facts_of,
  calc_icp_fit, calc_signal_strength, calc_contact_quality, calc_recency, verify_score, dm_score,
  weighted, weight_total, is_counted, latest_time, activity_times, scored,
}

abbrev pub IsBelow : ℕ → Fraction → Type 0
IsBelow n f = f.num ≤ n * f.den

IsBelow-plus : (m n : ℕ) (a b : Fraction) → IsBelow m a → IsBelow n b → IsBelow (m + n) (a ⊕ b)
IsBelow-plus m n a b h k =
    let left : a.num * b.den ≤ m * (a.den * b.den) =
      subst (λ x. a.num * b.den ≤ x) (mul_assoc m a.den b.den) (mul-le-mul_right b.den h) in
    let right : b.num * a.den ≤ n * (a.den * b.den) =
      subst (λ x. b.num * a.den ≤ x)
        (mul_assoc n b.den a.den ∙ ap (λ x. n * x) (mul_comm b.den a.den))
        (mul-le-mul_right a.den k) in
    rw (add-mul m n (a.den * b.den)) (omega (arith, left, right))

IsBelow-weighted :
    (a b c d : Fraction)
    → IsBelow 100 a
    → IsBelow 100 b
    → IsBelow 100 c
    → IsBelow 100 d
    → IsBelow 100 (weighted a b c d)
unfolding weighted
IsBelow-weighted a b c d ha hb hc hd = IsBelow-plus 30 70 _ _ (share 30 a ha) (
    IsBelow-plus 35 35 _ _ (share 35 b hb) (IsBelow-plus 20 15 _ _ (share 20 c hc) (share 15 d hd)))
  where
    share : (n : ℕ) (f : Fraction) → IsBelow 100 f → IsBelow n (times n 100 f)
    share n f h = mul-le-mul_left n h

IsBelow-cap : (f : Fraction) → IsBelow 100 (cap 100 f)
unfolding cap
IsBelow-cap f = ground arith

calc_icp_fit-IsBelow :
    (env : Env) (profiles : List IcpProfile) (c : ScoredCompany)
    → IsBelow 100 (calc_icp_fit env profiles c)
unfolding calc_icp_fit
calc_icp_fit-IsBelow env profiles c =
    elim (Option-cases (find (λ (p : IcpProfile). p.is_active) profiles)) [
      | inl unset ↦ rw (unset, calc_icp_fit) (omega arith)
      | inr (profile, active) ↦
          rw (active, calc_icp_fit)
            (ground (arith, (calculate_icp_score_bands env.texts profile (facts_of env c)).0))
    ]

calc_signal_strength-IsBelow :
    (env : Env) (now i : ℕ) (ss : List Signal) → IsBelow 100 (calc_signal_strength env now i ss)
unfolding calc_signal_strength
calc_signal_strength-IsBelow env now i ss =
    elim (Bool-cases (weight_total env now (select (is_counted i) ss) == 0)) [
      | inl weightless ↦ rw weightless (omega arith)
      | inr weighty ↦ rw weighty (IsBelow-cap _)
    ]

calc_recency-IsBelow :
    (now i : ℕ) (ss : List Signal) (cs : List ScoredContact)
    → IsBelow 100 (calc_recency now i ss cs)
unfolding calc_recency
calc_recency-IsBelow now i ss cs = elim (Option-cases (latest_time (activity_times i ss cs))) [
  | inl never ↦ rw (never, calc_recency) (omega arith)
  | inr (latest, e) ↦ rw (e, calc_recency) (omega arith)
]

length-select {ℓ} : {A : Type ℓ} (p : A → Bool) (xs : List A) → length (select p xs) ≤ length xs
length-select p [] = omega arith
length-select p (x ∷ xs) = ground (arith, length-select p xs)

-- A contact whose email is verified has one.
abbrev pub HasEmail : ScoredContact → Type 0
HasEmail c = is_verified c.email_status ≡ true → is_text c.email ≡ true

length-select_verified :
    (cs : List ScoredContact)
    → All HasEmail cs
    → length (select (λ c. is_verified c.email_status) cs)
      ≤ length (select (λ c. is_text c.email) cs)
length-select_verified [] h = omega arith
length-select_verified (c ∷ cs) (p, h) = ground (arith, p, length-select_verified cs h)

IsBelow-part : (m n : ℕ) → m ≤ n → IsBelow 100 (record { num = 100 * m; den = n })
IsBelow-part m n h = omega (arith, h)

verify_score-IsBelow : (m n : ℕ) → m ≤ n → IsBelow 100 (verify_score m n)
unfolding verify_score
verify_score-IsBelow m n h = ground (arith, h)

quarter :
    (a b c d : Fraction)
    → IsBelow 100 a
    → IsBelow 100 b
    → IsBelow 100 c
    → IsBelow 100 d
    → IsBelow 100 (times 1 4 (a ⊕ (b ⊕ (c ⊕ d))))
quarter a b c d ha hb hc hd = omega (
  arith,
  IsBelow-plus 100 300 _ _ ha (IsBelow-plus 100 200 _ _ hb (IsBelow-plus 100 100 _ _ hc hd)),
)

dm_score-IsBelow : (n : ℕ) → IsBelow 100 (whole (dm_score n))
unfolding dm_score
dm_score-IsBelow n = omega arith

calc_contact_quality-IsBelow :
    (texts : Texts) (i : ℕ) (cs : List ScoredContact)
    → All HasEmail (select (λ (c : ScoredContact). c.company_id == i) cs)
    → IsBelow 100 (calc_contact_quality texts i cs)
unfolding calc_contact_quality
calc_contact_quality-IsBelow texts i cs emails =
    let rows = select (λ (c : ScoredContact). c.company_id == i) cs in
    let decision_makers =
      length (select (λ (c : ScoredContact). is_decision_maker texts c.title) rows) in
    elim (Bool-cases (length rows == 0)) [
      | inl empty ↦ rw empty (omega arith)
      | inr there ↦ rw there (
          quarter _ _ _ _ (omega arith)
            (IsBelow-part _ _ (length-select (λ (c : ScoredContact). is_text c.email) rows))
            (verify_score-IsBelow _ _ (length-select_verified rows emails))
            (dm_score-IsBelow decision_makers))
    ]

round-le : (f : Fraction) → IsBelow 100 f → round f ≤ 10000
unfolding round
round-le f h = elim (Bool-cases (f.den == 0)) [
  | inl zero_den ↦ div-le_of_le-mul (2 * f.den) (ground (arith, h, zero_den))
  | inr there ↦ omega (
    arith,
    (div-lt_iff_lt-mul {k = 2 * f.den} {x = 200 * f.num + f.den} {y = 10001}
          (ground (arith, there))).1
        (ground (arith, h, there)),
  )
]

cap_same : (f : Fraction) → IsBelow 100 f → cap 100 f ≡ f
unfolding cap
cap_same f h = ground (arith, h)

-- If no contact of the company is verified without an email, its four dimensions lie between 0 and 100,
-- and so does their weighted sum: the limit to 100 changes nothing, and the scores that are stored are
-- between 0 and 10000 hundredths.
pub scored_bounds :
    (env : Env) (now : ℕ) (t : Tables) (c : ScoredCompany)
    → All HasEmail (select (λ (k : ScoredContact). k.company_id == c.id) t.contacts)
    → (let icp_fit = calc_icp_fit env t.profiles c in
        let signal_strength = calc_signal_strength env now c.id t.signals in
        let contact_quality = calc_contact_quality env.texts c.id t.contacts in
        let recency = calc_recency now c.id t.signals t.contacts in
        let lead_score = round (weighted icp_fit signal_strength contact_quality recency) in
        ((scored env now t c).lead_score ≡ some lead_score)
        × (lead_score ≤ 10000)
        × (round icp_fit ≤ 10000)
        × (round signal_strength ≤ 10000)
        × (round contact_quality ≤ 10000)
        × (round recency ≤ 10000))
unfolding scored
scored_bounds env now t c emails =
    let a = calc_icp_fit-IsBelow env t.profiles c in
    let b = calc_signal_strength-IsBelow env now c.id t.signals in
    let d = calc_contact_quality-IsBelow env.texts c.id t.contacts emails in
    let e = calc_recency-IsBelow now c.id t.signals t.contacts in
    let sum = IsBelow-weighted _ _ _ _ a b d e in
    (
      ap (λ f. some (round f)) (cap_same _ sum),
      round-le _ sum,
      round-le _ a,
      round-le _ b,
      round-le _ d,
      round-le _ e,
    )
