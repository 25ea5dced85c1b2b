-- ===== src/Dedup/Scan/Complete.antt =====
-- A scan misses no pair of companies: backend/app/services/deduplication.py.
use sales_lead_gen.Base.{
  ℕ, ◌≤◌, String, ◌≡◌, refl, sym, ap, ◌∙◌, subst, inl, inr, Bool, true, false, not, ◌||◌, List, [],
  ◌∷◌, ◌++◌, arith, str_eq, eq_iff, ltb, leb, if◌then◌else◌, ==_iff, Bool-cases, length, select,
  All,
}
use mathlib.Core.List.{append-nil, append_assoc}
use sales_lead_gen.Models.{Company}
use sales_lead_gen.Texts.{
  Texts, normalize_domain, company_name_similarity, name_similarity_threshold,
}
use sales_lead_gen.Dedup.Scan.{
  DuplicateGroupMember, Scan, active_companies, is_grouped, add_to_bucket, domain_buckets,
  company_ids, group_bucket, group_buckets, similar_companies, add_group, group_names, scan,
  scan_duplicates,
}
use sales_lead_gen.Dedup.Scan.Disjoint.{scan-Agrees}
use sales_lead_gen.Dedup.Scan.Counts.{occurrences, member_ids}

abbrev pub has_domain : Texts → String → Company → Bool
has_domain texts k c = str_eq (normalize_domain texts c.domain) k

abbrev pub is_alike : Texts → Company → Company → Bool
is_alike texts a b = leb name_similarity_threshold (company_name_similarity texts a.name b.name)

-- Of each two companies, the earlier first, one is grouped or their names are not alike.
abbrev pub AreUnlike : Texts → List ℕ → List Company → Type 0
AreUnlike texts grouped [] = Unit
AreUnlike texts grouped (a ∷ rest) =
    All
      (λ (b : Company).
        (is_grouped a.id grouped || is_grouped b.id grouped || not (is_alike texts a b)) ≡ true)
      rest
    × AreUnlike texts grouped rest

-- A list has the ids of another.
abbrev Includes : List ℕ → List ℕ → Type 0
Includes is js = (k : ℕ) → is_grouped k js ≡ true → is_grouped k is ≡ true

All-map {ℓ κ} :
    {A : Type ℓ} (P Q : A → Type κ) (xs : List A) → ((x : A) → P x → Q x) → All P xs → All Q xs
All-map P Q [] f h = h
All-map P Q (x ∷ xs) f (p, h) = (f x p, All-map P Q xs f h)

All-select {ℓ κ} :
    {A : Type ℓ} (P : A → Type κ) (p : A → Bool) (xs : List A)
    → ((x : A) → p x ≡ false → P x)
    → All P (select p xs)
    → All P xs
All-select P p [] f h = tt
All-select P p (x ∷ xs) f h = elim (Bool-cases (p x)) [
  | inl chosen ↦
      let (q, k) = (let both : P x × All P (select p xs) = rw chosen at h in both) in
      (q, All-select P p xs f k)
  | inr left ↦ (f x left, All-select P p xs f (rw left at h))
]

All-every {ℓ κ} : {A : Type ℓ} {P : A → Type κ} (xs : List A) → ((x : A) → P x) → All P xs
All-every [] f = tt
All-every (x ∷ xs) f = (f x, All-every xs f)

is_grouped-append :
    (k : ℕ) (is js : List ℕ) → is_grouped k (is ++ js) ≡ is_grouped k is || is_grouped k js
is_grouped-append k [] js = refl
is_grouped-append k (i ∷ is) js = ground (arith, is_grouped-append k is js)

is_grouped_self :
    (cs : List Company) → All (λ (c : Company). is_grouped c.id (company_ids cs) ≡ true) cs
is_grouped_self [] = tt
is_grouped_self (c ∷ cs) = (
  ground (arith, (==_iff c.id c.id).1 refl),
  All-map _ _ cs (λ d h. ground (arith, h)) (is_grouped_self cs),
)

module _ (texts : Texts) where
  group_bucket-Includes :
      (bucket : List Company) (s : Scan) → Includes (group_bucket texts bucket s).0 s.0
  unfolding group_bucket
  group_bucket-Includes [] s k h = h
  group_bucket-Includes (a ∷ []) s k h = h
  group_bucket-Includes (a ∷ b ∷ bs) (grouped, groups) k h =
      ground (arith, h, is_grouped-append k (company_ids bs) grouped)

  group_buckets-Includes :
      (bs : List (String × List Company)) (s : Scan) → Includes (group_buckets texts bs s).0 s.0
  unfolding group_buckets
  group_buckets-Includes [] s k h = h
  group_buckets-Includes ((key, bucket) ∷ bs) s k h =
      group_buckets-Includes bs (group_bucket texts bucket s) k (group_bucket-Includes bucket s k h)

  similar_companies-Includes :
      (a : Company) (bs : List Company) (grouped : List ℕ)
      → Includes (similar_companies texts a bs grouped).0 grouped
  unfolding similar_companies
  similar_companies-Includes a [] grouped k h = h
  similar_companies-Includes a (b ∷ bs) grouped k h = ground (
    arith,
    h,
    similar_companies-Includes a bs grouped k,
    similar_companies-Includes a bs (b.id ∷ grouped) k,
  )

  -- The companies of a list are grouped, or unlike another.
  abbrev AreSorted : Company → List Company → List ℕ → Type 0
  AreSorted a bs grouped =
      All (λ (b : Company). (is_grouped b.id grouped || not (is_alike texts a b)) ≡ true) bs

  similar_companies-AreSorted :
      (a : Company) (bs : List Company) (grouped : List ℕ)
      → AreSorted a bs (similar_companies texts a bs grouped).0
  unfolding similar_companies
  similar_companies-AreSorted a [] grouped = tt
  similar_companies-AreSorted a (b ∷ bs) grouped =
      let all : List ℕ = (similar_companies texts a (b ∷ bs) grouped).0 in
      let skipped = similar_companies texts a bs grouped in
      let added = similar_companies texts a bs (b.id ∷ grouped) in
      elim (Bool-cases (is_grouped b.id grouped)) [
        | inl there ↦
            let same : all ≡ skipped.0 = rw there refl in
            subst (AreSorted a (b ∷ bs)) (sym same) (
              ground (arith, similar_companies-Includes a bs grouped b.id there),
              similar_companies-AreSorted a bs grouped,
            )
        | inr free ↦ elim (Bool-cases (is_alike texts a b)) [
          | inl alike ↦
              let same : all ≡ added.0 = rw (free, alike) refl in
              subst (AreSorted a (b ∷ bs)) (sym same) (
                ground (
                  arith,
                  similar_companies-Includes a bs (b.id ∷ grouped) b.id,
                  (==_iff b.id b.id).1 refl,
                ),
                similar_companies-AreSorted a bs (b.id ∷ grouped),
              )
          | inr unlike ↦
              let same : all ≡ skipped.0 = rw (free, unlike) refl in
              subst (AreSorted a (b ∷ bs)) (sym same)
                (ground (arith, unlike), similar_companies-AreSorted a bs grouped)
        ]
      ]

  add_group-Includes :
      (a : Company) (t : List ℕ × List DuplicateGroupMember)
      (groups : List (List DuplicateGroupMember))
      → Includes (add_group a t groups).0 t.0
  add_group-Includes a (grouped, []) groups k h = h
  add_group-Includes a (grouped, m ∷ ms) groups k h = ground (arith, h)

  group_names-Includes : (cs : List Company) (s : Scan) → Includes (group_names texts cs s).0 s.0
  unfolding group_names
  group_names-Includes [] s k h = h
  group_names-Includes (a ∷ rest) (grouped, groups) k h =
      elim (Bool-cases (is_grouped a.id grouped)) [
        | inl there ↦ rw there (group_names-Includes rest (grouped, groups) k h)
        | inr free ↦
            let t = similar_companies texts a rest grouped in
            rw free (
              group_names-Includes rest (add_group a t groups) k
                (add_group-Includes a t groups k (similar_companies-Includes a rest grouped k h)))
      ]

  AreUnlike-skip :
      (a : Company) (rest : List Company) (grouped : List ℕ)
      → is_grouped a.id grouped ≡ true
      → AreUnlike texts grouped rest
      → AreUnlike texts grouped (a ∷ rest)
  AreUnlike-skip a rest grouped there h = (All-every rest (λ b. ground (arith, there)), h)

  group_names-AreUnlike :
      (cs : List Company) (s : Scan) → AreUnlike texts (group_names texts cs s).0 cs
  unfolding group_names
  group_names-AreUnlike [] s = tt
  group_names-AreUnlike (a ∷ rest) (grouped, groups) =
      let all : List ℕ = (group_names texts (a ∷ rest) (grouped, groups)).0 in
      let t = similar_companies texts a rest grouped in
      let s' = add_group a t groups in
      elim (Bool-cases (is_grouped a.id grouped)) [
        | inl there ↦
            let same : all ≡ (group_names texts rest (grouped, groups)).0 = rw there refl in
            subst (λ g. AreUnlike texts g (a ∷ rest)) (sym same)
              (AreUnlike-skip a rest _ (group_names-Includes rest (grouped, groups) a.id there)
                (group_names-AreUnlike rest (grouped, groups)))
        | inr free ↦
            let same : all ≡ (group_names texts rest s').0 = rw free refl in
            subst (λ g. AreUnlike texts g (a ∷ rest)) (sym same)
              (
                All-map _ _ rest
                    (λ b sorted. ground (
                      arith,
                      sorted,
                      group_names-Includes rest s' b.id,
                      add_group-Includes a t groups b.id,
                    ))
                    (similar_companies-AreSorted a rest grouped),
                group_names-AreUnlike rest s',
              )
      ]

  -- Companies that were left out, being grouped, are unlike others in this sense.
  AreUnlike-select :
      (cs : List Company) (before grouped : List ℕ)
      → Includes grouped before
      → AreUnlike texts grouped (select (λ (c : Company). not (is_grouped c.id before)) cs)
      → AreUnlike texts grouped cs
  AreUnlike-select [] before grouped more h = tt
  AreUnlike-select (a ∷ rest) before grouped more h = elim (Bool-cases (is_grouped a.id before)) [
    | inl there ↦
        AreUnlike-skip a rest grouped (more a.id there)
          (AreUnlike-select rest before grouped more (rw there at h))
    | inr free ↦
        let kept : AreUnlike texts grouped
            (a ∷ select (λ (c : Company). not (is_grouped c.id before)) rest) =
          rw free at h in
        (
          All-select _ (λ (c : Company). not (is_grouped c.id before)) rest
              (λ b left. ground (arith, left, more b.id)) kept.0,
          AreUnlike-select rest before grouped more kept.1,
        )
  ]

-- The bucket of a domain.
abbrev bucket_of : String → List (String × List Company) → List Company
bucket_of k [] = []
bucket_of k (b ∷ bs) = let rest = bucket_of k bs in if str_eq b.0 k then b.1 else rest

bucket_of-add_to_bucket :
    (k norm : String) (c : Company) (bs : List (String × List Company))
    → bucket_of k (add_to_bucket norm c bs)
      ≡ (if str_eq norm k then bucket_of k bs ++ c ∷ [] else bucket_of k bs)
unfolding add_to_bucket
bucket_of-add_to_bucket k norm c [] = ground arith
bucket_of-add_to_bucket k norm c ((key, bucket) ∷ bs) =
    ground
      (arith, bucket_of-add_to_bucket k norm c bs, eq_iff key norm, eq_iff key k, eq_iff norm k)

bucket_of-domain_buckets :
    (texts : Texts) (k : String) (cs : List Company) (bs : List (String × List Company))
    → bucket_of k (domain_buckets texts cs bs) ≡ bucket_of k bs ++ select (has_domain texts k) cs
unfolding domain_buckets
bucket_of-domain_buckets texts k [] bs = sym (append-nil (bucket_of k bs))
bucket_of-domain_buckets texts k (c ∷ cs) bs =
    let norm = normalize_domain texts c.domain in
    let step = bucket_of-domain_buckets texts k cs (add_to_bucket norm c bs) in
    elim (Bool-cases (has_domain texts k c)) [
      | inl here ↦ rw here (
          step
          ∙ ap (λ b. b ++ select (has_domain texts k) cs)
              (bucket_of-add_to_bucket k norm c bs ∙ rw here refl)
          ∙ append_assoc (bucket_of k bs) (c ∷ []) _)
      | inr other ↦ rw other (
          step
          ∙ ap (λ b. b ++ select (has_domain texts k) cs)
              (bucket_of-add_to_bucket k norm c bs ∙ rw other refl))
    ]

-- The companies of a list are grouped.
abbrev pub AreGrouped : List ℕ → List Company → Type 0
AreGrouped grouped cs = All (λ (c : Company). is_grouped c.id grouped ≡ true) cs

group_bucket-AreGrouped :
    (texts : Texts) (bucket : List Company) (s : Scan)
    → 2 ≤ length bucket
    → AreGrouped (group_bucket texts bucket s).0 bucket
unfolding group_bucket
group_bucket-AreGrouped texts [] s h = tt
group_bucket-AreGrouped texts (a ∷ []) s h = (ground (arith, h), tt)
group_bucket-AreGrouped texts (a ∷ b ∷ bs) (grouped, groups) h =
    All-map _ _ (a ∷ b ∷ bs)
      (λ c there. is_grouped-append c.id (company_ids (a ∷ b ∷ bs)) grouped ∙ ground (arith, there))
      (is_grouped_self (a ∷ b ∷ bs))

group_buckets-AreGrouped :
    (texts : Texts) (k : String) (bs : List (String × List Company)) (s : Scan)
    → 2 ≤ length (bucket_of k bs)
    → AreGrouped (group_buckets texts bs s).0 (bucket_of k bs)
unfolding group_buckets
group_buckets-AreGrouped texts k [] s h = tt
group_buckets-AreGrouped texts k ((key, bucket) ∷ bs) s h =
    let s' = group_bucket texts bucket s in
    elim (Bool-cases (str_eq key k)) [
      | inl here ↦ rw here (
          All-map _ _ bucket (λ c. group_buckets-Includes texts bs s' c.id)
            (group_bucket-AreGrouped texts bucket s (rw here at h)))
      | inr other ↦ rw other (group_buckets-AreGrouped texts k bs s' (rw other at h))
    ]

is_grouped-eq-ltb : (k : ℕ) (is : List ℕ) → is_grouped k is ≡ ltb 0 (occurrences k is)
is_grouped-eq-ltb k [] = ground arith
is_grouped-eq-ltb k (i ∷ is) = ground (arith, is_grouped-eq-ltb k is)

AreUnlike-same :
    (texts : Texts) (is js : List ℕ) (cs : List Company)
    → ((k : ℕ) → is_grouped k is ≡ is_grouped k js)
    → AreUnlike texts is cs
    → AreUnlike texts js cs
AreUnlike-same texts is js [] same h = tt
AreUnlike-same texts is js (a ∷ rest) same (p, h) = (
  All-map _ _ rest (λ b q. ground (arith, q, same a.id, same b.id)) p,
  AreUnlike-same texts is js rest same h,
)

-- When the ids of the companies are different: if two companies that are not archived have the same
-- normal domain, all that have it are members of groups, and of each two that are in no group, the
-- one with the lower id first, the names are not alike.
pub scan_duplicates_complete :
    (texts : Texts) (companies : List Company)
    → ((k : ℕ) → occurrences k (company_ids companies) ≤ 1)
    → (let members = member_ids (scan_duplicates texts companies) in
        AreUnlike texts members (active_companies companies)
        × ((domain : String)
            → 2 ≤ length (select (has_domain texts domain) (active_companies companies))
            → AreGrouped members (select (has_domain texts domain) (active_companies companies))))
unfolding scan_duplicates scan
scan_duplicates_complete texts companies unique =
    let active = active_companies companies in
    let buckets = domain_buckets texts active [] in
    let s = group_buckets texts buckets ([], []) in
    let remaining = select (λ (c : Company). not (is_grouped c.id s.0)) active in
    let all = group_names texts remaining s in
    let same : (k : ℕ) → is_grouped k all.0 ≡ is_grouped k (member_ids all.1) = λ k.
      is_grouped-eq-ltb k all.0
      ∙ ap (ltb 0) (scan-Agrees texts companies k (unique k)).0
      ∙ sym (is_grouped-eq-ltb k (member_ids all.1)) in
    (
      AreUnlike-same texts all.0 (member_ids all.1) active same (
          AreUnlike-select texts active s.0 all.0 (group_names-Includes texts remaining s)
            (group_names-AreUnlike texts remaining s)),
      λ domain two.
          let bucket = bucket_of-domain_buckets texts domain active [] in
          let grouped =
            subst (λ (b : List Company). 2 ≤ length b → AreGrouped s.0 b) bucket
              (group_buckets-AreGrouped texts domain buckets ([], [])) two in
          All-map _ _ (select (has_domain texts domain) active)
            (λ c there. sym (same c.id) ∙ group_names-Includes texts remaining s c.id there)
            grouped,
    )
