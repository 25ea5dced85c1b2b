-- ===== src/Dedup/Merge.antt =====
-- What a merge promises.
use sales_lead_gen.Base.{
  ℕ, String, ◌≡◌, refl, sym, subst, ◌≢◌, ◌↔◌, ◌⊎◌, inl, inr, true, ◌||◌, Option, none, List, [],
  ◌∷◌, arith, ◌==◌, ==_iff, Bool-cases, Option-cases, select, All,
}
use sales_lead_gen.Models.{Company, Contact, Signal, ScrapeJob, EnrichmentJob, company_by_id}
use sales_lead_gen.Dedup.Keys.{IsDistinct}
use sales_lead_gen.Dedup.Rows.{contains, keys_of, reassign}
use sales_lead_gen.Dedup.Reassign.{
  reassign-leaves_none, reassign-others, reassign-keeps, reassign-gains, reassign-IsDistinct,
}
use sales_lead_gen.Dedup.{
  Tables, merged, raised, MergeError, same_company, primary_not_found, duplicate_not_found,
  email_key, hash_key, contact_owner, signal_owner, move_contact, move_signal, merge_contacts,
  merge_signals, merge_scrape_jobs, delete_company, cascade_enrichment_jobs, merge_tables,
  merge_companies,
}

-- The emails of a company's contacts, and the hashes of its signals, as a merge compares them.
abbrev pub emails_of : (String → String) → ℕ → Tables → List String
emails_of lower i t = keys_of contact_owner (email_key lower) i t.contacts

abbrev pub hashes_of : ℕ → Tables → List String
hashes_of i t = keys_of signal_owner hash_key i t.signals

key-move_contact :
    (lower : String → String) (i : ℕ) (c : Contact)
    → email_key lower (move_contact i c) ≡ email_key lower c
unfolding email_key move_contact
key-move_contact lower i c = refl

key-move_signal : (i : ℕ) (s : Signal) → hash_key (move_signal i s) ≡ hash_key s
unfolding hash_key move_signal
key-move_signal i s = refl

owner-move_contact : (i : ℕ) (c : Contact) → contact_owner (move_contact i c) ≡ i
unfolding move_contact
owner-move_contact i c = refl

owner-move_signal : (i : ℕ) (s : Signal) → signal_owner (move_signal i s) ≡ i
unfolding move_signal
owner-move_signal i s = refl

-- No row of a table refers to the company.
pub record IsGone (i : ℕ) (t : Tables) : Type 0 where
  pub no_company : All (λ c. c.id ≢ i) t.companies
  pub no_contact : All (λ c. c.company_id ≢ i) t.contacts
  pub no_signal : All (λ s. s.company_id ≢ i) t.signals
  pub no_scrape_job : All (λ j. j.company_id ≢ i) t.scrape_jobs
  pub no_enrichment_job : All (λ j. j.company_id ≢ i) t.enrichment_jobs

delete_company-leaves_none :
    (d : ℕ) (cs : List Company) → All (λ (c : Company). c.id ≢ d) (delete_company d cs)
unfolding delete_company
delete_company-leaves_none d [] = tt
delete_company-leaves_none d (c ∷ cs) = elim (Bool-cases (c.id == d)) [
  | inl e ↦ rw e (delete_company-leaves_none d cs)
  | inr e ↦ rw e ((λ h. ground (arith, ==_iff c.id d)), delete_company-leaves_none d cs)
]

cascade-leaves_none :
    (d : ℕ) (js : List EnrichmentJob)
    → All (λ (j : EnrichmentJob). j.company_id ≢ d) (cascade_enrichment_jobs d js)
unfolding cascade_enrichment_jobs
cascade-leaves_none d [] = tt
cascade-leaves_none d (j ∷ js) = elim (Bool-cases (j.company_id == d)) [
  | inl e ↦ rw e (cascade-leaves_none d js)
  | inr e ↦ rw e ((λ h. ground (arith, ==_iff j.company_id d)), cascade-leaves_none d js)
]

merge_scrape_jobs-leaves_none :
    (p d : ℕ) (js : List ScrapeJob)
    → p ≢ d
    → All (λ (j : ScrapeJob). j.company_id ≢ d) (merge_scrape_jobs p d js)
unfolding merge_scrape_jobs
merge_scrape_jobs-leaves_none p d [] apart = tt
merge_scrape_jobs-leaves_none p d (j ∷ js) apart = elim (Bool-cases (j.company_id == d)) [
  | inl e ↦ rw e (apart, merge_scrape_jobs-leaves_none p d js apart)
  | inr e ↦
      rw e
        ((λ h. ground (arith, ==_iff j.company_id d)), merge_scrape_jobs-leaves_none p d js apart)
]

merge_tables-IsGone :
    (lower : String → String) (p d : ℕ) (t : Tables) → p ≢ d → IsGone d (merge_tables lower p d t)
unfolding merge_tables merge_contacts merge_signals
merge_tables-IsGone lower p d t apart = record {
  no_company = delete_company-leaves_none d t.companies;
  no_contact =
      reassign-leaves_none contact_owner move_contact (email_key lower) owner-move_contact
        (key-move_contact lower) p d apart _ t.contacts;
  no_signal =
      reassign-leaves_none signal_owner move_signal hash_key owner-move_signal key-move_signal p d
        apart _ t.signals;
  no_scrape_job = merge_scrape_jobs-leaves_none p d t.scrape_jobs apart;
  no_enrichment_job = cascade-leaves_none d t.enrichment_jobs;
}

module _ {R : Type 0} (owner : R → ℕ) (move : ℕ → R → R) (key : R → Option String)
    (owner-move : (i : ℕ) (r : R) → owner (move i r) ≡ i)
    (key-move : (i : ℕ) (r : R) → key (move i r) ≡ key r) (p d : ℕ) (apart : p ≢ d) (k : String)
    (rs : List R) where
  reassign-keeps_both :
      (contains k (keys_of owner key p rs) || contains k (keys_of owner key d rs)) ≡ true
      → contains k (keys_of owner key p (reassign owner move key p d (keys_of owner key p rs) rs))
        ≡ true
  reassign-keeps_both h = elim (Bool-cases (contains k (keys_of owner key p rs))) [
    | inl own ↦ reassign-keeps owner move key owner-move key-move p d apart k _ rs own
    | inr not_own ↦
        elim (reassign-gains owner move key owner-move key-move p d apart k (keys_of owner key p rs)
          rs (rw not_own at h)) [
            | inl moved ↦ moved
            | inr own ↦ reassign-keeps owner move key owner-move key-move p d apart k _ rs own
          ]
  ]

module _ (lower : String → String) (p d : ℕ) (t : Tables) where
  -- A merge is refused, before anything is written, exactly if the two companies are one or either
  -- of them is missing.
  pub merge_refused :
      ((e : MergeError) × (merge_companies lower p d t ≡ raised e))
      ↔ ((p ≡ d) ⊎ (company_by_id p t.companies ≡ none) ⊎ (company_by_id d t.companies ≡ none))
  unfolding merge_companies
  merge_refused = elim (Bool-cases (p == d)) [
    | inl e ↦ (λ _. inl (ground (arith, ==_iff p d)), λ _. rw e (same_company, refl))
    | inr e ↦ elim (Option-cases (company_by_id p t.companies)) [
      | inl a ↦ (λ _. inr (inl a), λ _. rw (e, a) (primary_not_found, refl))
      | inr (c, a) ↦ elim (Option-cases (company_by_id d t.companies)) [
        | inl b ↦ (λ _. inr (inr b), λ _. rw (e, a, b) (duplicate_not_found, refl))
        | inr (c', b) ↦
            let fine : merge_companies lower p d t ≡ merged c (merge_tables lower p d t) =
              rw (e, a, b) refl in
            ((λ (x, h). ground (arith, fine)), λ h. ground (arith, ==_iff p d))
      ]
    ]
  ]

  module _ (c : Company) (t' : Tables) (done : merge_companies lower p d t ≡ merged c t') where
    merge_inversion : (t' ≡ merge_tables lower p d t) × (p ≢ d)
    unfolding merge_companies
    merge_inversion = ground (arith, ==_iff p d)

    -- After a merge the duplicate is gone: no company, contact, signal, scrape job or enrichment job
    -- refers to it.
    pub merge-IsGone : IsGone d t'
    merge-IsGone =
        let (same, apart) = merge_inversion in
        subst (λ x. IsGone d x) (sym same) (merge_tables-IsGone lower p d t apart)

    -- A merge loses no email and no content hash: each email (in lower case) of a contact of either
    -- company is one of the primary's contacts afterwards, and each content hash of a signal of
    -- either company is one of the primary's signals.
    pub merge_keeps :
        (k : String)
        → ((contains k (emails_of lower p t) || contains k (emails_of lower d t)) ≡ true
            → contains k (emails_of lower p t') ≡ true)
          × ((contains k (hashes_of p t) || contains k (hashes_of d t)) ≡ true
              → contains k (hashes_of p t') ≡ true)
    unfolding merge_tables merge_contacts merge_signals
    merge_keeps k =
        let (same, apart) = merge_inversion in
        rw same (
          (reassign-keeps_both contact_owner move_contact (email_key lower) owner-move_contact
              (key-move_contact lower) p d apart k t.contacts),
          (reassign-keeps_both signal_owner move_signal hash_key owner-move_signal key-move_signal p
              d apart k t.signals),
        )

    -- If the emails of the primary's contacts are distinct, so are they after the merge; and so for
    -- the content hashes of its signals.
    pub merge-IsDistinct :
        (IsDistinct (emails_of lower p t) → IsDistinct (emails_of lower p t'))
        × (IsDistinct (hashes_of p t) → IsDistinct (hashes_of p t'))
    unfolding merge_tables merge_contacts merge_signals
    merge-IsDistinct =
        let (same, apart) = merge_inversion in
        rw same (
          (reassign-IsDistinct contact_owner move_contact (email_key lower) owner-move_contact
              (key-move_contact lower) p d apart _ t.contacts (λ k h. h)),
          (reassign-IsDistinct signal_owner move_signal hash_key owner-move_signal key-move_signal p
              d apart _ t.signals (λ k h. h)),
        )

    -- The contacts and the signals of every third company stay as they are, in their order.
    pub merge_others :
        (j : ℕ)
        → j ≢ p
        → j ≢ d
        → (select (λ x. contact_owner x == j) t'.contacts
            ≡ select (λ x. contact_owner x == j) t.contacts)
          × (select (λ x. signal_owner x == j) t'.signals
              ≡ select (λ x. signal_owner x == j) t.signals)
    unfolding merge_tables merge_contacts merge_signals
    merge_others j other_p other_d =
        let (same, apart) = merge_inversion in
        rw same (
          (reassign-others contact_owner move_contact (email_key lower) owner-move_contact
              (key-move_contact lower) p d apart j _ t.contacts other_p other_d),
          (reassign-others signal_owner move_signal hash_key owner-move_signal key-move_signal p d
              apart j _ t.signals other_p other_d),
        )
