-- ===== src/Enrichment/Waterfall.antt =====
-- The run of the providers for a company: `_run_contact_waterfall` in backend/app/services/enrichment.py.
use sales_lead_gen.Base.{
  ℕ, String, ◌≡◌, sym, ap, ◌∙◌, inl, inr, Bool, not, ◌&&◌, Option, none, some, List, [], ◌∷◌, ◌++◌,
  arith, str_eq, leb, if◌then◌else◌, Bool-cases, Option-cases, length-append, All-append,
}
use mathlib.Core.List.{append-nil, append_assoc}
use sales_lead_gen.Models.{Company, company_by_id}
use sales_lead_gen.Dedup.Keys.{IsDistinct}
use sales_lead_gen.Enrichment.Contacts.{Source, ContactRow, Env}
use sales_lead_gen.Enrichment.Storage.{IsGrown, emails_of, store_contacts_once}
use sales_lead_gen.Enrichment.{
  EnrichmentResult, new_result, take_contacts, try_it, try_provider, run_provider, run_providers,
  providers, run_contact_waterfall, enrich_company, is_configured, remaining,
}

module _ (env : Env) (i : ℕ) where
  -- What the table and the count of a result have in common with those before.
  abbrev HasGrown : EnrichmentResult × List ContactRow → EnrichmentResult × List ContactRow → Type 0
  HasGrown s t = IsGrown env.texts.lower i (s.0.contacts_added, s.1) (t.0.contacts_added, t.1)

  abbrev IsClean : EnrichmentResult × List ContactRow → Type 0
  IsClean s = IsDistinct (emails_of env.texts.lower i s.1)

  HasGrown-refl : (s : EnrichmentResult × List ContactRow) → HasGrown s s
  HasGrown-refl s = record {
    new_rows = [];
    appended = sym (append-nil s.1);
    counted = omega arith;
    owned = tt;
  }

  HasGrown-trans :
      (s t u : EnrichmentResult × List ContactRow) → HasGrown s t → HasGrown t u → HasGrown s u
  HasGrown-trans s t u g h = record {
    new_rows = g.new_rows ++ h.new_rows;
    appended =
        h.appended
        ∙ ap (λ rows. rows ++ h.new_rows) g.appended
        ∙ append_assoc s.1 g.new_rows h.new_rows;
    counted = omega (arith, g.counted, h.counted, length-append g.new_rows h.new_rows);
    owned = All-append (λ (c : ContactRow). c.company_id ≡ i) g.new_rows h.new_rows g.owned h.owned;
  }

  take_contacts-HasGrown :
      (p : Source) (found : Option (List ContactRow)) (s : EnrichmentResult × List ContactRow)
      → IsClean s
      → HasGrown s (take_contacts env p i found s) × IsClean (take_contacts env p i found s)
  unfolding take_contacts
  take_contacts-HasGrown p none s clean = (HasGrown-refl s, clean)
  take_contacts-HasGrown p (some []) s clean = (HasGrown-refl s, clean)
  take_contacts-HasGrown p (some (c ∷ cs)) (r, rows) clean =
      let (g, clean', stored) = store_contacts_once env.texts.lower i (c ∷ cs) rows clean in
      (
        record {
          new_rows = g.new_rows;
          appended = g.appended;
          counted = omega (arith, g.counted);
          owned = g.owned;
        },
        clean',
      )

  run_providers-HasGrown :
      (domain : String) (ps : List (Source × Bool)) (s : EnrichmentResult × List ContactRow)
      → IsClean s
      → HasGrown s (run_providers env i domain ps s) × IsClean (run_providers env i domain ps s)
  unfolding run_providers run_provider
  run_providers-HasGrown domain [] s clean = (HasGrown-refl s, clean)
  run_providers-HasGrown domain ((p, always_run) ∷ ps) s clean =
      let skipped = run_providers-HasGrown domain ps s clean in
      elim (Bool-cases (is_configured env p)) [
        | inr off ↦ rw off skipped
        | inl on ↦ elim (Bool-cases (s.0.verified_found && not always_run)) [
          | inl enough ↦ rw (on, enough) skipped
          | inr wanted ↦ elim (Bool-cases (leb (remaining env p) 0)) [
            | inl late ↦ rw (on, wanted, late) (HasGrown-refl s, clean)
            | inr early ↦
                let t = run_provider env p i domain s in
                let (g, clean') =
                  take_contacts-HasGrown p
                    (if env.on_time p then try_provider env p domain i s.1 else none)
                    (try_it p s.0, s.1) clean in
                let (h, clean'') = run_providers-HasGrown domain ps t clean' in
                rw (on, wanted, early)
                  (HasGrown-trans s t (run_providers env i domain ps t) g h, clean'')
          ]
        ]
      ]

-- Whatever the providers return and wherever the time runs out, the enrichment of a company adds rows
-- of that company only, as many as it reports, changes no row that was there, and keeps the emails of
-- the company, in lower case, different from each other.
pub enrich_company_adds :
    (env : Env) (i : ℕ) (companies : List Company) (rows : List ContactRow)
    → IsDistinct (emails_of env.texts.lower i rows)
    → (let t = enrich_company env i companies rows in
        IsGrown env.texts.lower i (0, rows) (t.0.contacts_added, t.1)
        × IsDistinct (emails_of env.texts.lower i t.1))
unfolding enrich_company run_contact_waterfall
enrich_company_adds env i companies rows clean = elim (Option-cases (company_by_id i companies)) [
  | inl e ↦ rw (e, enrich_company) (HasGrown-refl env i (new_result i, rows), clean)
  | inr (company, e) ↦ elim (Bool-cases (str_eq company.domain "")) [
    | inl nowhere ↦
        rw (e, nowhere, enrich_company) (HasGrown-refl env i (new_result i, rows), clean)
    | inr there ↦
        rw (e, there, enrich_company)
          (run_providers-HasGrown env i company.domain providers (new_result i, rows) clean)
  ]
]
