-- ===== src/Tests/Merges.antt =====
-- Merges at concrete inputs.
use sales_lead_gen.Base.{ℕ, String, ◌≡◌, refl, true, ◌||◌, none, some, [], ◌∷◌}
use sales_lead_gen.Models.{CompanyStatus, Company, Contact, company_by_id}
use sales_lead_gen.Dedup.{Tables, merged, merge_tables, merge_companies}
use sales_lead_gen.Dedup.Keys.{IsDistinct}
use sales_lead_gen.Dedup.Rows.{contains}
use sales_lead_gen.Dedup.Merge.{emails_of, hashes_of, merge_keeps, merge-IsDistinct}

abbrev company : ℕ → Company
company i = record {
  id = i;
  name = "Acme";
  domain = "acme.nl";
  status = CompanyStatus.enriched;
  slack_notified_at = none;
}

abbrev contact : ℕ → ℕ → String → Contact
contact i c email = record { id = i; company_id = c; email = some email }

abbrev tables : Tables
tables = record {
  companies = company 1 ∷ company 2 ∷ company 3 ∷ [];
  contacts =
      contact 1 1 "a@acme.nl"
      ∷ contact 2 2 "a@acme.nl"
      ∷ contact 3 2 "b@acme.nl"
      ∷ contact 4 3 "c@other.nl"
      ∷ [];
  signals = [];
  scrape_jobs = record { id = 1; company_id = 2 } ∷ [];
  enrichment_jobs = [];
}

abbrev first : ℕ
first = 1

abbrev missing : ℕ
missing = 9

abbrev lower : String → String
lower t = t

abbrev after : Tables
after = merge_tables lower 1 2 tables

-- The merge of the second company into the first.
done : merge_companies lower 1 2 tables ≡ merged (company 1) after
unfolding merge_companies company_by_id
done = refl

merge_keeps_example :
    ((contains "b@acme.nl" (emails_of lower 1 tables)
          || contains "b@acme.nl" (emails_of lower 2 tables))
        ≡ true
      → contains "b@acme.nl" (emails_of lower 1 after) ≡ true)
    × ((contains "b@acme.nl" (hashes_of 1 tables) || contains "b@acme.nl" (hashes_of 2 tables))
          ≡ true
        → contains "b@acme.nl" (hashes_of 1 after) ≡ true)
merge_keeps_example = merge_keeps lower 1 2 tables (company 1) after done "b@acme.nl"

merge-IsDistinct_example :
    (IsDistinct (emails_of lower 1 tables) → IsDistinct (emails_of lower 1 after))
    × (IsDistinct (hashes_of 1 tables) → IsDistinct (hashes_of 1 after))
merge-IsDistinct_example = merge-IsDistinct lower 1 2 tables (company 1) after done
