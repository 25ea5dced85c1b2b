-- ===== src/Dedup/Scan.antt =====
-- backend/app/services/deduplication.py: the scan for groups of companies that may be duplicates.
pub mod Counts
pub mod Disjoint
pub mod Complete
use sales_lead_gen.Base.{
  ℕ, zero, suc, ◌+◌, ◌-◌, ◌*◌, ◌/◌, ◌%◌, ◌^◌, ◌≤◌, ◌<◌, min, max, String, ◌≡◌, refl, sym, ap, ◌∙◌,
  subst, ◌≢◌, ◌↔◌, ◌⊎◌, inl, inr, Bool, true, false, not, ◌&&◌, ◌||◌, Option, none, some, List, [],
  ◌∷◌, ◌++◌, map, arith, str_eq, eq_iff, ltb, leb, ◌==◌, if◌then◌else◌, ==_iff, Bool-cases,
  Option-cases, is_some, length, length-append, select, any, find, All, All-append,
}
use sales_lead_gen.Models.{Company, is_archived}
use sales_lead_gen.Texts.{
  Texts, normalize_domain, company_name_similarity, name_similarity_threshold,
}

-- A similarity is in whole points, rounded down.
pub record DuplicateGroupMember : Type 0 where
  pub company_id : ℕ
  pub name : String
  pub domain : String
  pub domain_match : Option Bool
  pub name_similarity : Option ℕ

-- The ids that are grouped so far, and the groups.
abbrev pub Scan : Type 0
Scan = List ℕ × List (List DuplicateGroupMember)

abbrev pub first_member : Company → DuplicateGroupMember
first_member c = record {
  company_id = c.id;
  name = c.name;
  domain = c.domain;
  domain_match = none;
  name_similarity = none;
}

abbrev pub member : Texts → Bool → Company → Company → DuplicateGroupMember
member texts same_domain anchor other = record {
  company_id = other.id;
  name = other.name;
  domain = other.domain;
  domain_match = some same_domain;
  name_similarity = some (company_name_similarity texts anchor.name other.name);
}

-- `ORDER BY companies.id`
unfoldable pub insert_by_id : Company → List Company → List Company
insert_by_id c [] = c ∷ []
insert_by_id c (d ∷ ds) =
    let later = insert_by_id c ds in if leb c.id d.id then c ∷ d ∷ ds else d ∷ later

unfoldable pub order_by_id : List Company → List Company
order_by_id [] = []
order_by_id (c ∷ cs) = insert_by_id c (order_by_id cs)

unfoldable pub active_companies : List Company → List Company
active_companies companies = order_by_id (select (λ c. not (is_archived c.status)) companies)

abbrev pub is_grouped : ℕ → List ℕ → Bool
is_grouped i grouped = any (λ j. j == i) grouped

-- `domain_buckets`, in the order in which its keys were added.
unfoldable pub add_to_bucket :
    String → Company → List (String × List Company) → List (String × List Company)
add_to_bucket norm c [] = (norm, c ∷ []) ∷ []
add_to_bucket norm c ((key, bucket) ∷ buckets) =
    let later = add_to_bucket norm c buckets in
    if str_eq key norm then (key, bucket ++ c ∷ []) ∷ buckets else (key, bucket) ∷ later

unfoldable pub domain_buckets :
    Texts → List Company → List (String × List Company) → List (String × List Company)
domain_buckets texts [] buckets = buckets
domain_buckets texts (c ∷ cs) buckets =
    domain_buckets texts cs (add_to_bucket (normalize_domain texts c.domain) c buckets)

abbrev pub company_ids : List Company → List ℕ
company_ids cs = map (λ (c : Company). c.id) cs

-- A bucket of two companies or more is a group.
unfoldable pub group_bucket : Texts → List Company → Scan → Scan
group_bucket texts [] s = s
group_bucket texts (anchor ∷ []) s = s
group_bucket texts (anchor ∷ other ∷ others) (grouped, groups) = (
  company_ids (anchor ∷ other ∷ others) ++ grouped,
  groups ++ (first_member anchor ∷ map (member texts true anchor) (other ∷ others)) ∷ [],
)

unfoldable pub group_buckets : Texts → List (String × List Company) → Scan → Scan
group_buckets texts [] s = s
group_buckets texts ((key, bucket) ∷ buckets) s =
    group_buckets texts buckets (group_bucket texts bucket s)

-- The companies after one that are like it and in no group: the members, and the ids grouped then.
unfoldable pub similar_companies :
    Texts → Company → List Company → List ℕ → List ℕ × List DuplicateGroupMember
similar_companies texts a [] grouped = (grouped, [])
similar_companies texts a (b ∷ bs) grouped =
    let skipped = similar_companies texts a bs grouped in
    let added = similar_companies texts a bs (b.id ∷ grouped) in
    if is_grouped b.id grouped
    then skipped
    else if leb name_similarity_threshold (company_name_similarity texts a.name b.name)
    then (added.0, member texts false a b ∷ added.1)
    else skipped

abbrev pub add_group :
    Company → List ℕ × List DuplicateGroupMember → List (List DuplicateGroupMember) → Scan
add_group a (grouped, []) groups = (grouped, groups)
add_group a (grouped, m ∷ ms) groups = (a.id ∷ grouped, groups ++ (first_member a ∷ m ∷ ms) ∷ [])

unfoldable pub group_names : Texts → List Company → Scan → Scan
group_names texts [] s = s
group_names texts (a ∷ rest) (grouped, groups) =
    let skipped = group_names texts rest (grouped, groups) in
    let tried =
      group_names texts rest (add_group a (similar_companies texts a rest grouped) groups) in
    if is_grouped a.id grouped then skipped else tried

-- The two phases: the ids that are grouped in the end, and the groups.
unfoldable pub scan : Texts → List Company → Scan
scan texts companies =
    let active = active_companies companies in
    let s = group_buckets texts (domain_buckets texts active []) ([], []) in
    group_names texts (select (λ c. not (is_grouped c.id s.0)) active) s

unfoldable pub scan_duplicates : Texts → List Company → List (List DuplicateGroupMember)
scan_duplicates texts companies = (scan texts companies).1
