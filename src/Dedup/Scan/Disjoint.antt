-- ===== src/Dedup/Scan/Disjoint.antt =====
-- The groups of a scan have no company in common: backend/app/services/deduplication.py.
use sales_lead_gen.Base.{
  ℕ, ◌+◌, ◌≤◌, max, String, ◌≡◌, refl, sym, ap, ◌∙◌, inl, inr, Bool, true, false, not, List, [],
  ◌∷◌, map, arith, leb, ◌==◌, Bool-cases, select,
}
use sales_lead_gen.Models.{Company, is_archived}
use sales_lead_gen.Texts.{Texts, company_name_similarity, name_similarity_threshold}
use sales_lead_gen.Dedup.Scan.{
  DuplicateGroupMember, Scan, first_member, member, active_companies, is_grouped, domain_buckets,
  company_ids, group_bucket, group_buckets, similar_companies, add_group, group_names, scan,
  scan_duplicates,
}
use sales_lead_gen.Dedup.Scan.Counts.{
  occurrences, member_ids, occurrences-append, member_ids-snoc, occurrences-order_by_id,
  occurrences-select, bucket_ids, occurrences-domain_buckets, ids_of, AreGroups, AreGroups-snoc,
  ids_of-member, agree-snoc, ungrouped, agree_cons, within,
}

module _ (texts : Texts) (k : ℕ) where
  -- An id is grouped as often as it is the id of a member.
  abbrev Agrees : Scan → Type 0
  Agrees s = occurrences k s.0 ≡ occurrences k (member_ids s.1)

  group_bucket-Agrees :
      (bucket : List Company) (s : Scan)
      → Agrees s
      → Agrees (group_bucket texts bucket s)
        × (occurrences k (group_bucket texts bucket s).0
            ≤ occurrences k s.0 + occurrences k (company_ids bucket))
  unfolding group_bucket
  group_bucket-Agrees [] s h = (h, omega arith)
  group_bucket-Agrees (anchor ∷ []) s h = (h, omega arith)
  group_bucket-Agrees (anchor ∷ other ∷ others) (grouped, groups) h =
      let ids = company_ids (anchor ∷ other ∷ others) in
      let group = first_member anchor ∷ map (member texts true anchor) (other ∷ others) in
      let same : ids_of group ≡ ids =
        ap (λ is. anchor.id ∷ is) (ids_of-member texts true anchor (other ∷ others)) in
      (
        agree-snoc k ids grouped groups group same h,
        omega (arith, occurrences-append k ids grouped),
      )

  group_buckets-Agrees :
      (bs : List (String × List Company)) (s : Scan)
      → Agrees s
      → Agrees (group_buckets texts bs s)
        × (occurrences k (group_buckets texts bs s).0
            ≤ occurrences k s.0 + occurrences k (bucket_ids bs))
  unfolding group_buckets
  group_buckets-Agrees [] s h = (h, omega arith)
  group_buckets-Agrees ((key, bucket) ∷ bs) s h =
      let (agrees, few) = group_bucket-Agrees bucket s h in
      let (agrees', few') = group_buckets-Agrees bs (group_bucket texts bucket s) agrees in
      (agrees', omega (arith, few, few', occurrences-append k (company_ids bucket) (bucket_ids bs)))

  similar_companies-counts :
      (a : Company) (bs : List Company) (grouped : List ℕ)
      → (let t = similar_companies texts a bs grouped in
          (occurrences k t.0 ≡ occurrences k grouped + occurrences k (ids_of t.1))
          × (occurrences k t.0 ≤ occurrences k grouped + occurrences k (company_ids bs))
          × (occurrences k t.0 ≤ max 1 (occurrences k grouped)))
  unfolding similar_companies
  similar_companies-counts a [] grouped = (omega arith, omega arith, omega arith)
  similar_companies-counts a (b ∷ bs) grouped =
      let skipped = similar_companies-counts a bs grouped in
      let added = similar_companies-counts a bs (b.id ∷ grouped) in
      elim (Bool-cases (is_grouped b.id grouped)) [
        | inl there ↦ rw there (ground (arith, skipped))
        | inr free ↦
            elim (Bool-cases
              (leb name_similarity_threshold (company_name_similarity texts a.name b.name))) [
                | inr unlike ↦ rw (free, unlike) (ground (arith, skipped))
                | inl alike ↦
                    rw (free, alike)
                      (ground (arith, added.0, added.1, added.2, ungrouped b.id k grouped free))
              ]
      ]

  grouped_cons :
      (i : ℕ) (grouped grouped' is : List ℕ)
      → occurrences k grouped' ≤ occurrences k grouped + occurrences k is
      → occurrences k grouped' ≤ max 1 (occurrences k grouped)
      → occurrences k (i ∷ is) ≤ 1
      → is_grouped i grouped ≡ false
      → occurrences k (i ∷ grouped') ≤ max (occurrences k grouped) (occurrences k (i ∷ is))
  grouped_cons i grouped grouped' is few capped unique free = elim (Bool-cases (i == k)) [
    | inl same ↦ ground (arith, few, capped, unique, same, ungrouped i k grouped free)
    | inr other ↦ ground (arith, few, capped, unique, other)
  ]

  add_group-Agrees :
      (a : Company) (bs : List Company) (grouped : List ℕ)
      (groups : List (List DuplicateGroupMember))
      → Agrees (grouped, groups)
      → is_grouped a.id grouped ≡ false
      → occurrences k (company_ids (a ∷ bs)) ≤ 1
      → (let s = add_group a (similar_companies texts a bs grouped) groups in
          Agrees s
          × (occurrences k s.0
              ≤ max (occurrences k grouped) (occurrences k (company_ids (a ∷ bs)))))
  add_group-Agrees a bs grouped groups h free unique =
      go (similar_companies texts a bs grouped) (similar_companies-counts a bs grouped)
    where
      go :
          (t : List ℕ × List DuplicateGroupMember)
          → (occurrences k t.0 ≡ occurrences k grouped + occurrences k (ids_of t.1))
            × (occurrences k t.0 ≤ occurrences k grouped + occurrences k (company_ids bs))
            × (occurrences k t.0 ≤ max 1 (occurrences k grouped))
          → Agrees (add_group a t groups)
            × (occurrences k (add_group a t groups).0
                ≤ max (occurrences k grouped) (occurrences k (company_ids (a ∷ bs))))
      go (grouped', []) (grown, few, capped) =
          (omega (arith, grown, h), ground (arith, grown, few, capped))
      go (grouped', m ∷ ms) (grown, few, capped) = (
        agree_cons k a.id grouped grouped' (member_ids groups) (ids_of (m ∷ ms)) grown h
            ∙ sym (member_ids-snoc k groups (first_member a ∷ m ∷ ms)),
        grouped_cons a.id grouped grouped' (company_ids bs) few capped unique free,
      )

  group_names-Agrees :
      (cs : List Company) (s : Scan)
      → Agrees s
      → occurrences k (company_ids cs) ≤ 1
      → Agrees (group_names texts cs s)
        × (occurrences k (group_names texts cs s).0
            ≤ max (occurrences k s.0) (occurrences k (company_ids cs)))
  unfolding group_names
  group_names-Agrees [] s h unique = (h, omega arith)
  group_names-Agrees (a ∷ rest) (grouped, groups) h unique =
      let more : occurrences k (company_ids rest) ≤ occurrences k (company_ids (a ∷ rest)) =
        ground arith in
      let fewer : occurrences k (company_ids rest) ≤ 1 = omega (arith, more, unique) in
      elim (Bool-cases (is_grouped a.id grouped)) [
        | inl there ↦
            let (h', few) = group_names-Agrees rest (grouped, groups) h fewer in
            rw there (
              h',
              within k (company_ids rest) (company_ids (a ∷ rest)) _ _ _ (omega arith) few more,
            )
        | inr free ↦
            let s = add_group a (similar_companies texts a rest grouped) groups in
            let (h', once) = add_group-Agrees a rest grouped groups h free unique in
            let (h'', few) = group_names-Agrees rest s h' fewer in
            rw free (h'', within k (company_ids rest) (company_ids (a ∷ rest)) _ _ _ once few more)
      ]

-- The groups of a scan have two members at least.
module _ (texts : Texts) where
  group_buckets-AreGroups :
      (bs : List (String × List Company)) (s : Scan)
      → AreGroups s.1
      → AreGroups (group_buckets texts bs s).1
  unfolding group_buckets group_bucket
  group_buckets-AreGroups [] s h = h
  group_buckets-AreGroups ((key, []) ∷ bs) s h = group_buckets-AreGroups bs s h
  group_buckets-AreGroups ((key, anchor ∷ []) ∷ bs) s h = group_buckets-AreGroups bs s h
  group_buckets-AreGroups ((key, anchor ∷ other ∷ others) ∷ bs) s h =
      group_buckets-AreGroups bs (group_bucket texts (anchor ∷ other ∷ others) s) (
        AreGroups-snoc s.1 (first_member anchor ∷ map (member texts true anchor) (other ∷ others)) h
          (omega arith))

  add_group-AreGroups :
      (a : Company) (t : List ℕ × List DuplicateGroupMember)
      (groups : List (List DuplicateGroupMember))
      → AreGroups groups
      → AreGroups (add_group a t groups).1
  add_group-AreGroups a (grouped, []) groups h = h
  add_group-AreGroups a (grouped, m ∷ ms) groups h =
      AreGroups-snoc groups (first_member a ∷ m ∷ ms) h (omega arith)

  group_names-AreGroups :
      (cs : List Company) (s : Scan) → AreGroups s.1 → AreGroups (group_names texts cs s).1
  unfolding group_names
  group_names-AreGroups [] s h = h
  group_names-AreGroups (a ∷ rest) (grouped, groups) h =
      elim (Bool-cases (is_grouped a.id grouped)) [
        | inl there ↦ rw there (group_names-AreGroups rest (grouped, groups) h)
        | inr free ↦
            let t = similar_companies texts a rest grouped in
            rw free
              (group_names-AreGroups rest (add_group a t groups) (add_group-AreGroups a t groups h))
      ]

-- The ids that are grouped are those of the members, and none is grouped more often than it is that of
-- an active company.
pub scan-Agrees :
    (texts : Texts) (companies : List Company) (k : ℕ)
    → occurrences k (company_ids companies) ≤ 1
    → (occurrences k (scan texts companies).0 ≡ occurrences k (member_ids (scan texts companies).1))
      × (occurrences k (scan texts companies).0
          ≤ occurrences k
              (company_ids (select (λ (c : Company). not (is_archived c.status)) companies)))
unfolding scan active_companies
scan-Agrees texts companies k unique =
    let is_active : Company → Bool = λ c. not (is_archived c.status) in
    let active = active_companies companies in
    let buckets = domain_buckets texts active [] in
    let s = group_buckets texts buckets ([], []) in
    let remaining = select (λ (c : Company). not (is_grouped c.id s.0)) active in
    let (h, few) = group_buckets-Agrees texts k buckets ([], []) refl in
    let ordered = occurrences-order_by_id k (select is_active companies) in
    let fewer = occurrences-select k is_active companies in
    let left = occurrences-select k (λ (c : Company). not (is_grouped c.id s.0)) active in
    let all_of = occurrences-domain_buckets k texts active [] in
    let (h', once) =
      group_names-Agrees texts k remaining s h (omega (arith, unique, ordered, fewer, left)) in
    (h', omega (arith, once, few, ordered, left, all_of))

scan-AreGroups : (texts : Texts) (companies : List Company) → AreGroups (scan texts companies).1
unfolding scan
scan-AreGroups texts companies = group_names-AreGroups texts _ _ (
    group_buckets-AreGroups texts (domain_buckets texts (active_companies companies) []) ([], [])
      tt)

-- When the ids of the companies are different, each group of a scan has two members at least, and a
-- company is a member of all groups together no more often than it is among the companies that are
-- not archived: so no company is in two groups, or twice in one, and no archived one is in any.
pub scan_duplicates_disjoint :
    (texts : Texts) (companies : List Company)
    → ((k : ℕ) → occurrences k (company_ids companies) ≤ 1)
    → AreGroups (scan_duplicates texts companies)
      × ((k : ℕ)
          → occurrences k (member_ids (scan_duplicates texts companies))
            ≤ occurrences k
                (company_ids (select (λ (c : Company). not (is_archived c.status)) companies)))
unfolding scan_duplicates
scan_duplicates_disjoint texts companies unique = (
  scan-AreGroups texts companies,
  λ k. let (same, few) = scan-Agrees texts companies k (unique k) in omega (arith, same, few),
)
