-- ===== src/Dedup/Scan/Counts.antt =====
-- How often ids occur in the lists of a scan: backend/app/services/deduplication.py.
use sales_lead_gen.Base.{
  ℕ, suc, ◌+◌, ◌≤◌, max, String, ◌≡◌, refl, ap, subst, Bool, false, List, [], ◌∷◌, ◌++◌, map, arith,
  ◌==◌, if◌then◌else◌, length, select, All, All-append,
}
use sales_lead_gen.Models.{Company}
use sales_lead_gen.Texts.{Texts, normalize_domain}
use sales_lead_gen.Dedup.Scan.{
  DuplicateGroupMember, member, insert_by_id, order_by_id, is_grouped, add_to_bucket,
  domain_buckets, company_ids,
}

-- How often an id is in a list.
abbrev pub occurrences : ℕ → List ℕ → ℕ
occurrences k [] = 0
occurrences k (i ∷ is) = let rest = occurrences k is in if i == k then suc rest else rest

-- The ids of the members of all groups.
abbrev pub member_ids : List (List DuplicateGroupMember) → List ℕ
member_ids [] = []
member_ids (g ∷ gs) = map (λ (m : DuplicateGroupMember). m.company_id) g ++ member_ids gs

pub occurrences-append :
    (k : ℕ) (is js : List ℕ) → occurrences k (is ++ js) ≡ occurrences k is + occurrences k js
occurrences-append k [] js = omega arith
occurrences-append k (i ∷ is) js = ground (arith, occurrences-append k is js)

pub is_grouped-occurrences : (k : ℕ) (is : List ℕ) → is_grouped k is ≡ false → occurrences k is ≡ 0
is_grouped-occurrences k [] h = refl
is_grouped-occurrences k (i ∷ is) h = ground (arith, is_grouped-occurrences k is)

pub member_ids-snoc :
    (k : ℕ) (gs : List (List DuplicateGroupMember)) (g : List DuplicateGroupMember)
    → occurrences k (member_ids (gs ++ g ∷ []))
      ≡ occurrences k (member_ids gs)
        + occurrences k (map (λ (m : DuplicateGroupMember). m.company_id) g)
member_ids-snoc k [] g =
    omega (arith, occurrences-append k (map (λ (m : DuplicateGroupMember). m.company_id) g) [])
member_ids-snoc k (x ∷ gs) g =
    let ids : List DuplicateGroupMember → List ℕ =
      map (λ (m : DuplicateGroupMember). m.company_id) in
    omega (
      arith,
      member_ids-snoc k gs g,
      occurrences-append k (ids x) (member_ids gs),
      occurrences-append k (ids x) (member_ids (gs ++ g ∷ [])),
    )

pub occurrences-insert_by_id :
    (k : ℕ) (c : Company) (ds : List Company)
    → occurrences k (company_ids (insert_by_id c ds)) ≡ occurrences k (c.id ∷ company_ids ds)
unfolding insert_by_id
occurrences-insert_by_id k c [] = refl
occurrences-insert_by_id k c (d ∷ ds) = ground (arith, occurrences-insert_by_id k c ds)

pub occurrences-order_by_id :
    (k : ℕ) (cs : List Company)
    → occurrences k (company_ids (order_by_id cs)) ≡ occurrences k (company_ids cs)
unfolding order_by_id
occurrences-order_by_id k [] = refl
occurrences-order_by_id k (c ∷ cs) =
    ground (arith, occurrences-order_by_id k cs, occurrences-insert_by_id k c (order_by_id cs))

pub occurrences-select :
    (k : ℕ) (p : Company → Bool) (cs : List Company)
    → occurrences k (company_ids (select p cs)) ≤ occurrences k (company_ids cs)
occurrences-select k p [] = omega arith
occurrences-select k p (c ∷ cs) = ground (arith, occurrences-select k p cs)

-- The ids of the companies in the buckets.
abbrev pub bucket_ids : List (String × List Company) → List ℕ
bucket_ids [] = []
bucket_ids (b ∷ bs) = company_ids b.1 ++ bucket_ids bs

pub company_ids-snoc :
    (k : ℕ) (cs : List Company) (c : Company)
    → occurrences k (company_ids (cs ++ c ∷ []))
      ≡ occurrences k (company_ids cs) + occurrences k (c.id ∷ [])
company_ids-snoc k [] c = omega arith
company_ids-snoc k (d ∷ cs) c = ground (arith, company_ids-snoc k cs c)

pub occurrences-add_to_bucket :
    (k : ℕ) (norm : String) (c : Company) (bs : List (String × List Company))
    → occurrences k (bucket_ids (add_to_bucket norm c bs))
      ≡ occurrences k (bucket_ids bs) + occurrences k (c.id ∷ [])
unfolding add_to_bucket
occurrences-add_to_bucket k norm c [] = omega (arith, occurrences-append k (c.id ∷ []) [])
occurrences-add_to_bucket k norm c ((key, bucket) ∷ bs) = ground (
  arith,
  occurrences-add_to_bucket k norm c bs,
  company_ids-snoc k bucket c,
  occurrences-append k (company_ids (bucket ++ c ∷ [])) (bucket_ids bs),
  occurrences-append k (company_ids bucket) (bucket_ids bs),
  occurrences-append k (company_ids bucket) (bucket_ids (add_to_bucket norm c bs)),
)

pub occurrences-domain_buckets :
    (k : ℕ) (texts : Texts) (cs : List Company) (bs : List (String × List Company))
    → occurrences k (bucket_ids (domain_buckets texts cs bs))
      ≡ occurrences k (bucket_ids bs) + occurrences k (company_ids cs)
unfolding domain_buckets
occurrences-domain_buckets k texts [] bs = omega arith
occurrences-domain_buckets k texts (c ∷ cs) bs =
    let norm = normalize_domain texts c.domain in
    ground (
      arith,
      occurrences-domain_buckets k texts cs (add_to_bucket norm c bs),
      occurrences-add_to_bucket k norm c bs,
    )

abbrev pub ids_of : List DuplicateGroupMember → List ℕ
ids_of g = map (λ (m : DuplicateGroupMember). m.company_id) g

-- Each group has two members at least.
abbrev pub AreGroups : List (List DuplicateGroupMember) → Type 0
AreGroups gs = All (λ (g : List DuplicateGroupMember). 2 ≤ length g) gs

pub AreGroups-snoc :
    (gs : List (List DuplicateGroupMember)) (g : List DuplicateGroupMember)
    → AreGroups gs
    → 2 ≤ length g
    → AreGroups (gs ++ g ∷ [])
AreGroups-snoc gs g h n =
    All-append (λ (x : List DuplicateGroupMember). 2 ≤ length x) gs (g ∷ []) h (n, tt)

pub ids_of-member :
    (texts : Texts) (b : Bool) (anchor : Company) (cs : List Company)
    → ids_of (map (member texts b anchor) cs) ≡ company_ids cs
ids_of-member texts b anchor [] = refl
ids_of-member texts b anchor (c ∷ cs) = ap (λ is. c.id ∷ is) (ids_of-member texts b anchor cs)

pub agree-snoc :
    (k : ℕ) (is grouped : List ℕ) (gs : List (List DuplicateGroupMember))
    (g : List DuplicateGroupMember)
    → ids_of g ≡ is
    → occurrences k grouped ≡ occurrences k (member_ids gs)
    → occurrences k (is ++ grouped) ≡ occurrences k (member_ids (gs ++ g ∷ []))
agree-snoc k is grouped gs g same h =
    omega
      (arith, occurrences-append k is grouped, member_ids-snoc k gs g, ap (occurrences k) same, h)

pub ungrouped : (j k : ℕ) (is : List ℕ) → is_grouped j is ≡ false → j ≡ k → occurrences k is ≡ 0
ungrouped j k is free same =
    is_grouped-occurrences k is (subst (λ i. is_grouped i is ≡ false) same free)

pub agree_cons :
    (k i : ℕ) (grouped grouped' ids is : List ℕ)
    → occurrences k grouped' ≡ occurrences k grouped + occurrences k is
    → occurrences k grouped ≡ occurrences k ids
    → occurrences k (i ∷ grouped') ≡ occurrences k ids + occurrences k (i ∷ is)
agree_cons k i grouped grouped' ids is h e = ground (arith, h, e)

pub within :
    (k : ℕ) (is js : List ℕ) (a b c : ℕ)
    → b ≤ max a (occurrences k js)
    → c ≤ max b (occurrences k is)
    → occurrences k is ≤ occurrences k js
    → c ≤ max a (occurrences k js)
within k is js a b c h h' more = omega (arith, h, h', more)
