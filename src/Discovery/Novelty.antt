-- ===== src/Discovery/Novelty.antt =====
-- Which companies a discovery run stores: `_is_duplicate` and `_process_bedrijfsdata_results` of
-- backend/app/services/discovery.py.
use sales_lead_gen.Base.{
  ℕ, suc, String, ◌≡◌, sym, ◌∙◌, subst, false, Option, none, some, List, [], ◌∷◌, ◌++◌, arith,
}
use mathlib.Core.List.{append_assoc, append-nil}
use sales_lead_gen.Texts.{Texts, normalize_domain}
use sales_lead_gen.Discovery.Score.{IcpProfile}
use sales_lead_gen.Discovery.Counts.{times_out, reaches_cap, skips, stores, fails, Round-cases}
use sales_lead_gen.Discovery.{
  DiscoveryResult, Known, Env, store_company, round_of, examine, process, run, Search,
  ExistingCompany, load_existing_companies, learn, has_pair, has_similar, is_duplicate, with_search,
  empty_result, skip_one, add_one, find_one,
}
use sales_lead_gen.Discovery.Rows.{BedrijfsdataCompany, NewCompany, new_company}

-- No row is one of the known companies, by name and domain or by a similar name, nor is it one of the
-- rows before it.
abbrev pub AllNew : Texts → List (String × String) → List String → List NewCompany → Type 0
AllNew texts pairs names [] = Unit
AllNew texts pairs names (row ∷ rows) =
    (has_pair row.name row.domain pairs ≡ false)
    × (has_similar texts row.name names ≡ false)
    × AllNew texts ((row.name, row.domain) ∷ pairs) (names ++ row.name ∷ []) rows

examine_stores :
    (env : Env) (profile : IcpProfile) (stored : List NewCompany) (known : Known)
    (c : BedrijfsdataCompany) (d : String) (row : NewCompany)
    → examine env profile stored known c (some d) ≡ store_company row
    → (is_duplicate env.texts c.name d known ≡ false) × (new_company env.texts profile c d ≡ row)
unfolding examine
examine_stores env profile stored known c d row h = ground arith

not_duplicate :
    (texts : Texts) (name domain : String) (known : Known)
    → is_duplicate texts name domain known ≡ false
    → (has_pair name (normalize_domain texts domain) known.existing_pairs ≡ false)
      × (has_similar texts name known.existing_names ≡ false)
unfolding is_duplicate
not_duplicate texts name domain known h = ground arith

examine-IsNew :
    (env : Env) (profile : IcpProfile) (stored : List NewCompany) (known : Known)
    (c : BedrijfsdataCompany) (d : Option String) (row : NewCompany)
    → examine env profile stored known c d ≡ store_company row
    → (has_pair row.name row.domain known.existing_pairs ≡ false)
      × (has_similar env.texts row.name known.existing_names ≡ false)
unfolding examine new_company
examine-IsNew env profile stored known c none row h = cc
examine-IsNew env profile stored known c (some d) row h =
    let (fresh, made) = examine_stores env profile stored known c d row h in
    subst
      (λ x.
        (has_pair x.name x.domain known.existing_pairs ≡ false)
        × (has_similar env.texts x.name known.existing_names ≡ false))
      made (not_duplicate env.texts c.name d known fresh)

round_of-stores :
    (env : Env) (profile : IcpProfile) (n : ℕ) (stored : List NewCompany) (known : Known)
    (r : DiscoveryResult) (c : BedrijfsdataCompany) (row : NewCompany)
    → round_of env profile n stored known r c ≡ store_company row
    → examine env profile stored known c c.domain ≡ store_company row
unfolding round_of
round_of-stores env profile n stored known r c row h = ground arith

-- The rows that a loop stores, after those stored before it.
process-AllNew :
    (env : Env) (profile : IcpProfile) (n : ℕ) (stored : List NewCompany) (known : Known)
    (r : DiscoveryResult) (cs : List BedrijfsdataCompany)
    → (rows : List NewCompany) × ((process env profile n stored known r cs).1 ≡ stored ++ rows)
      × AllNew env.texts known.existing_pairs known.existing_names rows
unfolding process learn
process-AllNew env profile n stored known r [] = ([], sym (append-nil stored), tt)
process-AllNew env profile n stored known r (c ∷ cs) =
    elim (Round-cases (round_of env profile n stored known r c)) [
      | times_out e ↦ ([], rw (e, process) (sym (append-nil stored)), tt)
      | reaches_cap e ↦ ([], rw (e, process) (sym (append-nil stored)), tt)
      | skips e ↦
          rw (e, process)
            (process-AllNew env profile (suc n) stored known (skip_one (find_one r)) cs)
      | stores row e ↦
          let (rows, same, new) =
            process-AllNew env profile (suc n) (stored ++ (row ∷ [])) (learn row known)
              (add_one (find_one r)) cs in
          let (pair, name) =
            examine-IsNew env profile stored known c _ row
              (round_of-stores env profile n stored known r c row e) in
          (
            (row ∷ rows),
            rw (e, process) (same ∙ append_assoc stored (row ∷ []) rows),
            (pair, name, new),
          )
      | fails row e ↦
          rw (e, process)
            (process-AllNew env profile (suc n) stored known (skip_one (find_one r)) cs)
    ]

-- A run stores new companies only: no row has the name and domain of a company in the database that is
-- not archived and has a domain, or of a row that the run stored before, and no row has a name that is
-- similar to one of a company that is not archived or of a row stored before.
pub run-AllNew :
    (env : Env) (profile : Option IcpProfile) (search : IcpProfile → Search)
    (rows : List ExistingCompany)
    → (let known = load_existing_companies rows in
        AllNew env.texts known.existing_pairs known.existing_names (run env profile search rows).1)
unfolding run
run-AllNew env none search rows = tt
run-AllNew env (some profile) search rows =
    let (stored, same, new) =
      process-AllNew env profile 0 [] (load_existing_companies rows)
        (with_search (search profile) empty_result).0
        (with_search (search profile) empty_result).1 in
    rw same new
