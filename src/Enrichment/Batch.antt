-- ===== src/Enrichment/Batch.antt =====
-- The counts of a batch: `enrich_batch` in backend/app/services/enrichment.py.
use sales_lead_gen.Base.{
  ℕ, suc, ◌+◌, ◌≡◌, refl, sym, ap, ◌∙◌, Bool, not, ◌&&◌, List, [], ◌∷◌, ◌++◌, map, arith, ltb,
  is_some, length, select,
}
use mathlib.Core.List.{append-nil, append_assoc}
use sales_lead_gen.Enrichment.{
  EnrichmentResult, BatchEnrichmentResult, Gathered, returned, raised, result_of, count_result,
  count_results, enrich_batch,
}

abbrev pub is_failed : EnrichmentResult → Bool
is_failed r = is_some r.error

abbrev pub is_enriched : EnrichmentResult → Bool
is_enriched r = not (is_some r.error) && ltb 0 r.contacts_added

length-map {ℓ κ} :
    {A : Type ℓ} {B : Type κ} (f : A → B) (xs : List A) → length (map f xs) ≡ length xs
length-map f [] = refl
length-map f (x ∷ xs) = ap suc (length-map f xs)

length-select_cons {ℓ} :
    {A : Type ℓ} (p : A → Bool) (x : A) (xs : List A)
    → length (select p (x ∷ xs)) ≡ length (select p (x ∷ [])) + length (select p xs)
length-select_cons p x xs = ground arith

-- A batch after more results.
record HasCounted (gs : List Gathered) (b b' : BatchEnrichmentResult) : Type 0 where
  total : b'.total ≡ b.total
  results : b'.results ≡ b.results ++ map result_of gs
  failed : b'.failed ≡ b.failed + length (select is_failed (map result_of gs))
  enriched : b'.enriched ≡ b.enriched + length (select is_enriched (map result_of gs))

count_result-HasCounted :
    (g : Gathered) (b : BatchEnrichmentResult) → HasCounted (g ∷ []) b (count_result g b)
unfolding count_result
count_result-HasCounted (raised text) b = record {
  total = refl;
  results = refl;
  failed = omega arith;
  enriched = omega arith;
}
count_result-HasCounted (returned r) b = record {
  total = ground arith;
  results = ground arith;
  failed = ground arith;
  enriched = ground arith;
}

count_results-HasCounted :
    (gs : List Gathered) (b : BatchEnrichmentResult) → HasCounted gs b (count_results gs b)
unfolding count_results
count_results-HasCounted [] b = record {
  total = refl;
  results = sym (append-nil b.results);
  failed = omega arith;
  enriched = omega arith;
}
count_results-HasCounted (g ∷ gs) b =
    let c = count_result-HasCounted g b in
    let cs = count_results-HasCounted gs (count_result g b) in
    record {
      total = omega (arith, c.total, cs.total);
      results =
          cs.results
          ∙ ap (λ xs. xs ++ map result_of gs) c.results
          ∙ append_assoc b.results (result_of g ∷ []) (map result_of gs);
      failed = omega (
        arith,
        c.failed,
        cs.failed,
        length-select_cons is_failed (result_of g) (map result_of gs),
      );
      enriched = omega (
        arith,
        c.enriched,
        cs.enriched,
        length-select_cons is_enriched (result_of g) (map result_of gs),
      );
    }

-- A batch lists a result for each company, in the order of the companies, and an exception counts as
-- a result with an error. It counts as failed the results with an error, and as enriched those
-- without one that have added a contact.
pub enrich_batch_counts :
    (enrich_one : ℕ → Gathered) (company_ids : List ℕ)
    → (let b = enrich_batch enrich_one company_ids in
        let results = map result_of (map enrich_one company_ids) in
        (b.total ≡ length b.results)
        × (b.results ≡ results)
        × (b.failed ≡ length (select is_failed results))
        × (b.enriched ≡ length (select is_enriched results)))
unfolding enrich_batch
enrich_batch_counts enrich_one company_ids =
    let c =
      count_results-HasCounted (map enrich_one company_ids)
        (record { total = length company_ids; enriched = 0; failed = 0; results = [] }) in
    (
      c.total
          ∙ sym (
              ap length c.results
              ∙ length-map result_of (map enrich_one company_ids)
              ∙ length-map enrich_one company_ids),
      c.results,
      omega (arith, c.failed),
      omega (arith, c.enriched),
    )
