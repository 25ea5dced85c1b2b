-- ===== src/Enrichment/Hits.antt =====
-- What a hit of Hunter makes of the run of the providers: `_run_contact_waterfall` in
-- backend/app/services/enrichment.py.
use sales_lead_gen.Base.{
  ℕ, String, ◌≡◌, refl, ap, ◌∙◌, inl, inr, Bool, true, false, ◌&&◌, Option, none, some, List, [],
  ◌∷◌, ◌++◌, arith, str_eq, leb, if◌then◌else◌, Bool-cases, is_some, ltb, ◌≤◌, ◌<◌, map, select,
  All,
}
use sales_lead_gen.Models.{EmailStatus}
use sales_lead_gen.Enrichment.Contacts.{
  Source, hunter, gemini, scrapin, scraped_content, ContactRow, Env, Hunter, HunterEmail,
  hunter_contact, is_hunted, title_matches, is_target, hunter_status, try_hunter,
}
use sales_lead_gen.Enrichment.{
  EnrichmentResult, new_result, take_contacts, try_it, try_provider, run_provider, run_providers,
  run_contact_waterfall, remaining, has_verified, is_verified,
}

module _ (env : Env) (i : ℕ) (domain : String) where
  -- Once a verified contact is found, the providers that do not always run are skipped.
  run_providers-skipped :
      (ps : List (Source × Bool)) (s : EnrichmentResult × List ContactRow)
      → s.0.verified_found ≡ true
      → All (λ p. p.1 ≡ false) ps
      → run_providers env i domain ps s ≡ s
  unfolding run_providers
  run_providers-skipped [] s found h = refl
  run_providers-skipped ((p, always_run) ∷ ps) s found (h, hs) =
      rw (run_providers-skipped ps s found hs, h, found) (ground arith)

  -- A result once a verified contact is found by Hunter.
  record IsFound (s : EnrichmentResult × List ContactRow) : Type 0 where
    found : s.0.verified_found ≡ true
    used : s.0.provider_used ≡ some hunter

  take_contacts-tried :
      (p : Source) (cs : Option (List ContactRow)) (s : EnrichmentResult × List ContactRow)
      → (take_contacts env p i cs s).0.providers_tried ≡ s.0.providers_tried
  unfolding take_contacts
  take_contacts-tried p none s = refl
  take_contacts-tried p (some []) s = refl
  take_contacts-tried p (some (c ∷ cs)) s = refl

  take_contacts-IsFound :
      (p : Source) (cs : Option (List ContactRow)) (s : EnrichmentResult × List ContactRow)
      → IsFound s
      → IsFound (take_contacts env p i cs s)
  unfolding take_contacts
  take_contacts-IsFound p none s f = f
  take_contacts-IsFound p (some []) s f = f
  take_contacts-IsFound p (some (c ∷ cs)) (r, rows) f = record {
    found = rw f.found refl;
    used = rw f.used refl;
  }

  -- The contacts of a provider, one of which is verified and has a target title.
  take_contacts-verified :
      (cs : List ContactRow) (s : EnrichmentResult × List ContactRow)
      → has_verified env cs ≡ true
      → s.0.provider_used ≡ none
      → IsFound (take_contacts env hunter i (some cs) s)
  unfolding take_contacts
  take_contacts-verified [] s v none_used = cc
  take_contacts-verified (c ∷ cs) (r, rows) v none_used = record {
    found = ground arith;
    used = rw none_used refl;
  }

-- An address that Hunter returns for a target: it has an email, a title that matches one of the
-- keywords, and a confidence of at least 90.
pub record IsHit (env : Env) (e : HunterEmail) : Type 0 where
  pub title : String
  pub has_email : str_eq e.value "" ≡ false
  pub has_title : e.position ≡ some title
  pub not_blank : str_eq title "" ≡ false
  pub matching : title_matches env title ≡ true
  pub confident : 90 ≤ e.confidence

-- Whether Gemini is set up and has time left when its turn comes.
abbrev pub gemini_runs : Env → Bool
gemini_runs env = is_some env.gemini && ltb (env.elapsed gemini) 60

module _ (env : Env) (client : Hunter) where
  matching-is_target :
      (o : Option String) (title : String)
      → o ≡ some title
      → str_eq title "" ≡ false
      → title_matches env title ≡ true
      → is_target env o ≡ true
  matching-is_target o title e full m = rw e (rw full m)

  has_verified-first :
      (c : ContactRow) (cs : List ContactRow)
      → is_verified c.email_status ≡ true
      → is_target env c.title ≡ true
      → has_verified env (c ∷ cs) ≡ true
  has_verified-first c cs v t = ground arith

  has_verified-rest :
      (c : ContactRow) (cs : List ContactRow)
      → has_verified env cs ≡ true
      → has_verified env (c ∷ cs) ≡ true
  has_verified-rest c cs v =
      elim (Bool-cases (is_verified c.email_status && is_target env c.title)) [
        | inl e ↦ rw e refl
        | inr e ↦ rw e v
      ]

  hit-has_verified :
      (e : HunterEmail) (cs : List HunterEmail)
      → IsHit env e
      → has_verified env (map (hunter_contact env client) (select (is_hunted env) (e ∷ cs))) ≡ true
  hit-has_verified e cs h =
      let target = matching-is_target e.position h.title h.has_title h.not_blank h.matching in
      let hunted : is_hunted env e ≡ true = ground arith in
      let sure : hunter_status client e ≡ EmailStatus.verified = ground arith in
      let kept : is_verified (some (hunter_status client e)) ≡ true = rw sure refl in
      rw hunted (
        has_verified-first (hunter_contact env client e)
          (map (hunter_contact env client) (select (is_hunted env) cs)) kept target)

  hits-has_verified :
      (before after : List HunterEmail) (e : HunterEmail)
      → IsHit env e
      → has_verified env
          (map (hunter_contact env client) (select (is_hunted env) (before ++ e ∷ after)))
        ≡ true
  hits-has_verified [] after e h = hit-has_verified e after h
  hits-has_verified (x ∷ xs) after e h =
      let rest = hits-has_verified xs after e h in
      elim (Bool-cases (is_hunted env x)) [
        | inl a ↦ rw a (
            has_verified-rest (hunter_contact env client x)
              (map (hunter_contact env client) (select (is_hunted env) (xs ++ e ∷ after))) rest)
        | inr a ↦ rw a rest
      ]

  try_hunter-hits :
      (domain : String) (results : List HunterEmail)
      → env.hunter ≡ some client
      → client.domain_search domain ≡ some results
      → try_hunter env domain
        ≡ some (map (hunter_contact env client) (select (is_hunted env) results))
  unfolding try_hunter title_matches
  try_hunter-hits domain results there found = rw (there, try_hunter) (rw found refl)

  run_provider-hunter :
      (i : ℕ) (domain : String) (before after : List HunterEmail) (e : HunterEmail)
      (rows : List ContactRow)
      → env.hunter ≡ some client
      → client.domain_search domain ≡ some (before ++ e ∷ after)
      → IsHit env e
      → env.on_time hunter ≡ true
      → (let s = run_provider env hunter i domain (new_result i, rows) in
          IsFound env i domain s × (s.0.providers_tried ≡ hunter ∷ []))
  unfolding run_provider try_provider
  run_provider-hunter i domain before after e rows there found hit early =
      let contacts =
        map (hunter_contact env client) (select (is_hunted env) (before ++ e ∷ after)) in
      let s : EnrichmentResult × List ContactRow = (try_it hunter (new_result i), rows) in
      rw early (
        rw (try_hunter-hits domain (before ++ e ∷ after) there found) (
          take_contacts-verified env i domain contacts s (hits-has_verified before after e hit)
              refl,
          take_contacts-tried env i domain hunter (some contacts) s,
        ))

and-false : (b : Bool) → (b && false) ≡ false
and-false true = refl
and-false false = refl

-- The providers after a hit of Hunter: Gemini if it runs, and none of the others.
module _ (env : Env) (i : ℕ) (domain : String) (s : EnrichmentResult × List ContactRow)
    (f : IsFound env i domain s) (tried : s.0.providers_tried ≡ hunter ∷ []) where
  abbrev others : List (Source × Bool)
  others = (scrapin, false) ∷ (scraped_content, false) ∷ []

  run_providers-gemini :
      (let t = run_providers env i domain ((gemini, true) ∷ others) s in
        IsFound env i domain t
        × (t.0.providers_tried ≡ hunter ∷ (if gemini_runs env then gemini ∷ [] else [])))
  unfolding run_providers run_provider
  run_providers-gemini =
      let contacts = if env.on_time gemini then try_provider env gemini domain i s.1 else none in
      let t = take_contacts env gemini i contacts (try_it gemini s.0, s.1) in
      let f' : IsFound env i domain t =
        take_contacts-IsFound env i domain gemini contacts (try_it gemini s.0, s.1)
          record { found = f.found; used = f.used } in
      let stay = run_providers-skipped env i domain others s f.found (refl, (refl, tt)) in
      let stop = run_providers-skipped env i domain others t f'.found (refl, (refl, tt)) in
      let tried' = take_contacts-tried env i domain gemini contacts (try_it gemini s.0, s.1) in
      elim (Bool-cases (is_some env.gemini)) [
        | inr off ↦ rw (off, stay) (f, tried)
        | inl on ↦ elim (Bool-cases (leb (remaining env gemini) 0)) [
          | inl late ↦
              let over : ltb (env.elapsed gemini) 60 ≡ false = ground arith in
              rw (on, and-false s.0.verified_found, late, over) (f, tried)
          | inr early ↦
              let more : ltb (env.elapsed gemini) 60 ≡ true = ground arith in
              rw (on, and-false s.0.verified_found, early, more)
                (rw stop (f', tried' ∙ ap (λ (ps : List Source). ps ++ gemini ∷ []) tried))
        ]
      ]

-- When Hunter runs in time and returns, in any place, an address with an email, a target title and a
-- confidence of at least 90, a verified contact is found, the provider noted as used is Hunter, and the
-- only provider that can be tried after it is Gemini, which is tried if it is set up and time remains
-- when its turn comes. Neither ScrapIn nor the extraction from the cached pages is tried.
pub run_contact_waterfall_stops :
    (env : Env) (client : Hunter) (i : ℕ) (domain : String) (before after : List HunterEmail)
    (e : HunterEmail) (rows : List ContactRow)
    → env.hunter ≡ some client
    → client.domain_search domain ≡ some (before ++ e ∷ after)
    → IsHit env e
    → env.elapsed hunter < 60
    → env.on_time hunter ≡ true
    → (let r = (run_contact_waterfall env i domain (new_result i, rows)).0 in
        (r.verified_found ≡ true)
        × (r.provider_used ≡ some hunter)
        × (r.providers_tried ≡ hunter ∷ (if gemini_runs env then gemini ∷ [] else [])))
unfolding run_contact_waterfall run_providers
run_contact_waterfall_stops env client i domain before after e rows there found hit early in_time =
    let (f, tried) =
      run_provider-hunter env client i domain before after e rows there found hit in_time in
    let end =
      run_providers-gemini env i domain (run_provider env hunter i domain (new_result i, rows)) f
        tried in
    let time : leb (remaining env hunter) 0 ≡ false = ground arith in
    let ready : is_some env.hunter ≡ true = ap is_some there in
    rw (ready, time) (end.0.found, end.0.used, end.1)
