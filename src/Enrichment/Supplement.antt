-- ===== src/Enrichment/Supplement.antt =====
-- What Gemini adds to the contacts that are known: `_try_gemini` in backend/app/services/enrichment.py.
use sales_lead_gen.Base.{
  ℕ, String, ◌≡◌, refl, subst, ◌⊎◌, inl, inr, true, false, not, ◌||◌, Option, none, some, List, [],
  ◌∷◌, map, arith, str_eq, Bool-cases, Option-cases, All,
}
use sales_lead_gen.Dedup.Rows.{contains, add_key, is_taken}
use sales_lead_gen.Enrichment.Contacts.{
  ContactRow, Env, ExtractedContact, KnownContact, supplements, keys, text_key, name_key, is_target,
  gemini_contact, supplement, existing_emails, existing_names, load_existing_contacts, try_gemini,
  get_cached_content,
}

-- The keys are different from each other and from those that are known.
abbrev pub AreNew : List String → List String → Type 0
AreNew known [] = Unit
AreNew known (k ∷ ks) = (contains k known ≡ false) × AreNew (k ∷ known) ks

AreNew-add_key :
    (o : Option String) (known : List String) (os : List (Option String))
    → is_taken o known ≡ false
    → AreNew (add_key o known) (keys os)
    → AreNew known (keys (o ∷ os))
AreNew-add_key none known os new h = h
AreNew-add_key (some k) known os new h = (new, h)

abbrev pub emails_in : Env → List ContactRow → List String
emails_in env cs = keys (map (λ (c : ContactRow). text_key env.texts.lower c.email) cs)

abbrev pub names_in : Env → List ContactRow → List String
names_in env cs = keys (map (λ (c : ContactRow). name_key env c.name) cs)

-- A contact that the model takes for a decision maker, or with a target title.
abbrev pub IsDecisionMaker : Env → ContactRow → Type 0
IsDecisionMaker env c = (c.confidence_score ≡ 60) ⊎ (is_target env c.title ≡ true)

pub record IsSupplement (env : Env) (emails names : List String) (cs : List ContactRow)
    : Type 0 where
  pub new_emails : AreNew emails (emails_in env cs)
  pub new_names : AreNew names (names_in env cs)
  pub decision_makers : All (IsDecisionMaker env) cs

gemini_contact-IsDecisionMaker :
    (env : Env) (ec : ExtractedContact)
    → not (ec.is_decision_maker || is_target env ec.title) ≡ false
    → IsDecisionMaker env (gemini_contact env ec)
gemini_contact-IsDecisionMaker env ec h = elim (Bool-cases ec.is_decision_maker) [
  | inl flagged ↦ inl (rw flagged refl)
  | inr unflagged ↦ inr (ground (arith, h, unflagged))
]

supplement-IsSupplement :
    (env : Env) (emails names : List String) (ecs : List ExtractedContact)
    → IsSupplement env emails names (supplement env emails names ecs)
unfolding supplement
supplement-IsSupplement env emails names [] = record {
  new_emails = tt;
  new_names = tt;
  decision_makers = tt;
}
supplement-IsSupplement env emails names (ec ∷ ecs) =
    let skipped = supplement-IsSupplement env emails names ecs in
    let email_key = text_key env.texts.lower ec.email in
    let kept =
      supplement-IsSupplement env (add_key email_key emails) (add_key (name_key env ec.name) names)
        ecs in
    elim (Bool-cases (str_eq ec.name "")) [
      | inl empty ↦ rw empty skipped
      | inr full ↦ elim (Bool-cases (is_taken email_key emails)) [
        | inl taken ↦ rw (full, taken) skipped
        | inr free ↦ elim (Bool-cases (is_taken (name_key env ec.name) names)) [
          | inl named ↦ rw (full, free, named) skipped
          | inr fresh ↦ elim (Bool-cases (not (ec.is_decision_maker || is_target env ec.title))) [
            | inl minor ↦ rw (full, free, fresh, minor) skipped
            | inr major ↦
                rw (full, free, fresh, major)
                  record {
                    new_emails = AreNew-add_key email_key emails _ free kept.new_emails;
                    new_names = AreNew-add_key (name_key env ec.name) names _ fresh kept.new_names;
                    decision_makers =
                        (gemini_contact-IsDecisionMaker env ec major, kept.decision_makers);
                  }
          ]
        ]
      ]
    ]

supplements-IsSupplement :
    (env : Env) (known : List KnownContact) (o : Option (List ExtractedContact))
    → IsSupplement env
        (existing_emails env known)
        (existing_names env known)
        (supplements env known o)
supplements-IsSupplement env known none = record {
  new_emails = tt;
  new_names = tt;
  decision_makers = tt;
}
supplements-IsSupplement env known (some extracted) =
    supplement-IsSupplement env (existing_emails env known) (existing_names env known) extracted

some-injective {ℓ} : {A : Type ℓ} (x y : A) → some x ≡ some y → x ≡ y
some-injective x y e = cc e

-- The contacts that Gemini adds are decision makers by the model's judgement or by their title. No two
-- of them share an email or a name, and none shares one with a contact of the company in the table,
-- where emails are compared in lower case, and names without blanks too.
pub try_gemini-IsSupplement :
    (env : Env) (domain : String) (i : ℕ) (rows cs : List ContactRow)
    → try_gemini env domain i rows ≡ some cs
    → IsSupplement env
        (existing_emails env (load_existing_contacts i rows))
        (existing_names env (load_existing_contacts i rows))
        cs
unfolding try_gemini
try_gemini-IsSupplement env domain i rows cs found = elim (Option-cases env.gemini) [
  | inl off ↦ cc (simp (off, try_gemini) at found)
  | inr (find_contacts, on) ↦
      let known = load_existing_contacts i rows in
      subst (IsSupplement env (existing_emails env known) (existing_names env known))
        (some-injective _ cs (simp (on, try_gemini) at found))
        (supplements-IsSupplement env known (find_contacts known (get_cached_content env domain i)))
]
