-- ===== src/Enrichment/Storage.antt =====
-- What is stored of the contacts that a provider returns: backend/app/services/enrichment.py.
use sales_lead_gen.Base.{
  ℕ, suc, ◌+◌, String, ◌≡◌, refl, sym, ap, ◌∙◌, inl, inr, true, false, ◌||◌, Option, none, some,
  List, [], ◌∷◌, ◌++◌, map, arith, eq_iff, ◌==◌, ==_iff, Bool-cases, Option-cases, length, All,
}
use mathlib.Core.List.{append-nil, append_assoc}
use sales_lead_gen.Dedup.Rows.{contains, keys_of, add_key, is_taken}
use sales_lead_gen.Dedup.Keys.{IsDistinct, contains-add_key_self, contains-is_taken}
use sales_lead_gen.Enrichment.Contacts.{ContactRow, keys}
use sales_lead_gen.Enrichment.{contact_owner, email_key, store_each, store_contacts}

contains-append :
    (k : String) (xs ys : List String) → contains k (xs ++ ys) ≡ contains k xs || contains k ys
unfolding contains
contains-append k [] ys = refl
contains-append k (x ∷ xs) ys = ground (arith, contains-append k xs ys)

IsDistinct-snoc :
    (k : String) (xs : List String)
    → IsDistinct xs
    → contains k xs ≡ false
    → IsDistinct (xs ++ k ∷ [])
unfolding contains
IsDistinct-snoc k [] h n = (refl, tt)
IsDistinct-snoc k (x ∷ xs) (p, h) n = (
  ground (arith, contains-append x xs (k ∷ []), eq_iff x k, eq_iff k x),
  IsDistinct-snoc k xs h (ground arith),
)

All-keys :
    (P : String → Type 0) (o : Option String) (os : List (Option String))
    → ((k : String) → o ≡ some k → P k)
    → All P (keys os)
    → All P (keys (o ∷ os))
All-keys P none os f h = h
All-keys P (some k) os f h = (f k refl, h)

abbrev listed : Option String → List String
listed none = []
listed (some k) = k ∷ []

IsDistinct-listed :
    (o : Option String) (existing xs : List String)
    → IsDistinct xs
    → ((k : String) → contains k existing ≡ contains k xs)
    → is_taken o existing ≡ false
    → IsDistinct (xs ++ listed o)
IsDistinct-listed none existing xs h same new = rw (append-nil xs) h
IsDistinct-listed (some k) existing xs h same new = IsDistinct-snoc k xs h (sym (same k) ∙ new)

module _ (lower : String → String) (i : ℕ) where
  -- The emails of the company's contacts, in lower case.
  abbrev pub emails_of : List ContactRow → List String
  emails_of rows = keys_of contact_owner (email_key lower) i rows

  abbrev assign : ContactRow → ContactRow
  assign c = record c { company_id = i }

  emails_of-snoc :
      (c : ContactRow) (rows : List ContactRow)
      → emails_of (rows ++ assign c ∷ []) ≡ emails_of rows ++ listed (email_key lower c)
  unfolding keys_of
  emails_of-snoc c [] = elim (Option-cases (email_key lower c)) [
    | inl e ↦ rw (e, (==_iff i i).1 refl) refl
    | inr (k, e) ↦ rw (e, (==_iff i i).1 refl) refl
  ]
  emails_of-snoc c (r ∷ rows) = elim (Bool-cases (r.company_id == i)) [
    | inr other ↦ rw other (emails_of-snoc c rows)
    | inl own ↦ elim (Option-cases (email_key lower r)) [
      | inl e ↦ rw (own, e) (emails_of-snoc c rows)
      | inr (k, e) ↦ rw (own, e) (ap (λ ks. k ∷ ks) (emails_of-snoc c rows))
    ]
  ]

  -- The table has grown by rows of the company, as many as were counted.
  pub record IsGrown (s t : ℕ × List ContactRow) : Type 0 where
    pub new_rows : List ContactRow
    pub appended : t.1 ≡ s.1 ++ new_rows
    pub counted : t.0 ≡ s.0 + length new_rows
    pub owned : All (λ (c : ContactRow). c.company_id ≡ i) new_rows

  -- The emails that the loop knows are those of the table.
  abbrev IsKnown : List String → List ContactRow → Type 0
  IsKnown existing rows = (k : String) → contains k existing ≡ contains k (emails_of rows)

  IsKnown-add_key :
      (c : ContactRow) (existing : List String) (rows : List ContactRow)
      → IsKnown existing rows
      → IsKnown (add_key (email_key lower c) existing) (rows ++ assign c ∷ [])
  unfolding contains
  IsKnown-add_key c existing rows h k = elim (Option-cases (email_key lower c)) [
    | inl e ↦
        rw
          (
            emails_of-snoc c rows,
            contains-append k (emails_of rows) (listed (email_key lower c)),
            e,
          )
          (ground (arith, h k))
    | inr (j, e) ↦
        rw
          (
            emails_of-snoc c rows,
            contains-append k (emails_of rows) (listed (email_key lower c)),
            e,
          )
          (ground (arith, h k))
  ]

  store_each-IsGrown :
      (cs : List ContactRow) (existing : List String) (added : ℕ) (rows : List ContactRow)
      → IsGrown (added, rows) (store_each lower i existing cs (added, rows))
  unfolding store_each
  store_each-IsGrown [] existing added rows = record {
    new_rows = [];
    appended = sym (append-nil rows);
    counted = omega arith;
    owned = tt;
  }
  store_each-IsGrown (c ∷ cs) existing added rows =
      elim (Bool-cases (is_taken (email_key lower c) existing)) [
        | inl taken ↦ rw taken (store_each-IsGrown cs existing added rows)
        | inr new ↦
            let g =
              store_each-IsGrown cs (add_key (email_key lower c) existing) (suc added)
                (rows ++ assign c ∷ []) in
            rw new record {
              new_rows = assign c ∷ g.new_rows;
              appended = g.appended ∙ append_assoc rows (assign c ∷ []) g.new_rows;
              counted = omega (arith, g.counted);
              owned = (refl, g.owned);
            }
      ]

  store_each-IsDistinct :
      (cs : List ContactRow) (existing : List String) (added : ℕ) (rows : List ContactRow)
      → IsKnown existing rows
      → IsDistinct (emails_of rows)
      → IsDistinct (emails_of (store_each lower i existing cs (added, rows)).1)
  unfolding store_each
  store_each-IsDistinct [] existing added rows known distinct = distinct
  store_each-IsDistinct (c ∷ cs) existing added rows known distinct =
      elim (Bool-cases (is_taken (email_key lower c) existing)) [
        | inl taken ↦ rw taken (store_each-IsDistinct cs existing added rows known distinct)
        | inr new ↦ rw new (
            store_each-IsDistinct cs (add_key (email_key lower c) existing) (suc added)
              (rows ++ assign c ∷ []) (IsKnown-add_key c existing rows known)
              (rw (emails_of-snoc c rows) (
                IsDistinct-listed (email_key lower c) existing (emails_of rows) distinct (known)
                  new)))
      ]

  store_each-keeps :
      (k : String) (cs : List ContactRow) (existing : List String) (added : ℕ)
      (rows : List ContactRow)
      → contains k (emails_of rows) ≡ true
      → contains k (emails_of (store_each lower i existing cs (added, rows)).1) ≡ true
  unfolding store_each
  store_each-keeps k [] existing added rows h = h
  store_each-keeps k (c ∷ cs) existing added rows h =
      elim (Bool-cases (is_taken (email_key lower c) existing)) [
        | inl taken ↦ rw taken (store_each-keeps k cs existing added rows h)
        | inr new ↦ rw new (
            store_each-keeps k cs (add_key (email_key lower c) existing) (suc added)
              (rows ++ assign c ∷ [])
              (rw
                (
                  emails_of-snoc c rows,
                  contains-append k (emails_of rows) (listed (email_key lower c)),
                )
                (ground (arith, h))))
      ]

  -- The email of each contact is in the table in the end.
  store_each-stores :
      (cs : List ContactRow) (existing : List String) (added : ℕ) (rows : List ContactRow)
      → IsKnown existing rows
      → All
          (λ k. contains k (emails_of (store_each lower i existing cs (added, rows)).1) ≡ true)
          (keys (map (email_key lower) cs))
  unfolding store_each
  store_each-stores [] existing added rows known = tt
  store_each-stores (c ∷ cs) existing added rows known =
      elim (Bool-cases (is_taken (email_key lower c) existing)) [
        | inl taken ↦ rw taken (
            All-keys _ (email_key lower c) (map (email_key lower) cs)
              (λ k e.
                store_each-keeps k cs existing added rows (
                  sym (known k) ∙ sym (contains-is_taken k (email_key lower c) existing e) ∙ taken))
              (store_each-stores cs existing added rows known))
        | inr new ↦
            let existing' = add_key (email_key lower c) existing in
            let rows' = rows ++ assign c ∷ [] in
            let known' = IsKnown-add_key c existing rows known in
            rw new (
              All-keys _ (email_key lower c) (map (email_key lower) cs)
                (λ k e.
                  store_each-keeps k cs existing' (suc added) rows'
                    (sym (known' k) ∙ contains-add_key_self k (email_key lower c) existing e))
                (store_each-stores cs existing' (suc added) rows' known'))
      ]

-- Of the contacts that a provider returns, rows of the company are added, as many as are counted. The
-- company's emails, in lower case, stay different, and those of all the contacts are there then.
pub store_contacts_once :
    (lower : String → String) (i : ℕ) (cs rows : List ContactRow)
    → IsDistinct (emails_of lower i rows)
    → (let t = store_contacts lower i cs rows in
        IsGrown lower i (0, rows) t
        × IsDistinct (emails_of lower i t.1)
        × All (λ k. contains k (emails_of lower i t.1) ≡ true) (keys (map (email_key lower) cs)))
unfolding store_contacts
store_contacts_once lower i cs rows distinct = (
  store_each-IsGrown lower i cs _ 0 rows,
  store_each-IsDistinct lower i cs _ 0 rows (λ k. refl) distinct,
  store_each-stores lower i cs _ 0 rows (λ k. refl),
)
