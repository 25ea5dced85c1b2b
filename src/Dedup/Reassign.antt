-- ===== src/Dedup/Reassign.antt =====
-- What the loop of a merge does to any rows: nothing stays with the duplicate, no key is lost, keys
-- that were unique stay unique, and the rows of others stay as they are.
use sales_lead_gen.Base.{
  ℕ, String, ◌≡◌, refl, sym, ap, ◌∙◌, ◌≢◌, ◌⊎◌, inl, inr, true, false, Option, List, [], ◌∷◌, arith,
  ◌==◌, ==_iff, Bool-cases, Option-cases, select, All,
}
use mathlib.Core.Bool.{false≢true}
use sales_lead_gen.Dedup.Keys.{
  IsDistinct, IsDistinct-add_key, IsDistinct-add_key_tail, IsDistinct-add_key_head,
  contains-add_key_cases, contains-add_key_self, contains-add_key_tail, contains-add_key-false,
  contains-is_taken, is_taken-false,
}
use sales_lead_gen.Dedup.Rows.{contains, keys_of, add_key, is_taken, reassign}

module _ {R : Type 0} (owner : R → ℕ) (move : ℕ → R → R) (key : R → Option String)
    (owner-move : (i : ℕ) (r : R) → owner (move i r) ≡ i)
    (key-move : (i : ℕ) (r : R) → key (move i r) ≡ key r) (primary duplicate : ℕ)
    (apart : primary ≢ duplicate) where
  abbrev out : List String → List R → List R
  out = reassign owner move key primary duplicate

  abbrev keys : ℕ → List R → List String
  keys = keys_of owner key

  pub reassign-leaves_none :
      (existing : List String) (rs : List R) → All (λ r. owner r ≢ duplicate) (out existing rs)
  unfolding reassign
  reassign-leaves_none existing [] = tt
  reassign-leaves_none existing (r ∷ rs) = elim (Bool-cases (owner r == duplicate)) [
    | inl e ↦ elim (Bool-cases (is_taken (key r) existing)) [
      | inl x ↦ rw (e, x) (reassign-leaves_none existing rs)
      | inr x ↦
          rw (e, x)
            (
              (λ h. apart (sym (owner-move primary r) ∙ h)),
              reassign-leaves_none (add_key (key r) existing) rs,
            )
    ]
    | inr e ↦
        rw e ((λ h. ground (arith, ==_iff (owner r) duplicate)), reassign-leaves_none existing rs)
  ]

  pub reassign-others :
      (j : ℕ) (existing : List String) (rs : List R)
      → j ≢ primary
      → j ≢ duplicate
      → select (λ r. owner r == j) (out existing rs) ≡ select (λ r. owner r == j) rs
  unfolding reassign
  reassign-others j existing [] p q = refl
  reassign-others j existing (r ∷ rs) p q = elim (Bool-cases (owner r == duplicate)) [
    | inl e ↦
        let other : (owner r == j) ≡ false = ground arith in
        let moved : (owner (move primary r) == j) ≡ false =
          rw (owner-move primary r) (ground arith) in
        elim (Bool-cases (is_taken (key r) existing)) [
          | inl x ↦ rw (e, x, other) (reassign-others j existing rs p q)
          | inr x ↦
              rw (e, x, other) (rw moved (reassign-others j (add_key (key r) existing) rs p q))
        ]
    | inr e ↦ rw e (rw (reassign-others j existing rs p q))
  ]

  keys-own :
      (i : ℕ) (r : R) (rs : List R) → owner r ≡ i → keys i (r ∷ rs) ≡ add_key (key r) (keys i rs)
  unfolding keys_of
  keys-own i r rs e =
      rw ((==_iff (owner r) i).1 e)
        (elim (Option-cases (key r)) [ inl n ↦ rw n | inr (k, n) ↦ rw n ])

  keys-other : (i : ℕ) (r : R) (rs : List R) → owner r ≢ i → keys i (r ∷ rs) ≡ keys i rs
  unfolding keys_of
  keys-other i r rs ne = let e : (owner r == i) ≡ false = ground arith in rw e

  -- The four ways in which the loop treats a row.
  data Treats (ex : List String) (r : R) (rs : List R) : Type 0 where
    drops :
        owner r ≡ duplicate
        → is_taken (key r) ex ≡ true
        → out ex (r ∷ rs) ≡ out ex rs
        → Treats ex r rs
    moves :
        owner r ≡ duplicate
        → is_taken (key r) ex ≡ false
        → out ex (r ∷ rs) ≡ move primary r ∷ out (add_key (key r) ex) rs
        → Treats ex r rs
    owns : owner r ≡ primary → out ex (r ∷ rs) ≡ r ∷ out ex rs → Treats ex r rs
    passes :
        owner r ≢ primary → owner r ≢ duplicate → out ex (r ∷ rs) ≡ r ∷ out ex rs → Treats ex r rs

  treats : (ex : List String) (r : R) (rs : List R) → Treats ex r rs
  unfolding reassign
  treats ex r rs = elim (Bool-cases (owner r == duplicate)) [
    | inl e ↦
        let at = (==_iff (owner r) duplicate).0 e in
        elim (Bool-cases (is_taken (key r) ex)) [
          | inl x ↦ drops at x (rw (e, x))
          | inr x ↦ moves at x (rw (e, x))
        ]
    | inr e ↦ elim (Bool-cases (owner r == primary)) [
      | inl p ↦ owns ((==_iff (owner r) primary).0 p) (rw e)
      | inr p ↦ passes (λ h. ground arith) (λ h. ground arith) (rw e)
    ]
  ]

  -- The keys of the primary after a row was moved to it.
  keys-moved :
      (r : R) (rs : List R) → keys primary (move primary r ∷ rs) ≡ add_key (key r) (keys primary rs)
  keys-moved r rs =
      keys-own primary (move primary r) rs (owner-move primary r)
      ∙ ap (λ k. add_key k (keys primary rs)) (key-move primary r)

  not_primary : (r : R) → owner r ≡ duplicate → owner r ≢ primary
  not_primary r d p = apart (sym p ∙ d)

  -- The primary keeps its keys.
  pub reassign-keeps :
      (k : String) (ex : List String) (rs : List R)
      → contains k (keys primary rs) ≡ true
      → contains k (keys primary (out ex rs)) ≡ true
  unfolding reassign
  reassign-keeps k ex [] h = h
  reassign-keeps k ex (r ∷ rs) h = elim (treats ex r rs) [
    | drops d x e ↦
        rw e (reassign-keeps k ex rs (rw (keys-other primary r rs (not_primary r d)) at h))
    | moves d x e ↦
        rw (e, keys-moved r (out (add_key (key r) ex) rs))
          (contains-add_key_tail k (key r) _ (
            reassign-keeps k (add_key (key r) ex) rs
              (rw (keys-other primary r rs (not_primary r d)) at h)))
    | owns p e ↦
        rw (e, keys-own primary r (out ex rs) p)
          (elim (contains-add_key_cases k (key r) (keys primary rs)
            (rw (keys-own primary r rs p) at h)) [
              | inl own ↦ contains-add_key_self k (key r) _ own
              | inr later ↦ contains-add_key_tail k (key r) _ (reassign-keeps k ex rs later)
            ])
    | passes p d e ↦
        rw (e, keys-other primary r (out ex rs) p)
          (reassign-keeps k ex rs (rw (keys-other primary r rs p) at h))
  ]

  -- Each key of the duplicate is a key of the primary afterwards, or existed already.
  pub reassign-gains :
      (k : String) (ex : List String) (rs : List R)
      → contains k (keys duplicate rs) ≡ true
      → (contains k (keys primary (out ex rs)) ≡ true) ⊎ (contains k ex ≡ true)
  unfolding reassign keys_of
  reassign-gains k ex [] h = inl h
  reassign-gains k ex (r ∷ rs) h = elim (treats ex r rs) [
    | drops d x e ↦
        rw e
          (elim (contains-add_key_cases k (key r) (keys duplicate rs)
            (rw (keys-own duplicate r rs d) at h)) [
              | inl own ↦ inr (sym (contains-is_taken k (key r) ex own) ∙ x)
              | inr later ↦ reassign-gains k ex rs later
            ])
    | moves d x e ↦
        rw (e, keys-moved r (out (add_key (key r) ex) rs))
          (elim (contains-add_key_cases k (key r) (keys duplicate rs)
            (rw (keys-own duplicate r rs d) at h)) [
              | inl own ↦ inl (contains-add_key_self k (key r) _ own)
              | inr later ↦ elim (reassign-gains k (add_key (key r) ex) rs later) [
                | inl there ↦ inl (contains-add_key_tail k (key r) _ there)
                | inr known ↦ elim (contains-add_key_cases k (key r) ex known) [
                  | inl own ↦ inl (contains-add_key_self k (key r) _ own)
                  | inr old ↦ inr old
                ]
              ]
            ])
    | owns p e ↦
        rw (e, keys-own primary r (out ex rs) p)
          (elim (reassign-gains k ex rs
            (rw (keys-other duplicate r rs (λ d. apart (sym p ∙ d))) at h)) [
              | inl there ↦ inl (contains-add_key_tail k (key r) _ there)
              | inr old ↦ inr old
            ])
    | passes p d e ↦
        rw (e, keys-other primary r (out ex rs) p)
          (reassign-gains k ex rs (rw (keys-other duplicate r rs d) at h))
  ]

  -- What exists already includes the primary's keys.
  abbrev Knows : List String → List R → Type 0
  Knows ex rs = (k : String) → contains k (keys primary rs) ≡ true → contains k ex ≡ true

  -- Each key of the primary afterwards was its own or is new.
  reassign-adds_new :
      (k : String) (ex : List String) (rs : List R)
      → contains k (keys primary (out ex rs)) ≡ true
      → (contains k (keys primary rs) ≡ true) ⊎ (contains k ex ≡ false)
  unfolding reassign
  reassign-adds_new k ex [] h = inl h
  reassign-adds_new k ex (r ∷ rs) h = elim (treats ex r rs) [
    | drops d x e ↦
        rw (keys-other primary r rs (not_primary r d)) (reassign-adds_new k ex rs (rw e at h))
    | moves d x e ↦
        rw (keys-other primary r rs (not_primary r d))
          (elim (contains-add_key_cases k (key r) _
            (rw (e, keys-moved r (out (add_key (key r) ex) rs)) at h)) [
              | inl own ↦ inr (sym (contains-is_taken k (key r) ex own) ∙ x)
              | inr later ↦ elim (reassign-adds_new k (add_key (key r) ex) rs later) [
                | inl old ↦ inl old
                | inr new ↦ inr (contains-add_key-false k (key r) ex new)
              ]
            ])
    | owns p e ↦
        rw (keys-own primary r rs p)
          (elim (contains-add_key_cases k (key r) _
            (rw (e, keys-own primary r (out ex rs) p) at h)) [
              | inl own ↦ inl (contains-add_key_self k (key r) _ own)
              | inr later ↦ elim (reassign-adds_new k ex rs later) [
                | inl old ↦ inl (contains-add_key_tail k (key r) _ old)
                | inr new ↦ inr new
              ]
            ])
    | passes p d e ↦
        rw (keys-other primary r rs p)
          (reassign-adds_new k ex rs (rw (e, keys-other primary r (out ex rs) p) at h))
  ]

  pub reassign-IsDistinct :
      (ex : List String) (rs : List R)
      → Knows ex rs
      → IsDistinct (keys primary rs)
      → IsDistinct (keys primary (out ex rs))
  unfolding reassign
  reassign-IsDistinct ex [] known h = h
  reassign-IsDistinct ex (r ∷ rs) known h = elim (treats ex r rs) [
    | drops d x e ↦
        let same = keys-other primary r rs (not_primary r d) in
        rw e (reassign-IsDistinct ex rs (λ k c. known k (rw same c)) (rw same at h))
    | moves d x e ↦
        let same = keys-other primary r rs (not_primary r d) in
        let ex' : List String = add_key (key r) ex in
        let ih =
          reassign-IsDistinct ex' rs
            (λ k c. contains-add_key_tail k (key r) ex (known k (rw same c))) (rw same at h) in
        rw (e, keys-moved r (out ex' rs))
          (IsDistinct-add_key (key r) (keys primary (out ex' rs)) ih (
            is_taken-false (key r) (keys primary (out ex' rs)) λ k own c.
              elim (reassign-adds_new k ex' rs c) [
                | inl old ↦
                    false≢true (sym x ∙ contains-is_taken k (key r) ex own ∙ known k (rw same old))
                | inr new ↦ false≢true (sym new ∙ contains-add_key_self k (key r) ex own)
              ]))
    | owns p e ↦
        let same = keys-own primary r rs p in
        let h' = rw same at h in
        let ih =
          reassign-IsDistinct ex rs (λ k c. known k (rw same (contains-add_key_tail k (key r) _ c)))
            (IsDistinct-add_key_tail (key r) (keys primary rs) h') in
        rw (e, keys-own primary r (out ex rs) p)
          (IsDistinct-add_key (key r) (keys primary (out ex rs)) ih (
            is_taken-false (key r) (keys primary (out ex rs)) λ k own c.
              elim (reassign-adds_new k ex rs c) [
                | inl old ↦ false≢true (
                    sym (IsDistinct-add_key_head (key r) (keys primary rs) h')
                    ∙ contains-is_taken k (key r) (keys primary rs) own
                    ∙ old)
                | inr new ↦ false≢true (
                    sym new
                    ∙ known k (rw same (contains-add_key_self k (key r) (keys primary rs) own)))
              ]))
    | passes p d e ↦
        let same = keys-other primary r rs p in
        rw (e, keys-other primary r (out ex rs) p)
          (reassign-IsDistinct ex rs (λ k c. known k (rw same c)) (rw same at h))
  ]
