-- ===== src/Dedup/Keys.antt =====
-- How the keys that a merge has seen grow: `existing_emails` and `existing_hashes` in
-- backend/app/services/deduplication.py.
use sales_lead_gen.Base.{
  String, ◌≡◌, refl, ap, ◌⊎◌, inl, inr, true, false, Option, none, some, List, [], ◌∷◌, arith,
  eq_iff, Bool-cases,
}
use sales_lead_gen.Dedup.Rows.{contains, add_key, is_taken}

-- No key occurs twice.
abbrev pub IsDistinct : List String → Type 0
IsDistinct [] = Unit
IsDistinct (k ∷ ks) = (contains k ks ≡ false) × IsDistinct ks

pub contains-add_key_cases :
    (k : String) (o : Option String) (ks : List String)
    → contains k (add_key o ks) ≡ true
    → (o ≡ some k) ⊎ (contains k ks ≡ true)
unfolding contains
contains-add_key_cases k none ks h = inr h
contains-add_key_cases k (some j) ks h = ground (arith, eq_iff j k)

pub contains-add_key_self :
    (k : String) (o : Option String) (ks : List String)
    → o ≡ some k
    → contains k (add_key o ks) ≡ true
unfolding contains
contains-add_key_self k none ks h = cc
contains-add_key_self k (some j) ks h = ground (arith, eq_iff j k)

pub contains-add_key_tail :
    (k : String) (o : Option String) (ks : List String)
    → contains k ks ≡ true
    → contains k (add_key o ks) ≡ true
unfolding contains
contains-add_key_tail k none ks h = h
contains-add_key_tail k (some j) ks h = ground arith

pub contains-add_key-false :
    (k : String) (o : Option String) (ks : List String)
    → contains k (add_key o ks) ≡ false
    → contains k ks ≡ false
unfolding contains
contains-add_key-false k none ks h = h
contains-add_key-false k (some j) ks h = ground arith

pub contains-is_taken :
    (k : String) (o : Option String) (ks : List String) → o ≡ some k → is_taken o ks ≡ contains k ks
contains-is_taken k none ks h = cc
contains-is_taken k (some j) ks h = ap (λ (o : Option String). is_taken o ks) h

pub IsDistinct-add_key :
    (o : Option String) (ks : List String)
    → IsDistinct ks
    → is_taken o ks ≡ false
    → IsDistinct (add_key o ks)
IsDistinct-add_key none ks h n = h
IsDistinct-add_key (some k) ks h n = (n, h)

pub IsDistinct-add_key_tail :
    (o : Option String) (ks : List String) → IsDistinct (add_key o ks) → IsDistinct ks
IsDistinct-add_key_tail none ks h = h
IsDistinct-add_key_tail (some k) ks h = h.1

pub IsDistinct-add_key_head :
    (o : Option String) (ks : List String) → IsDistinct (add_key o ks) → is_taken o ks ≡ false
IsDistinct-add_key_head none ks h = refl
IsDistinct-add_key_head (some k) ks h = h.0

-- A key is not taken if whatever has it is refuted.
pub is_taken-false :
    (o : Option String) (ks : List String)
    → ((k : String) → o ≡ some k → contains k ks ≡ true → ⊥)
    → is_taken o ks ≡ false
is_taken-false none ks h = refl
is_taken-false (some k) ks h = elim (Bool-cases (contains k ks)) [
  | inl e ↦ absurd (h k refl e)
  | inr e ↦ e
]
