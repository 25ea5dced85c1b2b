-- ===== src/Dedup/Rows.antt =====
-- The loop of `merge_companies` in backend/app/services/deduplication.py, which the contacts and the
-- signals share: rows with an owner and an optional key.
use sales_lead_gen.Base.{
  ℕ, String, Bool, false, ◌||◌, Option, none, some, List, [], ◌∷◌, str_eq, ◌==◌, if◌then◌else◌,
}

unfoldable pub contains : String → List String → Bool
contains k [] = false
contains k (x ∷ xs) = str_eq x k || contains k xs

module _ {R : Type 0} (owner : R → ℕ) (key : R → Option String) where
  -- The set of keys of the owner's rows.
  unfoldable pub keys_of : ℕ → List R → List String
  keys_of i [] = []
  keys_of i (r ∷ rs) =
      let rest = keys_of i rs in
      if owner r == i then elim (key r) [ none ↦ rest | some k ↦ k ∷ rest ] else rest

abbrev pub add_key : Option String → List String → List String
add_key none existing = existing
add_key (some k) existing = k ∷ existing

abbrev pub is_taken : Option String → List String → Bool
is_taken none existing = false
is_taken (some k) existing = contains k existing

module _ {R : Type 0} (owner : R → ℕ) (move : ℕ → R → R) (key : R → Option String) where
  -- A row of the duplicate is deleted if its key exists already, and else moves to the primary and
  -- adds its key; all other rows stay.
  unfoldable pub reassign : ℕ → ℕ → List String → List R → List R
  reassign primary duplicate existing [] = []
  reassign primary duplicate existing (r ∷ rs) =
      let deleted = reassign primary duplicate existing rs in
      let moved = move primary r ∷ reassign primary duplicate (add_key (key r) existing) rs in
      let kept = r ∷ reassign primary duplicate existing rs in
      if owner r == duplicate then (if is_taken (key r) existing then deleted else moved) else kept
