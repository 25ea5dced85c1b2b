-- ===== src/Like.antt =====
-- backend/app/core/utils.py: the escape of a search text in an SQL pattern, and the pattern that the
-- list handler of backend/app/api/v1/companies.py builds with it. A text is the list of its code points.
pub mod Search
use sales_lead_gen.Base.{
  ℕ, zero, suc, ◌+◌, ◌-◌, ◌*◌, ◌/◌, ◌%◌, ◌^◌, ◌≤◌, ◌<◌, min, max, String, ◌≡◌, refl, sym, ap, ◌∙◌,
  subst, ◌≢◌, ◌↔◌, ◌⊎◌, inl, inr, Bool, true, false, not, ◌&&◌, ◌||◌, Option, none, some, List, [],
  ◌∷◌, ◌++◌, map, arith, str_eq, eq_iff, ltb, leb, ◌==◌, if◌then◌else◌, ==_iff, Bool-cases,
  Option-cases, is_some, length, length-append, select, any, find, All,
}

abbrev pub Text : Type 0
Text = List ℕ

-- `value.replace(c, by)` for a text of one character.
unfoldable pub replace : ℕ → Text → Text → Text
replace c by [] = []
replace c by (x ∷ xs) = let rest = replace c by xs in if x == c then by ++ rest else x ∷ rest

unfoldable pub escape_like : Text → Text
escape_like value =
    replace b'_' (b'\\' ∷ b'_' ∷ [])
      (replace b'%' (b'\\' ∷ b'%' ∷ []) (replace b'\\' (b'\\' ∷ b'\\' ∷ []) value))

-- `f"%{escape_like(search)}%"`
unfoldable pub search_pattern : Text → Text
search_pattern value = b'%' ∷ (escape_like value ++ b'%' ∷ [])
