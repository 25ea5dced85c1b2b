-- ===== src/Texts.antt =====
-- backend/app/services/deduplication.py: the normal form of a domain, and how alike two company names
-- are. The text operations of Python and of the libraries `urllib` and `rapidfuzz` are the fields of
-- a record.
use sales_lead_gen.Base.{ℕ, String, Bool, Option, none, some, List, str_eq, if◌then◌else◌}
pub use Prim.Native.String.{◌++◌ as str_append}

pub record Texts : Type 0 where
  -- `s.lower()`, `s.strip()`, and `part in s` with the part first
  pub lower : String → String
  pub strip : String → String
  pub is_in : String → String → Bool
  -- `s.split("/")[0]`, `s.startswith(prefix)` with the prefix first, `s[n:]` and `s.rstrip(c)`
  pub before_slash : String → String
  pub starts_with : String → String → Bool
  pub drop : ℕ → String → String
  pub rstrip : String → String → String
  -- `urlparse(s).hostname`
  pub hostname : String → Option String
  -- `fuzz.token_sort_ratio(a, b)`, from 0 to 100, in whole points, rounded down
  pub token_sort_ratio : String → String → ℕ
  -- `str(n)` of an `int`, and `separator.join(parts)`
  pub decimal : ℕ → String
  pub join : String → List String → String

-- `text or other` for a text that may be missing or empty.
abbrev pub or_text : Option String → String → String
or_text none other = other
or_text (some t) other = if str_eq t "" then other else t

unfoldable pub normalize_domain : Texts → String → String
normalize_domain texts raw =
    let value = texts.lower (texts.strip raw) in
    let host =
      (if texts.is_in "://" value
        then or_text (texts.hostname value) value
        else texts.before_slash value) in
    let bare = (if texts.starts_with "www." host then texts.drop 4 host else host) in
    texts.rstrip "." (texts.rstrip "/" bare)

unfoldable pub company_name_similarity : Texts → String → String → ℕ
company_name_similarity texts a b =
    texts.token_sort_ratio (texts.strip (texts.lower a)) (texts.strip (texts.lower b))

-- A ratio is at least 85.0 if and only if it is at least 85 rounded down.
abbrev pub name_similarity_threshold : ℕ
name_similarity_threshold = 85
