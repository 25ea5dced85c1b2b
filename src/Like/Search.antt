-- ===== src/Like/Search.antt =====
-- What a search text matches.
use sales_lead_gen.Base.{
  ℕ, ◌≡◌, refl, ap, ◌∙◌, inl, inr, Bool, true, false, ◌&&◌, ◌||◌, [], ◌∷◌, ◌++◌, map, arith, ◌==◌,
  if◌then◌else◌, Bool-cases,
}
use sales_lead_gen.Like.{Text, replace, escape_like, search_pattern}

abbrev pub is_special : ℕ → Bool
is_special c = (c == b'\\') || ((c == b'%') || (c == b'_'))

-- What the documentation of PostgreSQL says of `ILIKE` with the escape character `\`: a character that
-- is not special stands for itself, an escaped one too, both whatever their case, which `fold` takes
-- away, and `%` for any text.
pub record IsIlike (fold : ℕ → ℕ) (ilike : Text → Text → Bool) : Type 0 where
  pub ilike_empty : (d : ℕ) (t : Text) → (ilike [] [] ≡ true) × (ilike [] (d ∷ t) ≡ false)
  pub ilike_literal :
      (c d : ℕ) (p t : Text)
      → is_special c ≡ false
      → (ilike (c ∷ p) [] ≡ false) × (ilike (c ∷ p) (d ∷ t) ≡ ((fold c == fold d) && ilike p t))
  pub ilike_escaped :
      (c d : ℕ) (p t : Text)
      → (ilike (b'\\' ∷ c ∷ p) [] ≡ false)
        × (ilike (b'\\' ∷ c ∷ p) (d ∷ t) ≡ ((fold c == fold d) && ilike p t))
  pub ilike_any :
      (d : ℕ) (p t : Text)
      → (ilike (b'%' ∷ p) [] ≡ ilike p [])
        × (ilike (b'%' ∷ p) (d ∷ t) ≡ (ilike p (d ∷ t) || ilike (b'%' ∷ p) t))

-- The escape in one pass: each special character gets a backslash.
abbrev pub escaped : Text → Text
escaped [] = []
escaped (x ∷ xs) = if is_special x then b'\\' ∷ x ∷ escaped xs else x ∷ escaped xs

-- The three replacements, one after another, escape each special character once.
escape_like-eq-escaped : (v : Text) → escape_like v ≡ escaped v
unfolding escape_like replace
escape_like-eq-escaped [] = refl
escape_like-eq-escaped (x ∷ xs) = ground (arith, escape_like-eq-escaped xs)

abbrev pub is_prefix : Text → Text → Bool
is_prefix [] t = true
is_prefix (x ∷ xs) [] = false
is_prefix (x ∷ xs) (d ∷ t) = (x == d) && is_prefix xs t

abbrev pub contains : Text → Text → Bool
contains v [] = is_prefix v []
contains v (d ∷ t) = is_prefix v (d ∷ t) || contains v t

module _ (fold : ℕ → ℕ) (ilike : Text → Text → Bool) (laws : IsIlike fold ilike) where
  ilike-any_end : (t : Text) → ilike (b'%' ∷ []) t ≡ true
  ilike-any_end [] = (laws.ilike_any 0 [] []).0 ∙ (laws.ilike_empty 0 []).0
  ilike-any_end (d ∷ t) = ground (arith, (laws.ilike_any d [] t).1, ilike-any_end t)

  ilike-escaped-append :
      (v t : Text) → ilike (escaped v ++ b'%' ∷ []) t ≡ is_prefix (map fold v) (map fold t)
  ilike-escaped-append [] t = ilike-any_end t
  ilike-escaped-append (x ∷ xs) [] = elim (Bool-cases (is_special x)) [
    | inl e ↦ rw e ((laws.ilike_escaped x 0 (escaped xs ++ b'%' ∷ []) []).0)
    | inr e ↦ rw e ((laws.ilike_literal x 0 (escaped xs ++ b'%' ∷ []) [] e).0)
  ]
  ilike-escaped-append (x ∷ xs) (d ∷ t) = elim (Bool-cases (is_special x)) [
    | inl e ↦ rw e (
        (laws.ilike_escaped x d (escaped xs ++ b'%' ∷ []) t).1
        ∙ ap (λ b. (fold x == fold d) && b) (ilike-escaped-append xs t))
    | inr e ↦ rw e (
        (laws.ilike_literal x d (escaped xs ++ b'%' ∷ []) t e).1
        ∙ ap (λ b. (fold x == fold d) && b) (ilike-escaped-append xs t))
  ]

  ilike-any-escaped :
      (v t : Text) → ilike (b'%' ∷ (escaped v ++ b'%' ∷ [])) t ≡ contains (map fold v) (map fold t)
  ilike-any-escaped v [] =
      (laws.ilike_any 0 (escaped v ++ b'%' ∷ []) []).0 ∙ ilike-escaped-append v []
  ilike-any-escaped v (d ∷ t) =
      (laws.ilike_any d (escaped v ++ b'%' ∷ []) t).1
      ∙ ap (λ b. b || ilike (b'%' ∷ (escaped v ++ b'%' ∷ [])) t) (ilike-escaped-append v (d ∷ t))
      ∙ ap (λ b. is_prefix (map fold v) (map fold (d ∷ t)) || b) (ilike-any-escaped v t)

  -- If `ILIKE` does what its documentation says, with `fold` as what takes the case off a character,
  -- the pattern of a search matches exactly the texts that contain the search text, case ignored,
  -- whichever of `\`, `%` and `_` it has in it.
  pub search_pattern-contains :
      (v t : Text) → ilike (search_pattern v) t ≡ contains (map fold v) (map fold t)
  unfolding search_pattern
  search_pattern-contains v t = rw (escape_like-eq-escaped v) (ilike-any-escaped v t)
