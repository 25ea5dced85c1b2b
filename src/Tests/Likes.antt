-- ===== src/Tests/Likes.antt =====
-- Searches at concrete inputs.
use sales_lead_gen.Base.{
  ℕ, ◌+◌, ◌≡◌, refl, Bool, true, false, not, ◌&&◌, ◌||◌, [], ◌∷◌, map, arith, leb, ◌==◌,
  if◌then◌else◌,
}
use sales_lead_gen.Like.{Text, search_pattern}
use sales_lead_gen.Like.Search.{IsIlike, is_special, contains, search_pattern-contains}

-- The small letter of a capital.
fold : ℕ → ℕ
fold c = if leb b'A' c && leb c b'Z' then c + 32 else c

-- A matcher of patterns that ignores the case of the letters A to Z.
ilike : Text → Text → Bool
ilike [] [] = true
ilike [] (d ∷ t) = false
ilike (c ∷ []) [] = c == b'%'
ilike (c ∷ []) (d ∷ t) =
    if c == b'%'
    then ilike [] (d ∷ t) || ilike (c ∷ []) t
    else (not (c == b'\\') && ((fold c == fold d) || (c == b'_'))) && ilike [] t
ilike (c ∷ e ∷ p) [] = (c == b'%') && ilike (e ∷ p) []
ilike (c ∷ e ∷ p) (d ∷ t) =
    if c == b'%'
    then ilike (e ∷ p) (d ∷ t) || ilike (c ∷ e ∷ p) t
    else if c == b'\\'
    then (fold e == fold d) && ilike p t
    else ((fold c == fold d) || (c == b'_')) && ilike (e ∷ p) t

not_special :
    (c : ℕ)
    → is_special c ≡ false
    → ((c == b'%') ≡ false) × ((c == b'\\') ≡ false) × ((c == b'_') ≡ false)
not_special c h = (ground arith, ground arith, ground arith)

false-or-and : (s rest : Bool) → ((s || false) && rest) ≡ (s && rest)
false-or-and true rest = refl
false-or-and false rest = refl

literal_law :
    (c d : ℕ) (p t : Text)
    → is_special c ≡ false
    → (ilike (c ∷ p) [] ≡ false) × (ilike (c ∷ p) (d ∷ t) ≡ ((fold c == fold d) && ilike p t))
unfolding ilike
literal_law c d [] t h =
    let (percent, back, under) = not_special c h in
    rw percent (rw back (rw under (refl, false-or-and (fold c == fold d) (ilike [] t))))
literal_law c d (e ∷ p) t h =
    let (percent, back, under) = not_special c h in
    rw percent (rw back (rw under (refl, false-or-and (fold c == fold d) (ilike (e ∷ p) t))))

any_law :
    (d : ℕ) (p t : Text)
    → (ilike (b'%' ∷ p) [] ≡ ilike p [])
      × (ilike (b'%' ∷ p) (d ∷ t) ≡ (ilike p (d ∷ t) || ilike (b'%' ∷ p) t))
unfolding ilike
any_law d [] t = (refl, refl)
any_law d (e ∷ p) t = (refl, refl)

ilike-IsIlike : IsIlike fold ilike
unfolding ilike
ilike-IsIlike = record {
  ilike_empty = λ d t. (refl, refl);
  ilike_literal = literal_law;
  ilike_escaped = λ c d p t. (refl, refl);
  ilike_any = any_law;
}

-- `a 50%` in `A 50% b`.
search_pattern-contains_example :
    ilike (search_pattern (b'a' ∷ b'5' ∷ b'0' ∷ b'%' ∷ [])) (b'A' ∷ b'5' ∷ b'0' ∷ b'%' ∷ b'b' ∷ [])
    ≡ contains
        (map fold (b'a' ∷ b'5' ∷ b'0' ∷ b'%' ∷ []))
        (map fold (b'A' ∷ b'5' ∷ b'0' ∷ b'%' ∷ b'b' ∷ []))
search_pattern-contains_example =
    search_pattern-contains fold ilike ilike-IsIlike (b'a' ∷ b'5' ∷ b'0' ∷ b'%' ∷ [])
      (b'A' ∷ b'5' ∷ b'0' ∷ b'%' ∷ b'b' ∷ [])
