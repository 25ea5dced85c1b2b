-- ===== src/Scoring/Fractions.antt =====
-- Fractions with natural numbers, for the floating-point numbers of
-- backend/app/services/lead_scoring.py.
use sales_lead_gen.Base.{ℕ, ◌+◌, ◌*◌, ◌/◌, leb, if◌then◌else◌}

pub record Fraction : Type 0 where
  pub num : ℕ
  pub den : ℕ

abbrev pub whole : ℕ → Fraction
whole n = record { num = n; den = 1 }

infixr 60 ◌⊕◌
abbrev pub ◌⊕◌ : Fraction → Fraction → Fraction
a ⊕ b = record { num = a.num * b.den + b.num * a.den; den = a.den * b.den }

-- `n / d` times a fraction.
abbrev pub times : ℕ → ℕ → Fraction → Fraction
times n d a = record { num = n * a.num; den = d * a.den }

-- `min(float(n), a)`
unfoldable pub cap : ℕ → Fraction → Fraction
cap n a = if leb a.num (n * a.den) then a else whole n

-- `round(a, 2)` in hundredths.
unfoldable pub round : Fraction → ℕ
round a = (200 * a.num + a.den) / (2 * a.den)
