-- ===== src/Prelude/Parts.antt =====
-- Texts in parts at a separator, as strings.Split yields them.
use Prim.Native.Nat.{ℕ}
use mathlib.Core.Path.{◌≡◌, refl}
use mathlib.Core.Logic.{◌≢◌}
use mathlib.Core.List.{List, [], ◌∷◌, ◌++◌}
use native.Mathlib.Omega.{arith}
use financial_ai_platform.Prelude.Tests.{◌==◌, if◌then◌else◌}
use financial_ai_platform.Prelude.Lists.{All}
use financial_ai_platform.Prelude.Strings.{Text}

abbrev push : ℕ → List Text → List Text
push c [] = (c ∷ []) ∷ []
push c (p ∷ ps) = (c ∷ p) ∷ ps

-- strings.Split at one byte.
unfoldable pub split : ℕ → Text → List Text
split sep [] = [] ∷ []
split sep (c ∷ s) = let rest = split sep s in if c == sep then [] ∷ rest else push c rest

-- The text does not hold the byte.
abbrev pub Lacks : ℕ → Text → Type 0
Lacks sep p = All (λ c. c ≢ sep) p

pub split_last : (sep : ℕ) (p : Text) → Lacks sep p → split sep p ≡ p ∷ []
unfolding split
split_last sep [] h = refl
split_last sep (c ∷ p) (first, rest) = ground (arith, split_last sep p rest)

pub split_first :
    (sep : ℕ) (p s : Text) → Lacks sep p → split sep (p ++ (sep ∷ s)) ≡ p ∷ split sep s
unfolding split
split_first sep [] s h = ground arith
split_first sep (c ∷ p) s (first, rest) = ground (arith, split_first sep p s rest)
