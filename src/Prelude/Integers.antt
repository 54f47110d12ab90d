-- ===== src/Prelude/Integers.antt =====
-- Go's signed integers: ℤ over the native numbers, with the wrap-around of a width and `Atoi`.
use Prim.Native.Nat.{ℕ, zero, suc, ◌+◌, ◌-◌, ◌*◌, ◌/◌, ◌%◌, ◌^◌}
use mathlib.Core.Bool.{Bool, ◌&&◌}
use mathlib.Core.List.{[], ◌∷◌}
use mathlib.Core.Option.{Option, none, some}
use financial_ai_platform.Prelude.Tests.{leb, ltb, ◌==◌, if◌then◌else◌}
use financial_ai_platform.Prelude.Strings.{Text}

-- `negsuc n` is `-n - 1`.
pub data ℤ : Type 0 where
  pos : ℕ → ℤ
  negsuc : ℕ → ℤ

unfoldable pub negated : ℕ → ℤ
negated zero = pos 0
negated (suc n) = negsuc n

-- The division of `a - b` by `n`, which truncates towards 0.
unfoldable pub truncated_quotient : ℕ → ℕ → ℕ → ℤ
unfolding negated
truncated_quotient a b n = if leb b a then pos ((a - b) / n) else negated ((b - a) / n)

-- The conversion to a signed integer of `suc w` bits, in two's complement.
unfoldable pub wrap : ℕ → ℤ → ℤ
wrap w (pos n) =
    let r = n % (2 ^ (w + 1)) in if ltb r (2 ^ w) then pos r else negsuc (2 ^ (w + 1) - r - 1)
wrap w (negsuc n) =
    let r = n % (2 ^ (w + 1)) in if ltb r (2 ^ w) then negsuc r else pos (2 ^ (w + 1) - r - 1)

-- The product with a natural number.
unfoldable pub times : ℤ → ℕ → ℤ
unfolding negated
times (pos n) k = pos (n * k)
times (negsuc n) k = negated ((n + 1) * k)

abbrev pub is_digit : ℕ → Bool
is_digit c = leb b'0' c && leb c b'9'

-- The value of decimal digits after those read so far.
unfoldable pub digits : ℕ → Text → Option ℕ
digits n [] = some n
digits n (c ∷ s) = let rest = digits (n * 10 + (c - b'0')) s in if is_digit c then rest else none

-- At least one digit.
unfoldable pub decimal : Text → Option ℕ
unfolding digits
decimal [] = none
decimal (c ∷ s) = digits 0 (c ∷ s)

abbrev pub at_most : ℕ → (ℕ → ℤ) → Option ℕ → Option ℤ
at_most bound sign none = none
at_most bound sign (some n) = if leb n bound then some (sign n) else none

-- strconv.Atoi, with `none` for its error: an optional sign, digits, and the range of 64 bits.
unfoldable pub atoi : Text → Option ℤ
unfolding decimal negated
atoi [] = none
atoi (c ∷ s) =
    if c == b'-'
    then at_most (2 ^ 63) negated (decimal s)
    else if c == b'+'
    then at_most (2 ^ 63 - 1) pos (decimal s)
    else at_most (2 ^ 63 - 1) pos (decimal (c ∷ s))
