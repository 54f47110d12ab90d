-- ===== src/Prelude/Decimals.antt =====
-- Numbers in decimal, as fmt prints them, and read back by `Atoi`.
use Prim.Native.Nat.{ℕ, zero, suc, ◌+◌, ◌/◌, ◌%◌, ◌^◌, ◌≤◌, ◌<◌}
use mathlib.Core.Path.{◌≡◌, refl, sym, ap, ◌∙◌}
use mathlib.Core.Logic.{inl, inr}
use mathlib.Core.Bool.{true, false}
use mathlib.Core.List.{[], ◌∷◌}
use mathlib.Core.Option.{some}
use native.Mathlib.Omega.{arith}
use financial_ai_platform.Prelude.Tests.{◌==◌, if◌then◌else◌, Bool-cases}
use financial_ai_platform.Prelude.Strings.{Text, is_empty}
use financial_ai_platform.Prelude.Integers.{ℤ, pos, negsuc, is_digit, digits, decimal, atoi}

-- The decimal digits of a number before those printed so far: each round divides it by ten, so that a
-- fuel of the number itself is enough.
show_digits : ℕ → ℕ → Text → Text
show_digits zero n out = out
show_digits (suc f) n out =
    let rest = show_digits f (n / 10) ((b'0' + n % 10) ∷ out) in if n == 0 then out else rest

unfoldable pub format : ℕ → Text
unfolding show_digits
format n = if n == 0 then b'0' ∷ [] else show_digits n n []

-- The verb %d.
unfoldable pub format_int : ℤ → Text
unfolding format
format_int (pos n) = format n
format_int (negsuc n) = b'-' ∷ format (n + 1)

digits-show_digits : (f n : ℕ) (out : Text) → n ≤ f → digits 0 (show_digits f n out) ≡ digits n out
unfolding show_digits digits
digits-show_digits zero n out h = ap (λ k. digits k out) (omega arith)
digits-show_digits (suc f) n out h =
    ground (arith, digits-show_digits f (n / 10) ((b'0' + n % 10) ∷ out))

starts_with_digit :
    (f n : ℕ) (c : ℕ) (out : Text)
    → is_digit c ≡ true
    → (d : ℕ) × (s : Text) × (show_digits f n (c ∷ out) ≡ d ∷ s) × (is_digit d ≡ true)
unfolding show_digits
starts_with_digit zero n c out h = (c, out, refl, h)
starts_with_digit (suc f) n c out h = elim (Bool-cases (n == 0)) [
  | inl e ↦ (c, out, rw e, h)
  | inr e ↦ rw e (starts_with_digit f (n / 10) (b'0' + n % 10) (c ∷ out) (ground arith))
]

-- What is printed starts with a digit, and reads as the number.
record IsPrinted (n : ℕ) : Type 0 where
  first : ℕ
  rest : Text
  shape : format n ≡ first ∷ rest
  starts : is_digit first ≡ true
  reads : digits 0 (first ∷ rest) ≡ some n

format-IsPrinted : (n : ℕ) → IsPrinted n
unfolding format
format-IsPrinted zero = record {
  first = b'0';
  rest = [];
  shape = refl;
  starts = refl;
  reads = unfold digits in refl;
}
format-IsPrinted (suc m) =
    let last = b'0' + suc m % 10 in
    let (d, s, shape, starts) = starts_with_digit m (suc m / 10) last [] (ground arith) in
    let printed : format (suc m) ≡ d ∷ s = ground (arith, shape) in
    record {
      first = d;
      rest = s;
      shape = printed;
      starts = starts;
      reads =
          ap (digits 0) (sym shape)
          ∙ digits-show_digits m (suc m / 10) (last ∷ []) (omega arith)
          ∙ unfold digits in ground arith;
    }

-- `Atoi` reads back what %d prints of a number that is not negative and fits.
pub atoi-format : (n : ℕ) → n < 2 ^ 63 → atoi (format n) ≡ some (pos n)
unfolding atoi decimal
atoi-format n h = let p = format-IsPrinted n in rw p.shape (ground (arith, p.reads, p.starts))

-- A printed number is not empty.
pub is_empty-format : (n : ℕ) → is_empty (format n) ≡ false
is_empty-format n = ap is_empty (format-IsPrinted n).shape
