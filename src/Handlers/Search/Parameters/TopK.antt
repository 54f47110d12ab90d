-- ===== src/Handlers/Search/Parameters/TopK.antt =====
-- The number of results, gateway-go/internal/handlers/search.go.
use financial_ai_platform.Prelude.{
  ℕ, ◌%◌, ◌^◌, ◌<◌, ◌≤◌, ◌-◌, ◌⊎◌, inl, inr, Bool-cases, ltb, negsuc, ◌≡◌, ap, ◌∙◌, arith, some,
  pos, wrap, format, atoi-format, is_empty-format,
}
use financial_ai_platform.Handlers.Search.Parameters.{parse_top_k}

accepted : (n : ℕ) → 0 < n → n < 2 ^ 63 → parse_top_k (format n) ≡ some (wrap 31 (pos n))
unfolding parse_top_k
accepted n positive fits = ground (arith, is_empty-format n, atoi-format n fits)

wrapped :
    (n : ℕ)
    → ((n % 2 ^ 32 < 2 ^ 31) × (wrap 31 (pos n) ≡ pos (n % 2 ^ 32)))
      ⊎ ((2 ^ 31 ≤ n % 2 ^ 32) × (wrap 31 (pos n) ≡ negsuc (2 ^ 32 - 1 - n % 2 ^ 32)))
unfolding wrap
wrapped n = elim (Bool-cases (ltb (n % 2 ^ 32) (2 ^ 31))) [
  | inl low ↦ inl (ground arith, ground arith)
  | inr high ↦ inr (ground arith, ground arith)
]

-- A positive number that `int` holds is accepted, and passed on as the number of 32 bits, in two's
-- complement, to which it is congruent: itself below 2 ^ 31, and 0 if it is a multiple of 2 ^ 32.
pub parse_top_k-format :
    (n : ℕ)
    → 0 < n
    → n < 2 ^ 63
    → ((n % 2 ^ 32 < 2 ^ 31) × (parse_top_k (format n) ≡ some (pos (n % 2 ^ 32))))
      ⊎ ((2 ^ 31 ≤ n % 2 ^ 32) × (parse_top_k (format n) ≡ some (negsuc (2 ^ 32 - 1 - n % 2 ^ 32))))
parse_top_k-format n positive fits =
    let taken = accepted n positive fits in
    elim (wrapped n) [
      | inl (low, same) ↦ inl (low, taken ∙ ap some same)
      | inr (high, same) ↦ inr (high, taken ∙ ap some same)
    ]
