-- ===== src/Handlers/Search/Parameters/Parts.antt =====
-- Comma-separated lists, gateway-go/internal/handlers/search.go.
use financial_ai_platform.Prelude.{
  ◌≡◌, refl, ap, ◌∙◌, arith, false, List, [], ◌∷◌, ◌++◌, All, Text, is_empty, trim_space, split,
  split_last, split_first, Lacks,
}
use financial_ai_platform.Handlers.Search.Parameters.{trimmed_parts, split_csv}

-- The texts with commas between them.
abbrev pub join_csv : List Text → Text
join_csv [] = []
join_csv (p ∷ []) = p
join_csv (p ∷ q ∷ ps) = p ++ (b',' ∷ join_csv (q ∷ ps))

-- A text that survives in a list: trimmed, not empty, and without commas.
abbrev pub IsClean : Text → Type 0
IsClean p = (trim_space p ≡ p) × (is_empty p ≡ false) × Lacks b',' p

split-join_csv :
    (p : Text) (ps : List Text) → All IsClean (p ∷ ps) → split b',' (join_csv (p ∷ ps)) ≡ p ∷ ps
split-join_csv p [] (clean, rest) = split_last b',' p (clean.2)
split-join_csv p (q ∷ ps) (clean, rest) =
    split_first b',' p (join_csv (q ∷ ps)) clean.2 ∙ ap (◌∷◌ p) (split-join_csv q ps rest)

trimmed_parts_clean : (ps : List Text) → All IsClean ps → trimmed_parts ps ≡ ps
unfolding trimmed_parts
trimmed_parts_clean [] h = refl
trimmed_parts_clean (p ∷ ps) (clean, rest) = ground (arith, trimmed_parts_clean ps rest)

-- Texts that are trimmed, not empty and without commas are read back from their list.
pub split_csv-join_csv : (ps : List Text) → All IsClean ps → split_csv (join_csv ps) ≡ ps
unfolding split_csv
split_csv-join_csv [] h = refl
split_csv-join_csv (p ∷ ps) h =
    ground (arith, not_empty p ps h.0.1, split-join_csv p ps h, trimmed_parts_clean (p ∷ ps) h)
  where
    not_empty :
        (p : Text) (ps : List Text) → is_empty p ≡ false → is_empty (join_csv (p ∷ ps)) ≡ false
    not_empty p [] e = e
    not_empty [] (q ∷ ps) e = cc
    not_empty (c ∷ p) (q ∷ ps) e = refl
