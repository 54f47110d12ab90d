-- ===== src/Logging/Tests.antt =====
-- Levels in either case, and one that is not known.
use financial_ai_platform.Prelude.{◌≡◌, refl, lit, to_lower, text_eq}
use financial_ai_platform.Logging.{level_warn, level_info, parse_level}

upper_case : parse_level (lit "WARNING") ≡ level_warn
unfolding parse_level to_lower text_eq
upper_case = refl

unknown_level : parse_level (lit "verbose") ≡ level_info
unfolding parse_level to_lower text_eq
unknown_level = refl
