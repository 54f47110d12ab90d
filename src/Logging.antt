-- ===== src/Logging.antt =====
-- The level of the log, gateway-go/internal/logging/logging.go. Package slog is not modelled.
mod Tests
use financial_ai_platform.Prelude.{Bool, ◌||◌, Text, lit, text_eq, to_lower, if◌then◌else◌}

pub data Level : Type 0 where
  level_debug level_info level_warn level_error : Level

unfoldable pub parse_level : Text → Level
parse_level level =
    let l = to_lower level in
    if text_eq l (lit "debug")
    then level_debug
    else if text_eq l (lit "warn") || text_eq l (lit "warning")
    then level_warn
    else if text_eq l (lit "error")
    then level_error
    else level_info
