-- ===== src/Logging.antt =====
-- What the log's settings mean (internal/log/level.go).
use cca_go_indexer.Base.{◌≡◌, refl, if◌then◌else◌}
use cca_go_indexer.Text.{Text, codes, text_eq, to_lower, to_lower_idem}

-- The levels of `log/slog`, and the two handlers.
pub data Level : Type 0 where
  debug info warn error : Level

pub data Format : Type 0 where
  text json : Format

-- `ParseLevel`
unfoldable pub parse_level : Text → Level
parse_level level =
    let name = to_lower level in
    if text_eq name (codes "debug")
    then debug
    else (if text_eq name (codes "warn")
        then warn
        else (if text_eq name (codes "error") then error else info))

-- `NewLogger`: what the logger writes, and from which level on.
abbrev pub new_logger : Text → Text → Level × Format
new_logger level format = (parse_level level, if text_eq format (codes "text") then text else json)

-- The case of a level's letters does not matter.
pub parse_level-to_lower : (level : Text) → parse_level (to_lower level) ≡ parse_level level
unfolding parse_level
parse_level-to_lower level = rw (to_lower_idem level) refl
