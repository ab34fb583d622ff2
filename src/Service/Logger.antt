-- ===== src/Service/Logger.antt =====
-- logging.go: the process logger, and that a valid configuration always has one.
use mkqd.Base.{
  ◌≡◌, ◌↔◌, ◌||◌, true, Option, none, some, Bytes, codes, bytes_eq, mem_bytes, is_empty, is_some,
  arith, if◌then◌else◌,
}
use mkqd.Config.{LogConfig, known_levels, known_formats}

pub data Level : Type 0 where
  debug info warn level_error : Level

pub data Format : Type 0 where
  json text : Format

pub record ProcessLogger : Type 0 where
  pub level : Level
  pub format : Format

-- The two switches of newLogger.
unfoldable pub level_of : Bytes → Option Level
level_of s =
    if bytes_eq s (codes "debug")
    then some debug
    else if bytes_eq s (codes "info") || is_empty s
    then some info
    else if bytes_eq s (codes "warn")
    then some warn
    else if bytes_eq s (codes "error")
    then some level_error
    else none

unfoldable pub format_of : Bytes → Option Format
format_of s =
    if bytes_eq s (codes "json")
    then some json
    else if bytes_eq s (codes "text") || is_empty s
    then some text
    else none

abbrev both : Option Level → Option Format → Option ProcessLogger
both (some l) (some f) = some (record { level = l; format = f })
both _ _ = none

-- newLogger; `none` is an error.
unfoldable pub new_logger : LogConfig → Option ProcessLogger
unfolding level_of format_of
new_logger c = both (level_of c.level) (format_of c.format)

level_known : (s : Bytes) → is_some (level_of s) ≡ (is_empty s || mem_bytes s known_levels)
unfolding level_of
level_known s = ground arith

format_known : (s : Bytes) → is_some (format_of s) ≡ (is_empty s || mem_bytes s known_formats)
unfolding format_of
format_known s = ground arith

-- There is a logger exactly if the level and the format are empty or ones that Validate knows.
pub new_logger_lem :
    (c : LogConfig)
    → (is_some (new_logger c) ≡ true) ↔ (
        (is_empty c.level || mem_bytes c.level known_levels ≡ true)
        × (is_empty c.format || mem_bytes c.format known_formats ≡ true))
unfolding new_logger
new_logger_lem c = ground (arith, level_known c.level, format_known c.format)
