-- ===== src/Logger/Level.antt =====
-- logger/config.go and logger/handler.go: levels and their names. A `slog.Level` is an integer.
pub mod Names
use go_library.Prelude.{String, ℤ, pos, negsuc, ltb_ℤ, ◌||◌, ◌==◌, string_eq, if◌then◌else◌}
use go_library.Runtime.{Runtime}
use go_library.GoText.{to_lower, trim_space}

abbrev pub Level : Type 0
Level = ℤ

abbrev pub level_debug : Level
level_debug = negsuc 3

abbrev pub level_info : Level
level_info = pos 0

abbrev pub level_warn : Level
level_warn = pos 4

abbrev pub level_error : Level
level_error = pos 8

-- The cases of `parseLevel`, at the trimmed word in lower case.
unfoldable pub level_of_word : String → Level
level_of_word word =
    if word == "debug"
    then level_debug
    else if word == "" || word == "info"
    then level_info
    else if word == "warn" || word == "warning"
    then level_warn
    else if word == "error"
    then level_error
    else level_info

-- `parseLevel`
unfoldable pub parse_level : Runtime → String → Level
unfolding level_of_word
parse_level rt s = level_of_word (to_lower rt (trim_space s))

-- `levelString`
unfoldable pub level_string : Level → String
level_string l =
    if ltb_ℤ l level_info
    then "debug"
    else if ltb_ℤ l level_warn
    then "info"
    else if ltb_ℤ l level_error
    then "warn"
    else "error"
