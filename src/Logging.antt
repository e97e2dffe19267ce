-- ===== src/Logging.antt =====
-- internal/logging/logging.go: the level and the handler of the process's logger.
use taskflow_api.Base.{
  ℕ, ◌+◌, String, Bool, true, false, ◌&&◌, ◌||◌, str_eq, leb, ◌==◌, if◌then◌else◌,
}
use taskflow_api.Text.{trim_space}
use taskflow_api.Http.Answers.{Level, level_debug, level_info, level_warn, level_error}
use Prim.Native.Char.{code}

-- `unicode.ToLower`, as far as the result is a letter of ASCII: those of ASCII, the Turkish capital
-- I with a dot, and the Kelvin sign. No other character becomes one.
unfoldable pub lower_code : ℕ → ℕ
lower_code n =
    if leb b'A' n && leb n b'Z'
    then n + 32
    else if n == 304
    then 105
    else if n == 8490
    then 107
    else n

-- `strings.ToLower(s) == word`, for a word of small letters of ASCII.
unfoldable pub lowers_to : String → String → Bool
lowers_to String.[] String.[] = true
lowers_to String.[] (String.◌∷◌ d t) = false
lowers_to (String.◌∷◌ c s) String.[] = false
lowers_to (String.◌∷◌ c s) (String.◌∷◌ d t) = (lower_code (code c) == code d) && lowers_to s t

-- `parseLevel`
unfoldable pub parse_level : String → Level
parse_level level =
    let text = trim_space level in
    if lowers_to text "debug"
    then level_debug
    else if lowers_to text "warn" || lowers_to text "warning"
    then level_warn
    else if lowers_to text "error"
    then level_error
    else level_info

abbrev is_debug : Level → Bool
is_debug level_debug = true
is_debug _ = false

-- `slog.Logger`: the options of its handler, and whether the handler writes JSON.
pub record Logger : Type 0 where
  pub level : Level
  pub add_source : Bool
  pub json : Bool

-- `New`
unfoldable pub new : String → String → Logger
new env level = record {
  level = parse_level level;
  add_source = is_debug (parse_level level);
  json = str_eq env "production";
}
