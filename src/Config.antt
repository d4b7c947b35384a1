-- ===== src/Config.antt =====
-- config.py: the init scripts, read from a file with references to the environment. The environment
-- and the file system are arguments.
pub mod Expand
pub mod Scripts
pub mod Settings
use Prim.Native.Char.{Char, code}
use Prim.Native.String.{◌++◌}
use text.Mathlib.Text.{starts_with, ◌==◌ as str_eq}
use duck_launcher.Base.{
  ℕ, zero, suc, ◌+◌, Bool, true, false, not, ◌&&◌, ◌||◌, ◌==◌, Option, none, some, coalesce, String,
  List, [], ◌∷◌, map, any, if◌then◌else◌,
}
use duck_launcher.Table.{select}
use duck_launcher.Text.{
  is_empty, rstrip_slash, strip, double, split, splitlines, span, chars, lower, equals_by,
  has_text_by,
}

-- os.environ
abbrev pub Environ : Type 0
Environ = String → Option String

unfoldable pub sql_escape : String → String
unfolding double
sql_escape value = double b'\'' value

-- A match of ${NAME} or ${NAME:-default}, and how many characters of it follow the `$`.
pub record Reference : Type 0 where
  pub name : String
  pub inline_default : Option String
  pub length : ℕ

-- [^}:] and [^}]
abbrev pub is_name_char : ℕ → Bool
is_name_char c = not (c == b'}') && not (c == b':')

abbrev pub is_default_char : ℕ → Bool
is_default_char c = not (c == b'}')

-- The end of the match behind the name and, if there is one, the default: the `}`.
abbrev pub close : String → Option String → ℕ → String → Option Reference
close name inline_default length String.[] = none
close name inline_default length (String.◌∷◌ c s) =
    if code c == b'}'
    then some (record { name = name; inline_default = inline_default; length = length + 1 })
    else none

abbrev pub match_default : String → ℕ → String → Option Reference
match_default name length String.[] = none
match_default name length (String.◌∷◌ c s) =
    let found = span is_default_char s in
    if code c == b'-'
    then close name (some (found.0)) (length + 1 + chars (found.0)) (found.1)
    else none

abbrev pub match_end : String → ℕ → String → Option Reference
match_end name length String.[] = none
match_end name length (String.◌∷◌ c s) =
    if is_empty name
    then none
    else if code c == b':'
    then match_default name (length + 1) s
    else close name none length (String.◌∷◌ c s)

abbrev pub match_name : String → Option Reference
match_name String.[] = none
match_name (String.◌∷◌ c s) =
    let found = span is_name_char s in
    if code c == b'{' then match_end (found.0) (1 + chars (found.0)) (found.1) else none

-- _ENV_VAR at a character and what follows it.
unfoldable pub match_reference : Char → String → Option Reference
unfolding span chars
match_reference c s = if code c == b'$' then match_name s else none

-- None: KeyError.
unfoldable pub env_default : Environ → String → Option String → Option String
unfolding rstrip_slash
env_default environ name inline_default = elim (environ name) [
  | some value ↦ some value
  | none ↦
      let endpoint = coalesce (environ "ICEBERG_ENDPOINT") (coalesce inline_default "") in
      if str_eq name "ICEBERG_OAUTH_URI"
      then if is_empty endpoint then none else some (rstrip_slash endpoint ++ "/v1/oauth/tokens")
      else inline_default
]

-- match.group(0)
abbrev pub reference_text : String → Option String → String
reference_text name none = "${" ++ (name ++ "}")
reference_text name (some inline_default) = "${" ++ (name ++ (":-" ++ (inline_default ++ "}")))

unfoldable pub replacer : Environ → String → Option String → String
unfolding env_default sql_escape
replacer environ name inline_default = elim (env_default environ name inline_default) [
  | none ↦ reference_text name inline_default
  | some value ↦ sql_escape value
]

-- _ENV_VAR.sub(replacer, content), past the first characters, which a match has taken.
unfoldable pub expand_from : Environ → ℕ → String → String
unfolding match_reference replacer
expand_from environ skip String.[] = String.[]
expand_from environ (suc skip) (String.◌∷◌ c s) = expand_from environ skip s
expand_from environ zero (String.◌∷◌ c s) = elim (match_reference c s) [
  | none ↦ String.◌∷◌ c (expand_from environ 0 s)
  | some r ↦ replacer environ r.name r.inline_default ++ expand_from environ r.length s
]

unfoldable pub expand_init_sql : Environ → String → String
unfolding expand_from
expand_init_sql environ content = expand_from environ 0 content

unfoldable pub executable_sql : String → Bool
unfolding splitlines strip
executable_sql statement =
    any (λ line. not (is_empty (strip line)) && not (starts_with (strip line) "--"))
      (splitlines statement)

unfoldable pub cache_httpfs_enabled : Environ → Bool
unfolding equals_by lower
cache_httpfs_enabled environ =
    let value = coalesce (environ "CACHE_HTTPFS_ENABLED") "1" in
    not (equals_by lower "0" value || equals_by lower "false" value || equals_by lower "no" value)

-- Path("init.sql"): whether it is a file, and its resolved path; and what a file holds.
pub record Files : Type 0 where
  pub is_file : Bool
  pub resolved : String
  pub read_text : String → String

abbrev pub default_init_scripts_path : Files → Option String
default_init_scripts_path files = if files.is_file then some files.resolved else none

abbrev pub resolve_init_scripts_path : Files → Option String → Option String
resolve_init_scripts_path files none = default_init_scripts_path files
resolve_init_scripts_path files (some explicit) = some explicit

-- The statements of the file's text.
unfoldable pub init_statements : Environ → String → List String
unfolding expand_init_sql executable_sql cache_httpfs_enabled split strip has_text_by lower select
init_statements environ text =
    let statements =
      map strip (select executable_sql (split b';' (expand_init_sql environ text))) in
    if cache_httpfs_enabled environ
    then statements
    else select (λ statement. not (has_text_by lower "cache_httpfs" statement)) statements

unfoldable pub load_init_scripts : Environ → Files → Option String → List String
unfolding init_statements
load_init_scripts environ files path = elim (resolve_init_scripts_path files path) [
  | none ↦ []
  | some resolved ↦
      if is_empty resolved then [] else init_statements environ (files.read_text resolved)
]
