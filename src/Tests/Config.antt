-- ===== src/Tests/Config.antt =====
-- The init scripts at a concrete environment and file.
use duck_launcher.Base.{◌≡◌, refl, none, some, [], ◌∷◌, All, true, if◌then◌else◌}
use text.Mathlib.Text.{◌==◌ as str_eq}
use duck_launcher.Text.{
  strip, strip_left, strip_right, double, split, splitlines, span, chars, lower, has_text_by,
  starts_with_by, equals_by, any_char, rstrip_slash, is_line_break, is_space,
}
use duck_launcher.Table.{select}
use duck_launcher.Config.{
  Environ, Files, expand_init_sql, expand_from, match_reference, env_default, replacer, sql_escape,
  load_init_scripts, init_statements, executable_sql, cache_httpfs_enabled,
}
use duck_launcher.Config.Scripts.{IsStatement, load_init_scripts-IsStatement}

-- KEY is set, to a text with a quote.
abbrev key_set : Environ
key_set name = if str_eq name "KEY" then some "a'b" else none

abbrev script_files : Files
script_files = record {
  is_file = true;
  resolved = "/srv/init.sql";
  read_text = λ path. "-- a note\nSET k = '${KEY}';\n-- ends here; \nLOAD httpfs";
}

loaded :
    load_init_scripts key_set script_files none ≡ "-- a note\nSET k = 'a''b'" ∷ "LOAD httpfs" ∷ []
unfolding load_init_scripts init_statements expand_init_sql expand_from match_reference replacer
    env_default sql_escape executable_sql cache_httpfs_enabled select
loaded =
    unfold strip strip_left strip_right double split splitlines span chars lower has_text_by
      starts_with_by equals_by any_char rstrip_slash is_line_break is_space in
    refl

load_init_scripts-IsStatement_example :
    All (IsStatement key_set) (load_init_scripts key_set script_files none)
load_init_scripts-IsStatement_example = load_init_scripts-IsStatement key_set script_files none
