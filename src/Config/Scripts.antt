-- ===== src/Config/Scripts.antt =====
-- What the list of init scripts holds.
use text.Mathlib.Text.{starts_with}
use duck_launcher.Base.{
  ◌≡◌, refl, ap, ◌∙◌, sym, true, false, not, ◌||◌, ◌&&◌, ◌==◌, Option, String, List, [], ◌∷◌, map,
  any, All, All-mono, Bool-cases, Option-cases, inl, inr,
}
use duck_launcher.Table.{select}
use duck_launcher.Table.Update.{All-select}
use duck_launcher.Text.{is_empty, any_char, strip, split, splitlines, has_text_by, lower}
use duck_launcher.Text.Laws.{is_ink, is_empty-strip, splitlines-parts, split-parts, any_char-strip}
use duck_launcher.Config.{
  Environ, Files, executable_sql, cache_httpfs_enabled, expand_init_sql, init_statements,
  load_init_scripts, resolve_init_scripts_path,
}

-- A statement of the list: not empty, in one piece, and about cache_httpfs only where that is on.
pub record IsStatement (environ : Environ) (statement : String) : Type 0 where
  pub filled : is_empty statement ≡ false
  pub whole : any_char (λ c. c == b';') statement ≡ false
  pub cached :
      (cache_httpfs_enabled environ || not (has_text_by lower "cache_httpfs" statement)) ≡ true

blank_lines :
    (lines : List String)
    → All (λ line. any_char is_ink line ≡ false) lines
    → any (λ line. not (is_empty (strip line)) && not (starts_with (strip line) "--")) lines ≡ false
blank_lines [] h = refl
blank_lines (line ∷ lines) h =
    let blank : is_empty (strip line) ≡ true = is_empty-strip line ∙ ap not h.0 in
    rw blank (blank_lines lines h.1)

-- An executable part is not all spaces.
executable_sql-ink : (s : String) → executable_sql s ≡ true → any_char is_ink s ≡ true
unfolding executable_sql
executable_sql-ink s e = elim (Bool-cases (any_char is_ink s)) [
  | inl t ↦ t
  | inr t ↦
      let none_left = blank_lines (splitlines s) (splitlines-parts is_ink s t) in
      let clash : true ≡ false = sym e ∙ none_left in cc
]

-- The parts, stripped.
stripped :
    (parts : List String)
    → All (λ p. (any_char (λ c. c == b';') p ≡ false) × (executable_sql p ≡ true)) parts
    → All (λ s. (is_empty s ≡ false) × (any_char (λ c. c == b';') s ≡ false)) (map strip parts)
stripped [] h = tt
stripped (p ∷ parts) h = (
  (is_empty-strip p ∙ ap not (executable_sql-ink p h.0.1), any_char-strip (λ c. c == b';') p h.0.0),
  stripped parts h.1,
)

statements_lem :
    (environ : Environ) (text : String) → All (IsStatement environ) (init_statements environ text)
unfolding init_statements
statements_lem environ text =
    let parts = split b';' (expand_init_sql environ text) in
    let cut = stripped (select executable_sql parts) (
      All-select (λ p. any_char (λ c. c == b';') p ≡ false) executable_sql parts
        (split-parts b';' (expand_init_sql environ text))) in
    elim (Bool-cases (cache_httpfs_enabled environ)) [
      | inl t ↦
          rw (init_statements, t)
            (All-mono _ (IsStatement environ) _
              (λ s h. record { filled = h.0; whole = h.1; cached = rw t refl }) cut)
      | inr t ↦
          rw (init_statements, t)
            (All-mono _ (IsStatement environ) _
              (λ s h. record { filled = h.0.0; whole = h.0.1; cached = rw t h.1 })
              (All-select _ (λ s. not (has_text_by lower "cache_httpfs" s)) _ cut))
    ]

-- Whatever the file and the environment hold, no init script is empty or has a `;` in it, and where
-- CACHE_HTTPFS_ENABLED turns the extension off, none has its name in it, in any case of letters.
pub load_init_scripts-IsStatement :
    (environ : Environ) (files : Files) (path : Option String)
    → All (IsStatement environ) (load_init_scripts environ files path)
unfolding load_init_scripts
load_init_scripts-IsStatement environ files path =
    elim (Option-cases (resolve_init_scripts_path files path)) [
      | inl n ↦ rw (load_init_scripts, n) tt
      | inr (resolved, e) ↦ elim (Bool-cases (is_empty resolved)) [
        | inl t ↦ rw (load_init_scripts, e, t) tt
        | inr t ↦ rw (load_init_scripts, e, t) (statements_lem environ (files.read_text resolved))
      ]
    ]
