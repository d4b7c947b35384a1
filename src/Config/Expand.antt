-- ===== src/Config/Expand.antt =====
-- References to the environment in the init scripts.
use Prim.Native.Char.{Char}
use Prim.Native.String.{◌++◌}
use duck_launcher.Base.{◌≡◌, false, not, Option, none, some, String}
use duck_launcher.Text.{is_empty, any_char}
use duck_launcher.Config.{is_name_char, is_default_char}

-- A name of a reference, and a default.
abbrev pub IsName : String → Type 0
IsName name = (is_empty name ≡ false) × (any_char (λ c. not (is_name_char c)) name ≡ false)

abbrev pub IsDefault : Option String → Type 0
IsDefault none = Unit
IsDefault (some inline_default) = any_char (λ c. not (is_default_char c)) inline_default ≡ false

abbrev dollar : Char
dollar = "$"

-- The characters that a reference has behind its `$`.
behind : String → Option String → String
behind name none = String.◌∷◌ "{" (name ++ "}")
behind name (some inline_default) = String.◌∷◌ "{" (name ++ (":-" ++ (inline_default ++ "}")))
