-- ===== src/Text.antt =====
-- The operations on texts that the code uses, over the native strings.
pub mod Laws
pub mod Parts
use Prim.Native.Char.{Char, code}
use text.Mathlib.Text.{starts_with}
use duck_launcher.Base.{
  ℕ, suc, ◌+◌, Bool, true, false, ◌&&◌, ◌||◌, ◌==◌, leb, String, List, [], ◌∷◌, if◌then◌else◌,
}

abbrev pub is_empty : String → Bool
is_empty String.[] = true
is_empty (String.◌∷◌ c s) = false

-- s.rstrip("/")
unfoldable pub rstrip_slash : String → String
rstrip_slash String.[] = String.[]
rstrip_slash (String.◌∷◌ c s) =
    let rest = rstrip_slash s in if is_empty rest && code c == b'/' then rest else String.◌∷◌ c rest

-- Whether some character passes a test on its code point.
unfoldable pub any_char : (ℕ → Bool) → String → Bool
any_char p String.[] = false
any_char p (String.◌∷◌ c s) = p (code c) || any_char p s

-- str.isspace of one character.
unfoldable pub is_space : ℕ → Bool
is_space c =
    (leb 9 c && leb c 13)
    || (leb 28 c && leb c 32)
    || c == 0x85
    || c == 0xa0
    || c == 0x1680
    || (leb 0x2000 c && leb c 0x200a)
    || c == 0x2028
    || c == 0x2029
    || c == 0x202f
    || c == 0x205f
    || c == 0x3000

-- lstrip and rstrip, of the characters that pass a test.
unfoldable pub strip_left : (ℕ → Bool) → String → String
strip_left p String.[] = String.[]
strip_left p (String.◌∷◌ c s) =
    let rest = strip_left p s in if p (code c) then rest else String.◌∷◌ c s

unfoldable pub strip_right : (ℕ → Bool) → String → String
strip_right p String.[] = String.[]
strip_right p (String.◌∷◌ c s) =
    let rest = strip_right p s in if is_empty rest && p (code c) then rest else String.◌∷◌ c rest

-- s.strip()
unfoldable pub strip : String → String
unfolding strip_left strip_right is_space
strip s = strip_right is_space (strip_left is_space s)

-- s.replace(q, q + q), for a character q.
unfoldable pub double : ℕ → String → String
double q String.[] = String.[]
double q (String.◌∷◌ c s) =
    let rest = double q s in
    if code c == q then String.◌∷◌ c (String.◌∷◌ c rest) else String.◌∷◌ c rest

abbrev pub cons_head : Char → List String → List String
cons_head c [] = String.◌∷◌ c String.[] ∷ []
cons_head c (line ∷ lines) = String.◌∷◌ c line ∷ lines

-- s.split(q), for a character q.
unfoldable pub split : ℕ → String → List String
split q String.[] = String.[] ∷ []
split q (String.◌∷◌ c s) =
    let rest = split q s in if code c == q then String.[] ∷ rest else cons_head c rest

-- A character at which str.splitlines ends a line.
unfoldable pub is_line_break : ℕ → Bool
is_line_break c =
    (leb 10 c && leb c 13) || (leb 28 c && leb c 30) || c == 0x85 || c == 0x2028 || c == 0x2029

-- s.splitlines(): "\r\n" is one break, and a break at the end opens no line.
unfoldable pub splitlines : String → List String
unfolding is_line_break
splitlines String.[] = []
splitlines (String.◌∷◌ c String.[]) =
    if is_line_break (code c) then String.[] ∷ [] else String.◌∷◌ c String.[] ∷ []
splitlines (String.◌∷◌ c (String.◌∷◌ d s)) =
    let after = splitlines s in
    let rest = splitlines (String.◌∷◌ d s) in
    if code c == 13 && code d == 10
    then String.[] ∷ after
    else if is_line_break (code c)
    then String.[] ∷ rest
    else cons_head c rest

-- The characters at the start that pass a test, and the rest.
unfoldable pub span : (ℕ → Bool) → String → String × String
span p String.[] = (String.[], String.[])
span p (String.◌∷◌ c s) =
    let rest = span p s in
    if p (code c) then (String.◌∷◌ c rest.0, rest.1) else (String.[], String.◌∷◌ c s)

-- len(s)
unfoldable pub chars : String → ℕ
chars String.[] = 0
chars (String.◌∷◌ c s) = suc (chars s)

-- str.lower of an ASCII character. No other character's lower case is a letter of the texts that the
-- code compares with.
unfoldable pub lower : ℕ → ℕ
lower c = if leb b'A' c && leb c b'Z' then c + 32 else c

-- s.startswith(t), s == t and `t in s`, where each character of `s` is folded first.
unfoldable pub starts_with_by : (ℕ → ℕ) → String → String → Bool
starts_with_by fold String.[] s = true
starts_with_by fold (String.◌∷◌ t ts) String.[] = false
starts_with_by fold (String.◌∷◌ t ts) (String.◌∷◌ c s) =
    fold (code c) == code t && starts_with_by fold ts s

unfoldable pub equals_by : (ℕ → ℕ) → String → String → Bool
equals_by fold String.[] s = is_empty s
equals_by fold (String.◌∷◌ t ts) String.[] = false
equals_by fold (String.◌∷◌ t ts) (String.◌∷◌ c s) = fold (code c) == code t && equals_by fold ts s

unfoldable pub has_text_by : (ℕ → ℕ) → String → String → Bool
unfolding starts_with_by
has_text_by fold t String.[] = is_empty t
has_text_by fold t (String.◌∷◌ c s) = starts_with_by fold t (String.◌∷◌ c s) || has_text_by fold t s
