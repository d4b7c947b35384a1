-- ===== src/Text/Laws.antt =====
-- Laws of the text operations.
use Prim.Native.Char.{Char, code}
use Prim.Native.String.{◌++◌}
use text.Mathlib.TextLemmas.{cons-append, nil-append}
use duck_launcher.Base.{
  ℕ, ◌≡◌, refl, ap, ◌∙◌, Bool, true, false, not, ◌||◌, inl, inr, String, List, [], ◌∷◌, All, arith,
  Bool-cases, ◌==◌, ◌&&◌, ◌+◌,
}
use duck_launcher.Text.{
  is_empty, any_char, is_space, strip_left, strip_right, strip, split, cons_head, span, chars,
  splitlines, is_line_break,
}

pub any_char-append :
    (p : ℕ → Bool) (s t : String) → any_char p (s ++ t) ≡ (any_char p s || any_char p t)
unfolding any_char
any_char-append p String.[] t = rw (nil-append t) refl
any_char-append p (String.◌∷◌ c s) t = rw (cons-append c s t, any_char-append p s t) (ground arith)

-- A run of characters that pass the test, and one that does not.
pub span-append :
    (p : ℕ → Bool) (s : String) (c : Char) (t : String)
    → any_char (λ x. not (p x)) s ≡ false
    → p (code c) ≡ false
    → span p (s ++ String.◌∷◌ c t) ≡ (s, String.◌∷◌ c t)
unfolding any_char span
span-append p String.[] c t h stop = rw (nil-append (String.◌∷◌ c t), stop) refl
span-append p (String.◌∷◌ d s) c t h stop =
    let first : p (code d) ≡ true = ground arith in
    let later : any_char (λ x. not (p x)) s ≡ false = ground arith in
    rw (cons-append d s (String.◌∷◌ c t), span, span-append p s c t later stop, first) refl

any_char-strip_left :
    (p q : ℕ → Bool) (s : String) → any_char q s ≡ false → any_char q (strip_left p s) ≡ false
unfolding any_char strip_left
any_char-strip_left p q String.[] h = refl
any_char-strip_left p q (String.◌∷◌ c s) h = ground (arith, any_char-strip_left p q s)

any_char-strip_right :
    (p q : ℕ → Bool) (s : String) → any_char q s ≡ false → any_char q (strip_right p s) ≡ false
unfolding any_char strip_right
any_char-strip_right p q String.[] h = refl
any_char-strip_right p q (String.◌∷◌ c s) h = ground (arith, any_char-strip_right p q s)

-- What does not occur in a text does not occur in it stripped.
pub any_char-strip :
    (q : ℕ → Bool) (s : String) → any_char q s ≡ false → any_char q (strip s) ≡ false
unfolding strip
any_char-strip q s h =
    any_char-strip_right is_space q (strip_left is_space s) (any_char-strip_left is_space q s h)

cons_head-parts :
    (q : ℕ) (c : Char) (parts : List String)
    → (code c == q) ≡ false
    → All (λ part. any_char (λ d. d == q) part ≡ false) parts
    → All (λ part. any_char (λ d. d == q) part ≡ false) (cons_head c parts)
unfolding any_char
cons_head-parts q c [] e h = (rw e refl, tt)
cons_head-parts q c (part ∷ parts) e h = (rw e h.0, h.1)

-- The separator occurs in no part.
pub split-parts :
    (q : ℕ) (s : String) → All (λ part. any_char (λ c. c == q) part ≡ false) (split q s)
unfolding any_char split
split-parts q String.[] = (refl, tt)
split-parts q (String.◌∷◌ c s) = elim (Bool-cases (code c == q)) [
  | inl t ↦ rw t (refl, split-parts q s)
  | inr t ↦ rw t (cons_head-parts q c (split q s) t (split-parts q s))
]

-- A character that is no space.
abbrev pub is_ink : ℕ → Bool
is_ink c = not (is_space c)

any_char-strip_left_ink : (s : String) → any_char is_ink (strip_left is_space s) ≡ any_char is_ink s
unfolding any_char strip_left
any_char-strip_left_ink String.[] = refl
any_char-strip_left_ink (String.◌∷◌ c s) = ground (arith, any_char-strip_left_ink s)

is_empty-strip_right : (s : String) → is_empty (strip_right is_space s) ≡ not (any_char is_ink s)
unfolding any_char strip_right
is_empty-strip_right String.[] = refl
is_empty-strip_right (String.◌∷◌ c s) = ground (arith, is_empty-strip_right s)

-- A text is stripped to nothing exactly if it is all spaces.
pub is_empty-strip : (s : String) → is_empty (strip s) ≡ not (any_char is_ink s)
unfolding strip
is_empty-strip s = is_empty-strip_right (strip_left is_space s) ∙ ap not (any_char-strip_left_ink s)

cons_head-blank :
    (p : ℕ → Bool) (c : Char) (lines : List String)
    → p (code c) ≡ false
    → All (λ line. any_char p line ≡ false) lines
    → All (λ line. any_char p line ≡ false) (cons_head c lines)
unfolding any_char
cons_head-blank p c [] e h = (rw e refl, tt)
cons_head-blank p c (line ∷ lines) e h = (rw e h.0, h.1)

pub any_char-parts :
    (p : ℕ → Bool) (c : Char) (s : String)
    → any_char p (String.◌∷◌ c s) ≡ false
    → (p (code c) ≡ false) × (any_char p s ≡ false)
unfolding any_char
any_char-parts p c s h = (ground arith, ground arith)

-- What does not occur in a text does not occur in its lines.
pub splitlines-parts :
    (p : ℕ → Bool) (s : String)
    → any_char p s ≡ false
    → All (λ line. any_char p line ≡ false) (splitlines s)
unfolding splitlines any_char
splitlines-parts p String.[] h = tt
splitlines-parts p (String.◌∷◌ c String.[]) h = elim (Bool-cases (is_line_break (code c))) [
  | inl t ↦ rw (splitlines, t) (refl, tt)
  | inr t ↦ rw (splitlines, t) (h, tt)
]
splitlines-parts p (String.◌∷◌ c (String.◌∷◌ d s)) h =
    let first = any_char-parts p c (String.◌∷◌ d s) h in
    let second = any_char-parts p d s first.1 in
    let rest = splitlines-parts p (String.◌∷◌ d s) first.1 in
    let after = splitlines-parts p s second.1 in
    elim (Bool-cases (code c == 13 && code d == 10)) [
      | inl t ↦ rw (splitlines, t) (refl, after)
      | inr t ↦ elim (Bool-cases (is_line_break (code c))) [
        | inl b ↦ rw (splitlines, t, b) (refl, rest)
        | inr b ↦
            rw (splitlines, t, b) (cons_head-blank p c (splitlines (String.◌∷◌ d s)) first.0 rest)
      ]
    ]

pub chars-append : (s t : String) → chars (s ++ t) ≡ chars s + chars t
unfolding chars
chars-append String.[] t = rw (nil-append t) (omega arith)
chars-append (String.◌∷◌ c s) t = rw (cons-append c s t) (omega (arith, chars-append s t))
