-- ===== src/Text/Parts.antt =====
-- Texts that are put together of parts, split and stripped.
use Prim.Native.Char.{Char, code}
use Prim.Native.String.{◌++◌ as append}
use text.Mathlib.TextLemmas.{cons-append, nil-append}
use duck_launcher.Base.{ℕ, ◌≡◌, refl, Bool, true, false, not, ◌==◌, String, [], ◌∷◌, arith}
use duck_launcher.Text.{is_empty, is_space, any_char, strip_left, strip_right, split}

-- A text in which some character is missing is one part.
split_whole : (q : ℕ) (t : String) → any_char (λ x. x == q) t ≡ false → split q t ≡ t ∷ []
unfolding split any_char
split_whole q String.[] h = refl
split_whole q (String.◌∷◌ c t) h =
    let first : (code c == q) ≡ false = ground arith in
    let later : any_char (λ x. x == q) t ≡ false = ground arith in
    rw (split, first, split_whole q t later) refl

pub split-append :
    (q : ℕ) (s : String) (c : Char) (t : String)
    → any_char (λ x. x == q) s ≡ false
    → any_char (λ x. x == q) t ≡ false
    → (code c == q) ≡ true
    → split q (append s (String.◌∷◌ c t)) ≡ s ∷ t ∷ []
unfolding split any_char
split-append q String.[] c t hs ht sep =
    rw (nil-append (String.◌∷◌ c t), split, sep, split_whole q t ht) refl
split-append q (String.◌∷◌ d s) c t hs ht sep =
    let first : (code d == q) ≡ false = ground arith in
    let later : any_char (λ x. x == q) s ≡ false = ground arith in
    rw (cons-append d s (String.◌∷◌ c t), split, first, split-append q s c t later ht sep) refl

pub weaken :
    (p r : ℕ → Bool) (s : String)
    → ((c : ℕ) → p c ≡ false → r c ≡ false)
    → any_char p s ≡ false
    → any_char r s ≡ false
unfolding any_char
weaken p r String.[] f h = refl
weaken p r (String.◌∷◌ c s) f h =
    let first : p (code c) ≡ false = ground arith in
    let later : any_char p s ≡ false = ground arith in
    rw (f (code c) first, weaken p r s f later) refl

pub strip_left-blanks :
    (s t : String)
    → any_char (λ c. not (is_space c)) s ≡ false
    → strip_left is_space (append s t) ≡ strip_left is_space t
unfolding any_char strip_left
strip_left-blanks String.[] t h = rw (nil-append t) refl
strip_left-blanks (String.◌∷◌ c s) t h =
    let first : is_space (code c) ≡ true = ground arith in
    let later : any_char (λ x. not (is_space x)) s ≡ false = ground arith in
    rw (cons-append c s t, strip_left, first) (strip_left-blanks s t later)

pub strip_left_ink :
    (c : Char) (s : String)
    → is_space (code c) ≡ false
    → strip_left is_space (String.◌∷◌ c s) ≡ String.◌∷◌ c s
unfolding strip_left
strip_left_ink c s h = rw h refl

is_empty-append : (s t : String) → is_empty t ≡ false → is_empty (append s t) ≡ false
is_empty-append String.[] t h = rw (nil-append t) h
is_empty-append (String.◌∷◌ c s) t h = rw (cons-append c s t) refl

pub strip_right-append :
    (s t : String)
    → is_empty (strip_right is_space t) ≡ false
    → strip_right is_space (append s t) ≡ append s (strip_right is_space t)
unfolding strip_right
strip_right-append String.[] t h = rw (nil-append t, nil-append (strip_right is_space t)) refl
strip_right-append (String.◌∷◌ c s) t h =
    let full = is_empty-append s (strip_right is_space t) h in
    rw
      (
        cons-append c s t,
        strip_right,
        strip_right-append s t h,
        full,
        cons-append c s (strip_right is_space t),
      )
      refl
