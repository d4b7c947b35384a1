-- ===== src/Worker/Metrics/Meminfo.antt =====
-- worker/registration.py: the lines of /proc/meminfo as the kernel writes them, read back.
use duck_launcher.Text.Parts.{
  split-append, weaken, strip_left-blanks, strip_left_ink, strip_right-append,
}
use duck_launcher.Worker.Registration.{Metrics}
use Prim.Native.Char.{Char, code}
use Prim.Native.String.{◌++◌ as append}
use text.Mathlib.TextLemmas.{cons-append}
use duck_launcher.Base.{
  ℕ, ◌+◌, ◌*◌, ◌-◌, ◌≡◌, refl, ap, ◌∙◌, ℤ, pos, ◌+ℤ◌, Bool, true, false, not, ◌&&◌, ◌==◌, Option,
  some, String, List, [], ◌∷◌, All, map, arith, sym,
}
use duck_launcher.Text.{is_empty, is_space, any_char, strip_left, strip_right, strip, span}
use duck_launcher.Text.Laws.{span-append, any_char-append}
use duck_launcher.Worker.Metrics.{
  is_digit, digits, int_of, first_word, meminfo_line, read_meminfo, signed, value_of, entry_of, get,
  kib_to_mib, mem_total_mb, mem_free_mb, opposite, metrics_of, collect_metrics, keyed, with_entry,
}

-- What the digits say.
abbrev pub decimal : ℕ → String → ℕ
decimal n String.[] = n
decimal n (String.◌∷◌ c s) = decimal (n * 10 + (code c - b'0')) s

-- A line: a key, blanks and a number.
pub record Line : Type 0 where
  pub key : String
  pub blanks : String
  pub number : String

abbrev pub line_of : Line → String
line_of l = append l.key (String.◌∷◌ ":" (append l.blanks (append l.number " kB\n")))

-- The key has no colon and no space about it, the blanks are spaces, and the number has digits only,
-- and one at least.
pub record IsLine (l : Line) : Type 0 where
  pub no_colon : any_char (λ c. c == b':') l.key ≡ false
  pub bare : strip l.key ≡ l.key
  pub spaces : any_char (λ c. not (c == 32)) l.blanks ≡ false
  pub only_digits : any_char (λ c. not (is_digit c)) l.number ≡ false
  pub some_digit : is_empty l.number ≡ false

digits_lem :
    (s : String) (n : ℕ) (wants : Bool)
    → any_char (λ c. not (is_digit c)) s ≡ false
    → (wants && is_empty s) ≡ false
    → digits n wants s ≡ some (decimal n s)
unfolding any_char digits
digits_lem String.[] n wants h full = ground arith
digits_lem (String.◌∷◌ c s) n wants h full =
    let first : is_digit (code c) ≡ true = ground arith in
    let later : any_char (λ x. not (is_digit x)) s ≡ false = ground arith in
    rw (digits, first) (digits_lem s (n * 10 + (code c - b'0')) false later refl)

blank_space : (c : ℕ) → not (c == 32) ≡ false → not (is_space c) ≡ false
unfolding is_space
blank_space c h = ground arith

digit_no_space : (c : ℕ) → not (is_digit c) ≡ false → not (not (is_space c)) ≡ false
unfolding is_space
digit_no_space c h = ground arith

abbrev unit_text : String
unit_text = " kB"

module _ (c : Char) (s : String)
    (digits_only : any_char (λ x. not (is_digit x)) (String.◌∷◌ c s) ≡ false) where
  first_digit : is_digit (code c) ≡ true
  first_digit = unfold any_char in ground arith

  no_space : is_space (code c) ≡ false
  no_space =
      let h : not (not (is_space (code c))) ≡ false =
        digit_no_space (code c) (rw first_digit refl) in
      ground arith

  strip_number : strip (append (String.◌∷◌ c s) " kB\n") ≡ append (String.◌∷◌ c s) unit_text
  strip_number =
      unfold strip in
      let cut : strip_right is_space " kB\n" ≡ unit_text = unfold strip_right is_space in refl in
      let full : is_empty (strip_right is_space " kB\n") ≡ false =
        unfold strip_right is_space in refl in
      let whole : strip_right is_space (append (String.◌∷◌ c s) " kB\n")
          ≡ append (String.◌∷◌ c s) unit_text =
        strip_right-append (String.◌∷◌ c s) " kB\n" full ∙ ap (append (String.◌∷◌ c s)) cut in
      ap (strip_right is_space) (
        ap (strip_left is_space) (cons-append c s " kB\n")
        ∙ strip_left_ink c (append s " kB\n") no_space
        ∙ sym (cons-append c s " kB\n"))
      ∙ whole

  first_word_number : first_word (append (String.◌∷◌ c s) unit_text) ≡ some (String.◌∷◌ c s)
  first_word_number =
      unfold first_word in
      let bare : strip_left is_space (append (String.◌∷◌ c s) unit_text)
          ≡ append (String.◌∷◌ c s) unit_text =
        ap (strip_left is_space) (cons-append c s unit_text)
        ∙ strip_left_ink c (append s unit_text) no_space
        ∙ sym (cons-append c s unit_text) in
      let word : span (λ x. not (is_space x)) (append (String.◌∷◌ c s) unit_text)
          ≡ (String.◌∷◌ c s, unit_text) =
        span-append (λ x. not (is_space x)) (String.◌∷◌ c s) " " "kB"
          (weaken (λ x. not (is_digit x)) (λ x. not (not (is_space x))) (String.◌∷◌ c s)
            digit_no_space digits_only)
          (unfold is_space in refl) in
      rw (bare, word) refl

  int_of_number : int_of (String.◌∷◌ c s) ≡ some (pos (decimal 0 (String.◌∷◌ c s)))
  int_of_number =
      unfold int_of in
      let no_minus : (code c == b'-') ≡ false = ground (arith, first_digit) in
      let no_plus : (code c == b'+') ≡ false = ground (arith, first_digit) in
      rw (no_minus, no_plus)
        (ap (signed (λ n. pos n)) (digits_lem (String.◌∷◌ c s) 0 true digits_only refl))

-- The value's part of a line.
value_read :
    (key blanks number : String)
    → any_char (λ c. not (c == 32)) blanks ≡ false
    → any_char (λ c. not (is_digit c)) number ≡ false
    → is_empty number ≡ false
    → value_of key (first_word (strip (append blanks (append number " kB\n"))))
      ≡ some (some (key, pos (decimal 0 number)))
value_read key blanks String.[] spaces digits_only full = cc
value_read key blanks (String.◌∷◌ c s) spaces digits_only full =
    let bare : strip (append blanks (append (String.◌∷◌ c s) " kB\n"))
        ≡ strip (append (String.◌∷◌ c s) " kB\n") =
      unfold strip in
      ap (strip_right is_space) (
        strip_left-blanks blanks (append (String.◌∷◌ c s) " kB\n")
          (weaken (λ x. not (x == 32)) (λ x. not (is_space x)) blanks blank_space spaces)) in
    ap (λ t. value_of key (first_word t)) (bare ∙ strip_number c s digits_only)
    ∙ ap (value_of key) (first_word_number c s digits_only)
    ∙ ap (keyed key) (int_of_number c s digits_only)

-- Behind the colon of the key there is no other.
no_colon_behind :
    (blanks number : String)
    → any_char (λ c. not (c == 32)) blanks ≡ false
    → any_char (λ c. not (is_digit c)) number ≡ false
    → any_char (λ c. c == b':') (append blanks (append number " kB\n")) ≡ false
no_colon_behind blanks number spaces digits_only =
    let in_blanks =
      weaken (λ c. not (c == 32)) (λ c. c == b':') blanks (λ c h. ground arith) spaces in
    let in_number =
      weaken (λ c. not (is_digit c)) (λ c. c == b':') number (λ c h. ground arith) digits_only in
    let behind : any_char (λ c. c == b':') " kB\n" ≡ false = unfold any_char in refl in
    any_char-append (λ c. c == b':') blanks (append number " kB\n")
    ∙ rw (any_char-append (λ c. c == b':') number " kB\n", in_blanks, in_number, behind) refl

-- A line that the kernel writes is read as its key and its number.
meminfo_line-line_of :
    (l : Line) → IsLine l → meminfo_line (line_of l) ≡ some (some (l.key, pos (decimal 0 l.number)))
unfolding meminfo_line
meminfo_line-line_of l h =
    let behind = no_colon_behind l.blanks l.number h.spaces h.only_digits in
    ap entry_of (
      split-append b':' l.key ":" (append l.blanks (append l.number " kB\n")) h.no_colon behind
        refl)
    ∙ ap (λ k. value_of k (first_word (strip (append l.blanks (append l.number " kB\n"))))) h.bare
    ∙ value_read l.key l.blanks l.number h.spaces h.only_digits h.some_digit

-- The lines of the file: amounts in kB, and others, such as counts of pages, with what they are read
-- as.
pub data MemLine : Type 0 where
  amount : Line → MemLine
  other : String → Option (String × ℤ) → MemLine

abbrev pub text_of : MemLine → String
text_of (amount l) = line_of l
text_of (other text entry) = text

abbrev pub IsMemLine : MemLine → Type 0
IsMemLine (amount l) = IsLine l
IsMemLine (other text entry) = meminfo_line text ≡ some entry

abbrev pub entry_in : MemLine → Option (String × ℤ)
entry_in (amount l) = some (l.key, pos (decimal 0 l.number))
entry_in (other text entry) = entry

meminfo_line-text_of : (l : MemLine) → IsMemLine l → meminfo_line (text_of l) ≡ some (entry_in l)
meminfo_line-text_of (amount l) h = meminfo_line-line_of l h
meminfo_line-text_of (other text entry) h = h

-- The entries of such lines, the latest first.
abbrev pub entries_of : List MemLine → List (String × ℤ) → List (String × ℤ)
entries_of [] meminfo = meminfo
entries_of (l ∷ lines) meminfo = entries_of lines (with_entry (entry_in l) meminfo)

read_meminfo-text_of :
    (lines : List MemLine) (meminfo : List (String × ℤ))
    → All IsMemLine lines
    → read_meminfo (map text_of lines) meminfo ≡ some (entries_of lines meminfo)
unfolding read_meminfo
read_meminfo-text_of [] meminfo h = refl
read_meminfo-text_of (l ∷ lines) meminfo h =
    rw (read_meminfo, meminfo_line-text_of l h.0)
      (read_meminfo-text_of lines (with_entry (entry_in l) meminfo) h.1)

used_and_free : (total free : ℤ) → total +ℤ opposite free +ℤ free ≡ total
unfolding ◌+ℤ◌
used_and_free total free = ground arith

-- Of a file /proc/meminfo whose lines are each a key, a colon, blanks, a decimal number and ` kB`, or
-- others that can be read, the worker reads every entry: what it reports as free is the entry
-- MemAvailable, or MemFree without it, in MiB, and what it reports as used and as free are together
-- the entry MemTotal in MiB.
pub collect_metrics_lem :
    (lines : List MemLine) (darwin : Bool) (cpu_count : Option ℕ) (cpu_usage : ℕ)
    → All IsMemLine lines
    → let meminfo = entries_of lines [] in
      (m : Metrics) × (collect_metrics (some (map text_of lines)) darwin cpu_count cpu_usage
        ≡ some m)
      × (m.memory_left_mb ≡ kib_to_mib (get "MemAvailable" (get "MemFree" (pos 0) meminfo) meminfo))
      × (m.memory_used_mb +ℤ m.memory_left_mb ≡ kib_to_mib (get "MemTotal" (pos 0) meminfo))
unfolding collect_metrics
collect_metrics_lem lines darwin cpu_count cpu_usage h =
    let meminfo = entries_of lines [] in
    (
      metrics_of (mem_total_mb meminfo +ℤ opposite (mem_free_mb meminfo)) (mem_free_mb meminfo)
          cpu_count cpu_usage,
      rw (collect_metrics, read_meminfo-text_of lines [] h) refl,
      refl,
      used_and_free (mem_total_mb meminfo) (mem_free_mb meminfo),
    )
