-- ===== src/Worker/Metrics.antt =====
-- collect_metrics and available_disk_space_mb of worker/registration.py. The lines of /proc/meminfo
-- and what `os` says are arguments; cpu_usage, which is computed in doubles, is one of them.
pub mod Meminfo
use duck_launcher.Accounts.Auth.{Answer, returned, raised}
use Prim.Native.Char.{code}
use text.Mathlib.Text.{◌==◌ as str_eq}
use duck_launcher.Base.{
  ℕ, zero, suc, ◌+◌, ◌*◌, ◌-◌, ◌/◌, ℤ, pos, negsuc, ◌+ℤ◌, Bool, true, false, not, ◌&&◌, ◌==◌, leb,
  Option, none, some, coalesce, String, List, [], ◌∷◌, if◌then◌else◌,
}
use duck_launcher.Text.{is_empty, is_space, strip_left, strip, split, span}
use duck_launcher.Worker.Registration.{Metrics}

abbrev pub is_digit : ℕ → Bool
is_digit c = leb b'0' c && leb c b'9'

-- The digits of int(word), an underscore between two of them let be; `wants` says that a digit must
-- come. Digits of other scripts, which the kernel does not write, are refused.
unfoldable pub digits : ℕ → Bool → String → Option ℕ
digits n wants String.[] = if wants then none else some n
digits n wants (String.◌∷◌ c s) =
    let after = digits (n * 10 + (code c - b'0')) false s in
    let under = digits n true s in
    if is_digit (code c) then after else if code c == b'_' && not wants then under else none

abbrev pub negate : ℕ → ℤ
negate zero = pos zero
negate (suc n) = negsuc n

abbrev pub signed : (ℕ → ℤ) → Option ℕ → Option ℤ
signed sign none = none
signed sign (some n) = some (sign n)

-- int(word) of a word without spaces; none: ValueError.
unfoldable pub int_of : String → Option ℤ
unfolding digits
int_of String.[] = none
int_of (String.◌∷◌ c s) =
    if code c == b'-'
    then signed negate (digits 0 true s)
    else if code c == b'+'
    then signed pos (digits 0 true s)
    else signed pos (digits 0 true (String.◌∷◌ c s))

-- text.split()[0]; none: IndexError.
unfoldable pub first_word : String → Option String
unfolding strip_left is_space span
first_word s =
    let word = (span (λ c. not (is_space c)) (strip_left is_space s)).0 in
    if is_empty word then none else some word

-- A line: none where it raises, and otherwise its entry, if it has one.
abbrev pub keyed : String → Option ℤ → Option (Option (String × ℤ))
keyed key none = none
keyed key (some value) = some (some (key, value))

abbrev pub value_of : String → Option String → Option (Option (String × ℤ))
value_of key none = none
value_of key (some word) = keyed key (int_of word)

abbrev pub entry_of : List String → Option (Option (String × ℤ))
entry_of (key ∷ value ∷ []) = value_of (strip key) (first_word (strip value))
entry_of _ = some none

unfoldable pub meminfo_line : String → Option (Option (String × ℤ))
unfolding split strip first_word int_of
meminfo_line line = entry_of (split b':' line)

-- The dictionary that the loop makes, the latest entry first.
abbrev pub with_entry : Option (String × ℤ) → List (String × ℤ) → List (String × ℤ)
with_entry none meminfo = meminfo
with_entry (some entry) meminfo = entry ∷ meminfo

unfoldable pub read_meminfo : List String → List (String × ℤ) → Option (List (String × ℤ))
unfolding meminfo_line
read_meminfo [] meminfo = some meminfo
read_meminfo (line ∷ lines) meminfo = elim (meminfo_line line) [
  | none ↦ none
  | some entry ↦ read_meminfo lines (with_entry entry meminfo)
]

-- meminfo.get(key, default)
unfoldable pub get : String → ℤ → List (String × ℤ) → ℤ
get key default [] = default
get key default ((k, value) ∷ meminfo) = if str_eq k key then value else get key default meminfo

-- n // 1024, which rounds down.
abbrev pub kib_to_mib : ℤ → ℤ
kib_to_mib (pos n) = pos (n / 1024)
kib_to_mib (negsuc n) = negsuc (n / 1024)

abbrev pub opposite : ℤ → ℤ
opposite (pos n) = negate n
opposite (negsuc n) = pos (suc n)

abbrev pub mem_total_mb : List (String × ℤ) → ℤ
mem_total_mb meminfo = kib_to_mib (get "MemTotal" (pos 0) meminfo)

abbrev pub mem_free_mb : List (String × ℤ) → ℤ
mem_free_mb meminfo = kib_to_mib (get "MemAvailable" (get "MemFree" (pos 0) meminfo) meminfo)

-- os.cpu_count() or 1
abbrev pub count_or_one : Option ℕ → ℤ
count_or_one none = pos 1
count_or_one (some zero) = pos 1
count_or_one (some n) = pos n

abbrev pub metrics_of : ℤ → ℤ → Option ℕ → ℕ → Metrics
metrics_of used free cpu_count cpu_usage = record {
  memory_used_mb = used;
  memory_left_mb = free;
  cpu_count = count_or_one cpu_count;
  cpu_usage = cpu_usage;
}

-- `lines` are those of /proc/meminfo, none where there is no such file. None: an exception.
unfoldable pub collect_metrics : Option (List String) → Bool → Option ℕ → ℕ → Option Metrics
unfolding read_meminfo get ◌+ℤ◌
collect_metrics none darwin cpu_count cpu_usage =
    if darwin then some (metrics_of (pos 4096) (pos 4096) cpu_count cpu_usage) else none
collect_metrics (some lines) darwin cpu_count cpu_usage = elim (read_meminfo lines []) [
  | none ↦ none
  | some meminfo ↦ some (
      metrics_of (mem_total_mb meminfo +ℤ opposite (mem_free_mb meminfo)) (mem_free_mb meminfo)
        cpu_count cpu_usage)
]

-- The blocks that are free and their size; none: OSError.
unfoldable pub available_disk_space_mb : Option (ℕ × ℕ) → ℕ
available_disk_space_mb none = 1024
available_disk_space_mb (some (f_bavail, f_frsize)) = f_bavail * f_frsize / (1024 * 1024)

-- POST /metrics
unfoldable pub metrics_route : Option Metrics → Answer Metrics
metrics_route none = raised 500
metrics_route (some metrics) = returned metrics
