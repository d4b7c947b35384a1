-- ===== src/Worker/Executor.antt =====
-- worker/duckdb.py: the pool of connections, the active queries and the result files. A connection
-- is a number, the count of those that duckdb.connect had opened before it.
use Prim.Native.Char.{code}
use Prim.Native.String.{◌++◌}
use duck_launcher.Base.{
  ℕ, zero, suc, Bool, true, false, not, ◌&&◌, ◌||◌, ◌==◌, Option, none, some, String, List, [], ◌∷◌,
  ◌++◌ as append, map, any, leb, if◌then◌else◌, length,
}
use duck_launcher.Table.{delete}
use duck_launcher.Text.{any_char, strip, strip_right, lower, double}

pub record Executor : Type 0 where
  pub available : List ℕ
  pub active : List (ℕ × ℕ)
  pub next_connection : ℕ
  pub results : List ℕ

-- `count` new connections, from the given number on.
abbrev pub fresh_connections : ℕ → ℕ → List ℕ
fresh_connections zero first = []
fresh_connections (suc count) first = first ∷ fresh_connections count (suc first)

unfoldable pub warm_pool : ℕ → Executor
warm_pool pool_size = record {
  available = fresh_connections pool_size 0;
  active = [];
  next_connection = pool_size;
  results = [];
}

-- None: the queue is empty, and the thread waits.
unfoldable pub acquire : Executor → Option (ℕ × Executor)
acquire ex = elim ex.available [
  | [] ↦ none
  | conn ∷ rest ↦ some (conn, record ex { available = rest })
]

-- `refused` is what duckdb.connect raises, where it does: then nothing is put into the queue, and the
-- exception is that of `_release`, which comes first in the result.
unfoldable pub release : Executor → ℕ → Bool → Option String → Option String × Executor
release ex conn false refused = (none, record ex { available = append ex.available (conn ∷ []) })
release ex conn true none = (
  none,
  record ex {
    available = append ex.available (ex.next_connection ∷ []);
    next_connection = suc ex.next_connection;
  },
)
release ex conn true (some text) = (some text, ex)

-- self._active[query_id] = conn, self._active.get(query_id) and self._active.pop(query_id, None)
unfoldable pub set_active : ℕ → ℕ → List (ℕ × ℕ) → List (ℕ × ℕ)
set_active query_id conn [] = (query_id, conn) ∷ []
set_active query_id conn ((k, c) ∷ rest) =
    if k == query_id then (k, conn) ∷ rest else (k, c) ∷ set_active query_id conn rest

unfoldable pub get_active : ℕ → List (ℕ × ℕ) → Option ℕ
get_active query_id [] = none
get_active query_id ((k, c) ∷ rest) = if k == query_id then some c else get_active query_id rest

unfoldable pub pop_active : ℕ → List (ℕ × ℕ) → List (ℕ × ℕ)
pop_active query_id [] = []
pop_active query_id ((k, c) ∷ rest) =
    if k == query_id then rest else (k, c) ∷ pop_active query_id rest

unfoldable pub enter_active : Executor → ℕ → ℕ → Executor
unfolding set_active
enter_active ex query_id conn = record ex { active = set_active query_id conn ex.active }

unfoldable pub leave_active : Executor → ℕ → Executor
unfolding pop_active
leave_active ex query_id = record ex { active = pop_active query_id ex.active }

-- What DuckDB makes of the statements of a query: the number of rows in its result file, nothing to
-- read, an interruption, or another error with its text.
pub data Outcome : Type 0 where
  row_count : ℕ → Outcome
  no_result : Outcome
  interrupted : Outcome
  error : String → Outcome

-- The value or the exception of `execute`.
pub data Execution : Type 0 where
  result : Option ℕ → Execution
  query_cancelled : Execution
  failed : String → Execution

abbrev pub execution : Outcome → Execution
execution (row_count n) = result (some n)
execution no_result = result none
execution interrupted = query_cancelled
execution (error text) = failed text

-- The result file of the query, after COPY has written it or _remove_result has removed it.
abbrev pub files_after : Outcome → ℕ → List ℕ → List ℕ
files_after (row_count n) query_id files =
    if any (λ k. k == query_id) files then files else query_id ∷ files
files_after no_result query_id files = files
files_after interrupted query_id files = delete (λ k. k == query_id) files
files_after (error text) query_id files = delete (λ k. k == query_id) files

unfoldable pub run_statements : Executor → ℕ → Outcome → Executor
unfolding delete
run_statements ex query_id outcome = record ex { results = files_after outcome query_id ex.results }

-- `discard`
abbrev pub discards : Outcome → Bool
discards interrupted = true
discards _ = false

-- An exception of the finally takes the place of what the try has returned or raised.
abbrev pub unless_raised : Option String → Execution → Execution
unless_raised none ended = ended
unless_raised (some text) ended = failed text

-- The whole call, where no other thread runs between its parts.
unfoldable pub execute :
    Executor → ℕ → (ℕ → Outcome) → Option String → Option (Execution × Executor)
unfolding acquire enter_active run_statements leave_active release
execute ex query_id duckdb refused = elim (acquire ex) [
  | none ↦ none
  | some (conn, acquired) ↦
      let outcome = duckdb conn in
      let ran = run_statements (enter_active acquired query_id conn) query_id outcome in
      let released = release (leave_active ran query_id) conn (discards outcome) refused in
      some (unless_raised released.0 (execution outcome), released.1)
]

-- The connection that `cancel` reads, and then interrupts.
unfoldable pub cancel_target : Executor → ℕ → Option ℕ
unfolding get_active
cancel_target ex query_id = get_active query_id ex.active

-- The connections that are interrupted, and the answer.
unfoldable pub cancel : Executor → ℕ → Bool × List ℕ
unfolding cancel_target
cancel ex query_id = elim (cancel_target ex query_id) [
  | none ↦ (false, [])
  | some conn ↦ (true, conn ∷ [])
]

abbrev pub cancel_each : Executor → List ℕ → List ℕ
cancel_each ex [] = []
cancel_each ex (query_id ∷ query_ids) = append (cancel ex query_id).1 (cancel_each ex query_ids)

-- The ids, and the connections that are interrupted.
unfoldable pub cancel_all : Executor → List ℕ × List ℕ
cancel_all ex = let query_ids = map (λ e. e.0) ex.active in (query_ids, cancel_each ex query_ids)

abbrev pub active_count : Executor → ℕ
active_count ex = length ex.active

-- re.IGNORECASE, for the letters of the keywords: the s has ſ too, and the i has İ and ı.
unfoldable pub fold_case : ℕ → ℕ
unfolding lower
fold_case c = if c == 0x17f then b's' else if c == 0x130 || c == 0x131 then b'i' else lower c

-- \w of ASCII; `unicode_word` tells it of the other characters.
unfoldable pub is_word : (ℕ → Bool) → ℕ → Bool
is_word unicode_word c =
    (leb b'a' (lower c) && leb (lower c) b'z')
    || (leb b'0' c && leb c b'9')
    || c == b'_'
    || (leb 128 c && unicode_word c)

-- The keyword at the start, and \b behind it.
unfoldable pub starts_with_word : (ℕ → Bool) → String → String → Bool
unfolding is_word fold_case
starts_with_word unicode_word String.[] String.[] = true
starts_with_word unicode_word String.[] (String.◌∷◌ c s) = not (is_word unicode_word (code c))
starts_with_word unicode_word (String.◌∷◌ t ts) String.[] = false
starts_with_word unicode_word (String.◌∷◌ t ts) (String.◌∷◌ c s) =
    fold_case (code c) == code t && starts_with_word unicode_word ts s

abbrev pub result_keywords : List String
result_keywords = "with" ∷ "select" ∷ "describe" ∷ "show" ∷ "explain" ∷ "values" ∷ []

-- query.strip().rstrip(";").strip()
unfoldable pub trimmed_query : String → String
unfolding strip strip_right
trimmed_query query = strip (strip_right (λ c. c == b';') (strip query))

unfoldable pub returns_results : (ℕ → Bool) → String → Bool
unfolding trimmed_query any_char starts_with_word
returns_results unicode_word query =
    not (any_char (λ c. c == b';') (trimmed_query query))
    && any (λ keyword. starts_with_word unicode_word keyword (trimmed_query query)) result_keywords

-- The first statement that `execute` sends to DuckDB; `path` is the text of the result's path.
unfoldable pub first_statement : (ℕ → Bool) → String → String → String
unfolding returns_results
first_statement unicode_word path query =
    if returns_results unicode_word query
    then "COPY (" ++ (query ++ (") TO '" ++ (path ++ "' (FORMAT PARQUET)")))
    else query

unfoldable pub quote_identifier : String → String
unfolding double
quote_identifier name = "\"" ++ (double b'"' name ++ "\"")
