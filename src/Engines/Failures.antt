-- ===== src/Engines/Failures.antt =====
-- src/servepilot/engines/failures.py: the failure types of schemas/benchmark.py, the table of patterns
-- and `classify_failure`. A pattern is the text of a regular expression; `re.search`, without regard
-- to case, is an argument that returns the text that matched. The summary line and the wording of
-- the message are left out.
pub mod Patterns
pub mod Order
use open_baseten_inference.Prelude.{
  ℕ, String, Bool, true, false, not, ◌||◌, Option, none, some, List, [], ◌∷◌, ◌++◌, ◌==◌,
  if◌then◌else◌,
}
use open_baseten_inference.Engines.Failures.Patterns.{
  FailureType, unknown, startup_timeout, engine_crash, patterns,
}

-- `Popen.returncode`: a negative one is the number of a signal
pub data ExitCode : Type 0 where
  exited : ℕ → ExitCode
  signalled : ℕ → ExitCode

-- `pattern.search(combined)` and `m.group(0)`
abbrev pub Search : Type 0
Search = String → String → Option String

-- the inner loop: the first pattern of a category that matches
unfoldable pub search_patterns : Search → String → List String → Option String
search_patterns find text [] = none
search_patterns find text (p ∷ ps) = elim (find p text) [
  | some m ↦ some m
  | none ↦ search_patterns find text ps
]

-- the outer loop: the first category with a match
unfoldable pub search_categories :
    Search → String → List (FailureType × List String) → Option (FailureType × String)
unfolding search_patterns
search_categories find text [] = none
search_categories find text ((t, ps) ∷ rest) = elim (search_patterns find text ps) [
  | some m ↦ some (t, m)
  | none ↦ search_categories find text rest
]

abbrev pub is_failure : Option ExitCode → Bool
is_failure none = false
is_failure (some (exited n)) = not (n == 0)
is_failure (some (signalled n)) = true

abbrev is_killed : Option ExitCode → Bool
is_killed (some (signalled n)) = n == 9
is_killed (some (exited n)) = n == 137
is_killed none = false

-- what the exit tells when no pattern matched: the type, and what stands for the match
abbrev pub by_exit : Bool → Option ExitCode → FailureType × Option String
by_exit timed_out code =
    if timed_out
    then (startup_timeout, none)
    else if is_failure code
    then (
      engine_crash,
      if is_killed code
          then some "process killed with SIGKILL (host OOM killer or external signal)"
          else none,
    )
    else (unknown, none)

abbrev pub decided :
    Option (FailureType × String) → Bool → Option ExitCode → FailureType × Option String
decided (some (t, m)) timed_out code = (t, some m)
decided none timed_out code = by_exit timed_out code

-- `classify_failure`, up to the message: the type and the text that matched
unfoldable pub classify_failure :
    Search → Option ExitCode → Bool → String → FailureType × Option String
unfolding search_categories
classify_failure find code timed_out combined =
    decided (search_categories find combined patterns) timed_out code
