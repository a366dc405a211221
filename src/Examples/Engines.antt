-- ===== src/Examples/Engines.antt =====
-- engines/failures.py on a log that says that a port is taken.
use open_baseten_inference.Prelude.{
  String, true, Option, none, some, ◌≡◌, refl, str_eq, if◌then◌else◌,
}
use open_baseten_inference.Engines.Failures.Patterns.{FailureType, port_conflict}
use open_baseten_inference.Engines.Failures.{
  exited, Search, search_patterns, search_categories, classify_failure,
}
use open_baseten_inference.Engines.Failures.Order.{Classified, classify_failure-Classified}

-- a search that knows one pattern
abbrev find : Search
find p text = if str_eq p "EADDRINUSE" then some "EADDRINUSE" else none

port_classified :
    classify_failure find (some (exited 1)) true "listen EADDRINUSE"
    ≡ (port_conflict, some "EADDRINUSE")
unfolding classify_failure search_categories search_patterns
port_classified = refl

classify_failure-Classified_example :
    (found : Option (FailureType × String)) × Classified find
      (some (exited 1))
      true
      "listen EADDRINUSE"
      found
      (classify_failure find (some (exited 1)) true "listen EADDRINUSE")
classify_failure-Classified_example =
    classify_failure-Classified find (some (exited 1)) true "listen EADDRINUSE"
