-- ===== src/Engines/Failures/Order.antt =====
-- engines/failures.py, `classify_failure`: the order in which the two loops and their breaks look at the
-- patterns.
use open_baseten_inference.Prelude.{
  ◌≡◌, refl, ap, String, Bool, Option, none, some, List, [], ◌∷◌, ◌++◌, map, All,
}
use mathlib.Core.List.{append_assoc}
use open_baseten_inference.Engines.Failures.Patterns.{FailureType, patterns}
use open_baseten_inference.Engines.Failures.{
  ExitCode, Search, search_patterns, search_categories, by_exit, decided, classify_failure,
}

-- the table as one list, in order
abbrev pub tagged : FailureType → List String → List (FailureType × String)
tagged t ps = map (λ p. (t, p)) ps

abbrev pub flat : List (FailureType × List String) → List (FailureType × String)
flat [] = []
flat ((t, ps) ∷ rest) = tagged t ps ++ flat rest

-- No pattern of the list matches.
abbrev pub Misses : Search → String → List (FailureType × String) → Type 0
Misses find text ps = All (λ c. find c.1 text ≡ none) ps

-- The first pattern of the list that matches belongs to `t` and matched `m`; none matches.
pub record IsFirst (find : Search) (text : String) (ps : List (FailureType × String))
    (t : FailureType) (m : String) : Type 0 where
  pub before : List (FailureType × String)
  pub pattern : String
  pub after : List (FailureType × String)
  pub split : ps ≡ before ++ (t, pattern) ∷ after
  pub missed : Misses find text before
  pub matched : find pattern text ≡ some m

abbrev pub First :
    Search → String → List (FailureType × String) → Option (FailureType × String) → Type 0
First find text ps none = Misses find text ps
First find text ps (some (t, m)) = IsFirst find text ps t m

abbrev Within : Search → String → FailureType → List String → Option String → Type 0
Within find text t ps none = Misses find text (tagged t ps)
Within find text t ps (some m) = IsFirst find text (tagged t ps) t m

cons-IsFirst :
    (find : Search) (text : String) (c : FailureType × String) (ps : List (FailureType × String))
    (t : FailureType) (m : String)
    → find c.1 text ≡ none
    → IsFirst find text ps t m
    → IsFirst find text (c ∷ ps) t m
cons-IsFirst find text c ps t m miss f = record {
  before = c ∷ f.before;
  pattern = f.pattern;
  after = f.after;
  split = ap (λ l. c ∷ l) f.split;
  missed = (miss, f.missed);
  matched = f.matched;
}

step-Within :
    (find : Search) (text : String) (t : FailureType) (p : String) (ps : List String)
    (o : Option String)
    → find p text ≡ o
    → Within find text t ps (search_patterns find text ps)
    → Within find text t (p ∷ ps) (elim o [ some m ↦ some m | none ↦ search_patterns find text ps ])
step-Within find text t p ps (some m) e w = record {
  before = [];
  pattern = p;
  after = tagged t ps;
  split = refl;
  missed = tt;
  matched = e;
}
step-Within find text t p ps none e w = later (search_patterns find text ps) w
  where
    later : (o : Option String) → Within find text t ps o → Within find text t (p ∷ ps) o
    later none w' = (e, w')
    later (some m) w' = cons-IsFirst find text (t, p) (tagged t ps) t m e w'

search_patterns-Within :
    (find : Search) (text : String) (t : FailureType) (ps : List String)
    → Within find text t ps (search_patterns find text ps)
unfolding search_patterns
search_patterns-Within find text t [] = tt
search_patterns-Within find text t (p ∷ ps) =
    step-Within find text t p ps (find p text) refl (search_patterns-Within find text t ps)

append-IsFirst :
    (find : Search) (text : String) (qs ps : List (FailureType × String)) (t : FailureType)
    (m : String)
    → IsFirst find text qs t m
    → IsFirst find text (qs ++ ps) t m
append-IsFirst find text qs ps t m f = record {
  before = f.before;
  pattern = f.pattern;
  after = f.after ++ ps;
  split = rw f.split (append_assoc f.before ((t, f.pattern) ∷ f.after) ps);
  missed = f.missed;
  matched = f.matched;
}

Misses-First :
    (find : Search) (text : String) (qs ps : List (FailureType × String))
    (o : Option (FailureType × String))
    → Misses find text qs
    → First find text ps o
    → First find text (qs ++ ps) o
Misses-First find text [] ps o miss f = f
Misses-First find text (q ∷ qs) ps none miss f =
    (miss.0, Misses-First find text qs ps none miss.1 f)
Misses-First find text (q ∷ qs) ps (some (t, m)) miss f =
    cons-IsFirst find text q (qs ++ ps) t m miss.0
      (Misses-First find text qs ps (some (t, m)) miss.1 f)

search_categories-First :
    (find : Search) (text : String) (cs : List (FailureType × List String))
    → First find text (flat cs) (search_categories find text cs)
unfolding search_categories
search_categories-First find text [] = tt
search_categories-First find text ((t, ps) ∷ rest) =
    joined (search_categories-First find text rest) (search_patterns find text ps)
      (search_patterns-Within find text t ps)
  where
    joined :
        First find text (flat rest) (search_categories find text rest)
        → (o : Option String) → Within find text t ps o
        → First find text
            (tagged t ps ++ flat rest)
            (elim o [ some m ↦ some (t, m) | none ↦ search_categories find text rest ])
    joined f none w = Misses-First find text (tagged t ps) (flat rest) _ w f
    joined f (some m) w = append-IsFirst find text (tagged t ps) (flat rest) t m w

-- What a classification is by: the first pattern that matches, or the exit when none does.
abbrev pub Classified :
    Search
    → Option ExitCode
    → Bool
    → String
    → Option (FailureType × String)
    → FailureType × Option String
    → Type 0
Classified find code timed_out text (some (t, m)) o =
    IsFirst find text (flat patterns) t m × (o ≡ (t, some m))
Classified find code timed_out text none o =
    Misses find text (flat patterns) × (o ≡ by_exit timed_out code)

-- A failure gets the category of the first pattern of the table that matches the log, in the table's
-- order, whatever the exit code and whether or not it timed out; when no pattern matches, the type
-- is that of the exit.
pub classify_failure-Classified :
    (find : Search) (code : Option ExitCode) (timed_out : Bool) (text : String)
    → (found : Option (FailureType × String)) × Classified find code timed_out text found
        (classify_failure find code timed_out text)
unfolding classify_failure
classify_failure-Classified find code timed_out text = (
  search_categories find text patterns,
  classified (search_categories find text patterns) (search_categories-First find text patterns),
)
  where
    classified :
        (o : Option (FailureType × String))
        → First find text (flat patterns) o
        → Classified find code timed_out text o (decided o timed_out code)
    classified none f = (f, refl)
    classified (some (t, m)) f = (f, refl)
