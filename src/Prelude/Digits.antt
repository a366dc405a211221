-- ===== src/Prelude/Digits.antt =====
-- Python's text of a number that is not negative.
use Prim.Native.Nat.{ℕ, zero, suc, ◌/◌, ◌%◌}
use Prim.Native.String.{String, ◌++◌ as str_append}
use mathlib.Core.Option.{Option, none, some}
use mathlib.Core.List.{List, [], ◌∷◌}
use open_baseten_inference.Prelude.Tests.{ltb, if◌then◌else◌}
use open_baseten_inference.Prelude.Lists.{get_elem?}

-- the decimal digits of a number, which is below 10 ^ fuel
abbrev pub digits : List String
digits = "0" ∷ "1" ∷ "2" ∷ "3" ∷ "4" ∷ "5" ∷ "6" ∷ "7" ∷ "8" ∷ "9" ∷ []

abbrev pub or_blank : Option String → String
or_blank none = ""
or_blank (some s) = s

abbrev pub digit : ℕ → String
digit n = or_blank (get_elem? digits n)

abbrev pub decimal : ℕ → ℕ → String
decimal zero n = ""
decimal (suc fuel) n =
    let rest = decimal fuel (n / 10) in
    if ltb n 10 then digit n else str_append rest (digit (n % 10))
