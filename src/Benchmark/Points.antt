-- ===== src/Benchmark/Points.antt =====
-- benchmark/tuner.py: the concurrencies that a sweep visits.
pub mod Visits
use open_baseten_inference.Prelude.{
  ℕ, zero, suc, ◌*◌, max, min, Bool, true, false, Option, none, some, List, [], ◌∷◌, ◌++◌, ltb, leb,
  ◌==◌, if◌then◌else◌,
}
use open_baseten_inference.Schemas.Hardware.{sorted_set}

-- the values of `c` in `while c <= upper: …; c *= growth`, on fuel; from 0, or with a growth below 2,
-- the source's loop need not end, and the fuel cuts it off
unfoldable pub geometric : ℕ → ℕ → ℕ → ℕ → List ℕ
geometric zero growth upper c = []
geometric (suc fuel) growth upper c =
    let rest = geometric fuel growth upper (c * growth) in if leb c upper then c ∷ rest else []

-- `not points or points[-1] < upper`
abbrev pub short_of : ℕ → List ℕ → Bool
short_of upper [] = true
short_of upper (c ∷ []) = ltb c upper
short_of upper (c ∷ d ∷ cs) = short_of upper (d ∷ cs)

-- `_sweep_points`, from the start, the growth and the upper bound
unfoldable pub sweep_points : ℕ → ℕ → ℕ → List ℕ
unfolding geometric
sweep_points start growth upper =
    let points = geometric (suc upper) growth upper start in
    sorted_set (if short_of upper points then points ++ upper ∷ [] else points)

-- `plan.max_concurrency or …`
abbrev pub or_default : Option ℕ → ℕ → ℕ
or_default none d = d
or_default (some zero) d = d
or_default (some (suc n)) d = suc n

abbrev pub upper_bound : ℕ → Option ℕ → ℕ
upper_bound sweep_max max_concurrency = min sweep_max (or_default max_concurrency sweep_max)
