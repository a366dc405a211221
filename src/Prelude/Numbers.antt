-- ===== src/Prelude/Numbers.antt =====
-- Python's floats, as the program uses them: a type with its operations, and what the IEEE standard
-- says of comparison and sign. The values are those that the code computes with: no NaN.
use Prim.Native.Nat.{ℕ}
use mathlib.Core.Path.{◌≡◌}
use mathlib.Core.Logic.{◌⊎◌}
use mathlib.Core.Bool.{Bool, true, false, not}
use open_baseten_inference.Prelude.Tests.{if◌then◌else◌}

-- `literal p q` is the float nearest to p / q, `floor` is `int` or `math.floor` of a float that is not
-- negative, `round_two x` is `round(x, 2)`, and `sub` and `div` are Python's.
pub record Floats : Type 1 where
  pub Float : Type 0
  pub le : Float → Float → Bool
  pub add : Float → Float → Float
  pub sub : Float → Float → Float
  pub mul : Float → Float → Float
  pub div : Float → Float → Float
  pub sqrt : Float → Float
  pub literal : ℕ → ℕ → Float
  pub floor : Float → ℕ
  pub round_two : Float → Float
  pub le_total : (a b : Float) → (le a b ≡ true) ⊎ (le b a ≡ true)
  pub le_trans : (a b c : Float) → le a b ≡ true → le b c ≡ true → le a c ≡ true
  -- 1e-9
  pub tiny : Float
  pub tiny_pos : le tiny (literal 0 1) ≡ false
  -- a quotient of a difference that is not above 0 by a float above 0 is not above 0
  pub gain_le_zero :
      (a b c : Float)
      → le b a ≡ true
      → le c (literal 0 1) ≡ false
      → le (div (sub b a) c) (literal 0 1) ≡ true

module _ (F : Floats) where
  open F use {Float, le, sub, literal}

  -- a < b
  abbrev pub lt : Float → Float → Bool
  lt a b = not (le b a)

  abbrev pub zero_float : Float
  zero_float = literal 0 1

  -- Python's `max` and `min` of two
  abbrev pub max_float : Float → Float → Float
  max_float a b = if lt a b then b else a

  abbrev pub min_float : Float → Float → Float
  min_float a b = if lt b a then b else a
