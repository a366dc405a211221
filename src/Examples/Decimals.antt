-- ===== src/Examples/Decimals.antt =====
-- Decimal fractions with six places, as floats.
use native.Mathlib.Nat.{zero-div}
use open_baseten_inference.Prelude.{
  ℕ, ◌+◌, ◌-◌, ◌*◌, ◌/◌, ◌≡◌, refl, ◌∙◌, ap, true, false, leb, ◌⊎◌, arith, Floats,
}

pub leb_total : (a b : ℕ) → (leb a b ≡ true) ⊎ (leb b a ≡ true)
leb_total a b = ground arith

pub leb_trans : (a b c : ℕ) → leb a b ≡ true → leb b c ≡ true → leb a c ≡ true
leb_trans a b c = ground arith

pub no_gain : (a b c : ℕ) → leb b a ≡ true → leb c 0 ≡ false → leb ((b - a) * 1000000 / c) 0 ≡ true
no_gain a b c h k =
    let e : (b - a) * 1000000 ≡ 0 = ground arith in
    let z : (b - a) * 1000000 / c ≡ 0 = ap (λ x. x / c) e ∙ zero-div c in ground arith

-- `sqrt` is a step of Newton's method from 1
abbrev pub decimals : Floats
decimals = record {
  Float = ℕ;
  le = leb;
  add = λ a b. a + b;
  sub = λ a b. a - b;
  mul = λ a b. a * b / 1000000;
  div = λ a b. a * 1000000 / b;
  sqrt = λ a. (a + 1000000) / 2;
  literal = λ p q. p * 1000000 / q;
  floor = λ a. a / 1000000;
  round_two = λ a. (a + 5000) / 10000 * 10000;
  le_total = leb_total;
  le_trans = leb_trans;
  tiny = 1;
  tiny_pos = refl;
  gain_le_zero = no_gain;
}
