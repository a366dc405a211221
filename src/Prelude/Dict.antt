-- ===== src/Prelude/Dict.antt =====
-- A Python dict keyed by strings: its items in insertion order.
use Prim.Native.String.{String}
use mathlib.Core.Path.{◌≡◌, refl, subst}
use mathlib.Core.Logic.{◌⊎◌, inl, inr}
use mathlib.Core.Option.{Option, none, some}
use native.Mathlib.Omega.{arith}
use mathlib.Core.List.{List, [], ◌∷◌, map}
use text.Mathlib.Text.{◌==◌}
use text.Mathlib.TextEquality.{eq_iff}
use open_baseten_inference.Prelude.Tests.{if◌then◌else◌, Bool-cases}
use open_baseten_inference.Prelude.Lists.{All}

abbrev pub Dict {ℓ} : Type ℓ → Type ℓ
Dict V = List (String × V)

module _ {ℓ} {V : Type ℓ} where
  -- `d.get(key)`
  abbrev pub lookup : Dict V → String → Option V
  lookup [] key = none
  lookup ((k, v) ∷ rest) key = if k == key then some v else lookup rest key

  -- `d[key] = value`: a key that is there keeps its place
  abbrev pub assign : Dict V → String → V → Dict V
  assign [] key value = (key, value) ∷ []
  assign ((k, v) ∷ rest) key value =
      let later = assign rest key value in if k == key then (key, value) ∷ rest else (k, v) ∷ later

  -- `d.pop(key, None)`
  abbrev pub discard_key : Dict V → String → Dict V
  discard_key [] key = []
  discard_key ((k, v) ∷ rest) key =
      let later = discard_key rest key in if k == key then rest else (k, v) ∷ later

  -- `d.keys()`
  abbrev pub names : Dict V → List String
  names d = map (λ (entry : String × V). entry.0) d

  -- a dict has each key once
  abbrev pub DistinctKeys : Dict V → Type ℓ
  DistinctKeys [] = Unit
  DistinctKeys ((k, v) ∷ rest) = (lookup rest k ≡ none) × DistinctKeys rest

  pub lookup-assign_if :
      (d : Dict V) (key : String) (v : V) (j : String)
      → lookup (assign d key v) j ≡ (if key == j then some v else lookup d j)
  lookup-assign_if [] key v j = refl
  lookup-assign_if ((k, w) ∷ d) key v j =
      ground (arith, eq_iff k key, eq_iff k j, eq_iff key j, lookup-assign_if d key v j)

  pub lookup-discard_key_if :
      (d : Dict V) (key j : String)
      → DistinctKeys d
      → lookup (discard_key d key) j ≡ (if key == j then none else lookup d j)
  lookup-discard_key_if [] key j h = ground arith
  lookup-discard_key_if ((k, w) ∷ d) key j h =
      ground (arith, eq_iff k key, eq_iff k j, eq_iff key j, lookup-discard_key_if d key j h.1, h.0)

  pub assign-DistinctKeys :
      (d : Dict V) (key : String) (v : V) → DistinctKeys d → DistinctKeys (assign d key v)
  assign-DistinctKeys [] key v h = (refl, tt)
  assign-DistinctKeys ((k, w) ∷ d) key v h = ground (
    arith,
    eq_iff k key,
    eq_iff key k,
    lookup-assign_if d key v k,
    assign-DistinctKeys d key v h.1,
  )

  pub discard_key-DistinctKeys :
      (d : Dict V) (key : String) → DistinctKeys d → DistinctKeys (discard_key d key)
  discard_key-DistinctKeys [] key h = tt
  discard_key-DistinctKeys ((k, w) ∷ d) key h =
      ground
        (arith, eq_iff key k, lookup-discard_key_if d key k h.1, discard_key-DistinctKeys d key h.1)

  -- a key is not there, or has what all the keys have
  pub lookup-names {κ} :
      (P : String → Type κ) (d : Dict V) (j : String) → All P (names d) → (lookup d j ≡ none) ⊎ P j
  lookup-names P [] j h = inl refl
  lookup-names P ((k, v) ∷ d) j h = elim (Bool-cases (k == j)) [
    | inl e ↦ inr (subst P ((eq_iff k j).0 e) h.0)
    | inr e ↦ rw e (lookup-names P d j h.1)
  ]
