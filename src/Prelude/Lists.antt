-- ===== src/Prelude/Lists.antt =====
-- Lists measured and indexed by native numbers, under the library's names.
use Prim.Native.Nat.{ℕ, zero, suc, ◌+◌, ◌<◌}
use mathlib.Core.Path.{◌≡◌, refl, sym, ap, subst}
use mathlib.Core.Bool.{Bool, true, false, not, ◌||◌}
use mathlib.Core.List.{List, [], ◌∷◌, ◌++◌, Memᴰ}
use mathlib.Core.Option.{Option, none, some}
use native.Mathlib.Omega.{arith}
use open_baseten_inference.Prelude.Tests.{◌==◌, if◌then◌else◌, if_cases}

module _ {ℓ} {A : Type ℓ} where
  abbrev pub length : List A → ℕ
  length [] = 0
  length (x ∷ xs) = suc (length xs)

  abbrev pub get_elem? : List A → ℕ → Option A
  get_elem? [] i = none
  get_elem? (x ∷ xs) zero = some x
  get_elem? (x ∷ xs) (suc i) = get_elem? xs i

  -- `xs[i] = f(xs[i])`; out of range nothing is changed.
  abbrev pub modify : List A → ℕ → (A → A) → List A
  modify [] i f = []
  modify (x ∷ xs) zero f = f x ∷ xs
  modify (x ∷ xs) (suc i) f = x ∷ modify xs i f

  -- `del xs[i]`
  abbrev pub remove_at : List A → ℕ → List A
  remove_at [] i = []
  remove_at (x ∷ xs) zero = xs
  remove_at (x ∷ xs) (suc i) = x ∷ remove_at xs i

  abbrev pub take : ℕ → List A → List A
  take zero xs = []
  take (suc n) [] = []
  take (suc n) (x ∷ xs) = x ∷ take n xs

  abbrev pub drop : ℕ → List A → List A
  drop zero xs = xs
  drop (suc n) [] = []
  drop (suc n) (x ∷ xs) = drop n xs

  -- A Boolean filter, as in a Python comprehension.
  abbrev pub keep : (A → Bool) → List A → List A
  keep p [] = []
  keep p (x ∷ xs) = let rest = keep p xs in if p x then x ∷ rest else rest

  abbrev pub any : (A → Bool) → List A → Bool
  any p [] = false
  any p (x ∷ xs) = p x || any p xs

  -- Every element satisfies `P`.
  abbrev pub All {κ} : (A → Type κ) → List A → Type κ
  All P [] = Unit
  All P (x ∷ xs) = P x × All P xs

  -- The sum of a measure.
  abbrev pub sum_by : (A → ℕ) → List A → ℕ
  sum_by f [] = 0
  sum_by f (x ∷ xs) = f x + sum_by f xs

module _ {ℓ} {A : Type ℓ} where
  pub length-append : (xs ys : List A) → length (xs ++ ys) ≡ length xs + length ys
  length-append [] ys = omega arith
  length-append (x ∷ xs) ys = omega (arith, length-append xs ys)

  pub length-modify : (xs : List A) (i : ℕ) (f : A → A) → length (modify xs i f) ≡ length xs
  length-modify [] i f = refl
  length-modify (x ∷ xs) zero f = refl
  length-modify (x ∷ xs) (suc i) f = ap suc (length-modify xs i f)

  pub length-remove_at :
      (xs : List A) (i : ℕ) {a : A}
      → get_elem? xs i ≡ some a
      → length (remove_at xs i) + 1 ≡ length xs
  length-remove_at [] i h = ground arith
  length-remove_at (x ∷ xs) zero h = omega arith
  length-remove_at (x ∷ xs) (suc i) h = omega (arith, length-remove_at xs i h)

  pub get_elem?-lt : (xs : List A) (i : ℕ) {a : A} → get_elem? xs i ≡ some a → i < length xs
  get_elem?-lt [] i h = ground arith
  get_elem?-lt (x ∷ xs) zero h = omega arith
  get_elem?-lt (x ∷ xs) (suc i) h = omega (arith, get_elem?-lt xs i h)

  pub sum_by-append : (f : A → ℕ) (xs ys : List A) → sum_by f (xs ++ ys) ≡ sum_by f xs + sum_by f ys
  sum_by-append f [] ys = omega arith
  sum_by-append f (x ∷ xs) ys = omega (arith, sum_by-append f xs ys)

  pub sum_by-remove_at :
      (f : A → ℕ) (xs : List A) (i : ℕ) {a : A}
      → get_elem? xs i ≡ some a
      → sum_by f (remove_at xs i) + f a ≡ sum_by f xs
  sum_by-remove_at f [] i h = ground arith
  sum_by-remove_at f (x ∷ xs) zero h = ground arith
  sum_by-remove_at f (x ∷ xs) (suc i) h = omega (arith, sum_by-remove_at f xs i h)

  pub All-append {κ} : (P : A → Type κ) (xs ys : List A) → All P xs → All P ys → All P (xs ++ ys)
  All-append P [] ys p q = q
  All-append P (x ∷ xs) ys p q = (p.0, All-append P xs ys p.1 q)

  pub All-remove_at {κ} : (P : A → Type κ) (xs : List A) (i : ℕ) → All P xs → All P (remove_at xs i)
  All-remove_at P [] i p = p
  All-remove_at P (x ∷ xs) zero p = p.1
  All-remove_at P (x ∷ xs) (suc i) p = (p.0, All-remove_at P xs i p.1)

  pub All-get_elem? {κ} :
      (P : A → Type κ) (xs : List A) (i : ℕ) {a : A} → All P xs → get_elem? xs i ≡ some a → P a
  All-get_elem? P [] i p h = absurd (cc)
  All-get_elem? P (x ∷ xs) zero {a} p h = let e : x ≡ a = cc in subst P e p.0
  All-get_elem? P (x ∷ xs) (suc i) p h = All-get_elem? P xs i p.1 h

  All-if {κ} :
      (P : A → Type κ) (b : Bool) (x : A) (xs : List A)
      → P x
      → All P xs
      → All P (if b then x ∷ xs else xs)
  All-if P true x xs p q = (p, q)
  All-if P false x xs p q = q

module _ {ℓ} {A : Type ℓ} where
  pub All-keep {κ} : (P : A → Type κ) (t : A → Bool) (xs : List A) → All P xs → All P (keep t xs)
  All-keep P t [] p = p
  All-keep P t (x ∷ xs) p = All-if P (t x) x (keep t xs) p.0 (All-keep P t xs p.1)

module _ {ℓ} {A : Type ℓ} where
  pub sum_by-modify :
      (f : A → ℕ) (xs : List A) (i : ℕ) (a b : A)
      → get_elem? xs i ≡ some a
      → sum_by f (modify xs i (λ _. b)) + f a ≡ sum_by f xs + f b
  sum_by-modify f [] i a b h = ground arith
  sum_by-modify f (x ∷ xs) zero a b h = let e : x ≡ a = cc in rw e (omega arith)
  sum_by-modify f (x ∷ xs) (suc i) a b h = omega (arith, sum_by-modify f xs i a b h)

  pub modify_self :
      (xs : List A) (i : ℕ) (a : A) → get_elem? xs i ≡ some a → modify xs i (λ _. a) ≡ xs
  modify_self [] i a h = refl
  modify_self (x ∷ xs) zero a h = cc
  modify_self (x ∷ xs) (suc i) a h = ap (λ ys. x ∷ ys) (modify_self xs i a h)

  pub All-modify {κ} :
      (P : A → Type κ) (xs : List A) (i : ℕ) (b : A) → All P xs → P b → All P (modify xs i (λ _. b))
  All-modify P [] i b p q = p
  All-modify P (x ∷ xs) zero b p q = (q, p.1)
  All-modify P (x ∷ xs) (suc i) b p q = (p.0, All-modify P xs i b p.1 q)

  pub All-map {κ κ'} :
      (P : A → Type κ) (Q : A → Type κ') (f : (x : A) → P x → Q x) (xs : List A)
      → All P xs
      → All Q xs
  All-map P Q f [] p = tt
  All-map P Q f (x ∷ xs) p = (f x p.0, All-map P Q f xs p.1)

  test_if :
      (t : A → Bool) (b : Bool) (x : A) (xs : List A)
      → t x ≡ b
      → All (λ y. t y ≡ true) xs
      → All (λ y. t y ≡ true) (if b then x ∷ xs else xs)
  test_if t true x xs e p = (e, p)
  test_if t false x xs e p = p

  pub All-keep_test : (t : A → Bool) (xs : List A) → All (λ y. t y ≡ true) (keep t xs)
  All-keep_test t [] = tt
  All-keep_test t (x ∷ xs) = test_if t (t x) x (keep t xs) refl (All-keep_test t xs)

  pub All-Memᴰ : (xs : List A) → All (λ y. Memᴰ y xs) xs
  All-Memᴰ [] = tt
  All-Memᴰ (x ∷ xs) =
      (Memᴰ.head refl, All-map _ (λ y. Memᴰ y (x ∷ xs)) (λ y m. Memᴰ.tail m) xs (All-Memᴰ xs))

  pub All-mem {κ} : (P : A → Type κ) {y : A} (xs : List A) → All P xs → Memᴰ y xs → P y
  All-mem P xs p (Memᴰ.head e) = subst P (sym e) p.0
  All-mem P xs p (Memᴰ.tail m) = All-mem P _ p.1 m

  pub get_elem?-some : (xs : List A) (i : ℕ) → i < length xs → (y : A) × (get_elem? xs i ≡ some y)
  get_elem?-some [] i h = absurd (omega arith)
  get_elem?-some (x ∷ xs) zero h = (x, refl)
  get_elem?-some (x ∷ xs) (suc i) h = get_elem?-some xs i (omega arith)

-- `n in xs`, for a list or set of numbers.
abbrev pub mem_nat : ℕ → List ℕ → Bool
mem_nat n [] = false
mem_nat n (x ∷ xs) = n == x || mem_nat n xs

-- `s.discard(n)`
abbrev pub discard : ℕ → List ℕ → List ℕ
discard n [] = []
discard n (x ∷ xs) = let rest = discard n xs in if n == x then rest else x ∷ rest

-- No number occurs twice.
abbrev pub Distinct : List ℕ → Type 0
Distinct [] = Unit
Distinct (x ∷ xs) = (mem_nat x xs ≡ false) × Distinct xs

pub mem_nat-discard :
    (n m : ℕ) (xs : List ℕ) → mem_nat m (discard n xs) ≡ (if n == m then false else mem_nat m xs)
mem_nat-discard n m [] = ground arith
mem_nat-discard n m (x ∷ xs) = ground (arith, mem_nat-discard n m xs)

pub Distinct-discard : (n : ℕ) (xs : List ℕ) → Distinct xs → Distinct (discard n xs)
Distinct-discard n [] d = d
Distinct-discard n (x ∷ xs) d = ground (arith, mem_nat-discard n x xs, Distinct-discard n xs d.1)

pub discard-not_mem : (n : ℕ) (xs : List ℕ) → mem_nat n xs ≡ false → discard n xs ≡ xs
discard-not_mem n [] h = refl
discard-not_mem n (x ∷ xs) h = ground (arith, discard-not_mem n xs)

-- What is put last stands at the old length.
pub get_elem?-append_last {ℓ} :
    {A : Type ℓ} (xs : List A) (y : A) → get_elem? (xs ++ y ∷ []) (length xs) ≡ some y
get_elem?-append_last [] y = refl
get_elem?-append_last (x ∷ xs) y = get_elem?-append_last xs y

pub modify-append_last {ℓ} :
    {A : Type ℓ} (xs : List A) (y : A) (f : A → A)
    → modify (xs ++ y ∷ []) (length xs) f ≡ xs ++ f y ∷ []
modify-append_last [] y f = refl
modify-append_last (x ∷ xs) y f = rw (modify-append_last xs y f)

pub remove_at-append_last {ℓ} :
    {A : Type ℓ} (xs : List A) (y : A) → remove_at (xs ++ y ∷ []) (length xs) ≡ xs
remove_at-append_last [] y = refl
remove_at-append_last (x ∷ xs) y = rw (remove_at-append_last xs y)

module _ {ℓ} {A : Type ℓ} where
  -- What a test holds for, of the elements that another keeps, it holds for or the other does not.
  pub All-keep_back :
      (p q : A → Bool) (xs : List A)
      → All (λ x. q x ≡ true) (keep p xs)
      → All (λ x. (not (p x) || q x) ≡ true) xs
  All-keep_back p q [] h = tt
  All-keep_back p q (x ∷ xs) h = one (p x) (All-keep_back p q xs) h
    where
      one :
          (b : Bool)
          → (All (λ y. q y ≡ true) (keep p xs) → All (λ y. (not (p y) || q y) ≡ true) xs)
          → All (λ y. q y ≡ true) (if b then x ∷ keep p xs else keep p xs)
          → ((not b || q x) ≡ true) × All (λ y. (not (p y) || q y) ≡ true) xs
      one true again k = (k.0, again k.1)
      one false again k = (refl, again k)

  pub keep-none : (p : A → Bool) (xs : List A) → keep p xs ≡ [] → All (λ x. p x ≡ false) xs
  keep-none p [] h = tt
  keep-none p (x ∷ xs) h = one (p x) (keep-none p xs) h
    where
      one :
          (b : Bool)
          → (keep p xs ≡ [] → All (λ y. p y ≡ false) xs)
          → (if b then x ∷ keep p xs else keep p xs) ≡ []
          → (b ≡ false) × All (λ y. p y ≡ false) xs
      one true again k = absurd (cc)
      one false again k = (refl, again k)

  -- What holds for the elements that a test keeps holds for the elements that pass it.
  pub All-keep_if {κ} :
      (P : A → Type κ) (p : A → Bool) (xs : List A)
      → All P (keep p xs)
      → All (λ x. p x ≡ true → P x) xs
  All-keep_if P p [] h = tt
  All-keep_if P p (x ∷ xs) h = one (p x) (All-keep_if P p xs) h
    where
      one :
          (b : Bool)
          → (All P (keep p xs) → All (λ y. p y ≡ true → P y) xs)
          → All P (if b then x ∷ keep p xs else keep p xs)
          → (b ≡ true → P x) × All (λ y. p y ≡ true → P y) xs
      one true again k = ((λ e. k.0), again k.1)
      one false again k = ((λ e. absurd (cc)), again k)

  pub All-if_keep {κ} :
      (P : A → Type κ) (p : A → Bool) (xs : List A)
      → All (λ x. p x ≡ true → P x) xs
      → All P (keep p xs)
  All-if_keep P p [] h = tt
  All-if_keep P p (x ∷ xs) h =
      if_cases (All P) (p x) {x = x ∷ keep p xs} {y = keep p xs}
        (λ e. (h.0 e, All-if_keep P p xs h.1)) (λ e. All-if_keep P p xs h.1)
