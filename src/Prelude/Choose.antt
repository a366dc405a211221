-- ===== src/Prelude/Choose.antt =====
-- Python's `max`, `min` and `sorted` with a key, on an order that is given as a Boolean test.
use mathlib.Core.Path.{◌≡◌, refl, sym, ap, ◌∙◌, subst}
use mathlib.Core.Logic.{◌⊎◌, inl, inr}
use mathlib.Core.Bool.{Bool, true, false}
use mathlib.Core.List.{List, [], ◌∷◌, Memᴰ}
use open_baseten_inference.Prelude.Tests.{if◌then◌else◌, if_intro, if_cases, Bool-cases}
use open_baseten_inference.Prelude.Lists.{All, All-map, All-keep, keep}

module _ {ℓ} {A : Type ℓ} where
  -- the first element that no other exceeds, with the first element given
  unfoldable pub first_top : (A → A → Bool) → A → List A → A
  first_top le x [] = x
  first_top le x (y ∷ ys) = first_top le (if le y x then x else y) ys

  abbrev pub insert_by : (A → A → Bool) → A → List A → List A
  insert_by le x [] = x ∷ []
  insert_by le x (y ∷ ys) = let rest = insert_by le x ys in if le x y then x ∷ y ∷ ys else y ∷ rest

  -- a stable sort
  unfoldable pub sort_by : (A → A → Bool) → List A → List A
  sort_by le [] = []
  sort_by le (x ∷ xs) = insert_by le x (sort_by le xs)

  -- an element of the list that none exceeds
  abbrev pub IsTop : (A → A → Bool) → A → List A → Type ℓ
  IsTop le d xs = Memᴰ d xs × All (λ e. le e d ≡ true) xs

module _ {ℓ} {A : Type ℓ} where
  insert_by-All {κ} :
      (P : A → Type κ) (le : A → A → Bool) (x : A) (ys : List A)
      → P x
      → All P ys
      → All P (insert_by le x ys)
  insert_by-All P le x [] p q = (p, tt)
  insert_by-All P le x (y ∷ ys) p q =
      if_intro (All P) (le x y) {x = x ∷ y ∷ ys} {y = y ∷ insert_by le x ys} (p, q)
        (q.0, insert_by-All P le x ys p q.1)

  pub sort_by-All {κ} :
      (P : A → Type κ) (le : A → A → Bool) (xs : List A) → All P xs → All P (sort_by le xs)
  unfolding sort_by
  sort_by-All P le [] p = p
  sort_by-All P le (x ∷ xs) p = insert_by-All P le x (sort_by le xs) p.0 (sort_by-All P le xs p.1)

  insert_by-back {κ} :
      (P : A → Type κ) (le : A → A → Bool) (x : A) (ys : List A)
      → All P (insert_by le x ys)
      → P x × All P ys
  insert_by-back P le x [] p = p
  insert_by-back P le x (y ∷ ys) p =
      if_intro (λ zs. All P zs → P x × All P (y ∷ ys)) (le x y) {x = x ∷ y ∷ ys}
        {y = y ∷ insert_by le x ys} (λ q. (q.0, q.1))
        (λ q. let r = insert_by-back P le x ys q.1 in (r.0, (q.0, r.1))) p

  -- Sorting drops nothing.
  pub sort_by-back {κ} :
      (P : A → Type κ) (le : A → A → Bool) (xs : List A) → All P (sort_by le xs) → All P xs
  unfolding sort_by
  sort_by-back P le [] p = p
  sort_by-back P le (x ∷ xs) p =
      let q = insert_by-back P le x (sort_by le xs) p in (q.0, sort_by-back P le xs q.1)

  -- what stands in a list that one of two elements begins stands in the list with both
  pub one_of_two :
      (x y : A) (ys : List A) {z d : A}
      → Memᴰ d (z ∷ ys)
      → ((zs : List A) → Memᴰ z (x ∷ y ∷ zs))
      → Memᴰ d (x ∷ y ∷ ys)
  one_of_two x y ys (Memᴰ.head e) one = subst (λ c. Memᴰ c (x ∷ y ∷ ys)) (sym e) (one ys)
  one_of_two x y ys (Memᴰ.tail m) one = Memᴰ.tail (Memᴰ.tail m)

  module _ (le : A → A → Bool) (total : (a b : A) → (le a b ≡ true) ⊎ (le b a ≡ true))
      (trans : (a b c : A) → le a b ≡ true → le b c ≡ true → le a c ≡ true) where
    le_self : (a : A) → le a a ≡ true
    le_self a = elim (total a a) [ inl h ↦ h | inr h ↦ h ]

    other_way : (a b : A) → le a b ≡ false → le b a ≡ true
    other_way a b h = elim (total a b) [ inl e ↦ absurd (cc) | inr e ↦ e ]

    -- one round: the element that is kept is one of the two and exceeds neither
    kept :
        (x y : A)
        → let z = if le y x then x else y in
          (le x z ≡ true) × (le y z ≡ true) × ((ys : List A) → Memᴰ z (x ∷ y ∷ ys))
    kept x y =
        if_cases (λ z. (le x z ≡ true) × (le y z ≡ true) × ((ys : List A) → Memᴰ z (x ∷ y ∷ ys)))
          (le y x) (λ e. (le_self x, e, λ ys. Memᴰ.head refl))
          (λ e. (other_way y x e, le_self y, λ ys. Memᴰ.tail (Memᴰ.head refl)))

    pub first_top-IsTop : (x : A) (ys : List A) → IsTop le (first_top le x ys) (x ∷ ys)
    unfolding first_top
    first_top-IsTop x [] = (Memᴰ.head refl, (le_self x, tt))
    first_top-IsTop x (y ∷ ys) =
        let z = if le y x then x else y in
        let (found, above) = first_top-IsTop z ys in
        let (over_x, over_y, one) = kept x y in
        (
          one_of_two x y ys found one,
          (
            trans x z (first_top le z ys) over_x above.0,
            (trans y z (first_top le z ys) over_y above.0, above.1),
          ),
        )

  -- each element is before all that follow
  abbrev pub Sorted : (A → A → Bool) → List A → Type ℓ
  Sorted le [] = Unit
  Sorted le (x ∷ xs) = All (λ y. le x y ≡ true) xs × Sorted le xs

  pub Sorted-keep :
      (le : A → A → Bool) (t : A → Bool) (xs : List A) → Sorted le xs → Sorted le (keep t xs)
  Sorted-keep le t [] s = tt
  Sorted-keep le t (x ∷ xs) s =
      if_intro (Sorted le) (t x) {x = x ∷ keep t xs} {y = keep t xs}
        (All-keep (λ y. le x y ≡ true) t xs s.0, Sorted-keep le t xs s.1) (Sorted-keep le t xs s.1)

  module _ (le : A → A → Bool) (total : (a b : A) → (le a b ≡ true) ⊎ (le b a ≡ true))
      (trans : (a b c : A) → le a b ≡ true → le b c ≡ true → le a c ≡ true) where
    insert_by-Sorted : (x : A) (ys : List A) → Sorted le ys → Sorted le (insert_by le x ys)
    insert_by-Sorted x [] s = (tt, tt)
    insert_by-Sorted x (y ∷ ys) s =
        if_cases (Sorted le) (le x y) {x = x ∷ y ∷ ys} {y = y ∷ insert_by le x ys}
          (λ e. (
            (e, All-map (λ z. le y z ≡ true) (λ z. le x z ≡ true) (λ z h. trans x y z e h) ys s.0),
            s,
          ))
          (λ e. (
            insert_by-All (λ z. le y z ≡ true) le x ys (before y x e) s.0,
            insert_by-Sorted x ys s.1,
          ))
      where
        before : (a b : A) → le b a ≡ false → le a b ≡ true
        before a b h = elim (total a b) [ inl e ↦ e | inr e ↦ absurd (cc) ]

    pub sort_by-Sorted : (xs : List A) → Sorted le (sort_by le xs)
    unfolding sort_by
    sort_by-Sorted [] = tt
    sort_by-Sorted (x ∷ xs) = insert_by-Sorted x (sort_by le xs) (sort_by-Sorted xs)

    keep-insert_by :
        (t : A → Bool) (x : A) (ys : List A)
        → Sorted le ys
        → keep t (insert_by le x ys) ≡ (if t x then insert_by le x (keep t ys) else keep t ys)
    keep-insert_by t x [] s = refl
    keep-insert_by t x (y ∷ ys) s = elim (Bool-cases (le x y)) [
      | inl e ↦ rw e (elim (Bool-cases (t x)) [
        | inl p ↦ rw p (
            sym (
              insert_by-least x (keep t (y ∷ ys)) (
                All-keep (λ z. le x z ≡ true) t (y ∷ ys)
                  (
                    e,
                    All-map (λ z. le y z ≡ true) (λ z. le x z ≡ true) (λ z h. trans x y z e h) ys
                        s.0,
                  ))))
        | inr p ↦ rw p refl
      ])
      | inr e ↦ rw e (elim (Bool-cases (t y)) [
        | inl q ↦ rw q (later (keep-insert_by t x ys s.1) e)
        | inr q ↦ rw q (keep-insert_by t x ys s.1)
      ])
    ]
      where
        insert_by-least :
            (a : A) (zs : List A) → All (λ z. le a z ≡ true) zs → insert_by le a zs ≡ a ∷ zs
        insert_by-least a [] h = refl
        insert_by-least a (z ∷ zs) h = rw h.0 refl

        later :
            keep t (insert_by le x ys) ≡ (if t x then insert_by le x (keep t ys) else keep t ys)
            → le x y ≡ false
            → y ∷ keep t (insert_by le x ys)
              ≡ (if t x then insert_by le x (y ∷ keep t ys) else y ∷ keep t ys)
        later again e = elim (Bool-cases (t x)) [
          | inl p ↦ rw (p, e) (ap (λ zs. y ∷ zs) (again ∙ rw p refl))
          | inr p ↦ rw p (ap (λ zs. y ∷ zs) (again ∙ rw p refl))
        ]

    -- A stable sort and a test commute.
    pub keep-sort_by :
        (t : A → Bool) (xs : List A) → keep t (sort_by le xs) ≡ sort_by le (keep t xs)
    unfolding sort_by
    keep-sort_by t [] = refl
    keep-sort_by t (x ∷ xs) =
        keep-insert_by t x (sort_by le xs) (sort_by-Sorted xs) ∙ elim (Bool-cases (t x)) [
          | inl p ↦ rw p (ap (insert_by le x) (keep-sort_by t xs))
          | inr p ↦ rw p (keep-sort_by t xs)
        ]
