-- ===== src/Cache/Store/Count.antt =====
-- cache/store.py: how many files the directory shows to its glob.
use open_baseten_inference.Prelude.{
  ℕ, suc, ◌+◌, ◌≡◌, refl, ap, ◌∙◌, String, str_eq, eq_iff, Bool, true, false, Option, none, some,
  List, [], ◌∷◌, keep, length, if◌then◌else◌, if_intro, All, All-map, arith, sort_by, insert_by,
  Bool-cases, inl, inr,
}
use open_baseten_inference.Prelude.Dict.{Dict, lookup, names, assign, discard_key}
use open_baseten_inference.Cache.Store.{Directory, Platform, files, ends_json, is_there, list_paths}

abbrev pub count_json {ℓ} : {T : Type ℓ} → Dict T → ℕ
count_json d = length (keep ends_json (names d))

length-insert_by {ℓ} :
    {A : Type ℓ} (le : A → A → Bool) (x : A) (ys : List A)
    → length (insert_by le x ys) ≡ suc (length ys)
length-insert_by le x [] = refl
length-insert_by le x (y ∷ ys) =
    if_intro (λ zs. length zs ≡ suc (suc (length ys))) (le x y) {x = x ∷ y ∷ ys}
      {y = y ∷ insert_by le x ys} refl (ap suc (length-insert_by le x ys))

length-sort_by {ℓ} :
    {A : Type ℓ} (le : A → A → Bool) (xs : List A) → length (sort_by le xs) ≡ length xs
unfolding sort_by
length-sort_by le [] = refl
length-sort_by le (x ∷ xs) = length-insert_by le x (sort_by le xs) ∙ ap suc (length-sort_by le xs)

pub length-list_paths :
    (P : Platform) (d : Directory P.Text) → length (list_paths P d) ≡ count_json (files d)
unfolding list_paths
length-list_paths P d = length-sort_by P.name_before (keep ends_json (names (files d)))

pub count_json-assign {ℓ} :
    {T : Type ℓ} (d : Dict T) (k : String) (v : T)
    → ends_json k ≡ true
    → count_json (assign d k v) ≡ (if is_there (lookup d k) then count_json d else count_json d + 1)
count_json-assign [] k v h = rw h (omega arith)
count_json-assign ((j, w) ∷ d) k v h = elim (Bool-cases (str_eq j k)) [
  | inl e ↦
      let same : ends_json j ≡ true = ap ends_json ((eq_iff j k).0 e) ∙ h in rw (e, h, same) refl
  | inr e ↦ rw e (one (ends_json j) (count_json-assign d k v h))
]
  where
    one :
        (b : Bool)
        → count_json (assign d k v)
          ≡ (if is_there (lookup d k) then count_json d else count_json d + 1)
        → length (
            if b
            then j ∷ keep ends_json (names (assign d k v))
            else keep ends_json (names (assign d k v)))
          ≡ (if is_there (lookup d k)
              then length (if b then j ∷ keep ends_json (names d) else keep ends_json (names d))
              else length (if b then j ∷ keep ends_json (names d) else keep ends_json (names d))
                + 1)
    one true ih = ground (arith, ih)
    one false ih = ih

pub count_json-discard_key {ℓ} :
    {T : Type ℓ} (d : Dict T) (k : String)
    → ends_json k ≡ true
    → count_json d ≡ (
        if is_there (lookup d k)
        then count_json (discard_key d k) + 1
        else count_json (discard_key d k))
count_json-discard_key [] k h = refl
count_json-discard_key ((j, w) ∷ d) k h = elim (Bool-cases (str_eq j k)) [
  | inl e ↦
      let same : ends_json j ≡ true = ap ends_json ((eq_iff j k).0 e) ∙ h in
      rw (e, same) (omega arith)
  | inr e ↦ rw e (one (ends_json j) (count_json-discard_key d k h))
]
  where
    one :
        (b : Bool)
        → count_json d ≡ (
            if is_there (lookup d k)
            then count_json (discard_key d k) + 1
            else count_json (discard_key d k))
        → length (if b then j ∷ keep ends_json (names d) else keep ends_json (names d)) ≡ (
            if is_there (lookup d k)
            then length (
                if b
                then j ∷ keep ends_json (names (discard_key d k))
                else keep ends_json (names (discard_key d k)))
              + 1
            else length (
                if b
                then j ∷ keep ends_json (names (discard_key d k))
                else keep ends_json (names (discard_key d k))))
    one true ih = ground (arith, ih)
    one false ih = ih

names-there {ℓ} : {T : Type ℓ} (d : Dict T) → All (λ q. is_there (lookup d q) ≡ true) (names d)
names-there {T = T} [] = tt
names-there {T = T} ((k, v) ∷ d) = (
  rw ((eq_iff k k).1 refl) refl,
  All-map (λ q. is_there (lookup d q) ≡ true) (λ q. is_there (lookup ((k, v) ∷ d) q) ≡ true)
      (λ q h. there (str_eq k q) (lookup d q) h) (names d) (names-there d),
)
  where
    there :
        (b : Bool) (o : Option T) → is_there o ≡ true → is_there (if b then some v else o) ≡ true
    there true o h = refl
    there false o h = h

keep-nothing {ℓ} :
    {A : Type ℓ} (t : A → Bool) (xs : List A) → All (λ x. t x ≡ false) xs → keep t xs ≡ []
keep-nothing t [] h = refl
keep-nothing t (x ∷ xs) h = rw h.0 (keep-nothing t xs h.1)

-- where no name that the glob shows is there, it shows none
pub count_json-none {ℓ} :
    {T : Type ℓ} (d : Dict T)
    → ((q : String) → ends_json q ≡ true → lookup d q ≡ none)
    → count_json d ≡ 0
count_json-none d h = ap length (
    keep-nothing ends_json (names d) (
      All-map (λ q. is_there (lookup d q) ≡ true) (λ q. ends_json q ≡ false)
        (λ q there. elim (Bool-cases (ends_json q)) [
          | inl e ↦ let gone : is_there (lookup d q) ≡ false = ap is_there (h q e) in absurd (cc)
          | inr e ↦ e
        ])
        (names d) (names-there d)))
