-- ===== src/Cache/Store/Unlinked.antt =====
-- cache/store.py: what `unlink` and `clear` leave in the directory.
use text.Mathlib.TextLemmas.{cons-append}
use open_baseten_inference.Prelude.{
  ◌≡◌, refl, sym, ap, ◌∙◌, inl, inr, String, str_append, str_eq, eq_iff, true, false, Option, none,
  some, List, [], ◌∷◌, keep, if◌then◌else◌, Bool-cases, All, All-keep_if, sort_by-back, arith,
}
use open_baseten_inference.Prelude.Dict.{
  lookup, names, DistinctKeys, lookup-discard_key_if, discard_key-DistinctKeys, lookup-names,
}
use open_baseten_inference.Cache.Store.{
  Platform, Directory, files, ends_json, is_there, unlink, list_paths, unlink_all, clear,
}

pub ends_json-append : (s : String) → ends_json (str_append s ".json") ≡ true
ends_json-append String.[] = refl
ends_json-append (String.◌∷◌ c s) = rw cons-append (ground (arith, ends_json-append s))

pub unlink-DistinctKeys {ℓ} :
    {T : Type ℓ} (p : String) (d : Directory T)
    → DistinctKeys (files d)
    → DistinctKeys (files (unlink p d))
unlink-DistinctKeys p none h = h
unlink-DistinctKeys p (some d) h = discard_key-DistinctKeys d p h

pub lookup-unlink {ℓ} :
    {T : Type ℓ} (p q : String) (d : Directory T)
    → DistinctKeys (files d)
    → lookup (files (unlink p d)) q ≡ (if str_eq p q then none else lookup (files d) q)
lookup-unlink p q none h = ground arith
lookup-unlink p q (some d) h = lookup-discard_key_if d p q h

pub unlink_all-DistinctKeys {ℓ} :
    {T : Type ℓ} (ps : List String) (d : Directory T)
    → DistinctKeys (files d)
    → DistinctKeys (files (unlink_all ps d))
unlink_all-DistinctKeys [] d h = h
unlink_all-DistinctKeys (p ∷ ps) d h =
    unlink_all-DistinctKeys ps (unlink p d) (unlink-DistinctKeys p d h)

stays_none {ℓ} :
    {T : Type ℓ} (ps : List String) (d : Directory T) (q : String)
    → DistinctKeys (files d)
    → lookup (files d) q ≡ none
    → lookup (files (unlink_all ps d)) q ≡ none
stays_none [] d q h e = e
stays_none (p ∷ ps) d q h e =
    stays_none ps (unlink p d) q (unlink-DistinctKeys p d h)
      (lookup-unlink p q d h ∙ ground (arith, e))

all_unlinked {ℓ} :
    {T : Type ℓ} (ps : List String) (d : Directory T)
    → DistinctKeys (files d)
    → All (λ q. lookup (files (unlink_all ps d)) q ≡ none) ps
all_unlinked [] d h = tt
all_unlinked (p ∷ ps) d h = (
  stays_none ps (unlink p d) p (unlink-DistinctKeys p d h)
      (lookup-unlink p p d h ∙ ground (arith, eq_iff p p)),
  all_unlinked ps (unlink p d) (unlink-DistinctKeys p d h),
)

pub unlink-absent {ℓ} :
    {T : Type ℓ} (p q : String) (d : Directory T)
    → DistinctKeys (files d)
    → is_there (lookup (files d) p) ≡ false
    → lookup (files (unlink p d)) q ≡ lookup (files d) q
unlink-absent {T} p q d h e = lookup-unlink p q d h ∙ elim (Bool-cases (str_eq p q)) [
  | inl f ↦
      let none_there : lookup (files d) p ≡ none = absent (lookup (files d) p) e in
      rw f (sym none_there ∙ ap (lookup (files d)) ((eq_iff p q).0 f))
  | inr f ↦ rw f refl
]
  where
    absent : (o : Option T) → is_there o ≡ false → o ≡ none
    absent none h = refl
    absent (some text) h = absurd (cc)

module _ (P : Platform) where
  pub cleared_none :
      (d : Directory P.Text) (q : String)
      → DistinctKeys (files d)
      → ends_json q ≡ true
      → lookup (files (clear P d).1) q ≡ none
  unfolding clear list_paths
  cleared_none d q h e =
      let ps = list_paths P d in
      let gone =
        All-keep_if (λ p. lookup (files (unlink_all ps d)) p ≡ none) ends_json (names (files d))
          (sort_by-back (λ p. lookup (files (unlink_all ps d)) p ≡ none) P.name_before
            (keep ends_json (names (files d))) (all_unlinked ps d h)) in
      elim (lookup-names (λ p. ends_json p ≡ true → lookup (files (unlink_all ps d)) p ≡ none)
        (files d) q gone) [ inl absent ↦ stays_none ps d q h absent | inr there ↦ there e ]
