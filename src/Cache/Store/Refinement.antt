-- ===== src/Cache/Store/Refinement.antt =====
-- cache/store.py against the map from fingerprints to records.
use open_baseten_inference.Prelude.{
  ℕ, ◌+◌, ◌-◌, length, ◌≡◌, refl, sym, ap, ◌∙◌, inl, inr, String, str_eq, eq_iff, Bool, true, false,
  Option, none, some, List, [], ◌∷◌, if◌then◌else◌, if_cases, Bool-cases, All, arith,
}
use open_baseten_inference.Prelude.Dict.{
  lookup, discard_key, DistinctKeys, lookup-assign_if, assign-DistinctKeys,
}
use open_baseten_inference.Cache.Store.{
  TuningRecord, Platform, loaded, Directory, files, ends_json, joined_key, key, path_for,
  load_entry, stamped, save, is_there, unlink, delete, list_paths, clear, safe,
}
use open_baseten_inference.Cache.Store.Names.{path_for_injective}
use open_baseten_inference.Cache.Store.Count.{
  length-list_paths, count_json-assign, count_json-discard_key, count_json-none,
}
use open_baseten_inference.Cache.Store.Records.{
  Cut, cut, cut_of, same_cut, CacheCall, saving, finding, deleting, clearing, CacheAnswer, found,
  deleted, cleared, Records, Catalog, put, has_record, spec_step, store_step, spec_run, store_run,
  view, is_plain_cut, is_plain_call, IsFaithful, Shows,
}
use open_baseten_inference.Cache.Store.Unlinked.{
  ends_json-append, unlink-DistinctKeys, lookup-unlink, unlink_all-DistinctKeys, unlink-absent,
  cleared_none,
}

module _ (P : Platform) where
  has_record-load_entry : (o : Option P.Text) → has_record (load_entry P o) ≡ is_there o
  has_record-load_entry none = refl
  has_record-load_entry (some text) = refl

  module _ (faithful : IsFaithful P) where
    path_eq :
        (a b : Cut)
        → is_plain_cut P a ≡ true
        → is_plain_cut P b ≡ true
        → str_eq (path_for P (joined_key a.0 a.1 a.2)) (path_for P (joined_key b.0 b.1 b.2))
          ≡ same_cut a b
    path_eq (h, m, w) (h', m', w') p q = elim (Bool-cases (same_cut (h, m, w) (h', m', w'))) [
      | inl e ↦ let (x, y, z) = same_parts e in rw e ((eq_iff _ _).1 (cc (x, y, z)))
      | inr e ↦
          rw e
            (elim (Bool-cases
              (str_eq (path_for P (joined_key h m w)) (path_for P (joined_key h' m' w')))) [
                | inl f ↦ absurd (cc (e, different f))
                | inr f ↦ f
              ])
    ]
      where
        same_parts : same_cut (h, m, w) (h', m', w') ≡ true → (h ≡ h') × (m ≡ m') × (w ≡ w')
        same_parts e = ground (arith, eq_iff h h', eq_iff m m', eq_iff w w')

        different :
            str_eq (path_for P (joined_key h m w)) (path_for P (joined_key h' m' w')) ≡ true
            → same_cut (h, m, w) (h', m', w') ≡ true
        different f =
            let (x, y, z) =
              path_for_injective P faithful.dash_not_alnum h m w h' m' w' (ground arith)
                (ground arith) (ground arith) (ground arith) (ground arith) (ground arith)
                ((eq_iff _ _).0 f) in
            ground (arith, eq_iff h h', eq_iff m m', eq_iff w w', x, y, z)

    saved-view :
        (now : ℕ) (r : TuningRecord) (d : Directory P.Text) (m : Records) (g : Cut)
        → is_plain_cut P (cut_of r) ≡ true
        → is_plain_cut P g ≡ true
        → view P d g ≡ m g
        → view P (save P true now r d) g ≡ put m (cut_of r) (some (loaded (stamped P now r))) g
    unfolding save
    saved-view now r d m g p q e =
        ap (load_entry P) (
          lookup-assign_if (files d) (path_for P (key r)) (P.dump (stamped P now r))
            (path_for P (joined_key g.0 g.1 g.2)))
        ∙ rw (path_eq (cut_of r) g p q) (elim (Bool-cases (same_cut (cut_of r) g)) [
          | inl h ↦ rw h (rw (faithful.read_dump (stamped P now r)) refl)
          | inr h ↦ rw h e
        ])

    unlinked-view :
        (c : Cut) (d : Directory P.Text) (m : Records) (g : Cut)
        → DistinctKeys (files d)
        → is_plain_cut P c ≡ true
        → is_plain_cut P g ≡ true
        → view P d g ≡ m g
        → view P (unlink (path_for P (joined_key c.0 c.1 c.2)) d) g ≡ put m c none g
    unlinked-view c d m g k p q e =
        ap (load_entry P) (
          lookup-unlink (path_for P (joined_key c.0 c.1 c.2)) (path_for P (joined_key g.0 g.1 g.2))
            d k)
        ∙ rw (path_eq c g p q)
            (elim (Bool-cases (same_cut c g)) [ inl h ↦ rw h refl | inr h ↦ rw h e ])

    -- one call: the same answer, and the directory shows the catalog again
    abbrev Agree : CacheAnswer × Directory P.Text → CacheAnswer × Catalog → Type 0
    Agree a b = (a.0 ≡ b.0) × Shows P a.1 b.1

    -- the name of a key is one that the glob shows, and it is there where the map has the record
    path-ends_json : (k : String) → ends_json (path_for P k) ≡ true
    path-ends_json k = ends_json-append (safe P k)

    there-has_record :
        (c : Cut) (d : Directory P.Text) (m : Records) (n : ℕ)
        → is_plain_cut P c ≡ true
        → Shows P d (m, n)
        → is_there (lookup (files d) (path_for P (joined_key c.0 c.1 c.2))) ≡ has_record (m c)
    there-has_record c d m n p (k, l, s) =
        sym (has_record-load_entry (lookup (files d) (path_for P (joined_key c.0 c.1 c.2))))
        ∙ ap has_record (s c p)

    saved-count :
        (now : ℕ) (r : TuningRecord) (d : Directory P.Text) (m : Records) (n : ℕ)
        → is_plain_cut P (cut_of r) ≡ true
        → Shows P d (m, n)
        → length (list_paths P (save P true now r d))
          ≡ (if has_record (m (cut_of r)) then n else n + 1)
    unfolding save
    saved-count now r d m n p (k, l, s) =
        length-list_paths P (save P true now r d)
        ∙ count_json-assign (files d) (path_for P (key r)) (P.dump (stamped P now r))
            (path-ends_json (key r))
        ∙ rw (there-has_record (cut_of r) d m n p (k, l, s), sym (length-list_paths P d) ∙ l) refl

    unlinked-count :
        (c : Cut) (d : Directory P.Text) (n : ℕ)
        → length (list_paths P d) ≡ n
        → is_there (lookup (files d) (path_for P (joined_key c.0 c.1 c.2))) ≡ true
        → length (list_paths P (unlink (path_for P (joined_key c.0 c.1 c.2)) d)) ≡ n - 1
    unlinked-count c none n l e = absurd (cc)
    unlinked-count c (some d) n l e =
        let path = path_for P (joined_key c.0 c.1 c.2) in
        ground (
          arith,
          length-list_paths P (some d),
          length-list_paths P (some (discard_key d path)),
          count_json-discard_key d path (path-ends_json (joined_key c.0 c.1 c.2)),
        )

    cleared-count :
        (d : Directory P.Text) → DistinctKeys (files d) → length (list_paths P (clear P d).1) ≡ 0
    cleared-count d k =
        length-list_paths P (clear P d).1
        ∙ count_json-none (files (clear P d).1) (λ q e. cleared_none P d q k e)

    step-Agree :
        (c : CacheCall) (d : Directory P.Text) (m : Catalog)
        → is_plain_call P c ≡ true
        → Shows P d m
        → Agree (store_step P c d) (spec_step P c m)
    unfolding save clear delete
    step-Agree (saving true now r) d (m, n) p (k, l, s) = (
      refl,
      (
        assign-DistinctKeys (files d) (path_for P (key r)) (P.dump (stamped P now r)) k,
        saved-count now r d m n p (k, l, s),
        λ g q. saved-view now r d m g p q (s g q),
      ),
    )
    step-Agree (saving false now r) none (m, n) p (k, l, s) = (refl, (k, l, s))
    step-Agree (saving false now r) (some d) (m, n) p (k, l, s) = (refl, (k, l, s))
    step-Agree (finding h m w) d (records, n) p (k, l, s) = (ap found (s (cut h m w) p), (k, l, s))
    step-Agree (deleting h m w) d (records, n) p (k, l, s) =
        let c = cut h m w in
        let path = path_for P (joined_key c.0 c.1 c.2) in
        let answered = there-has_record c d records n p (k, l, s) in
        if_cases
          (λ (r : Bool × Directory P.Text).
            Agree (deleted r.0, r.1) (spec_step P (deleting h m w) (records, n)))
          (is_there (lookup (files d) path)) {x = (true, unlink path d)} {y = (false, d)}
          (λ e. (
            ap deleted (sym e ∙ answered),
            (
              unlink-DistinctKeys path d k,
              rw (sym answered ∙ e) (unlinked-count c d n l e),
              λ g q. unlinked-view c d records g k p q (s g q),
            ),
          ))
          (λ e. (
            ap deleted (sym e ∙ answered),
            (
              k,
              rw (sym answered ∙ e) l,
              λ g q.
                  ap (load_entry P)
                    (sym (unlink-absent path (path_for P (joined_key g.0 g.1 g.2)) d k e))
                  ∙ unlinked-view c d records g k p q (s g q),
            ),
          ))
    step-Agree clearing d (m, n) p (k, l, s) = (
      ap cleared l,
      (
        unlink_all-DistinctKeys (list_paths P d) d k,
        cleared-count d k,
        λ g q. ap (load_entry P) (
            cleared_none P d (path_for P (joined_key g.0 g.1 g.2)) k
              (path-ends_json (joined_key g.0 g.1 g.2))),
      ),
    )

    run-Agree :
        (cs : List CacheCall) (d : Directory P.Text) (m : Catalog)
        → All (λ c. is_plain_call P c ≡ true) cs
        → Shows P d m
        → ((store_run P cs d).0 ≡ (spec_run P cs m).0)
          × Shows P (store_run P cs d).1 (spec_run P cs m).1
    run-Agree [] d m ps s = (refl, s)
    run-Agree (c ∷ cs) d m ps s =
        let (same, next) = step-Agree c d m ps.0 s in
        let (rest, end) = run-Agree cs (store_step P c d).1 (spec_step P c m).1 ps.1 next in
        (cc (same, rest), end)

    -- For alphanumeric fingerprints, of which the first twelve characters count, and a directory with
    -- each name once: any sequence of `save`, `find`, `delete` and `clear` answers as it does on a map
    -- from the three fingerprints to records with the number of files, which `clear` answers, and
    -- leaves a directory that shows the resulting map and number. A `save` that cannot write changes
    -- neither.
    pub store_run-refines :
        (cs : List CacheCall) (d : Directory P.Text)
        → All (λ c. is_plain_call P c ≡ true) cs
        → DistinctKeys (files d)
        → let start : Catalog = (view P d, length (list_paths P d)) in
          ((store_run P cs d).0 ≡ (spec_run P cs start).0)
          × Shows P (store_run P cs d).1 (spec_run P cs start).1
    store_run-refines cs d ps k =
        run-Agree cs d (view P d, length (list_paths P d)) ps (k, refl, λ g q. refl)
