-- ===== src/Cache/Store/Records.antt =====
-- cache/store.py as a map from fingerprints to records: the specification, and calls on both.
use open_baseten_inference.Prelude.{
  ℕ, ◌+◌, ◌-◌, length, ◌≡◌, String, str_eq, Bool, true, false, ◌&&◌, Option, none, some, List, [],
  ◌∷◌, if◌then◌else◌,
}
use open_baseten_inference.Prelude.Dict.{DistinctKeys}
use open_baseten_inference.Cache.Store.{
  TuningRecord, Platform, object, Loaded, loaded, schema_version, Directory, files, prefix,
  joined_key, make_record_key, dash, load, find, stamped, save, delete, clear, list_paths,
}
use open_baseten_inference.Cache.Store.Names.{all_chars}

-- the fingerprints as they stand in a key
abbrev pub Cut : Type 0
Cut = String × String × String

abbrev pub cut : String → String → String → Cut
cut h m w = (prefix 12 h, prefix 12 m, prefix 12 w)

abbrev pub cut_of : TuningRecord → Cut
cut_of r = cut r.hardware_fingerprint r.model_fingerprint r.workload_fingerprint

abbrev pub same_cut : Cut → Cut → Bool
same_cut (h, m, w) (h', m', w') = str_eq h h' && (str_eq m m' && str_eq w w')

pub data CacheCall : Type 0 where
  saving : Bool → ℕ → TuningRecord → CacheCall
  finding deleting : String → String → String → CacheCall
  clearing : CacheCall

pub data CacheAnswer : Type 0 where
  done : CacheAnswer
  cleared : ℕ → CacheAnswer
  os_error : CacheAnswer
  found : Option Loaded → CacheAnswer
  deleted : Bool → CacheAnswer

abbrev pub written_answer : Bool → CacheAnswer
written_answer true = done
written_answer false = os_error

-- the specification: a map
abbrev pub Records : Type 0
Records = Cut → Option Loaded

abbrev pub put : Records → Cut → Option Loaded → Records
put m c v = λ g. if same_cut c g then v else m g

-- the map, with the number of files that there are, readable or not
abbrev pub Catalog : Type 0
Catalog = Records × ℕ

abbrev pub has_record : Option Loaded → Bool
has_record none = false
has_record (some l) = true

module _ (P : Platform) where
  abbrev pub spec_step : CacheCall → Catalog → CacheAnswer × Catalog
  spec_step (saving written now r) (m, n) = (
    written_answer written,
    if written
        then (
          put m (cut_of r) (some (loaded (stamped P now r))),
          if has_record (m (cut_of r)) then n else n + 1,
        )
        else (m, n),
  )
  spec_step (finding h m w) (records, n) = (found (records (cut h m w)), (records, n))
  spec_step (deleting h m w) (records, n) =
      let there = has_record (records (cut h m w)) in
      (deleted there, (put records (cut h m w) none, if there then n - 1 else n))
  spec_step clearing (m, n) = (cleared n, (λ g. none, 0))

  abbrev pub store_step : CacheCall → Directory P.Text → CacheAnswer × Directory P.Text
  store_step (saving written now r) d = (written_answer written, save P written now r d)
  store_step (finding h m w) d = (found (find P h m w d), d)
  store_step (deleting h m w) d =
      let (there, d') = delete P (make_record_key h m w) d in (deleted there, d')
  store_step clearing d = let (n, d') = clear P d in (cleared n, d')

  abbrev pub spec_run : List CacheCall → Catalog → List CacheAnswer × Catalog
  spec_run [] m = ([], m)
  spec_run (c ∷ cs) m =
      let (answer, m') = spec_step c m in
      let (answers, end) = spec_run cs m' in (answer ∷ answers, end)

  abbrev pub store_run : List CacheCall → Directory P.Text → List CacheAnswer × Directory P.Text
  store_run [] d = ([], d)
  store_run (c ∷ cs) d =
      let (answer, d') = store_step c d in
      let (answers, end) = store_run cs d' in (answer ∷ answers, end)

  -- what the directory holds for fingerprints
  abbrev pub view : Directory P.Text → Records
  view d (h, m, w) = load P (joined_key h m w) d

  abbrev pub is_plain_cut : Cut → Bool
  is_plain_cut (h, m, w) =
      all_chars P.is_alnum h && (all_chars P.is_alnum m && all_chars P.is_alnum w)

  -- the fingerprints of a call are alphanumeric, as hexadecimal digests are
  abbrev pub is_plain_call : CacheCall → Bool
  is_plain_call (saving written now r) = is_plain_cut (cut_of r)
  is_plain_call (finding h m w) = is_plain_cut (cut h m w)
  is_plain_call (deleting h m w) = is_plain_cut (cut h m w)
  is_plain_call clearing = true

  -- a dash is not alphanumeric, and JSON that pydantic dumped validates to what it was dumped from
  pub record IsFaithful : Type 0 where
    pub dash_not_alnum : P.is_alnum dash ≡ false
    pub read_dump :
        (r : TuningRecord) → P.read_json (P.dump r) ≡ object (some schema_version) (some r)

  -- a directory shows a map, and as many files as are counted
  abbrev pub Shows : Directory P.Text → Catalog → Type 0
  Shows d (m, n) =
      DistinctKeys (files d)
      × (length (list_paths P d) ≡ n)
      × ((g : Cut) → is_plain_cut g ≡ true → view d g ≡ m g)
