-- ===== src/Cache/Store.antt =====
-- src/servepilot/cache/store.py, and the keys of schemas/runtime.py: one file for each tuning record, in
-- one directory. The directory is a dict from file names to their texts, or none where it does not exist.
mod Count
mod Unlinked
pub mod Names
pub mod Records
pub mod Refinement
use Prim.Native.Char.{Char, char}
use open_baseten_inference.Prelude.{
  zero, suc, ℕ, String, str_append, str_eq, Bool, true, false, ◌||◌, Option, none, some, List, [],
  ◌∷◌, ◌++◌, map, keep, length, ◌==◌, if◌then◌else◌, sort_by,
}
use open_baseten_inference.Prelude.Dict.{Dict, lookup, assign, discard_key, names}

-- `rest` is the text of the other fields; `schema_version` is always the constant
pub record TuningRecord : Type 0 where
  pub hardware_fingerprint : String
  pub model_fingerprint : String
  pub workload_fingerprint : String
  pub updated_at : ℕ
  pub rest : String

-- `s[:n]`
abbrev pub prefix : ℕ → String → String
prefix zero s = ""
prefix (suc n) String.[] = ""
prefix (suc n) (String.◌∷◌ c s) = String.◌∷◌ c (prefix n s)

abbrev pub joined_key : String → String → String → String
joined_key h m w = str_append h (str_append "-" (str_append m (str_append "-" w)))

abbrev pub make_record_key : String → String → String → String
make_record_key h m w = joined_key (prefix 12 h) (prefix 12 m) (prefix 12 w)

abbrev pub key : TuningRecord → String
key r = make_record_key r.hardware_fingerprint r.model_fingerprint r.workload_fingerprint

abbrev pub dash : Char
dash = char 45 tt

abbrev pub underscore : Char
underscore = char 95 tt

abbrev pub same_char : Char → Char → Bool
same_char (char m p) (char n q) = m == n

-- what a JSON file holds: no JSON, another value, or an object with its version and what validates
pub data Raw : Type 0 where
  no_json other_value : Raw
  object : Option ℕ → Option TuningRecord → Raw

-- a record, or a `CacheError`
pub data Loaded : Type 0 where
  loaded : TuningRecord → Loaded
  unreadable not_an_object wrong_version invalid : Loaded

abbrev pub schema_version : ℕ
schema_version = 1

abbrev validated : Option TuningRecord → Loaded
validated none = invalid
validated (some r) = loaded r

abbrev is_current : Option ℕ → Bool
is_current none = false
is_current (some v) = v == schema_version

abbrev pub checked : Raw → Loaded
checked no_json = unreadable
checked other_value = not_an_object
checked (object v r) = if is_current v then validated r else wrong_version

abbrev pub Directory {ℓ} : Type ℓ → Type ℓ
Directory T = Option (Dict T)

abbrev pub files {ℓ} : {T : Type ℓ} → Directory T → Dict T
files none = []
files (some d) = d

-- the name ends in ".json", as the glob asks
abbrev pub ends_json : String → Bool
ends_json String.[] = false
ends_json (String.◌∷◌ c s) = if str_eq (String.◌∷◌ c s) ".json" then true else ends_json s

abbrev pub unlink {ℓ} : {T : Type ℓ} → String → Directory T → Directory T
unlink path none = none
unlink path (some d) = some (discard_key d path)

abbrev pub unlink_all {ℓ} : {T : Type ℓ} → List String → Directory T → Directory T
unlink_all [] d = d
unlink_all (p ∷ ps) d = unlink_all ps (unlink p d)

abbrev pub is_there {ℓ} : {T : Type ℓ} → Option T → Bool
is_there none = false
is_there (some text) = true

-- Python's `str.isalnum` of a character and order on names; the texts of files, json and pydantic
pub record Platform : Type 1 where
  pub Text : Type 0
  pub is_alnum : Char → Bool
  pub name_before : String → String → Bool
  pub dump : TuningRecord → Text
  pub read_json : Text → Raw

module _ (P : Platform) where
  abbrev pub is_safe : Char → Bool
  is_safe c = (P.is_alnum c || same_char c dash) || same_char c underscore

  abbrev pub safe : String → String
  safe String.[] = ""
  safe (String.◌∷◌ c s) = let rest = safe s in if is_safe c then String.◌∷◌ c rest else rest

  -- the name of the file of a key
  abbrev pub path_for : String → String
  path_for k = str_append (safe k) ".json"

  -- `_load_path`
  abbrev pub load_path : P.Text → Loaded
  load_path text = checked (P.read_json text)

  abbrev pub load_entry : Option P.Text → Option Loaded
  load_entry none = none
  load_entry (some text) = some (load_path text)

  -- `load`: none is the error of a key with no file
  abbrev pub load : String → Directory P.Text → Option Loaded
  load k d = load_entry (lookup (files d) (path_for k))

  -- `find`
  abbrev pub find : String → String → String → Directory P.Text → Option Loaded
  find h m w d = load (make_record_key h m w) d

  -- `save` at a time: the record is stamped; its file is replaced at once, or not at all where writing
  -- raises (`atomic_write_json`), and the directory is there
  abbrev pub stamped : ℕ → TuningRecord → TuningRecord
  stamped now r = record r { updated_at = now }

  unfoldable pub save : Bool → ℕ → TuningRecord → Directory P.Text → Directory P.Text
  save written now r d =
      if written
      then some (assign (files d) (path_for (key r)) (P.dump (stamped now r)))
      else some (files d)

  -- `delete`
  unfoldable pub delete : String → Directory P.Text → Bool × Directory P.Text
  delete k d =
      if is_there (lookup (files d) (path_for k)) then (true, unlink (path_for k) d) else (false, d)

  unfoldable pub list_paths : Directory P.Text → List String
  unfolding sort_by
  list_paths d = sort_by P.name_before (keep ends_json (names (files d)))

  -- `list`, which skips what it cannot load
  abbrev pub loaded_only : Option Loaded → List TuningRecord → List TuningRecord
  loaded_only (some (loaded r)) rs = r ∷ rs
  loaded_only _ rs = rs

  abbrev pub load_all : Directory P.Text → List String → List TuningRecord
  load_all d [] = []
  load_all d (p ∷ ps) = loaded_only (load_entry (lookup (files d) p)) (load_all d ps)

  unfoldable pub list : Directory P.Text → List TuningRecord
  unfolding list_paths
  list d = load_all d (list_paths d)

  -- `clear`
  unfoldable pub clear : Directory P.Text → ℕ × Directory P.Text
  unfolding list_paths
  clear d = (length (list_paths d), unlink_all (list_paths d) d)
