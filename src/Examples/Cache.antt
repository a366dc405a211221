-- ===== src/Examples/Cache.antt =====
-- cache/store.py: calls on a directory of records. The text of a file is what its JSON holds.
use open_baseten_inference.Prelude.{
  ◌≡◌, refl, true, false, Bool, some, List, [], ◌∷◌, ◌||◌, ◌&&◌, leb, length,
}
use open_baseten_inference.Cache.Store.{
  TuningRecord, Platform, Raw, no_json, object, schema_version, Directory, list_paths,
}
use open_baseten_inference.Cache.Store.Records.{
  CacheCall, saving, finding, deleting, clearing, IsFaithful, Shows, store_run, spec_run, view,
}
use open_baseten_inference.Cache.Store.Refinement.{store_run-refines}
use Prim.Native.Char.{Char, code}

abbrev alphanumeric : Char → Bool
alphanumeric c =
    (leb 48 (code c) && leb (code c) 57)
    || (leb 65 (code c) && leb (code c) 90)
    || (leb 97 (code c) && leb (code c) 122)

abbrev plain_platform : Platform
plain_platform = record {
  Text = Raw;
  is_alnum = alphanumeric;
  name_before = λ a b. true;
  dump = λ r. object (some schema_version) (some r);
  read_json = λ raw. raw;
}

plain_platform-IsFaithful : IsFaithful plain_platform
plain_platform-IsFaithful = record { dash_not_alnum = refl; read_dump = λ r. refl }

abbrev some_record : TuningRecord
some_record = record {
  hardware_fingerprint = "3f2a9c01d4e5b6a7";
  model_fingerprint = "77aa00bb11cc22dd";
  workload_fingerprint = "0123456789abcdef";
  updated_at = 0;
  rest = "";
}

abbrev calls : List CacheCall
calls =
    saving true 5 some_record
    ∷ finding "3f2a9c01d4e5ffff" "77aa00bb11cc" "0123456789ab"
    ∷ saving false 6 some_record
    ∷ deleting "3f2a9c01d4e5" "77aa00bb11cc" "0123456789ab"
    ∷ clearing
    ∷ []

abbrev one_broken : Directory Raw
one_broken = some (("a-b-c.json", no_json) ∷ [])

store_run-refines_example :
    let a = store_run plain_platform calls one_broken in
    let b =
      spec_run plain_platform calls
        (view plain_platform one_broken, length (list_paths plain_platform one_broken)) in
    (a.0 ≡ b.0) × Shows plain_platform a.1 b.1
store_run-refines_example =
    store_run-refines plain_platform plain_platform-IsFaithful calls one_broken
      (refl, (refl, (refl, (refl, (refl, tt))))) (refl, tt)
