-- ===== src/Functions/Stores.antt =====
-- An upload and a deletion at work, on a store that is the list of its paths.
use py_faa_s.Prelude.{ℕ, String, List, Bool, true, none, some, [], ◌∷◌, str_eq, delete_where}
use py_faa_s.Config.{default_settings}
use py_faa_s.Models.{null, ok}
use py_faa_s.Session.{Action, with_db}
use py_faa_s.Session.Samples.{alice, db}
use py_faa_s.Validator.{Parsed, tree, other, nil}
use py_faa_s.Functions.Upload.{FunctionVersionCreateRequest, Archive, create_version}
use py_faa_s.Functions.Numbers.{Uploads, create_version-Uploads}

abbrev remove : String → Action (List String) (Unit {0})
remove path o = (ok tt, delete_where (λ p. str_eq p path) o)

abbrev store : ℕ → ℕ → Archive → Action (List String) (String × String × ℕ)
store id version archive o = (ok ("b", "hash", archive.size), "b" ∷ o)

abbrev yes : String → Bool
yes s = true

abbrev shown : ℕ → String
shown n = "n"

abbrev empty_file : String → Parsed
empty_file s = tree (other nil)

abbrev form : FunctionVersionCreateRequest
form = record {
  entrypoint = "handler.handler";
  environment = null;
  timeout = 300;
  memory_mb = 128;
  change_notes = none;
}

abbrev upload : Archive
upload = record {
  size = 9;
  entries = some (record { filename = "handler.py"; file_size = 4; source = "" } ∷ []);
}

create_version-Uploads_example :
    Uploads yes yes shown empty_file default_settings 10 form upload alice store 22 db ("a" ∷ []) (
      with_db
        (create_version yes yes shown empty_file store default_settings 22 10 form upload alice)
        (db, "a" ∷ []))
create_version-Uploads_example =
    create_version-Uploads yes yes shown empty_file default_settings 10 form upload alice store 22
      db ("a" ∷ [])
