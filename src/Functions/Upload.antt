-- ===== src/Functions/Upload.antt =====
-- `create_version` of api/routers/functions.py. Parameters are what the code takes from outside: the
-- checks of the form's texts (a pattern and a length), `str` on numbers, the Python parser, and the
-- object store, a state and the call that uploads an artifact and returns its path, hash and size.
use py_faa_s.Prelude.{
  ℕ, suc, ◌+◌, ltb, leb, ◌==◌, ◌&&◌, not, str_append, String, Bool, true, Option, none, some, List,
  [], ◌∷◌, ◌++◌, count_where, zero, map, if◌then◌else◌,
}
use py_faa_s.Config.{Settings}
use py_faa_s.Models.{Json, User, Function, FunctionVersion, text, Error, http, raised}
use py_faa_s.Session.{
  Database, Session, Action, pure, raise_if, ◌>>=◌, ◌>>◌, query, write, save_function, on_session,
  on_service,
}
use py_faa_s.Validator.{ValidationViolation, ValidationResult, Parsed, Entry, validate_archive}
use py_faa_s.Functions.{get_function_or_404}
use py_faa_s.Functions.Delete.{versions_of}

-- The fields of the form, with the default `environment` of the schema.
pub record FunctionVersionCreateRequest : Type 0 where
  pub entrypoint : String
  pub environment : Json
  pub timeout : ℕ
  pub memory_mb : ℕ
  pub change_notes : Option String

pub record Archive : Type 0 where
  pub size : ℕ
  pub entries : Option (List Entry)

-- `max(version_number) or 0`
abbrev pub max_version : List FunctionVersion → ℕ
max_version [] = 0
max_version (v ∷ vs) =
    let rest = max_version vs in if ltb rest v.version_number then v.version_number else rest

abbrev pub add_version : FunctionVersion → Database → Database
add_version v db = record db { versions = db.versions ++ v ∷ [] }

abbrev pub take : {A : Type 0} → ℕ → List A → List A
take zero xs = []
take (suc n) [] = []
take (suc n) (x ∷ xs) = x ∷ take n xs

-- `separator.join(texts)`
abbrev pub join : String → List String → String
join separator [] = ""
join separator (x ∷ []) = x
join separator (x ∷ y ∷ ys) = str_append x (str_append separator (join separator (y ∷ ys)))

-- `violations_summary or validation.error`, as it is printed.
abbrev pub or_error : String → Option String → String
or_error String.[] none = "None"
or_error String.[] (some message) = message
or_error summary _ = summary

abbrev pub archive_too_large : String → Error
archive_too_large limit =
    http 413 (text (str_append "Archive exceeds maximum size of " (str_append limit " bytes")))

abbrev pub too_many_versions : String → Error
too_many_versions limit =
    http 429 (text (str_append "Maximum of " (str_append limit " versions per function")))

-- The row of the new version: it is active by the column's default.
abbrev pub new_version :
    ℕ → Function → ℕ → FunctionVersionCreateRequest → String × String × ℕ → FunctionVersion
new_version version_id fn number params (path, hash, size) = record {
  id = version_id;
  function_id = fn.id;
  version_number = number;
  entrypoint = params.entrypoint;
  artifact_path = path;
  artifact_hash = hash;
  artifact_size = size;
  environment = params.environment;
  timeout = params.timeout;
  memory_mb = params.memory_mb;
  is_active = true;
  change_notes = params.change_notes;
}

abbrev pub activated : ℕ → Function → Function
activated version_id fn = record fn { active_version_id = some version_id }

module _ (entrypoint_ok notes_ok : String → Bool) (str : ℕ → String) (parse : String → Parsed) where
  abbrev pub notes_fit : Option String → Bool
  notes_fit none = true
  notes_fit (some notes) = notes_ok notes

  -- The checks of the schema.
  unfoldable pub is_valid_request : FunctionVersionCreateRequest → Bool
  is_valid_request params =
      entrypoint_ok params.entrypoint
      && leb 1 params.timeout
      && leb params.timeout 3600
      && leb 64 params.memory_mb
      && leb params.memory_mb 3072
      && notes_fit params.change_notes

  abbrev pub show_violation : ValidationViolation → String
  show_violation v =
      str_append v.file (str_append ":" (str_append (str v.line) (str_append " - " v.message)))

  unfoldable pub rejected_archive : ValidationResult → Error
  rejected_archive validation = http 422 (
      text (
        str_append "Security validation failed: " (
          or_error (join "; " (map show_violation (take 5 validation.violations)))
            validation.error)))

  -- The checks before the upload: the function and the number of its new version.
  unfoldable pub find_uploadable :
      Settings → ℕ → FunctionVersionCreateRequest → Archive → User → Action Session (Function × ℕ)
  find_uploadable settings function_id params archive current_user = do
    fn ← get_function_or_404 function_id current_user
    raise_if (not (is_valid_request params)) (raised (text "ValidationError"))
    raise_if (ltb settings.max_function_size_bytes archive.size)
        (archive_too_large (str settings.max_function_size_bytes))
    raise_if (not (validate_archive parse archive.entries).is_valid)
        (rejected_archive (validate_archive parse archive.entries))
    version_count ←
        query (λ db. count_where (λ (v : FunctionVersion). v.function_id == fn.id) db.versions)
    raise_if (leb settings.max_versions_per_function version_count)
        (too_many_versions (str settings.max_versions_per_function))
    max_version ← query (λ db. max_version (versions_of fn.id db))
    pure (fn, max_version + 1)

  module _ {O : Type 0} (upload_artifact : ℕ → ℕ → Archive → Action O (String × String × ℕ)) where
    unfoldable pub create_version :
        Settings
        → ℕ
        → ℕ
        → FunctionVersionCreateRequest
        → Archive
        → User
        → Action (Session × O) FunctionVersion
    create_version settings version_id function_id params archive current_user = do
      (fn, number) ← on_session (find_uploadable settings function_id params archive current_user)
      artifact ← on_service (upload_artifact function_id version_id archive)
      on_session (
          write (add_version (new_version version_id fn number params artifact))
          >> write (save_function (activated version_id fn)))
      pure (new_version version_id fn number params artifact)
