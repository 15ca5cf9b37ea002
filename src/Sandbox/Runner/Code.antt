-- ===== src/Sandbox/Runner/Code.antt =====
-- How the runner gets at the user's code: `_download_artifact`, `_extract_archive`,
-- `_write_inline_source`, `_install_requirements_if_needed`, `_load_handler`, and its printing.
use py_faa_s.Prelude.{
  ℕ, zero, suc, ◌-◌, leb, ◌||◌, not, String, str_append, str_eq, starts_with, contains_text, Option,
  none, some, List, [], ◌∷◌, if◌then◌else◌,
}
use py_faa_s.Prelude.Lines.{feed, text_drop, characters}
use py_faa_s.Models.{Json, value_error, text, Result, ok, err}
use py_faa_s.Session.{Action, pure, raise, lift, ◌>>=◌, ◌>>◌}
use py_faa_s.Sandbox.Logs.{result_prefix}
use py_faa_s.Sandbox.Manifest.{get_or}
use py_faa_s.Sandbox.Runner.Platform.{getenv, World, Platform, rsplit_dot, module_file, error_text}

module _ (platform : Platform) where
  open platform use {
    F, H, V, json, int, str_int, show, traceback, lower, seconds, kind, now, time_text, mkdir,
    mkdir_parent, rmtree, exists, write_text, sys_path_insert, fget_object, namelist, extract,
    pip_install, import_module, signature, call, is_dict, to_json,
  }

  abbrev pub Step : Type 0 → Type 0
  Step A = Action (World F) A

  -- `print(t, flush=True)`
  unfoldable pub print : String → Step (Unit {0})
  print t w = (
    ok tt,
    record w { out = str_append (str_append w.out w.pending) (str_append t feed); pending = "" },
  )

  -- `print(t, file=sys.stderr, flush=True)`
  unfoldable pub print_error : String → Step (Unit {0})
  print_error t w = (ok tt, record w { out = str_append w.out (str_append t feed) })

  -- `_emit_result`
  abbrev pub emit : Json → Step (Unit {0})
  emit v = print (str_append result_prefix (json.dumps v))

  abbrev pub required : String → Step String
  required name w = (found (getenv name w.environ), w)
    where
      found : Option String → Result String
      found none = err (error_text name)
      found (some v) = ok v

  abbrev pub environ_get : String → String → Step String
  environ_get name default w = (ok (get_or (getenv name w.environ) default), w)

  unfoldable pub download_artifact : String → String → Step (Unit {0})
  download_artifact artifact_path dest = do
    endpoint ← required "MINIO_ENDPOINT"
    access_key ← required "MINIO_ACCESS_KEY"
    secret_key ← required "MINIO_SECRET_KEY"
    secure ← environ_get "MINIO_SECURE" "false"
    bucket ← environ_get "MINIO_BUCKET_ARTIFACTS" "sopm-artifacts"
    fget_object endpoint access_key secret_key (str_eq (lower secure) "true") bucket artifact_path
        dest

  -- The loop of `_extract_archive` over the names in the archive.
  unfoldable pub extract_members : String → String → List String → Step (Unit {0})
  extract_members archive_path extract_to [] = pure tt
  extract_members archive_path extract_to (member ∷ members) =
      let rest = extract_members archive_path extract_to members in
      if contains_text ".." member || starts_with member "/"
      then rest
      else (extract archive_path member extract_to >> rest)

  unfoldable pub extract_archive : String → String → Step (Unit {0})
  unfolding extract_members
  extract_archive archive_path extract_to = do
    members ← namelist archive_path
    extract_members archive_path extract_to members

  abbrev pub written_source : String → String → Option (String × String) → Step (Unit {0})
  written_source work_dir source_code none =
      raise (value_error (text "not enough values to unpack"))
  written_source work_dir source_code (some (module_path, func_name)) =
      mkdir_parent (module_file work_dir module_path)
      >> write_text (module_file work_dir module_path) source_code

  unfoldable pub write_inline_source : String → String → String → Step (Unit {0})
  unfolding rsplit_dot
  write_inline_source work_dir entrypoint source_code =
      written_source work_dir source_code (rsplit_dot entrypoint)

  abbrev pub install_timeout : ℕ → ℕ
  install_timeout t = let low = if leb 15 t then t else 15 in if leb low 120 then low else 120

  abbrev pub last_characters : ℕ → String → String
  last_characters n s = text_drop (characters s - n) s

  abbrev pub installed : String → String → ℕ × String → Step (Unit {0})
  installed deps_dir marker (zero, stdout) w =
      (write_text marker (time_text w) >> λ w'. (ok tt, sys_path_insert deps_dir w')) w
  installed deps_dir marker (suc code, stdout) w = (
    err (error_text (str_append "dependency install failed:\n" (last_characters 4000 stdout))),
    w,
  )

  -- The directory for the packages, emptied if it is there.
  unfoldable pub empty_dir : String → Step (Unit {0})
  empty_dir deps_dir w =
      if exists deps_dir w then (rmtree deps_dir >> mkdir deps_dir) w else mkdir deps_dir w

  unfoldable pub fresh_install : String → String → String → ℕ → Step (Unit {0})
  unfolding print empty_dir
  fresh_install requirements deps_dir marker limit =
      empty_dir deps_dir
      >> print "[sopm-runner] installing dependencies from requirements.txt"
      >> pip_install deps_dir requirements (install_timeout limit)
      >>= installed deps_dir marker

  unfoldable pub install_requirements : String → String → ℕ → Step (Unit {0})
  unfolding fresh_install
  install_requirements work_dir deps_dir limit w =
      let requirements = str_append work_dir "/requirements.txt" in
      let marker = str_append deps_dir "/.sopm-installed" in
      if not (exists requirements w)
      then (ok tt, w)
      else if exists marker w
      then (ok tt, sys_path_insert deps_dir w)
      else fresh_install requirements deps_dir marker limit w

  abbrev pub attribute : String → String → (String → Option H) → Result H
  attribute module_path func_name attributes = elim (attributes func_name) [
    | none ↦ err (
        error_text (
          str_append
            (str_append (str_append (str_append "Function '" func_name) "' not found in module '")
              module_path)
            "'"))
    | some h ↦ ok h
  ]

  abbrev pub loaded : String → String → Option (String × String) → Step H
  loaded work_dir entrypoint none w = (
    err (value_error (text (str_append "Entrypoint must be 'module.function', got: " entrypoint))),
    w,
  )
  loaded work_dir entrypoint (some (module_path, func_name)) w =
      let file = module_file work_dir module_path in
      if not (exists file w)
      then (err (error_text (str_append "Module file not found: " file)), w)
      else (import_module module_path file >>= λ attributes.
            lift (attribute module_path func_name attributes))
          (sys_path_insert work_dir w)

  -- `sys.path` is extended before the module runs.
  unfoldable pub load_handler : String → String → Step H
  unfolding rsplit_dot
  load_handler work_dir entrypoint = loaded work_dir entrypoint (rsplit_dot entrypoint)
