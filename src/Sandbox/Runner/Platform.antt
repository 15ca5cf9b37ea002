-- ===== src/Sandbox/Runner/Platform.antt =====
-- What the runner works on: its process, and the platform that it calls.
use py_faa_s.Prelude.{
  ℕ, String, str_append, str_eq, Bool, false, Option, none, some, List, [], ◌∷◌, if◌then◌else◌,
}
use py_faa_s.Models.{Json, bool, str, obj, no_fields, field, Error, raised, text, Result}
use py_faa_s.Session.{Action}
use py_faa_s.Sandbox.Logs.{JsonText}
use py_faa_s.Sandbox.Manifest.{get_or}

abbrev pub Environ : Type 0
Environ = List (String × String)

-- `os.environ.get(name)`
abbrev pub getenv : String → Environ → Option String
getenv name [] = none
getenv name ((k, v) ∷ rest) = if str_eq k name then some v else getenv name rest

-- `os.environ.pop(name, None)`
unfoldable pub pop : String → Environ → Environ
pop name [] = []
pop name ((k, v) ∷ rest) = let kept = pop name rest in if str_eq k name then kept else (k, v) ∷ kept

-- What `main` reads from its environment, but for the timeout.
pub record Options : Type 0 where
  pub execution_id : String
  pub entrypoint : String
  pub payload_raw : String
  pub artifact_path : Option String
  pub source_code : Option String
  pub work_dir : String
  pub deps_dir : String

abbrev pub cache_dir : Option String → Option String
cache_dir none = none
cache_dir (some dir) = if str_eq dir "" then none else some dir

-- `work_dir` and `deps_dir`
abbrev pub directories : String → Option String → String × String
directories work_dir none = (work_dir, str_append work_dir "/.deps")
directories work_dir (some dir) = (str_append dir "/src", str_append dir "/deps")

unfoldable pub read_options : Environ → Options
read_options environ =
    let (work_dir, deps_dir) =
      directories (get_or (getenv "SOPM_WORK_DIR" environ) "/work")
        (cache_dir (getenv "SOPM_CACHE_DIR" environ)) in
    record {
      execution_id = get_or (getenv "SOPM_EXECUTION_ID" environ) "unknown";
      entrypoint = get_or (getenv "SOPM_ENTRYPOINT" environ) "handler.handler";
      payload_raw = get_or (getenv "SOPM_PAYLOAD" environ) "{}";
      artifact_path = getenv "SOPM_ARTIFACT_PATH" environ;
      source_code = getenv "SOPM_SOURCE_CODE" environ;
      work_dir = work_dir;
      deps_dir = deps_dir;
    }

-- The process: its environment, the unflushed part of `sys.stdout`, what was written, and the rest.
pub record World (F : Type 0) : Type 0 where
  pub environ : Environ
  pub pending : String
  pub out : String
  pub files : F

-- How `except` sees an exception; `SystemExit` and its like pass by `except Exception`.
pub data Kind : Type 0 where
  timeout ordinary : Kind
  exits : ℕ → Kind

-- What the runner calls. `H` are the attributes of a module, `V` the values that handlers return.
pub record Platform : Type 1 where
  pub F : Type 0
  pub H : Type 0
  pub V : Type 0
  pub json : JsonText
  pub int : String → Option ℕ
  pub str_int : ℕ → String
  pub show : Error → String
  pub traceback : Error → String
  pub lower : String → String
  pub seconds : ℕ → String
  pub kind : Error → Kind
  pub now : World F → ℕ
  pub time_text : World F → String
  pub mkdir : String → Action (World F) (Unit {0})
  pub mkdir_parent : String → Action (World F) (Unit {0})
  pub rmtree : String → Action (World F) (Unit {0})
  pub exists : String → World F → Bool
  pub write_text : String → String → Action (World F) (Unit {0})
  pub sys_path_insert : String → World F → World F
  pub fget_object :
      String → String → String → Bool → String → String → String → Action (World F) (Unit {0})
  pub namelist : String → Action (World F) (List String)
  pub extract : String → String → String → Action (World F) (Unit {0})
  pub pip_install : String → String → ℕ → Action (World F) (ℕ × String)
  pub import_module : String → String → Action (World F) (String → Option H)
  -- The number of positional parameters without a default, and whether there are `*args`.
  pub signature : H → Result (ℕ × Bool)
  pub call : H → List Json → Action (World F) V
  pub is_dict : V → Bool
  pub to_json : V → Result Json

-- `text.rsplit(".", 1)`: the parts around the last dot.
abbrev pub before_dot :
    Prim.Native.Char.Char → Option (String × String) → String → Option (String × String)
before_dot c (some (head, tail)) s = some (String.◌∷◌ c head, tail)
before_dot c none s = if str_eq (String.◌∷◌ c String.[]) "." then some (String.[], s) else none

unfoldable pub rsplit_dot : String → Option (String × String)
rsplit_dot String.[] = none
rsplit_dot (String.◌∷◌ c s) = before_dot c (rsplit_dot s) s

-- `module_path.replace(".", "/")`
unfoldable pub replace_dots : String → String
replace_dots String.[] = String.[]
replace_dots (String.◌∷◌ c s) =
    str_append (if str_eq (String.◌∷◌ c String.[]) "." then "/" else String.◌∷◌ c String.[])
      (replace_dots s)

abbrev pub module_file : String → String → String
module_file work_dir module_path =
    str_append (str_append (str_append work_dir "/") (replace_dots module_path)) ".py"

abbrev pub error_text : String → Error
error_text t = raised (text t)

abbrev pub failure_value : String → Json
failure_value error = obj (field "error" (str error) (field "success" (bool false) no_fields))
