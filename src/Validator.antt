-- ===== src/Validator.antt =====
-- shared/security/code_validator.py. `ast.parse` is a parameter: the tree of a source, or the error.
-- An archive is its entries, as `zipfile` lists them. Numbers are left out of the error texts.
mod Lists
mod Ast
pub mod Trees
pub mod Archives
mod Tests
pub use Lists.*
pub use Ast.*
use Prim.Native.Char.{code}
use py_faa_s.Prelude.{
  ℕ, suc, ◌+◌, ◌*◌, String, str_append, str_eq, str_mem, starts_with, ◌==◌, ltb, ◌&&◌, ◌||◌, not,
  Bool, true, false, Option, none, some, List, [], ◌∷◌, ◌++◌, if◌then◌else◌, any, select, length,
  is_some, contains_text,
}

abbrev pub max_file_size : ℕ
max_file_size = 10 * 1024 * 1024

abbrev pub max_files : ℕ
max_files = 50

pub record ValidationViolation : Type 0 where
  pub file : String
  pub line : ℕ
  pub col : ℕ
  pub message : String

pub record ValidationResult : Type 0 where
  pub is_valid : Bool
  pub violations : List ValidationViolation
  pub files_checked : ℕ
  pub error : Option String

unfoldable pub add_violation : String → ℕ → ℕ → String → ValidationResult → ValidationResult
add_violation file line col message r = record r {
  violations =
      r.violations ++ record { file = file; line = line; col = col; message = message } ∷ [];
  is_valid = false;
}

-- `text.split(".")[0]`
unfoldable pub root : String → String
root String.[] = ""
root (String.◌∷◌ c s) = let rest = String.◌∷◌ c (root s) in if code c == b'.' then "" else rest

-- `node.module or ""`
abbrev pub module_name : Option String → String
module_name none = ""
module_name (some m) = m

-- `module.split(".")[0] in DENIED_MODULES`
unfoldable pub is_denied_module : String → Bool
unfolding root
is_denied_module m = str_mem (root m) denied_modules

unfoldable pub is_denied_builtin : String → Bool
is_denied_builtin id = str_mem id denied_builtins

unfoldable pub is_denied_attribute : String → Bool
is_denied_attribute attr = str_mem attr denied_attributes

module _ (file : String) where
  unfoldable pub flag : Position → String → ValidationResult → ValidationResult
  unfolding add_violation
  flag p message r = add_violation file p.lineno p.col_offset message r

  -- `if test: self._flag(node, message)`
  unfoldable pub flag_if : Bool → Position → String → ValidationResult → ValidationResult
  unfolding flag
  flag_if test p message r = if test then flag p message r else r

  unfoldable pub visit_import : Position → List String → ValidationResult → ValidationResult
  visit_import p [] r = r
  visit_import p (alias ∷ names) r = visit_import p names (
      flag_if (is_denied_module alias) p (str_append "Forbidden import: '" (str_append alias "'"))
        r)

  unfoldable pub visit_import_from : Position → Option String → ValidationResult → ValidationResult
  visit_import_from p m r =
      flag_if (is_denied_module (module_name m)) p
        (str_append "Forbidden import: 'from " (str_append (module_name m) " import ...'")) r

  -- The tests of `visit_Call` on the function of the call, in their order.
  unfoldable pub check_call : Position → Node → ValidationResult → ValidationResult
  check_call p (name q id) r =
      flag_if (str_eq id "__import__") p "Dynamic imports via __import__() are forbidden"
        (flag_if (is_denied_builtin id) p (str_append "Forbidden call: '" (str_append id "()'")) r)
  check_call p (attribute q value attr) r =
      flag_if (is_denied_attribute attr) p
        (str_append "Forbidden attribute access: '." (str_append attr "'")) r
  check_call p _ r = r

  unfoldable pub visit_global : Position → List String → ValidationResult → ValidationResult
  visit_global p [] r = r
  visit_global p (n ∷ names) r =
      visit_global p names
        (flag_if (str_eq n "__builtins__") p "Manipulation of '__builtins__' is forbidden" r)

  unfoldable mutual
    unfolding visit_import visit_import_from check_call visit_global

    -- `visitor.visit(node)`: the visitor method of the node's class, and then its children.
    pub visit : Node → ValidationResult → ValidationResult
    visit (import_names p names) r = visit_import p names r
    visit (import_from p m) r = visit_import_from p m r
    visit (call p func args) r = visit_all args (visit func (check_call p func r))
    visit (attribute p value attr) r = visit value (
        flag_if (is_denied_attribute attr) p
          (str_append "Forbidden attribute: '." (str_append attr "'")) r)
    visit (name p id) r =
        flag_if (is_denied_builtin id) p (str_append "Use of forbidden name: '" (str_append id "'"))
          r
    visit (global_names p names) r = visit_global p names r
    visit (other children) r = visit_all children r

    pub visit_all : Nodes → ValidationResult → ValidationResult
    visit_all nil r = r
    visit_all (cons n ns) r = visit_all ns (visit n r)

-- What `ast.parse` returns or raises.
pub data Parsed : Type 0 where
  tree : Node → Parsed
  syntax_error : Option ℕ → Option ℕ → String → Parsed

-- `exc.lineno or 0`
abbrev pub or_zero : Option ℕ → ℕ
or_zero none = 0
or_zero (some n) = n

pub record Entry : Type 0 where
  pub filename : String
  pub file_size : ℕ
  pub source : String

-- `zf.getinfo(e.filename)`, for an entry `e` of the archive: the last entry of that name.
unfoldable pub get_info : Entry → List Entry → Entry
get_info e [] = e
get_info e (x ∷ xs) = get_info (if str_eq x.filename e.filename then x else e) xs

abbrev pub ends_with : String → String → Bool
ends_with suffix String.[] = str_eq String.[] suffix
ends_with suffix (String.◌∷◌ c s) = str_eq (String.◌∷◌ c s) suffix || ends_with suffix s

abbrev pub is_suspicious : String → Bool
is_suspicious n = starts_with n "/" || contains_text ".." n

abbrev pub start : ValidationResult
start = record { is_valid = true; violations = []; files_checked = 0; error = none }

abbrev pub reject : String → ValidationResult → ValidationResult
reject message r = record r { is_valid = false; error = some message }

module _ (parse : String → Parsed) where
  unfoldable pub validate_source : String → String → ValidationResult → ValidationResult
  unfolding visit add_violation
  validate_source source filename r = elim (parse source) [
    | tree n ↦ visit filename n r
    | syntax_error line offset message ↦
        add_violation filename (or_zero line) (or_zero offset) (str_append "Syntax error: " message)
          r
  ]

  abbrev pub count_file : ValidationResult → ValidationResult
  count_file r = record r { files_checked = r.files_checked + 1 }

  -- Enough was found to stop: the early return of the loop.
  abbrev pub stops : ValidationResult → Bool
  stops r = not r.is_valid && ltb 10 (length r.violations)

  -- The loop over the Python files of the archive `entries`.
  unfoldable pub validate_files : List Entry → List Entry → ValidationResult → ValidationResult
  unfolding validate_source get_info
  validate_files entries [] r = r
  validate_files entries (e ∷ es) r =
      let info = get_info e entries in
      let checked = validate_source info.source e.filename (count_file r) in
      let rest = validate_files entries es checked in
      if ltb max_file_size info.file_size
      then reject (str_append "File " (str_append e.filename " exceeds size limit")) r
      else if stops checked
      then checked
      else rest

  abbrev pub is_python : Entry → Bool
  is_python e = ends_with ".py" e.filename

  -- The first entry with a suspicious path.
  unfoldable pub find_suspicious : List Entry → Option String
  find_suspicious [] = none
  find_suspicious (e ∷ es) =
      let rest = find_suspicious es in if is_suspicious e.filename then some e.filename else rest

  unfoldable pub validate_entries : List Entry → ValidationResult
  unfolding find_suspicious validate_files
  validate_entries entries =
      if ltb max_files (length entries)
      then reject "Archive contains too many files" start
      else elim (find_suspicious entries) [
        | some n ↦ reject (str_append "Suspicious path in archive: " n) start
        | none ↦
            let py_files = select is_python entries in
            let result = validate_files entries py_files start in
            elim py_files [
              | [] ↦ reject "Archive contains no Python (.py) files" start
              | _ ∷ _ ↦ result
            ]
      ]

  -- `validate_archive`, on the entries of the archive; `none` is no ZIP archive.
  unfoldable pub validate_archive : Option (List Entry) → ValidationResult
  unfolding validate_entries
  validate_archive none = reject "Uploaded file is not a valid ZIP archive" start
  validate_archive (some entries) = validate_entries entries
