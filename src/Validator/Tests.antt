-- ===== src/Validator/Tests.antt =====
-- The validator at work.
use py_faa_s.Prelude.{
  String, ◌≡◌, ◌↔◌, refl, str_eq, true, false, none, some, List, [], ◌∷◌, if◌then◌else◌,
}
use py_faa_s.Validator.{
  Position, Node, import_names, call, attribute, name, other, nil, cons, Parsed, tree, syntax_error,
  Entry, start, validate_archive, visit, is_denied_module, is_denied_builtin, is_denied_attribute,
  flag_if,
}
use py_faa_s.Validator.Archives.{IsAcceptable, validate_archive_accepts}

abbrev at_start : Position
at_start = record { lineno = 1; col_offset = 0 }

-- `import json` and `json.dumps(x)`
abbrev harmless : Node
harmless = other (
    cons (import_names at_start ("json" ∷ [])) (
      cons
        (call at_start (attribute at_start (name at_start "json") "dumps")
          (cons (name at_start "x") nil))
        nil))

-- `[eval(x)]`
abbrev hidden_eval : Node
hidden_eval = other (cons (call at_start (name at_start "eval") (cons (name at_start "x") nil)) nil)

abbrev parse : String → Parsed
parse source =
    if str_eq source "safe"
    then tree harmless
    else if str_eq source "eval"
    then tree hidden_eval
    else syntax_error (some 1) none "invalid syntax"

abbrev upload : String → List Entry
upload source =
    record { filename = "readme.txt"; file_size = 5; source = "" }
    ∷ record { filename = "handler.py"; file_size = 4; source = source }
    ∷ []

runs : Unit {0}
unfolding validate_archive visit flag_if is_denied_module is_denied_builtin is_denied_attribute
runs = tt

harmless_accepted : (validate_archive parse (some (upload "safe"))).is_valid ≡ true
unfolding runs
harmless_accepted = refl

eval_rejected : (validate_archive parse (some (upload "eval"))).is_valid ≡ false
unfolding runs
eval_rejected = refl

broken_rejected : (validate_archive parse (some (upload "def"))).is_valid ≡ false
unfolding runs
broken_rejected = refl

-- The deny list has the package `urllib`, so the module `urllib.parse`, which the allow list names,
-- is rejected too.
urllib_parse_rejected :
    (visit "handler.py" (import_names at_start ("urllib.parse" ∷ [])) start).is_valid ≡ false
unfolding runs
urllib_parse_rejected = refl

validate_archive_accepts_example :
    ((validate_archive parse none).is_valid ≡ false)
    × (((validate_archive parse (some (upload "safe"))).is_valid ≡ true)
        ↔ IsAcceptable parse (upload "safe"))
validate_archive_accepts_example = validate_archive_accepts parse (upload "safe")
