-- ===== src/Validator/Trees.antt =====
-- The visitor finds every forbidden construct, at any depth, and nothing else.
use py_faa_s.Prelude.{String, str_eq, ◌≡◌, refl, Bool, true, false, List, [], ◌∷◌, All, arith}
use py_faa_s.Validator.{
  Position, Node, Nodes, import_names, import_from, call, attribute, name, global_names, other, nil,
  cons, ValidationResult, visit, visit_all, visit_import, visit_import_from, visit_global,
  check_call, flag_if, module_name, is_denied_module, is_denied_builtin, is_denied_attribute,
}

abbrev mutual
  -- No forbidden import, name, attribute or `global` occurs in the tree.
  pub IsClean : Node → Type 0
  IsClean (import_names p names) = All (λ a. is_denied_module a ≡ false) names
  IsClean (import_from p m) = is_denied_module (module_name m) ≡ false
  IsClean (call p func args) = IsClean func × AreClean args
  IsClean (attribute p value attr) = (is_denied_attribute attr ≡ false) × IsClean value
  IsClean (name p id) = is_denied_builtin id ≡ false
  IsClean (global_names p names) = All (λ n. str_eq n "__builtins__" ≡ false) names
  IsClean (other children) = AreClean children

  pub AreClean : Nodes → Type 0
  AreClean nil = Unit
  AreClean (cons n ns) = IsClean n × AreClean ns

module _ (file : String) where
  flag_if-valid :
      (test : Bool) (p : Position) (message : String) (r : ValidationResult)
      → (flag_if file test p message r).is_valid ≡ true
      → (r.is_valid ≡ true) × (test ≡ false)
  unfolding flag_if
  flag_if-valid test p message r h = ground arith

  visit_import-valid :
      (p : Position) (names : List String) (r : ValidationResult)
      → (visit_import file p names r).is_valid ≡ true
      → (r.is_valid ≡ true) × All (λ a. is_denied_module a ≡ false) names
  unfolding visit_import
  visit_import-valid p [] r h = (h, tt)
  visit_import-valid p (a ∷ names) r h =
      let (before, rest) = visit_import-valid p names _ h in
      let (valid, allowed) = flag_if-valid (is_denied_module a) p _ r before in
      (valid, (allowed, rest))

  visit_global-valid :
      (p : Position) (names : List String) (r : ValidationResult)
      → (visit_global file p names r).is_valid ≡ true
      → (r.is_valid ≡ true) × All (λ n. str_eq n "__builtins__" ≡ false) names
  unfolding visit_global
  visit_global-valid p [] r h = (h, tt)
  visit_global-valid p (n ∷ names) r h =
      let (before, rest) = visit_global-valid p names _ h in
      let (valid, allowed) = flag_if-valid (str_eq n "__builtins__") p _ r before in
      (valid, (allowed, rest))

  check_call-valid :
      (p : Position) (func : Node) (r : ValidationResult)
      → (check_call file p func r).is_valid ≡ true
      → r.is_valid ≡ true
  unfolding check_call
  check_call-valid p (name q id) r h = (flag_if-valid _ p _ r (flag_if-valid _ p _ _ h).0).0
  check_call-valid p (attribute q value attr) r h = (flag_if-valid _ p _ r h).0
  check_call-valid p _ r h = h

  mutual
    unfolding visit visit_import_from

    visit-IsClean :
        (n : Node) (r : ValidationResult)
        → (visit file n r).is_valid ≡ true
        → (r.is_valid ≡ true) × IsClean n
    visit-IsClean (import_names p names) r h = visit_import-valid p names r h
    visit-IsClean (import_from p m) r h = flag_if-valid _ p _ r h
    visit-IsClean (call p func args) r h =
        let (after_func, clean_args) = visit_all-AreClean args _ h in
        let (after_check, clean_func) = visit-IsClean func _ after_func in
        (check_call-valid p func r after_check, (clean_func, clean_args))
    visit-IsClean (attribute p value attr) r h =
        let (after_flag, clean) = visit-IsClean value _ h in
        let (valid, allowed) = flag_if-valid _ p _ r after_flag in (valid, (allowed, clean))
    visit-IsClean (name p id) r h = flag_if-valid _ p _ r h
    visit-IsClean (global_names p names) r h = visit_global-valid p names r h
    visit-IsClean (other children) r h = visit_all-AreClean children r h

    visit_all-AreClean :
        (ns : Nodes) (r : ValidationResult)
        → (visit_all file ns r).is_valid ≡ true
        → (r.is_valid ≡ true) × AreClean ns
    visit_all-AreClean nil r h = (h, tt)
    visit_all-AreClean (cons n ns) r h =
        let (after_n, clean_ns) = visit_all-AreClean ns _ h in
        let (valid, clean_n) = visit-IsClean n r after_n in (valid, (clean_n, clean_ns))

  visit_import_clean :
      (p : Position) (names : List String) (r : ValidationResult)
      → All (λ a. is_denied_module a ≡ false) names
      → visit_import file p names r ≡ r
  unfolding visit_import flag_if
  visit_import_clean p [] r h = refl
  visit_import_clean p (a ∷ names) r h = rw h.0 (visit_import_clean p names r h.1)

  visit_global_clean :
      (p : Position) (names : List String) (r : ValidationResult)
      → All (λ n. str_eq n "__builtins__" ≡ false) names
      → visit_global file p names r ≡ r
  unfolding visit_global flag_if
  visit_global_clean p [] r h = refl
  visit_global_clean p (n ∷ names) r h = rw h.0 (visit_global_clean p names r h.1)

  -- `__import__` is one of the denied names.
  import_is_denied : (id : String) → is_denied_builtin id ≡ false → str_eq id "__import__" ≡ false
  unfolding is_denied_builtin
  import_is_denied id h = ground arith

  check_call_clean :
      (p : Position) (func : Node) (r : ValidationResult)
      → IsClean func
      → check_call file p func r ≡ r
  unfolding check_call flag_if
  check_call_clean p (name q id) r h = rw (h, import_is_denied id h)
  check_call_clean p (attribute q value attr) r h = rw h.0
  check_call_clean p (import_names q names) r h = refl
  check_call_clean p _ r h = refl

  mutual
    unfolding visit visit_import_from flag_if

    visit_clean : (n : Node) (r : ValidationResult) → IsClean n → visit file n r ≡ r
    visit_clean (import_names p names) r h = visit_import_clean p names r h
    visit_clean (import_from p m) r h = rw h
    visit_clean (call p func args) r h =
        rw (check_call_clean p func r h.0, visit_clean func r h.0) (visit_all_clean args r h.1)
    visit_clean (attribute p value attr) r h = rw h.0 (visit_clean value r h.1)
    visit_clean (name p id) r h = rw h
    visit_clean (global_names p names) r h = visit_global_clean p names r h
    visit_clean (other children) r h = visit_all_clean children r h

    visit_all_clean : (ns : Nodes) (r : ValidationResult) → AreClean ns → visit_all file ns r ≡ r
    visit_all_clean nil r h = refl
    visit_all_clean (cons n ns) r h = rw (visit_clean n r h.0) (visit_all_clean ns r h.1)

  pub visit_valid :
      (n : Node) (r : ValidationResult)
      → (visit file n r).is_valid ≡ true
      → (r.is_valid ≡ true) × IsClean n
  visit_valid n r h = visit-IsClean n r h

  -- A tree leaves a valid result valid exactly if no forbidden construct occurs in it, at any depth;
  -- it then adds nothing to the result.
  pub visit_decides :
      (n : Node) (r : ValidationResult)
      → r.is_valid ≡ true
      → ((visit file n r).is_valid ≡ true → IsClean n) × (IsClean n → visit file n r ≡ r)
  visit_decides n r h = (λ v. (visit-IsClean n r v).1, visit_clean n r)
