-- ===== src/Validator/Archives.antt =====
-- Which archives the validator accepts.
use py_faa_s.Prelude.{
  ◌≤◌, String, ◌≡◌, ◌≢◌, ◌↔◌, refl, true, false, none, some, List, [], ◌∷◌, arith, All, select,
  length,
}
use py_faa_s.Validator.{
  Node, Parsed, tree, syntax_error, Entry, get_info, is_suspicious, is_python, find_suspicious,
  ValidationResult, start, count_file, validate_source, validate_files, validate_entries,
  validate_archive, max_files, max_file_size,
}
use py_faa_s.Validator.Trees.{IsClean, visit_decides, visit_valid}

module _ (parse : String → Parsed) where
  -- The file that an entry of the archive is read from is small enough, parses, and is clean.
  pub record IsAllowed (entries : List Entry) (e : Entry) : Type 0 where
    pub small : (get_info e entries).file_size ≤ max_file_size
    pub root_node : Node
    pub parses : parse (get_info e entries).source ≡ tree root_node
    pub clean : IsClean root_node

  validate_source-valid :
      (source filename : String) (r : ValidationResult)
      → (validate_source parse source filename r).is_valid ≡ true
      → (r.is_valid ≡ true) × ((n : Node) × (parse source ≡ tree n) × IsClean n)
  unfolding validate_source
  validate_source-valid source filename r h = by_parse (parse source) refl h
    where
      by_parse :
          (o : Parsed)
          → parse source ≡ o
          → (validate_source parse source filename r).is_valid ≡ true
          → (r.is_valid ≡ true) × ((n : Node) × (parse source ≡ tree n) × IsClean n)
      by_parse (tree n) e h =
          let (valid, clean) = visit_valid filename n r (rw (e, validate_source) at h) in
          (valid, (n, e, clean))
      by_parse (syntax_error l o m) e h = cc (rw (e, validate_source) at h)

  validate_files-valid :
      (entries es : List Entry) (r : ValidationResult)
      → (validate_files parse entries es r).is_valid ≡ true
      → (r.is_valid ≡ true) × All (IsAllowed entries) es
  unfolding validate_files
  validate_files-valid entries [] r h = (h, tt)
  validate_files-valid entries (e ∷ es) r h =
      let (small, rest_valid) = step in
      let (checked_valid, rest) = validate_files-valid entries es checked rest_valid in
      let (valid, (n, parses, clean)) =
        validate_source-valid (get_info e entries).source e.filename (count_file parse r)
          checked_valid in
      (valid, (record { small = small; root_node = n; parses = parses; clean = clean }, rest))
    where
      checked : ValidationResult
      checked = validate_source parse (get_info e entries).source e.filename (count_file parse r)

      step :
          ((get_info e entries).file_size ≤ max_file_size)
          × ((validate_files parse entries es checked).is_valid ≡ true)
      step = ground arith

  validate_files_allowed :
      (entries es : List Entry) (r : ValidationResult)
      → r.is_valid ≡ true
      → All (IsAllowed entries) es
      → (validate_files parse entries es r).is_valid ≡ true
  unfolding validate_files
  validate_files_allowed entries [] r v h = v
  validate_files_allowed entries (e ∷ es) r v h =
      ground (
        arith,
        h.0.small,
        v,
        unchanged,
        validate_files_allowed entries es (count_file parse r) v h.1,
      )
    where
      unchanged :
          validate_source parse (get_info e entries).source e.filename (count_file parse r)
          ≡ count_file parse r
      unchanged =
          rw (validate_source, h.0.parses)
            ((visit_decides e.filename h.0.root_node (count_file parse r) v).1 h.0.clean)

  -- What the validator asks of an archive.
  pub record IsAcceptable (entries : List Entry) : Type 0 where
    pub few : length entries ≤ max_files
    pub inside : All (λ e. is_suspicious e.filename ≡ false) entries
    pub some_python : select (is_python parse) entries ≢ []
    pub allowed : All (IsAllowed entries) (select (is_python parse) entries)

  find_suspicious-none :
      (es : List Entry)
      → find_suspicious parse es ≡ none
      → All (λ e. is_suspicious e.filename ≡ false) es
  unfolding find_suspicious
  find_suspicious-none [] h = tt
  find_suspicious-none (e ∷ es) h = ground (arith, find_suspicious-none es)

  find_suspicious_inside :
      (es : List Entry)
      → All (λ e. is_suspicious e.filename ≡ false) es
      → find_suspicious parse es ≡ none
  unfolding find_suspicious
  find_suspicious_inside [] h = refl
  find_suspicious_inside (e ∷ es) h = rw h.0 (find_suspicious_inside es h.1)

  accepted :
      (entries : List Entry)
      → (validate_entries parse entries).is_valid ≡ true
      → IsAcceptable entries
  unfolding validate_entries
  accepted entries h = record {
    few = tests.0;
    inside = find_suspicious-none entries tests.1;
    some_python = tests.2;
    allowed = (validate_files-valid entries (select (is_python parse) entries) start tests.3).1;
  }
    where
      tests :
          (length entries ≤ max_files)
          × (find_suspicious parse entries ≡ none)
          × (select (is_python parse) entries ≢ [])
          × ((validate_files parse entries (select (is_python parse) entries) start).is_valid
              ≡ true)
      tests = (ground arith, ground arith, ground arith, ground arith)

  acceptable :
      (entries : List Entry)
      → IsAcceptable entries
      → (validate_entries parse entries).is_valid ≡ true
  unfolding validate_entries
  acceptable entries a = ground (
    arith,
    a.few,
    a.some_python,
    find_suspicious_inside entries a.inside,
    validate_files_allowed entries (select (is_python parse) entries) start refl a.allowed,
  )

  -- An upload is accepted exactly if it is a ZIP archive of at most fifty entries with no suspicious
  -- path, with a Python file, and each file that is read for a Python entry is at most ten megabytes,
  -- parses, and has no forbidden construct at any depth.
  pub validate_archive_accepts :
      (entries : List Entry)
      → ((validate_archive parse none).is_valid ≡ false)
        × (((validate_archive parse (some entries)).is_valid ≡ true) ↔ IsAcceptable entries)
  unfolding validate_archive
  validate_archive_accepts entries = (refl, (accepted entries, acceptable entries))
