-- ===== src/Functions/Numbers.antt =====
-- What an upload checks and how it numbers the version.
use py_faa_s.Prelude.{
  ℕ, ◌+◌, List, String, ltb, leb, ◌==◌, not, ◌≡◌, refl, ◌∙◌, ap, ◌≤◌, ◌<◌, Bool, true, [], ◌∷◌,
  ◌++◌, some, arith, select, All, All-select, count_where,
}
use py_faa_s.Config.{Settings}
use py_faa_s.Models.{User, Function, FunctionVersion, Error, Result, ok, err, raised, text}
use py_faa_s.Session.{
  Database, Session, Action, get_db, with_db, scalar_one_or_none, or_raise, save_function,
}
use py_faa_s.Session.Reads.{Reads, Reads-bind, Reads-query, Reads-lift, Reads-raise_if}
use py_faa_s.Validator.{Parsed, validate_archive}
use py_faa_s.Functions.{get_function_or_404, owned, function_not_found}
use py_faa_s.Functions.Delete.{versions_of}
use py_faa_s.Functions.Upload.{
  FunctionVersionCreateRequest, Archive, max_version, archive_too_large, too_many_versions,
  is_valid_request, rejected_archive, find_uploadable, new_version, create_version,
}

max_version-bound :
    (vs : List FunctionVersion) (k : ℕ) → max_version vs < k → All (λ v. v.version_number < k) vs
max_version-bound [] k h = tt
max_version-bound (v ∷ vs) k h = (ground (arith, h), max_version-bound vs k (ground (arith, h)))

module _ (entrypoint_ok notes_ok : String → Bool) (str : ℕ → String) (parse : String → Parsed)
    (settings : Settings) (id : ℕ) (params : FunctionVersionCreateRequest) (archive : Archive)
    (u : User) where
  abbrev found_in : Action Session (Function × ℕ)
  found_in = find_uploadable entrypoint_ok notes_ok str parse settings id params archive u

  find_uploadable-Reads : Reads found_in
  unfolding find_uploadable get_function_or_404
  find_uploadable-Reads =
      Reads-bind
        (Reads-bind (Reads-query (λ db. select (owned id u) db.functions))
          (λ rows. Reads-lift (or_raise function_not_found (scalar_one_or_none rows))))
        λ fn.
          Reads-bind
            (Reads-raise_if (not (is_valid_request entrypoint_ok notes_ok str parse params))
              (raised (text "ValidationError")))
            λ _.
              Reads-bind
                (Reads-raise_if (ltb settings.max_function_size_bytes archive.size)
                  (archive_too_large (str settings.max_function_size_bytes)))
                λ _.
                  Reads-bind
                    (Reads-raise_if (not (validate_archive parse archive.entries).is_valid) (
                      rejected_archive entrypoint_ok notes_ok str parse
                        (validate_archive parse archive.entries)))
                    λ _.
                      Reads-bind
                        (Reads-query (λ db. count_where (λ v. v.function_id == fn.id) db.versions))
                        λ n.
                          Reads-bind
                            (Reads-raise_if (leb settings.max_versions_per_function n)
                              (too_many_versions (str settings.max_versions_per_function)))
                            λ _.
                              Reads-bind (Reads-query (λ db. max_version (versions_of fn.id db)))
                                λ m. Reads-lift (ok (fn, m + 1))

  -- What was checked of an upload that goes on.
  pub record IsChecked (fn : Function) (number : ℕ) (db : Database) : Type 0 where
    pub of_user : owned id u fn ≡ true
    pub valid : is_valid_request entrypoint_ok notes_ok str parse params ≡ true
    pub small : archive.size ≤ settings.max_function_size_bytes
    pub secure : (validate_archive parse archive.entries).is_valid ≡ true
    pub room :
        count_where (λ (v : FunctionVersion). v.function_id == fn.id) db.versions
        < settings.max_versions_per_function
    pub next : number ≡ max_version (versions_of fn.id db) + 1

  find_uploadable-ok :
      (s : Session) (fn : Function) (number : ℕ)
      → (found_in s).0 ≡ ok (fn, number)
      → IsChecked fn number s.live
  unfolding find_uploadable get_function_or_404
  find_uploadable-ok s fn number h = found (select (owned id u) s.live.functions) refl
    where
      found :
          (l : List Function)
          → select (owned id u) s.live.functions ≡ l
          → IsChecked fn number s.live
      found [] e = absurd (ground (arith, e, h))
      found (x ∷ y ∷ l) e = absurd (ground (arith, e, h))
      found (x ∷ []) e =
          let same : x ≡ fn = ground (arith, e, h) in
          let of_user : owned id u x ≡ true =
            (rw e at (All-select (owned id u) s.live.functions)).0 in
          record {
            of_user = rw (← same) of_user;
            valid = ground (arith, e, h);
            small = ground (arith, e, h);
            secure = ground (arith, e, h);
            room = ground (arith, e, h);
            next = ground (arith, e, h);
          }

  module _ {O : Type 0} (upload_artifact : ℕ → ℕ → Archive → Action O (String × String × ℕ))
      (version_id : ℕ) where
    abbrev upload : Action (Session × O) FunctionVersion
    upload =
        create_version entrypoint_ok notes_ok str parse upload_artifact settings version_id id
          params archive u

    -- How an upload ends.
    pub data Uploads (db : Database) (o : O) (end : Result FunctionVersion × Database × O)
        : Type 0 where
      refused :
          (exc : Error)
          → (get_db found_in db).0 ≡ err exc
          → end ≡ (err exc, db, o)
          → Uploads db o end
      not_stored :
          (exc : Error) (o' : O)
          → upload_artifact id version_id archive o ≡ (err exc, o')
          → end ≡ (err exc, db, o')
          → Uploads db o end
      stored :
          (fn : Function) (v : FunctionVersion) (artifact : String × String × ℕ) (o' : O)
          → IsChecked fn v.version_number db
          → v ≡ new_version version_id fn v.version_number params artifact
          → (v.id ≡ version_id) × (v.function_id ≡ fn.id) × (v.is_active ≡ true)
          → (v.entrypoint ≡ params.entrypoint)
            × (v.timeout ≡ params.timeout)
            × (v.memory_mb ≡ params.memory_mb)
          → (v.artifact_path, v.artifact_hash, v.artifact_size) ≡ artifact
          → upload_artifact id version_id archive o ≡ (ok artifact, o')
          → All (λ w. w.version_number < v.version_number) (versions_of fn.id db)
          → (let stored_db : Database = record db { versions = db.versions ++ v ∷ [] } in
              let routed : Function = record fn { active_version_id = some version_id } in
              end ≡ (ok v, save_function routed stored_db, o'))
          → Uploads db o end

    -- An upload is refused and nothing is stored; or the store raises and the database stays as it is;
    -- or the function of the user gets one new version, which becomes its active one, from an archive
    -- within the size limit that the validator accepts, while the function has less versions than the
    -- limit, with the artifact that the store returned and a number above those of its versions.
    pub create_version-Uploads : (db : Database) (o : O) → Uploads db o (with_db upload (db, o))
    unfolding create_version get_db
    create_version-Uploads db o = chosen (found_in opened) refl (find_uploadable-Reads.same opened)
      where
        opened : Session
        opened = record { live = db; saved = db }

        stored_as :
            (fn : Function) (number : ℕ)
            → found_in opened ≡ (ok (fn, number), opened)
            → IsChecked fn number db
            → (r : Result (String × String × ℕ) × O) → upload_artifact id version_id archive o ≡ r
            → Uploads db o (with_db upload (db, o))
        stored_as fn number found passed (err exc, o') e =
            not_stored exc o' e (ground (arith, found, e))
        stored_as fn number found passed (ok artifact, o') e =
            stored fn (new_version version_id fn number params artifact) artifact o' passed refl
              (refl, refl, refl) (refl, refl, refl) refl e
              (max_version-bound (versions_of fn.id db) number (omega (arith, passed.next)))
              (ground (arith, found, e))

        chosen :
            (r : Result (Function × ℕ) × Session)
            → found_in opened ≡ r
            → (found_in opened).1 ≡ opened
            → Uploads db o (with_db upload (db, o))
        chosen (err exc, s) h same = refused exc (ground (arith, h)) (ground (arith, h, same))
        chosen (ok (fn, number), s) h same =
            let at_start : s ≡ opened = ground (arith, h, same) in
            stored_as fn number (h ∙ ap (λ t. (ok (fn, number), t)) at_start)
              (find_uploadable-ok opened fn number (ground (arith, h)))
              (upload_artifact id version_id archive o) refl
