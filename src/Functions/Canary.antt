-- ===== src/Functions/Canary.antt =====
-- The canary of a function: what every operation keeps of it.
use py_faa_s.Prelude.{
  ℕ, String, ◌==◌, ltb, leb, is_some, ◌<◌, ◌≤◌, ◌≡◌, refl, true, false, ◌&&◌, Option, none, some,
  [], ◌∷◌, arith, All, opt_eq, select, All-append, All-update_to,
}
use py_faa_s.Config.{Settings}
use py_faa_s.Models.{User, Function}
use py_faa_s.Session.{Database, get_db, write, ◌>>◌, scalar_one_or_none, or_raise, save_function}
use py_faa_s.Session.Keeps.{
  Keeps, Keeps-bind, Keeps-then, Keeps-weaken, Keeps-pure, Keeps-write, Keeps-query, Keeps-lift,
  Keeps-if, Keeps-raise_if, Keeps-find, Keeps-get_db,
}
use py_faa_s.Functions.{
  owned, get_function_or_404, find_active_version, activate_version, update_canary, clear_canary,
  set_canary, change_canary, with_active, with_canary, without_canary, updated_function,
  update_function, create_function, function_not_found, version_not_found, FunctionUpdateRequest,
  FunctionCreateRequest, add_function, new_function, named, name_taken, too_many_functions,
  same_as_active, record_activation,
}

-- Without a canary the share is 0; a canary differs from the active version and has a share from 1
-- to 99.
pub data IsRouted (f : Function) : Type 0 where
  no_canary : f.canary_version_id ≡ none → f.canary_percent ≡ 0 → IsRouted f
  has_canary :
      (c : ℕ)
      → f.canary_version_id ≡ some c
      → 0 < f.canary_percent
      → f.canary_percent < 100
      → opt_eq f.active_version_id (some c) ≡ false
      → IsRouted f

abbrev pub AreRouted : Database → Type 0
AreRouted db = All IsRouted db.functions

find_function :
    (id : ℕ) (u : User)
    → Keeps AreRouted AreRouted
        (get_function_or_404 id u)
        (λ f db. AreRouted db × IsRouted f × (owned id u f ≡ true))
unfolding get_function_or_404
find_function id u =
    Keeps-find (λ db. db.functions) (owned id u) function_not_found IsRouted (λ db h. h)

find_again :
    (id : ℕ) (u : User) → Keeps AreRouted AreRouted (get_function_or_404 id u) (λ _. AreRouted)
find_again id u = Keeps-weaken _ (find_function id u) (λ f db h. h.0)

module _ {pre : Database → Type 0} (routed : (db : Database) → pre db → AreRouted db) where
  save_routed :
      (f : Function)
      → ((db : Database) → pre db → IsRouted f)
      → Keeps AreRouted pre (write (save_function f)) (λ _. AreRouted)
  save_routed f h =
      Keeps-write (save_function f)
        λ db p. All-update_to IsRouted (λ x. x.id == f.id) f db.functions (h db p) (routed db p)

  -- The version is looked up, and nothing is written.
  find_version_keeps :
      (v : ℕ) (f : Function) → Keeps AreRouted pre (find_active_version v f) (λ _. pre)
  unfolding find_active_version
  find_version_keeps v f =
      Keeps-bind (λ _. pre)
        (Keeps-query
          (λ db. select (λ v'. v'.id == v && v'.function_id == f.id && v'.is_active) db.versions)
          (λ db h. h))
        (λ rows. Keeps-lift (or_raise version_not_found (scalar_one_or_none rows)) (λ a db e h. h))

same : (db : Database) → AreRouted db → AreRouted db
same db h = h

log_activation :
    (f : Function) (u : User) (action : String) (previous activated canary : Option ℕ) (n : ℕ)
    → Keeps AreRouted AreRouted
        (record_activation f u action previous activated canary n)
        (λ _. AreRouted)
unfolding record_activation
log_activation f u action previous activated canary n = Keeps-write _ same

-- A found function is replaced by a routed one, the change is logged, and the request goes on.
replace_and_log :
    {pre : Database → Type 0} (f f' : Function) (u : User) (action : String)
    (previous activated canary : Option ℕ) (n : ℕ)
    → ((db : Database) → pre db → AreRouted db × IsRouted f')
    → Keeps AreRouted pre
        (write (save_function f') >> record_activation f u action previous activated canary n)
        (λ _. AreRouted)
replace_and_log f f' u action previous activated canary n h =
    Keeps-then AreRouted (save_routed (λ db p. (h db p).0) f' (λ db p. (h db p).1))
      (log_activation f u action previous activated canary n)

activate_keeps :
    (id v : ℕ) (u : User) → Keeps AreRouted AreRouted (activate_version id v u) (λ _. AreRouted)
unfolding activate_version
activate_keeps id v u = Keeps-bind _ (find_function id u) λ fn.
    Keeps-then _ (find_version_keeps (λ db h. h.0) v fn) (
      Keeps-then AreRouted
        (save_routed (λ db h. h.0) (with_active v fn) (λ db h. no_canary refl refl))
        (Keeps-then AreRouted (log_activation fn u "activate" fn.active_version_id (some v) none 0)
          (find_again id u)))

clear_keeps :
    {pre : Database → Type 0} (fn : Function) (u : User)
    → ((db : Database) → pre db → AreRouted db)
    → Keeps AreRouted pre (clear_canary fn u) (λ _. AreRouted)
unfolding clear_canary
clear_keeps fn u h =
    replace_and_log fn (without_canary fn) u "canary_clear" fn.active_version_id none none 0
      (λ db p. (h db p, no_canary refl refl))

shared-IsRouted :
    (fn : Function) (id percent : ℕ)
    → (percent == 0) ≡ false
    → (percent == 100) ≡ false
    → percent ≤ 100
    → (opt_eq fn.active_version_id (some id) && ltb percent 100) ≡ false
    → IsRouted (with_canary id percent fn)
shared-IsRouted fn id percent some_share part most other =
    has_canary id refl (ground arith) (ground arith) (ground arith)

set_keeps :
    {pre : Database → Type 0} (fn : Function) (id percent : ℕ) (u : User)
    → (percent == 0) ≡ false
    → percent ≤ 100
    → ((db : Database) → pre db → AreRouted db)
    → Keeps AreRouted pre (set_canary fn id percent u) (λ _. AreRouted)
unfolding set_canary
set_keeps {pre = pre} fn id percent u some_share most h =
    Keeps-then pre (find_version_keeps h id fn) (
      Keeps-then
        (λ db. pre db × ((opt_eq fn.active_version_id (some id) && ltb percent 100) ≡ false))
        (Keeps-raise_if (opt_eq fn.active_version_id (some id) && ltb percent 100) same_as_active
          (λ db other p. (p, other)))
        (Keeps-if (percent == 100) _ _
          (λ all.
            replace_and_log fn (with_active id fn) u "promote" fn.active_version_id (some id) none 0
              (λ db p. (h db p.0, no_canary refl refl)))
          (λ part.
            replace_and_log fn (with_canary id percent fn) u "canary_update" fn.active_version_id
              fn.active_version_id (some id) percent
              (λ db p. (h db p.0, shared-IsRouted fn id percent some_share part most p.1)))))

change_keeps :
    {pre : Database → Type 0} (fn : Function) (version : Option ℕ) (percent : ℕ) (u : User)
    → percent ≤ 100
    → ((db : Database) → pre db → AreRouted db)
    → Keeps AreRouted pre (change_canary fn version percent u) (λ _. AreRouted)
unfolding change_canary
change_keeps fn none percent u most h = clear_keeps fn u h
change_keeps fn (some id) percent u most h =
    Keeps-if (percent == 0) _ _ (λ _. clear_keeps fn u h)
      (λ some_share. set_keeps fn id percent u some_share most h)

update_canary_keeps :
    (id : ℕ) (version : Option ℕ) (percent : ℕ) (u : User)
    → percent ≤ 100
    → Keeps AreRouted AreRouted (update_canary id version percent u) (λ _. AreRouted)
unfolding update_canary
update_canary_keeps id version percent u most = Keeps-bind _ (find_function id u) λ fn.
    Keeps-then AreRouted (change_keeps fn version percent u most (λ db h. h.0)) (find_again id u)

updated-IsRouted :
    (body : FunctionUpdateRequest) (f : Function) → IsRouted f → IsRouted (updated_function body f)
updated-IsRouted body f (no_canary e z) = no_canary e z
updated-IsRouted body f (has_canary c e l h o) = has_canary c e l h o

update_keeps :
    (id : ℕ) (body : FunctionUpdateRequest) (u : User)
    → Keeps AreRouted AreRouted (update_function id body u) (λ _. AreRouted)
unfolding update_function
update_keeps id body u = Keeps-bind _ (find_function id u) λ fn.
    Keeps-then AreRouted
      (save_routed (λ db h. h.0) (updated_function body fn) (λ db h. updated-IsRouted body fn h.1))
      (Keeps-pure (updated_function body fn) same)

create_keeps :
    (str : ℕ → String) (settings : Settings) (id : ℕ) (body : FunctionCreateRequest) (u : User)
    → Keeps AreRouted AreRouted (create_function str settings id body u) (λ _. AreRouted)
unfolding create_function
create_keeps str settings id body u =
    Keeps-bind (λ _. AreRouted) (Keeps-query _ same)
      λ count.
        Keeps-then AreRouted
          (Keeps-raise_if (leb settings.max_functions_per_user count)
            (too_many_functions (str settings.max_functions_per_user)) (λ db _ h. h))
          (Keeps-bind (λ _. AreRouted)
            (Keeps-query (λ db. select (named u body.name) db.functions) same)
            λ rows.
              Keeps-bind (λ _. AreRouted) (Keeps-lift (scalar_one_or_none rows) (λ _ db _ h. h))
                λ existing.
                  Keeps-then AreRouted
                    (Keeps-raise_if (is_some existing) (name_taken body.name) (λ db _ h. h))
                    (Keeps-then AreRouted
                      (Keeps-write (add_function (new_function id u body)) λ db h.
                        All-append IsRouted db.functions (new_function id u body ∷ []) h
                          (no_canary refl refl, tt))
                      (Keeps-pure (new_function id u body) same)))

-- Whatever the request, and whether it succeeds or fails: creating or updating a function,
-- activating a version, and setting, promoting or clearing a canary with a share of at most a
-- hundred leave every function with a share of 0 and no canary, or with a canary that is not the
-- active version and a share from 1 to 99, if every function was so before.
pub handlers_keep_AreRouted :
    (str : ℕ → String) (settings : Settings) (id v percent : ℕ) (version : Option ℕ)
    (new : FunctionCreateRequest) (body : FunctionUpdateRequest) (u : User) (db : Database)
    → AreRouted db
    → percent ≤ 100
    → AreRouted (get_db (create_function str settings id new u) db).1
      × AreRouted (get_db (update_function id body u) db).1
      × AreRouted (get_db (activate_version id v u) db).1
      × AreRouted (get_db (update_canary id version percent u) db).1
handlers_keep_AreRouted str settings id v percent version new body u db h most = (
  Keeps-get_db db (create_keeps str settings id new u) h,
  Keeps-get_db db (update_keeps id body u) h,
  Keeps-get_db db (activate_keeps id v u) h,
  Keeps-get_db db (update_canary_keeps id version percent u most) h,
)
