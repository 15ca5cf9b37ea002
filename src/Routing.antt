-- ===== src/Routing.antt =====
-- shared/execution/version_routing.py. The draw of `secrets.randbelow(100)` is an argument.
pub mod Share
mod Tests
use py_faa_s.Prelude.{
  ℕ, ◌==◌, ltb, leb, ◌&&◌, ◌||◌, Bool, Option, none, some, is_some, List, if◌then◌else◌, select,
}
use py_faa_s.Models.{Function, FunctionVersion, Result, ok}
use py_faa_s.Session.{Action, Session, Database, pure, lift, ◌>>=◌, query, scalar_one_or_none}

-- The version that is looked up.
unfoldable pub route : Function → Option ℕ → ℕ → Option ℕ
route fn (some explicit) draw = some explicit
route fn none draw =
    if is_some fn.canary_version_id && ltb 0 fn.canary_percent
    then (if leb 100 fn.canary_percent || ltb draw fn.canary_percent
        then fn.canary_version_id
        else fn.active_version_id)
    else fn.active_version_id

abbrev pub usable_versions : ℕ → Function → Database → List FunctionVersion
usable_versions id fn db =
    select (λ v. v.id == id && v.function_id == fn.id && v.is_active) db.versions

unfoldable pub choose_routed : Function → Option ℕ → Action Session (Option FunctionVersion)
choose_routed fn none = pure none
choose_routed fn (some id) = do rows ← query (usable_versions id fn); lift (scalar_one_or_none rows)

unfoldable pub choose_execution_version :
    Function → Option ℕ → ℕ → Action Session (Option FunctionVersion)
unfolding route choose_routed
choose_execution_version fn explicit draw = choose_routed fn (route fn explicit draw)
