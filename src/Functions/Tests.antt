-- ===== src/Functions/Tests.antt =====
-- The handlers of the functions router at work.
use py_faa_s.Prelude.{ℕ, String, ◌≡◌, refl, none, some, arith}
use py_faa_s.Config.{default_settings}
use py_faa_s.Models.{null, ok}
use py_faa_s.Session.{get_db}
use py_faa_s.Session.Samples.{alice, fn, db}
use py_faa_s.Functions.{
  FunctionCreateRequest, FunctionUpdateRequest, create_function, update_function, activate_version,
  update_canary, get_function_or_404, find_active_version, change_canary, clear_canary, set_canary,
  record_activation,
}
use py_faa_s.Functions.Canary.{has_canary, AreRouted, handlers_keep_AreRouted}

abbrev hundred : ℕ → String
hundred n = "100"

abbrev request : FunctionCreateRequest
request = record { name = "thumbs"; description = none; tags = null }

abbrev update : FunctionUpdateRequest
update = record { description = some "scales images"; status = none; tags = none }

runs : Unit {0}
unfolding create_function update_function activate_version update_canary get_function_or_404
    find_active_version change_canary clear_canary set_canary record_activation get_db
runs = tt

promoted :
    (get_db (update_canary 10 (some 21) 100 alice) db).0
    ≡ ok (record fn { active_version_id = some 21; canary_version_id = none; canary_percent = 0 })
unfolding runs
promoted = refl

db-AreRouted : AreRouted db
db-AreRouted = (has_canary 21 refl (omega arith) (omega arith) refl, tt)

handlers_keep_AreRouted_example :
    AreRouted (get_db (create_function hundred default_settings 10 request alice) db).1
    × AreRouted (get_db (update_function 10 update alice) db).1
    × AreRouted (get_db (activate_version 10 21 alice) db).1
    × AreRouted (get_db (update_canary 10 (some 21) 50 alice) db).1
handlers_keep_AreRouted_example =
    handlers_keep_AreRouted hundred default_settings 10 21 50 (some 21) request update alice db
      db-AreRouted (omega arith)
