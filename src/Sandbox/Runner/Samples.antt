-- ===== src/Sandbox/Runner/Samples.antt =====
-- A platform and a container for the tests, whose handler prints a line that it does not end.
use py_faa_s.Prelude.{true, false, some, [], ◌∷◌}
use py_faa_s.Models.{Json, null, ok}
use py_faa_s.Sandbox.Runner.Platform.{World, Platform, ordinary}

abbrev pub machine : Platform
machine = record {
  F = Unit {0};
  H = Unit {0};
  V = Json;
  json = record { dumps = λ v. "null"; loads = λ t. some null };
  int = λ t. some 300;
  str_int = λ n. "300";
  show = λ e. "error";
  traceback = λ e. "";
  lower = λ t. t;
  seconds = λ n. "0.000";
  kind = λ e. ordinary;
  now = λ w. 0;
  time_text = λ w. "0";
  mkdir = λ d w. (ok tt, w);
  mkdir_parent = λ d w. (ok tt, w);
  rmtree = λ d w. (ok tt, w);
  exists = λ f w. true;
  write_text = λ f t w. (ok tt, w);
  sys_path_insert = λ d w. w;
  fget_object = λ a b c d e f g w. (ok tt, w);
  namelist = λ a w. (ok [], w);
  extract = λ a b c w. (ok tt, w);
  pip_install = λ a b n w. (ok (0, ""), w);
  import_module = λ a b w. (ok (λ name. some tt), w);
  signature = λ h. ok (0, false);
  call = λ h arguments w. (ok null, record w { pending = "partial" });
  is_dict = λ v. false;
  to_json = λ v. ok v;
}

abbrev pub container : World (Unit {0})
container = record {
  environ =
      ("MINIO_SECRET_KEY", "secret")
      ∷ ("SOPM_SOURCE_CODE", "def handler(): ...")
      ∷ ("SOPM_ENTRYPOINT", "handler.handler")
      ∷ [];
  pending = "";
  out = "";
  files = tt;
}
