-- ===== src/Sandbox/Runner/Environ.antt =====
-- Which variables are left when the runner has removed the credentials.
use py_faa_s.Prelude.{String, ◌≡◌, refl, Bool, false, ◌||◌, none, is_some, [], ◌∷◌, arith}
use py_faa_s.Sandbox.Runner.Platform.{Environ, getenv, pop, Platform}
use py_faa_s.Sandbox.Runner.Main.{without_secrets}

abbrev pub has_secret : Environ → Bool
has_secret environ =
    is_some (getenv "MINIO_ACCESS_KEY" environ)
    || is_some (getenv "MINIO_SECRET_KEY" environ)
    || is_some (getenv "MINIO_ENDPOINT" environ)

getenv-pop_self : (name : String) (environ : Environ) → getenv name (pop name environ) ≡ none
unfolding pop
getenv-pop_self name [] = refl
getenv-pop_self name ((k, v) ∷ rest) = ground (arith, getenv-pop_self name rest)

getenv-pop-none :
    (name other : String) (environ : Environ)
    → getenv name environ ≡ none
    → getenv name (pop other environ) ≡ none
unfolding pop
getenv-pop-none name other [] h = h
getenv-pop-none name other ((k, v) ∷ rest) h = ground (arith, getenv-pop-none name other rest)

pub without_secrets-has_secret :
    (platform : Platform) (environ : Environ)
    → has_secret (without_secrets platform environ) ≡ false
without_secrets-has_secret platform environ =
    rw
      (
        getenv-pop-none "MINIO_ACCESS_KEY" "MINIO_ENDPOINT" _ (
            getenv-pop-none "MINIO_ACCESS_KEY" "MINIO_SECRET_KEY" _
              (getenv-pop_self "MINIO_ACCESS_KEY" environ)),
        getenv-pop-none "MINIO_SECRET_KEY" "MINIO_ENDPOINT" _
            (getenv-pop_self "MINIO_SECRET_KEY" (pop "MINIO_ACCESS_KEY" environ)),
        getenv-pop_self "MINIO_ENDPOINT" (pop "MINIO_SECRET_KEY" (pop "MINIO_ACCESS_KEY" environ)),
      )
      refl
