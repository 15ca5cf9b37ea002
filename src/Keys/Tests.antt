-- ===== src/Keys/Tests.antt =====
-- Keys 80 and 81 of user 1, under a hash that adds a letter.
use py_faa_s.Prelude.{String, str_append, ◌≡◌, ◌≢◌, refl, some}
use py_faa_s.Models.{ok}
use py_faa_s.Session.{Database, get_db}
use py_faa_s.Session.Samples.{alice, db}
use py_faa_s.Keys.{
  ApiKeyPrincipal, add_key, new_key, used, create_key, revoke_key, find_principal,
  get_api_key_principal,
}
use py_faa_s.Keys.Revoked.{no_call, revoked_key_lem}
use py_faa_s.Keys.Created.{create_key-get_api_key_principal}

abbrev hash : String → String
hash value = str_append "h" value

abbrev two_keys : Database
two_keys = add_key (new_key hash 81 "b" "two" alice) (add_key (new_key hash 80 "a" "one" alice) db)

abbrev after : Database
after = (get_db (revoke_key 5 80 alice) two_keys).1

abbrev second : ApiKeyPrincipal
second = record { key = used 6 (new_key hash 81 "b" "two" alice); user = alice }

runs : Unit {0}
unfolding get_db revoke_key get_api_key_principal find_principal create_key
runs = tt

revoked : (get_db (revoke_key 5 80 alice) two_keys).0 ≡ ok tt
unfolding runs
revoked = refl

second_works : (get_db (get_api_key_principal hash 6 (some "sopm_two")) after).0 ≡ ok second
unfolding runs
second_works = refl

revoked_key_lem_example : second.key.id ≢ 80
revoked_key_lem_example =
    revoked_key_lem hash 80 5 6 alice (some "sopm_two") two_keys after second revoked no_call
      second_works

create_key-get_api_key_principal_example :
    ((get_db (create_key hash 80 "a" "one" alice) db).0
      ≡ ok (new_key hash 80 "a" "one" alice, str_append "sopm_" "one"))
    × ((get_db
          (get_api_key_principal hash 6 (some (str_append "sopm_" "one")))
          (get_db (create_key hash 80 "a" "one" alice) db).1).0
        ≡ ok (record { key = used 6 (new_key hash 80 "a" "one" alice); user = alice }))
create_key-get_api_key_principal_example =
    create_key-get_api_key_principal hash 80 6 "a" "one" alice db refl refl
