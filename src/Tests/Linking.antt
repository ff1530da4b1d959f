-- ===== src/Tests/Linking.antt =====
-- An account with two identifiers, and its workers.
use sams_simlplifynext.Prelude.{none, [], ◌∷◌, ◌≡◌}
use sams_simlplifynext.Value.{Fields, name, text, field, end}
use sams_simlplifynext.Graph.Identity.{Workers, account_id_of, resolve_identity}
use sams_simlplifynext.Graph.Identity.Levels.{first_level, levels_of, resolve_identity-first_level}
use sams_simlplifynext.Tests.Fixtures.{test_runtime}

abbrev two_workers : Workers
two_workers =
    ("w1", field (name "scim_external_id") (text "s1") end)
    ∷ ("w2", field (name "primary_work_email") (text "a@x") end)
    ∷ []

abbrev alice_account : Fields
alice_account =
    field (name "login") (text "alice")
      (field (name "scim_external_id") (text "s1") (field (name "verified_email") (text "a@x") end))

resolve_identity-first_level_example :
    resolve_identity test_runtime two_workers none alice_account
    ≡ first_level
        (account_id_of test_runtime two_workers none alice_account)
        (levels_of test_runtime two_workers none alice_account)
resolve_identity-first_level_example =
    resolve_identity-first_level test_runtime two_workers none alice_account
