-- ===== src/Tests/Tokens.antt =====
-- A request with an ID token of a subject.
use sams_simlplifynext.Prelude.{true, some, ◌≡◌, refl, if◌then◌else◌}
use sams_simlplifynext.Prelude.Text.{str_eq}
use sams_simlplifynext.Errors.{ok}
use sams_simlplifynext.Value.{name, Value, Fields, text, items, mapping, nil, cons, end, field}
use sams_simlplifynext.Auth.{AuthPorts, authentication_required, authorize_event}
use sams_simlplifynext.Auth.Verified.{IsAuthorized, authorize_event-IsAuthorized}
use sams_simlplifynext.Tests.Fixtures.{test_runtime}

abbrev kid_fields : Fields
kid_fields = field (name "kid") (text "k1") end

abbrev alice_claims : Fields
alice_claims = field (name "token_use") (text "id") (field (name "sub") (text "alice") end)

abbrev test_ports : AuthPorts Unit
test_ports = record {
  environ = λ n default. if str_eq n "DEADBOLT_AUTH_REQUIRED" then "true" else n;
  jwks =
      λ url d. (ok (mapping (field (name "keys") (items (cons (mapping kid_fields) nil)) end)), d);
  unverified_header = λ token. ok kid_fields;
  from_jwk = λ key. ok (mapping key);
  decode = λ token key issuer audience. ok alice_claims;
}

abbrev bearer_event : Value
bearer_event =
    mapping
      (field (name "headers") (mapping (field (name "authorization") (text "bearer abc") end)) end)

bearer_required : authentication_required test_runtime test_ports ≡ true
unfolding authentication_required
bearer_required = refl

bearer_authorized :
    authorize_event test_runtime test_ports bearer_event tt ≡ (ok (some "alice"), tt)
unfolding authorize_event
bearer_authorized = refl

authorize_event-IsAuthorized_example :
    IsAuthorized test_runtime test_ports bearer_event (some "alice")
authorize_event-IsAuthorized_example =
    authorize_event-IsAuthorized test_runtime test_ports bearer_event (some "alice") tt tt
      bearer_required bearer_authorized
