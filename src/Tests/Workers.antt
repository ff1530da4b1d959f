-- ===== src/Tests/Workers.antt =====
-- A snapshot of one worker with one group, from given payloads.
use sams_simlplifynext.Prelude.{some, none, false, [], ◌∷◌, ◌≡◌, refl}
use sams_simlplifynext.Errors.{ok, err, provider_error}
use sams_simlplifynext.Value.{name, Fields, boolean, text, items, mapping, nil, cons, end, field}
use sams_simlplifynext.Contracts.{Scope, CredentialType, Entitlement}
use sams_simlplifynext.Providers.Workday.{WorkdayProvider, workday_snapshot}
use sams_simlplifynext.Tests.Fixtures.{test_runtime}

abbrev worker_fields : Fields
worker_fields =
    field (name "id") (text "w1") (field (name "primaryWorkEmail") (text "alice@acme.com") end)

abbrev assignment_fields : Fields
assignment_fields =
    field (name "worker_id") (text "w1") (field (name "security_group") (text "payroll") end)

abbrev replayed : WorkdayProvider Unit
replayed = record {
  tenant = "acme";
  base_url = "";
  bearer_token = "";
  workers_payload = some (field (name "data") (items (cons (mapping worker_fields) nil)) end);
  security_groups_payload =
      some (field (name "security_groups") (items (cons (mapping assignment_fields) nil)) end);
  request = λ url d. (err provider_error, d);
}

abbrev payroll : Entitlement
payroll = record {
  identity_id = "alice@acme.com";
  system = "workday";
  resource = "workday:security-group:payroll";
  scope = Scope.read;
  granted_at = none;
  last_used_at = none;
  credential_type = CredentialType.federated;
  revocable = false;
  raw = field (name "kind") (text "security-group") (
      field (name "worker_id") (text "w1") (
        field (name "email") (text "alice@acme.com") (
          field (name "group") (text "payroll") (
            field (name "worker") (mapping worker_fields) (
              field (name "assignment") (mapping assignment_fields)
                (field (name "reversible") (boolean false) end))))));
}

replayed_snapshot : workday_snapshot test_runtime replayed tt ≡ (ok (payroll ∷ []), tt)
unfolding workday_snapshot
replayed_snapshot = refl
