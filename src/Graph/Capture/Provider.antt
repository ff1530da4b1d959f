-- ===== src/Graph/Capture/Provider.antt =====
-- The body and the manifest of a capture, and the provider that reads a capture
-- (backend/src/deadbolt/graph/capture.py).
use sams_simlplifynext.Prelude.{
  String, Bool, false, Option, none, some, List, [], ◌∷◌, length, if◌then◌else◌,
}
use sams_simlplifynext.Prelude.Text.{filled}
use sams_simlplifynext.Prelude.Int.{pos, ◌*ℤ◌, floor_div}
use sams_simlplifynext.Prelude.Order.{sorted}
use sams_simlplifynext.Errors.{Result, ok, err, value_error, runtime_error, traverse, ◌>>=◌}
use sams_simlplifynext.Exec.{Exec, pure, raise, lift}
use sams_simlplifynext.Exec
use sams_simlplifynext.Runtime.{Runtime}
use sams_simlplifynext.Value.{
  Datetime, name, Value, Values, Fields, null, number, text, items, mapping, nil, cons, end, field,
  find, get, put, truthy,
}
use sams_simlplifynext.Contracts.{Entitlement, make_entitlement}
use sams_simlplifynext.Contracts.Provider.{EntitlementProvider}
use sams_simlplifynext.Plan.Canonical.{iso_second, canonical_dumps}
use sams_simlplifynext.Providers.Fixture.{read_scope, read_credential, entitlement_le}
use sams_simlplifynext.Graph.Capture.{
  EmailPattern, capture_version, capture_record, captured_le, record_rows, whole_second,
}

-- The body, from its records
abbrev pub capture_fields : String → String → String → List Fields → Fields
unfolding record_rows
capture_fields at org provider_version records =
    field (name "schema_version") (text capture_version) (
      field (name "captured_at") (text at) (
        field (name "org") (text org) (
          field (name "provider_version") (text provider_version)
            (field (name "entitlements") (items (record_rows records)) end))))

abbrev pub manifest_of : String → String → String → List Fields → String → Fields
manifest_of at org provider_version records digest = field (name "captured_at") (text at) (
    field (name "org") (text org) (
      field (name "provider_version") (text provider_version) (
        field (name "record_count") (number (pos (length records)))
          (field (name "sha256") (text digest) end))))

module _ (rt : Runtime) (email : EmailPattern) (astimezone : Datetime → Datetime) where
  unfoldable pub capture_body :
      List Entitlement → String → Datetime → String → Result (Fields × Fields)
  unfolding traverse capture_record sorted captured_le record_rows iso_second canonical_dumps
      floor_div ◌*ℤ◌
  capture_body entitlements org captured_at provider_version = do
    let second = whole_second astimezone captured_at
    found ← traverse (capture_record rt email second) entitlements
    let records = sorted captured_le found
    at ← iso_second rt second
    let body = capture_fields at org provider_version records
    dumped ← canonical_dumps rt (mapping body)
    ok (body, manifest_of at org provider_version records (rt.sha256 dumped))

  -- `write_bytes` of a file in the directory, which `mkdir` makes, is a port.
  unfoldable pub write_capture :
      {D : Type 0}
      → Exec D (Unit {0})
      → (String → String → Exec D (Unit {0}))
      → List Entitlement
      → String
      → Datetime
      → String
      → Exec D Fields
  unfolding capture_body
  write_capture mkdir write_bytes entitlements org captured_at provider_version =
      Exec.◌>>=◌ (lift (capture_body entitlements org captured_at provider_version)) λ made.
        Exec.◌>>=◌ mkdir λ _. Exec.◌>>=◌ (lift (canonical_dumps rt (mapping made.0))) λ body.
          Exec.◌>>=◌ (write_bytes "github.json" body) λ _.
            Exec.◌>>=◌ (lift (canonical_dumps rt (mapping made.1)))
              λ manifest. Exec.◌>>=◌ (write_bytes "manifest.json" manifest) λ _. pure made.1

-- `text` and `timestamp` of `_parse`
unfoldable pub required : String → Fields → Result String
unfolding find
required k m = elim (get k m) [
  | some (text s) ↦ if filled s then ok s else err value_error
  | some v ↦ err value_error
  | none ↦ err value_error
]

unfoldable pub timestamp_field : Runtime → String → Fields → Result (Option Datetime)
unfolding find required
timestamp_field rt k m = elim (get k m) [
  | none ↦ ok none
  | some null ↦ ok none
  | some v ↦ required k m >>= λ s. rt.from_iso s >>= λ t. ok (some t)
]

unfoldable pub raw_of : Fields → Result Fields
unfolding find
raw_of m = elim (get "raw" m) [
  | none ↦ ok end
  | some (mapping raw) ↦ ok raw
  | some v ↦ err value_error
]

unfoldable pub revocable_of : Fields → Bool
unfolding find truthy
revocable_of m = elim (get "revocable" m) [ none ↦ false | some v ↦ truthy v ]

unfoldable pub parse_fields : Runtime → Fields → Result Entitlement
unfolding find raw_of required timestamp_field revocable_of read_scope read_credential put truthy
    make_entitlement
parse_fields rt m = do
  raw ← raw_of m
  identity_id ← required "identity_id" m
  system ← required "system" m
  resource ← required "resource" m
  scope_text ← required "scope" m
  scope ← read_scope scope_text
  granted_at ← timestamp_field rt "granted_at" m
  last_used_at ← timestamp_field rt "last_used_at" m
  credential_text ← required "credential_type" m
  credential_type ← read_credential credential_text
  captured_at ← required "captured_at" m
  make_entitlement (record {
    identity_id = identity_id;
    system = system;
    resource = resource;
    scope = scope;
    granted_at = granted_at;
    last_used_at = last_used_at;
    credential_type = credential_type;
    revocable = revocable_of m;
    raw = put (name "captured_at") (text captured_at) (put (name "source") (text "captured") raw);
  })

-- `_parse`
abbrev pub parse : Runtime → Value → Result Entitlement
unfolding parse_fields
parse rt (mapping m) = parse_fields rt m
parse rt v = err value_error

unfoldable pub parse_all : Runtime → Values → Result (List Entitlement)
unfolding parse_fields
parse_all rt nil = ok []
parse_all rt (cons v vs) = parse rt v >>= λ e. parse_all rt vs >>= λ es. ok (e ∷ es)

unfoldable pub body_entitlements : Runtime → Value → Result (List Entitlement)
unfolding find parse_all
body_entitlements rt (mapping body) = elim (get "entitlements" body) [
  | some (items vs) ↦ parse_all rt vs
  | some v ↦ err value_error
  | none ↦ err value_error
]
body_entitlements rt v = err value_error

-- `CapturedProvider.__init__`, on the text of the file
unfoldable pub read_capture : Runtime → String → Result (List Entitlement)
unfolding body_entitlements
read_capture rt content = rt.json_loads content >>= body_entitlements rt

-- `CapturedProvider` on its entitlements
unfoldable pub captured_provider : EntitlementProvider (List Entitlement)
unfolding sorted entitlement_le
captured_provider = record {
  system = "github";
  snapshot = λ entitlements. (ok (sorted entitlement_le entitlements), entitlements);
  revoke = λ e dry_run. raise runtime_error;
  restore = λ pre_image. raise runtime_error;
}
