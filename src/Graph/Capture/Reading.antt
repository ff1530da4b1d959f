-- ===== src/Graph/Capture/Reading.antt =====
-- What is read of a capture that was made (backend/src/deadbolt/graph/capture.py).
use sams_simlplifynext.Prelude.{
  String, true, Option, none, some, List, [], ◌∷◌, All, map, ◌≡◌, refl,
}
use sams_simlplifynext.Prelude.Text.{filled}
use sams_simlplifynext.Prelude.Int.{ℤ, pos, ◌*ℤ◌, floor_div}
use sams_simlplifynext.Errors.{ok, traverse}
use sams_simlplifynext.Runtime.{Runtime}
use sams_simlplifynext.Value.{
  Datetime, name, Value, Fields, null, boolean, text, mapping, end, field, get, put,
}
use sams_simlplifynext.Contracts.{
  Scope, CredentialType, Entitlement, require_aware, scope_value, credential_value,
}
use sams_simlplifynext.Plan.Canonical.{iso_second}
use sams_simlplifynext.Providers.Fixture.{read_scope, read_credential}
use sams_simlplifynext.Graph.Capture.{
  EmailPattern, safe_string, safe_raw, optional_second, capture_record, record_rows, whole_second,
}
use sams_simlplifynext.Graph.Capture.Provider.{timestamp_field, required, parse_fields, parse_all}

read_scope-scope_value : (s : Scope) → read_scope (scope_value s) ≡ ok s
unfolding read_scope
read_scope-scope_value Scope.read = refl
read_scope-scope_value Scope.write = refl
read_scope-scope_value Scope.admin = refl
read_scope-scope_value Scope.billing = refl
read_scope-scope_value Scope.secrets = refl
read_scope-scope_value Scope.iam = refl

filled-scope_value : (s : Scope) → filled (scope_value s) ≡ true
filled-scope_value Scope.read = refl
filled-scope_value Scope.write = refl
filled-scope_value Scope.admin = refl
filled-scope_value Scope.billing = refl
filled-scope_value Scope.secrets = refl
filled-scope_value Scope.iam = refl

read_credential-credential_value :
    (c : CredentialType) → read_credential (credential_value c) ≡ ok c
unfolding read_credential
read_credential-credential_value CredentialType.federated = refl
read_credential-credential_value CredentialType.pat = refl
read_credential-credential_value CredentialType.oauth = refl
read_credential-credential_value CredentialType.api_key = refl

filled-credential_value : (c : CredentialType) → filled (credential_value c) ≡ true
filled-credential_value CredentialType.federated = refl
filled-credential_value CredentialType.pat = refl
filled-credential_value CredentialType.oauth = refl
filled-credential_value CredentialType.api_key = refl

-- `fromisoformat` reads what `isoformat` writes of a whole second, which `IsTime` says a datetime can
-- hold.
pub record IsIso (rt : Runtime) (IsTime : ℤ → Type 0) : Type 0 where
  pub reads :
      (n : ℤ)
      → IsTime n
      → rt.from_iso (rt.iso_text n) ≡ ok (record { aware = true; micros = n *ℤ pos 1000000 })
  pub writes : (n : ℤ) → filled (rt.iso_text n) ≡ true

-- An instant or none, to the second
abbrev pub to_second : Option Datetime → Option Datetime
unfolding floor_div ◌*ℤ◌
to_second none = none
to_second (some t) = some (whole_second (λ t. t) t)

-- An instant with a zone, or none
abbrev pub IsAware : (ℤ → Type 0) → Option Datetime → Type 0
unfolding floor_div
IsAware IsTime none = Unit
IsAware IsTime (some t) = (t.aware ≡ true) × IsTime (floor_div t.micros 1000000)

module _ (rt : Runtime) (email : EmailPattern) (IsTime : ℤ → Type 0) (iso : IsIso rt IsTime) where
  abbrev pub time_text : Option Datetime → Value
  unfolding floor_div
  time_text none = null
  time_text (some t) = text (rt.iso_text (floor_div t.micros 1000000))

  optional_second-text :
      (t : Option Datetime) → IsAware IsTime t → optional_second rt t ≡ ok (time_text t)
  unfolding iso_second
  optional_second-text none a = refl
  optional_second-text (some t) a = rw a.0 refl

  timestamp_field-text :
      (k : String) (m : Fields) (t : Option Datetime)
      → IsAware IsTime t
      → get k m ≡ some (time_text t)
      → timestamp_field rt k m ≡ ok (to_second t)
  unfolding timestamp_field to_second required
  timestamp_field-text k m none a h = rw (timestamp_field, h) refl
  timestamp_field-text k m (some t) a h =
      let n = floor_div t.micros 1000000 in
      rw (timestamp_field, h, required, h, iso.writes n, iso.reads n a.1) refl

  -- The record of an entitlement, and the entitlement that is read of it
  abbrev pub fields_of : String → Entitlement → Fields
  fields_of at e = field (name "identity_id") (text (safe_string rt email e.identity_id)) (
      field (name "system") (text e.system) (
        field (name "resource") (text e.resource) (
          field (name "scope") (text (scope_value e.scope)) (
            field (name "granted_at") (time_text e.granted_at) (
              field (name "last_used_at") (time_text e.last_used_at) (
                field (name "credential_type") (text (credential_value e.credential_type)) (
                  field (name "revocable") (boolean e.revocable) (
                    field (name "raw") (mapping (safe_raw rt email e.raw)) (
                      field (name "source") (text "captured")
                        (field (name "captured_at") (text at) end))))))))))

  unfoldable pub captured : String → Entitlement → Entitlement
  unfolding put
  captured at e = record e {
    identity_id = safe_string rt email e.identity_id;
    granted_at = to_second e.granted_at;
    last_used_at = to_second e.last_used_at;
    raw =
        put (name "captured_at") (text at)
          (put (name "source") (text "captured") (safe_raw rt email e.raw));
  }

  -- What the contract and the reader ask of an entitlement
  pub record IsCapturable (e : Entitlement) : Type 0 where
    pub granted : IsAware IsTime e.granted_at
    pub used : IsAware IsTime e.last_used_at
    pub identity_id_filled : filled (safe_string rt email e.identity_id) ≡ true
    pub system_filled : filled e.system ≡ true
    pub resource_filled : filled e.resource ≡ true

  capture_record-fields_of :
      (n : ℤ) (second : Datetime) (e : Entitlement)
      → iso_second rt second ≡ ok (rt.iso_text n)
      → IsCapturable e
      → capture_record rt email second e ≡ ok (fields_of (rt.iso_text n) e)
  unfolding capture_record
  capture_record-fields_of n second e h c =
      rw
        (optional_second-text e.granted_at c.granted, optional_second-text e.last_used_at c.used, h)
        refl

  require_aware-to_second : (t : Option Datetime) → require_aware (to_second t) ≡ ok tt
  unfolding require_aware to_second
  require_aware-to_second none = refl
  require_aware-to_second (some t) = refl

  parse_fields-fields_of :
      (n : ℤ) (e : Entitlement)
      → IsCapturable e
      → parse_fields rt (fields_of (rt.iso_text n) e) ≡ ok (captured (rt.iso_text n) e)
  unfolding parse_fields captured
  parse_fields-fields_of n e c =
      let m = fields_of (rt.iso_text n) e in
      rw
        (
          c.identity_id_filled,
          c.system_filled,
          c.resource_filled,
          filled-scope_value e.scope,
          read_scope-scope_value e.scope,
          timestamp_field-text "granted_at" m e.granted_at c.granted refl,
          timestamp_field-text "last_used_at" m e.last_used_at c.used refl,
          filled-credential_value e.credential_type,
          read_credential-credential_value e.credential_type,
          iso.writes n,
          require_aware-to_second e.granted_at,
          require_aware-to_second e.last_used_at,
        )
        refl

  pub capture_each :
      (n : ℤ) (second : Datetime) (es : List Entitlement)
      → iso_second rt second ≡ ok (rt.iso_text n)
      → All IsCapturable es
      → traverse (capture_record rt email second) es ≡ ok (map (fields_of (rt.iso_text n)) es)
  unfolding traverse
  capture_each n second [] h a = refl
  capture_each n second (e ∷ es) h a =
      rw (capture_record-fields_of n second e h a.0, capture_each n second es h a.1) refl

  pub parse_all-record_rows :
      (n : ℤ) (es : List Entitlement)
      → All IsCapturable es
      → parse_all rt (record_rows (map (fields_of (rt.iso_text n)) es))
        ≡ ok (map (captured (rt.iso_text n)) es)
  unfolding parse_all record_rows
  parse_all-record_rows n [] a = refl
  parse_all-record_rows n (e ∷ es) a =
      rw (parse_fields-fields_of n e a.0, parse_all-record_rows n es a.1) refl
