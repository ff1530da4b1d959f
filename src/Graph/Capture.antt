-- ===== src/Graph/Capture.antt =====
-- The redacted records of a capture
-- (backend/src/deadbolt/graph/capture.py). The pattern of an email address is a parameter.
pub mod Provider
pub mod Reading
pub mod Body
use sams_simlplifynext.Prelude.{
  ℕ, String, Bool, true, false, not, ◌&&◌, Option, none, some, List, [], ◌∷◌, length, or_else,
  if◌then◌else◌,
}
use sams_simlplifynext.Prelude.Text.{filled, text_in}
use sams_simlplifynext.Prelude.Int.{pos, ◌*ℤ◌, floor_div}
use sams_simlplifynext.Prelude.Order.{sorted, lex, by_text}
use sams_simlplifynext.Errors.{Result, ok, err, value_error, runtime_error, traverse, ◌>>=◌, ◌>>◌}
use sams_simlplifynext.Exec.{Exec, pure, raise, lift}
use sams_simlplifynext.Exec
use sams_simlplifynext.Runtime.{Runtime}
use sams_simlplifynext.Value.{
  Datetime, Key, name, pair, Value, Values, Fields, null, real, boolean, number, text, instant,
  items, mapping, instance_of, nil, cons, end, field, find, get, put, truthy,
}
use sams_simlplifynext.Contracts.{
  Entitlement, ActionResult, make_entitlement, scope_value, credential_value,
}
use sams_simlplifynext.Contracts.Provider.{EntitlementProvider}
use sams_simlplifynext.Plan.Canonical.{◌⧺◌, iso_second, canonical_dumps}
use sams_simlplifynext.Audit.Safe.{key_text}
use sams_simlplifynext.Providers.Fixture.{read_scope, read_credential, entitlement_le}

-- `_EMAIL_RE.fullmatch` and `_EMAIL_RE.sub`
pub record EmailPattern : Type 0 where
  pub fullmatch : String → Bool
  pub sub : (String → String) → String → String

abbrev pub capture_version : String
capture_version = "github-capture-v1"

abbrev pub secret_keys : List String
secret_keys =
    "authorization" ∷ "headers" ∷ "token" ∷ "access_token" ∷ "avatar_url" ∷ "avatarurl" ∷ "user"
    ∷ []

-- `sorted(_ALLOWED_RAW_KEYS)`
abbrev pub allowed_keys : List String
allowed_keys =
    "kind" ∷ "login" ∷ "owner" ∷ "permission" ∷ "permissions" ∷ "repo" ∷ "scopes" ∷ "token_scopes"
    ∷ []

unfoldable pub is_secret : Runtime → String → Bool
unfolding text_in
is_secret rt key = text_in (rt.lower key) secret_keys

abbrev pub is_secret_key : Runtime → Key → Bool
unfolding is_secret
is_secret_key rt (name s) = is_secret rt s
is_secret_key rt (pair a b) = false

-- `_pseudonym`
unfoldable pub pseudonym : Runtime → String → String
pseudonym rt s = "email_" ⧺ rt.prefix 16 (rt.sha256 (rt.lower s))

-- `_safe_string`
unfoldable pub safe_string : Runtime → EmailPattern → String → String
unfolding pseudonym
safe_string rt email s = if email.fullmatch s then pseudonym rt s else email.sub (pseudonym rt) s

-- `_safe_value`
unfoldable mutual
  unfolding safe_string is_secret put

  pub captured_value : Runtime → EmailPattern → Value → Value
  captured_value rt email (text s) = text (safe_string rt email s)
  captured_value rt email (mapping m) = mapping (captured_fields rt email m end)
  captured_value rt email (items vs) = items (captured_items rt email vs)
  captured_value rt email (number n) = number n
  captured_value rt email (boolean b) = boolean b
  captured_value rt email null = null
  captured_value rt email (real r) = text r
  captured_value rt email (instant t) = text (rt.repr (instant t))
  captured_value rt email (instance_of c m) = text (rt.repr (instance_of c m))

  pub captured_items : Runtime → EmailPattern → Values → Values
  captured_items rt email nil = nil
  captured_items rt email (cons v vs) =
      cons (captured_value rt email v) (captured_items rt email vs)

  pub captured_fields : Runtime → EmailPattern → Fields → Fields → Fields
  captured_fields rt email end result = result
  captured_fields rt email (field k v m) result = captured_fields rt email m (
      if is_secret_key rt k
      then result
      else put (name (key_text rt k)) (captured_value rt email v) result)

-- `_safe_raw`: the keys that are allowed, in order
unfoldable pub safe_raw_from : Runtime → EmailPattern → Fields → List String → Fields
unfolding find is_secret captured_value
safe_raw_from rt email raw [] = end
safe_raw_from rt email raw (key ∷ keys) =
    let rest = safe_raw_from rt email raw keys in
    elim (get key raw) [
      | none ↦ rest
      | some v ↦
          if is_secret rt key then rest else field (name key) (captured_value rt email v) rest
    ]

abbrev pub safe_raw : Runtime → EmailPattern → Fields → Fields
unfolding safe_raw_from
safe_raw rt email raw = safe_raw_from rt email raw allowed_keys

abbrev pub optional_second : Runtime → Option Datetime → Result Value
unfolding iso_second
optional_second rt none = ok null
optional_second rt (some t) = iso_second rt t >>= λ s. ok (text s)

-- `_record`
unfoldable pub capture_record : Runtime → EmailPattern → Datetime → Entitlement → Result Fields
unfolding safe_string safe_raw_from iso_second
capture_record rt email captured_at e = do
  granted_at ← optional_second rt e.granted_at
  last_used_at ← optional_second rt e.last_used_at
  at ← iso_second rt captured_at
  ok (
      field (name "identity_id") (text (safe_string rt email e.identity_id)) (
        field (name "system") (text e.system) (
          field (name "resource") (text e.resource) (
            field (name "scope") (text (scope_value e.scope)) (
              field (name "granted_at") granted_at (
                field (name "last_used_at") last_used_at (
                  field (name "credential_type") (text (credential_value e.credential_type)) (
                    field (name "revocable") (boolean e.revocable) (
                      field (name "raw") (mapping (safe_raw rt email e.raw)) (
                        field (name "source") (text "captured")
                          (field (name "captured_at") (text at) end)))))))))))

-- The text of a field of a record, which always has it
abbrev pub record_text : String → Fields → String
unfolding find
record_text k m = elim (get k m) [ none ↦ "" | some (text s) ↦ s | some v ↦ "" ]

unfoldable pub captured_le : Fields → Fields → Bool
unfolding lex by_text
captured_le =
    lex (by_text (record_text "identity_id"))
      (lex (by_text (record_text "resource")) (by_text (record_text "scope")))

unfoldable pub record_rows : List Fields → Values
record_rows [] = nil
record_rows (m ∷ ms) = cons (mapping m) (record_rows ms)

-- `captured_at.astimezone(UTC).replace(microsecond=0)`
abbrev pub whole_second : (Datetime → Datetime) → Datetime → Datetime
unfolding floor_div ◌*ℤ◌
whole_second astimezone t = record {
  aware = true;
  micros = floor_div (astimezone t).micros 1000000 *ℤ pos 1000000;
}
