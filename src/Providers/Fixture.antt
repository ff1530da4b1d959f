-- ===== src/Providers/Fixture.antt =====
-- The provider in memory (backend/src/deadbolt/providers/fixtures/_base.py). A copy of a record is the
-- same value. The code casts `identity_id`, `system`, `resource` and `revocable` of a record to their
-- types without a check: of a record where one of them has another type, reading gives `untyped`, which
-- is no exception, and the model does not follow the code there.
pub mod Cast
pub mod RoundTrip
pub mod Listing
use sams_simlplifynext.Prelude.{
  ℕ, suc, String, Bool, true, false, not, ◌&&◌, Option, none, some, is_some, List, [], ◌∷◌, map,
  or_else, if◌then◌else◌,
}
use sams_simlplifynext.Prelude.Text.{str_eq, filled}
use sams_simlplifynext.Prelude.Int.{pos}
use sams_simlplifynext.Prelude.Order.{sorted, lex, by_text}
use sams_simlplifynext.Errors.{
  Result, ok, err, provider_error, value_error, key_error, untyped, ◌>>=◌, traverse,
}
use sams_simlplifynext.Exec.{Exec}
use sams_simlplifynext.Runtime.{Runtime}
use sams_simlplifynext.Value.{
  Datetime, name, Value, Fields, null, boolean, text, instant, mapping, end, field, find, get, put,
  truthy,
}
use sams_simlplifynext.Contracts.{
  Scope, CredentialType, Entitlement, ActionResult, make_entitlement, scope_value, credential_value,
}
use sams_simlplifynext.Contracts.Provider.{EntitlementProvider}
use sams_simlplifynext.Executor.Snapshots.{time_value}

-- `_Key`: the identity, the resource and the scope.
pub record EntitlementKey : Type 0 where
  pub identity_id : String
  pub resource : String
  pub scope : String

abbrev pub same_key : EntitlementKey → EntitlementKey → Bool
same_key a b =
    str_eq a.identity_id b.identity_id && (str_eq a.resource b.resource && str_eq a.scope b.scope)

-- A dictionary of records, in the order of insertion.
abbrev pub Records : Type 0
Records = List (EntitlementKey × Fields)

unfoldable pub lookup : EntitlementKey → Records → Option Fields
lookup k [] = none
lookup k ((j, r) ∷ l) = if same_key j k then some r else lookup k l

unfoldable pub store : EntitlementKey → Fields → Records → Records
store k r [] = (k, r) ∷ []
store k r ((j, q) ∷ l) =
    let rest = store k r l in if same_key j k then (j, r) ∷ l else (j, q) ∷ rest

unfoldable pub remove : EntitlementKey → Records → Records
remove k [] = []
remove k ((j, q) ∷ l) = let rest = remove k l in if same_key j k then rest else (j, q) ∷ rest

pub record FixtureState : Type 0 where
  pub state : Records
  pub pre_images : Records
  pub mutation_count : ℕ

-- `Scope(…)` and `CredentialType(…)`
unfoldable pub read_scope : String → Result Scope
read_scope s =
    if str_eq s "read"
    then ok Scope.read
    else if str_eq s "write"
    then ok Scope.write
    else if str_eq s "admin"
    then ok Scope.admin
    else if str_eq s "billing"
    then ok Scope.billing
    else if str_eq s "secrets"
    then ok Scope.secrets
    else if str_eq s "iam"
    then ok Scope.iam
    else err value_error

unfoldable pub read_credential : String → Result CredentialType
read_credential s =
    if str_eq s "federated"
    then ok CredentialType.federated
    else if str_eq s "pat"
    then ok CredentialType.pat
    else if str_eq s "oauth"
    then ok CredentialType.oauth
    else if str_eq s "api-key"
    then ok CredentialType.api_key
    else err value_error

-- `_parse_datetime`
unfoldable pub parse_datetime : Runtime → Option Value → Result (Option Datetime)
parse_datetime rt none = ok none
parse_datetime rt (some null) = ok none
parse_datetime rt (some (instant t)) = ok (some t)
parse_datetime rt (some (text s)) = do t ← rt.from_iso s; ok (some t)
parse_datetime rt (some v) = err value_error

-- `cast(str, record[k])`
abbrev pub text_field : Option Value → Result String
text_field none = err key_error
text_field (some (text s)) = ok s
text_field (some v) = err untyped

-- The text that `Scope` or `CredentialType` is called with, which takes no other value.
abbrev pub choice_field : Option Value → Result String
choice_field none = err key_error
choice_field (some (text s)) = ok s
choice_field (some v) = err value_error

-- `cast(bool, record[k])`
abbrev pub flag_field : Option Value → Result Bool
flag_field none = err key_error
flag_field (some (boolean b)) = ok b
flag_field (some v) = err untyped

-- `_mapping(record.get(k, {}), …)`
abbrev pub mapping_field : Option Value → Result Fields
mapping_field none = ok end
mapping_field (some (mapping n)) = ok n
mapping_field (some v) = err value_error

-- `_entitlement`
unfoldable pub entitlement_of : Runtime → Fields → Result Entitlement
unfolding find
entitlement_of rt m = do
  raw ← mapping_field (get "raw" m)
  identity_id ← text_field (get "identity_id" m)
  system ← text_field (get "system" m)
  resource ← text_field (get "resource" m)
  scope_text ← choice_field (get "scope" m)
  scope ← read_scope scope_text
  granted_at ← parse_datetime rt (get "granted_at" m)
  last_used_at ← parse_datetime rt (get "last_used_at" m)
  credential_text ← choice_field (get "credential_type" m)
  credential_type ← read_credential credential_text
  revocable ← flag_field (get "revocable" m)
  make_entitlement (record {
    identity_id = identity_id;
    system = system;
    resource = resource;
    scope = scope;
    granted_at = granted_at;
    last_used_at = last_used_at;
    credential_type = credential_type;
    revocable = revocable;
    raw = raw;
  })

-- `_key`
abbrev pub key_of : Entitlement → EntitlementKey
key_of e = record {
  identity_id = e.identity_id;
  resource = e.resource;
  scope = scope_value e.scope;
}

-- `_sort_key`
unfoldable pub entitlement_le : Entitlement → Entitlement → Bool
unfolding lex by_text
entitlement_le =
    lex (by_text (λ e. e.identity_id))
      (lex (by_text (λ e. e.resource)) (by_text (λ e. scope_value e.scope)))

abbrev pub result_of : String → Bool → Entitlement → Bool → Fields → String → ActionResult
result_of system succeeded e dry_run pre_image message = record {
  succeeded = succeeded;
  system = system;
  resource = e.resource;
  scope = scope_value e.scope;
  dry_run = dry_run;
  pre_image = some pre_image;
  message = message;
  provider_latency_ms = pos 0;
}

module _ (rt : Runtime) (system : String) where
  unfoldable pub snapshot : Exec FixtureState (List Entitlement)
  snapshot s =
      (◌>>=◌ (traverse (λ r. entitlement_of rt r.1) s.state) (λ l. ok (sorted entitlement_le l)), s)

  abbrev pub revoke_message : Bool → Bool → String
  revoke_message dry_run was_present =
      if dry_run
      then "dry-run: entitlement would be revoked"
      else if was_present
      then "entitlement revoked"
      else "entitlement already revoked"

  -- The state after a revocation that is let through.
  unfoldable pub revoked : EntitlementKey → Bool → FixtureState → FixtureState
  unfolding lookup remove
  revoked key dry_run s =
      if not dry_run && is_some (lookup key s.state)
      then record s { state = remove key s.state; mutation_count = suc s.mutation_count }
      else s

  -- What follows on the pre-image of the entitlement.
  unfoldable pub revoke_known : Entitlement → Bool → Option Fields → Exec FixtureState ActionResult
  unfolding lookup revoked
  revoke_known e dry_run none s = (err provider_error, s)
  revoke_known e dry_run (some pre_image) s =
      let message = revoke_message dry_run (is_some (lookup (key_of e) s.state)) in
      if e.revocable
      then (ok (result_of system true e dry_run pre_image message), revoked (key_of e) dry_run s)
      else (ok (result_of system false e dry_run pre_image "entitlement is not revocable"), s)

  unfoldable pub revoke : Entitlement → Bool → Exec FixtureState ActionResult
  unfolding lookup revoke_known
  revoke e dry_run s =
      if str_eq e.system system
      then revoke_known e dry_run (lookup (key_of e) s.pre_images) s
      else (err provider_error, s)

  abbrev pub stored : EntitlementKey → Fields → FixtureState → FixtureState
  unfolding store
  stored key pre_image s = record {
    state = store key pre_image s.state;
    pre_images = store key pre_image s.pre_images;
    mutation_count = suc s.mutation_count;
  }

  -- What follows on the entitlement of the pre-image.
  unfoldable pub restore_known : Fields → Result Entitlement → Exec FixtureState ActionResult
  unfolding stored
  restore_known pre_image (err e) s = (err e, s)
  restore_known pre_image (ok e) s =
      if str_eq e.system system
      then (
        ok (result_of system true e false pre_image "entitlement restored"),
        stored (key_of e) pre_image s,
      )
      else (err provider_error, s)

  unfoldable pub restore : Fields → Exec FixtureState ActionResult
  unfolding entitlement_of restore_known
  restore pre_image = restore_known pre_image (entitlement_of rt pre_image)

  -- The fixture as a provider.
  unfoldable pub fixture_provider : EntitlementProvider FixtureState
  unfolding snapshot revoke restore
  fixture_provider = record {
    system = system;
    snapshot = snapshot;
    revoke = revoke;
    restore = restore;
  }
