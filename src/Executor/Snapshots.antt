-- ===== src/Executor/Snapshots.antt =====
-- The executor's reading of provider snapshots (backend/src/deadbolt/executor/run.py).
pub mod Target
use sams_simlplifynext.Prelude.{
  String, Bool, true, false, not, ◌&&◌, Option, none, some, List, [], ◌∷◌, any, keep, if◌then◌else◌,
}
use sams_simlplifynext.Prelude.Text.{str_eq}
use sams_simlplifynext.Errors.{Result, ok, err, irreversible, ◌>>=◌}
use sams_simlplifynext.Exec.{Exec, pure, lift}
use sams_simlplifynext.Exec as Exec
use sams_simlplifynext.Runtime.{Runtime}
use sams_simlplifynext.Value.{
  Datetime, name, Value, Fields, null, boolean, text, instant, mapping, end, field, find, get,
}
use sams_simlplifynext.Contracts.{Entitlement, scope_value, credential_value}
use sams_simlplifynext.Contracts.Provider.{EntitlementProvider}
use sams_simlplifynext.Plan.Builder.{Action}
use sams_simlplifynext.Plan.Canonical.{canonical_dumps}

abbrev pub time_value : Option Datetime → Value
time_value none = null
time_value (some t) = instant t

-- `_wire`. A member of an enumeration is its value.
unfoldable pub wire : Entitlement → Fields
wire e = field (name "identity_id") (text e.identity_id) (
    field (name "system") (text e.system) (
      field (name "resource") (text e.resource) (
        field (name "scope") (text (scope_value e.scope)) (
          field (name "granted_at") (time_value e.granted_at) (
            field (name "last_used_at") (time_value e.last_used_at) (
              field (name "credential_type") (text (credential_value e.credential_type)) (
                field (name "revocable") (boolean e.revocable)
                  (field (name "raw") (mapping e.raw) end))))))))

-- The test of the candidates of `_target`.
abbrev pub is_candidate : Action → Entitlement → Bool
is_candidate a e =
    str_eq e.system a.system
    && (str_eq e.resource a.resource && str_eq (scope_value e.scope) a.scope)

-- Exactly one candidate, or the action cannot be undone.
unfoldable pub only : List Entitlement → Result Entitlement
only (e ∷ []) = ok e
only _ = err irreversible

-- The test of `verify_revoked`.
abbrev pub is_target : Entitlement → Entitlement → Bool
is_target t e =
    str_eq e.identity_id t.identity_id
    && (str_eq e.system t.system
        && (str_eq e.resource t.resource && str_eq (scope_value e.scope) (scope_value t.scope)))

-- `_matches_preimage`
unfoldable pub matches_preimage : Runtime → Fields → Entitlement → Result Bool
unfolding wire canonical_dumps
matches_preimage rt pre_image e = do
  live ← canonical_dumps rt (mapping (wire e))
  stored ← canonical_dumps rt (mapping pre_image)
  ok (str_eq live stored)

abbrev or_next : Result Bool → Result Bool → Result Bool
or_next (ok true) rest = ok true
or_next (ok false) rest = rest
or_next (err e) rest = err e

-- The `any` of `verify_restored`, which stops at the first match.
unfoldable pub any_match : Runtime → Fields → String → String → List Entitlement → Result Bool
any_match rt pre_image identity resource [] = ok false
any_match rt pre_image identity resource (e ∷ es) =
    let rest = any_match rt pre_image identity resource es in
    if str_eq e.identity_id identity && str_eq e.resource resource
    then or_next (matches_preimage rt pre_image e) rest
    else rest

module _ {P : Type 0} (rt : Runtime) (provider : EntitlementProvider P) where
  -- `_target`
  unfoldable pub find_target : Action → Exec P Entitlement
  unfolding only keep
  find_target action =
      Exec.◌>>=◌ provider.snapshot
        λ entitlements. lift (only (keep (is_candidate action) entitlements))

  unfoldable pub verify_revoked : Entitlement → Exec P Bool
  unfolding any
  verify_revoked target =
      Exec.◌>>=◌ provider.snapshot λ entitlements. pure (not (any (is_target target) entitlements))

  unfoldable pub verify_restored : Fields → Exec P Bool
  unfolding find any_match
  verify_restored pre_image = elim (get "identity_id" pre_image) [
    | some (text identity) ↦ elim (get "resource" pre_image) [
      | some (text resource) ↦
          Exec.◌>>=◌ provider.snapshot
            λ entitlements. lift (any_match rt pre_image identity resource entitlements)
      | _ ↦ pure false
    ]
    | _ ↦ pure false
  ]
