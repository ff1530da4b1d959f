-- ===== src/Graph/Store/Items.antt =====
-- The items of the table and the objects that are read from them (backend/src/deadbolt/graph/store.py).
use sams_simlplifynext.Prelude.{
  ℕ, suc, String, Bool, Option, none, some, List, [], ◌∷◌, any, or_else, if◌then◌else◌,
}
use sams_simlplifynext.Prelude.Text.{str_eq}
use sams_simlplifynext.Prelude.Int.{pos}
use sams_simlplifynext.Prelude.Order.{lex, by_text}
use sams_simlplifynext.Errors.{
  Exn, Result, ok, err, provider_error, value_error, type_error, key_error, traverse,
}
use sams_simlplifynext.Errors
use sams_simlplifynext.Runtime.{Runtime}
use sams_simlplifynext.Value.{
  Datetime, name, Value, Values, Fields, null, boolean, number, text, items, mapping, nil, cons,
  end, field, find, get, put, truthy, key_eq,
}
use sams_simlplifynext.Contracts.{Entitlement, make_entitlement, scope_value, credential_value}
use sams_simlplifynext.Plan.Canonical.{◌⧺◌}
use sams_simlplifynext.Graph.Identity.{value_text}
use sams_simlplifynext.Providers.Fixture.{read_scope, read_credential}
use sams_simlplifynext.Graph.Store.Codec.{timestamp, stored_timestamp}

-- `_to_entitlement`: the fields of a stored item
abbrev pub required_text : String → Fields → Result String
unfolding find
required_text k m = elim (get k m) [
  | none ↦ err key_error
  | some (text s) ↦ ok s
  | some v ↦ err value_error
]

abbrev pub required_truth : String → Fields → Result Bool
unfolding find truthy
required_truth k m = elim (get k m) [ none ↦ err key_error | some v ↦ ok (truthy v) ]

abbrev pub raw_field : Option Value → Result Fields
raw_field none = ok end
raw_field (some (mapping m)) = ok m
raw_field (some v) = err value_error

unfoldable pub to_entitlement : Runtime → Fields → Result Entitlement
unfolding find required_text required_truth read_scope read_credential make_entitlement
to_entitlement rt item = Errors.◌>>=◌ (raw_field (get "raw" item)) λ raw.
    Errors.◌>>=◌ (required_text "identity_id" item) λ identity_id.
      Errors.◌>>=◌ (required_text "system" item) λ system.
        Errors.◌>>=◌ (required_text "resource" item) λ resource.
          Errors.◌>>=◌ (required_text "scope" item) λ scope_text.
            Errors.◌>>=◌ (read_scope scope_text) λ scope.
              Errors.◌>>=◌ (stored_timestamp rt (get "granted_at" item)) λ granted_at.
                Errors.◌>>=◌ (stored_timestamp rt (get "last_used_at" item)) λ last_used_at.
                  Errors.◌>>=◌ (required_text "credential_type" item) λ credential_text.
                    Errors.◌>>=◌ (read_credential credential_text) λ credential_type.
                      Errors.◌>>=◌ (required_truth "revocable" item) λ revocable.
                        make_entitlement (record {
                          identity_id = identity_id;
                          system = system;
                          resource = resource;
                          scope = scope;
                          granted_at = granted_at;
                          last_used_at = last_used_at;
                          credential_type = credential_type;
                          revocable = revocable;
                          raw = raw;
                        })

-- The order of `put_entitlements`
unfoldable pub stored_le : Entitlement → Entitlement → Bool
unfolding lex by_text
stored_le = lex (by_text (λ e. e.identity_id)) (
    lex (by_text (λ e. e.system))
      (lex (by_text (λ e. e.resource)) (by_text (λ e. scope_value e.scope))))

-- The order of `get_identity_entitlements`
unfoldable pub listed_le : Entitlement → Entitlement → Bool
unfolding lex by_text
listed_le =
    lex (by_text (λ e. e.system))
      (lex (by_text (λ e. e.resource)) (by_text (λ e. scope_value e.scope)))

-- A sorted set of texts
unfoldable pub distinct : List String → List String
unfolding any
distinct [] = []
distinct (s ∷ ss) = let rest = distinct ss in if any (str_eq s) rest then rest else s ∷ rest

-- `result.pop(key, None)`
unfoldable pub pop : String → Fields → Fields
pop key end = end
pop key (field k v m) = let rest = pop key m in if key_eq k (name key) then rest else field k v rest

-- `values.update({"PK": pk, "SK": sk})`
abbrev pub put_keys : String → String → Fields → Fields
unfolding put
put_keys pk sk values = put (name "SK") (text sk) (put (name "PK") (text pk) values)

-- The actions of `put_plan`: a list, or the value `actions` of a mapping. A mapping is iterated by its
-- keys, none of which is an object.
abbrev pub plan_list : Value → Result Values
plan_list (items vs) = ok vs
plan_list (mapping end) = ok nil
plan_list v = err value_error

unfoldable pub plan_actions : Value → Result Values
unfolding find
plan_actions (mapping m) = plan_list (or_else (get "actions" m) (items nil))
plan_actions v = plan_list v

unfoldable pub plan_items : Runtime → String → ℕ → Values → Result (List Fields)
unfolding find put
plan_items rt plan_id index nil = ok []
plan_items rt plan_id index (cons (mapping m) vs) =
    let sequence = value_text rt (or_else (get "seq" m) (number (pos index))) in
    Errors.◌>>=◌ (plan_items rt plan_id (suc index) vs) λ rest. ok (
      put (name "plan_id") (text plan_id) (put_keys ("PLAN#" ⧺ plan_id) ("ACT#" ⧺ sequence) m)
      ∷ rest)
plan_items rt plan_id index (cons v vs) = err value_error

abbrev pub stored_time : Runtime → (Datetime → Datetime) → Option Datetime → Value
unfolding timestamp
stored_time rt astimezone none = null
stored_time rt astimezone (some t) = text (timestamp rt astimezone t)

-- `_entitlement_item`: no other value than a time can be missing.
unfoldable pub entitlement_item : Runtime → (Datetime → Datetime) → Entitlement → Fields
unfolding timestamp
entitlement_item rt astimezone e =
    let scope = scope_value e.scope in
    field (name "PK") (text ("ID#" ⧺ e.identity_id)) (
      field (name "SK") (text ("ENT#" ⧺ (e.system ⧺ ("#" ⧺ (e.resource ⧺ ("#" ⧺ scope)))))) (
        field (name "GSI1PK") (text ("RES#" ⧺ (e.system ⧺ ("#" ⧺ e.resource)))) (
          field (name "GSI1SK") (text ("ID#" ⧺ e.identity_id)) (
            field (name "identity_id") (text e.identity_id) (
              field (name "system") (text e.system) (
                field (name "resource") (text e.resource) (
                  field (name "scope") (text scope) (
                    field (name "granted_at") (stored_time rt astimezone e.granted_at) (
                      field (name "last_used_at") (stored_time rt astimezone e.last_used_at) (
                        field (name "credential_type") (text (credential_value e.credential_type)) (
                          field (name "revocable") (boolean e.revocable)
                            (field (name "raw") (mapping e.raw) end))))))))))))
