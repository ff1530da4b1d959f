-- ===== src/Providers/Workday.antt =====
-- The Workday connector, which only reads (backend/src/deadbolt/providers/workday.py). The requests over
-- HTTP are a port.
use sams_simlplifynext.Prelude.{
  ℕ, String, Bool, false, leb, ◌&&◌, Option, none, some, List, [], ◌∷◌, or_else, if◌then◌else◌,
}
use sams_simlplifynext.Prelude.Text.{filled, text_in}
use sams_simlplifynext.Prelude.Int.{pos}
use sams_simlplifynext.Prelude.Order.{sorted}
use sams_simlplifynext.Errors.{Result, ok, err, provider_error, value_error, ◌>>=◌}
use sams_simlplifynext.Exec.{Exec, pure, raise, lift}
use sams_simlplifynext.Exec
use sams_simlplifynext.Runtime.{Runtime}
use sams_simlplifynext.Value.{
  Datetime, name, Value, Values, Fields, boolean, text, items, mapping, nil, cons, end, field, find,
  get, put,
}
use sams_simlplifynext.Contracts.{
  Scope, CredentialType, Entitlement, ActionResult, make_entitlement, scope_value,
}
use sams_simlplifynext.Contracts.Provider.{EntitlementProvider}
use sams_simlplifynext.Plan.Canonical.{◌⧺◌}
use sams_simlplifynext.Providers.Fixture.{entitlement_le}

-- The attributes of a `WorkdayProvider`. `request` gives the status of a GET and the JSON of its body.
pub record WorkdayProvider (D : Type 0) : Type 0 where
  pub tenant : String
  pub base_url : String
  pub bearer_token : String
  pub workers_payload : Option Fields
  pub security_groups_payload : Option Fields
  pub request : String → Exec D (ℕ × Result Value)

-- `_text(value, default)`
abbrev pub text_or_given : String → Option Value → String
text_or_given default (some (text s)) = s
text_or_given default _ = default

-- `_text(m.get(k), _text(m.get(j)))`
abbrev pub either_text : String → String → Fields → String
unfolding find
either_text k j m = text_or_given (text_or_given "" (get j m)) (get k m)

-- `_time`
abbrev pub parsed_time : Result Datetime → Result (Option Datetime)
parsed_time (err value_error) = ok none
parsed_time (err e) = err e
parsed_time (ok t) = if t.aware then ok (some t) else ok none

unfoldable pub time_of : Runtime → Option Value → Result (Option Datetime)
time_of rt (some (text s)) = parsed_time (rt.from_iso s)
time_of rt _ = ok none

-- `_mapping`
abbrev pub object_payload : Value → Result Fields
object_payload (mapping m) = ok m
object_payload _ = err provider_error

-- `payload.get(k, payload.get(j, ()))`, which must be a list
abbrev pub listed : String → String → Fields → Result Values
unfolding find
listed k j payload = elim (or_else (get k payload) (or_else (get j payload) (mapping end))) [
  | items vs ↦ ok vs
  | v ↦ err provider_error
]

-- The members that are mappings
unfoldable pub mappings : Values → List Fields
mappings nil = []
mappings (cons (mapping m) vs) = m ∷ mappings vs
mappings (cons v vs) = mappings vs

unfoldable pub email_of : Runtime → Fields → String
unfolding find
email_of rt worker = rt.lower (either_text "primaryWorkEmail" "primary_work_email" worker)

-- `worker_by_id`
unfoldable pub workers_by_id : Runtime → List Fields → Fields → Fields
unfolding find email_of put
workers_by_id rt [] known = known
workers_by_id rt (worker ∷ workers) known =
    let worker_id = either_text "id" "worker_id" worker in
    workers_by_id rt workers (
      if filled worker_id && filled (email_of rt worker)
      then put (name worker_id) (mapping worker) known
      else known)

abbrev pub worker_of : Option Value → Fields
worker_of (some (mapping m)) = m
worker_of _ = end

abbrev pub hire_date : Fields → Option Value
unfolding find
hire_date worker = elim (get "hireDate" worker) [ none ↦ get "hire_date" worker | some v ↦ some v ]

unfoldable pub group_entitlement :
    Runtime → String → String → String → Fields → Fields → Result Entitlement
unfolding find time_of make_entitlement
group_entitlement rt worker_id email group worker assignment =
    time_of rt (hire_date worker) >>= λ granted_at. make_entitlement (record {
      identity_id = email;
      system = "workday";
      resource = "workday:security-group:" ⧺ group;
      scope = Scope.read;
      granted_at = granted_at;
      last_used_at = none;
      credential_type = CredentialType.federated;
      revocable = false;
      raw = field (name "kind") (text "security-group") (
          field (name "worker_id") (text worker_id) (
            field (name "email") (text email) (
              field (name "group") (text group) (
                field (name "worker") (mapping worker) (
                  field (name "assignment") (mapping assignment)
                    (field (name "reversible") (boolean false) end))))));
    })

-- The loop over the assignments
unfoldable pub group_entitlements : Runtime → Fields → List Fields → Result (List Entitlement)
unfolding find email_of group_entitlement
group_entitlements rt known [] = ok []
group_entitlements rt known (assignment ∷ rest) =
    let worker_id = either_text "worker_id" "Worker_Reference_ID" assignment in
    let worker = worker_of (get worker_id known) in
    let email = email_of rt worker in
    let group = either_text "security_group" "Security_Group_Name" assignment in
    let others = group_entitlements rt known rest in
    if filled email && filled group
    then (group_entitlement rt worker_id email group worker assignment >>= λ e.
        others >>= λ es. ok (e ∷ es))
    else others

-- `normalize_event`
unfoldable pub normalize_event : Fields → Result Fields
unfolding find text_in
normalize_event payload =
    let event_type = either_text "event_type" "eventType" payload in
    if text_in event_type ("hire" ∷ "job_change" ∷ "termination" ∷ [])
    then ok (
        field (name "worker_id") (text (either_text "worker_id" "workerId" payload)) (
          field (name "effective_date")
            (text (either_text "effective_date" "effectiveDate" payload))
            (field (name "prior_title") (text (either_text "prior_title" "priorTitle" payload)) (
              field (name "new_title") (text (either_text "new_title" "newTitle" payload))
                (field (name "event_type") (text event_type) end)))))
    else err provider_error

module _ {D : Type 0} (rt : Runtime) (provider : WorkdayProvider D) where
  -- `_get`
  abbrev pub checked_response : ℕ × Result Value → Result Fields
  checked_response (status, body) =
      if leb 400 status then err provider_error else body >>= object_payload

  unfoldable pub fetch : String → Exec D Fields
  fetch path =
      if filled provider.base_url && filled provider.bearer_token
      then (Exec.◌>>=◌ (provider.request (provider.base_url ⧺ path))
          λ response. lift (checked_response response))
      else raise provider_error

  -- `payload or self._get(path)`
  unfoldable pub given_or_fetched : Option Fields → String → Exec D Fields
  unfolding fetch
  given_or_fetched (some (field k v m)) path = pure (field k v m)
  given_or_fetched (some end) path = fetch path
  given_or_fetched none path = fetch path

  -- `_workers`
  unfoldable pub workers_of : Exec D (List Fields)
  unfolding given_or_fetched find mappings
  workers_of =
      Exec.◌>>=◌
        (given_or_fetched provider.workers_payload
          ("/ccx/api/v1/" ⧺ (provider.tenant ⧺ "/workers")))
        λ payload.
          Exec.◌>>=◌ (lift (listed "data" "workers" payload)) λ values. pure (mappings values)

  -- `_groups`
  unfoldable pub groups_of : Exec D (List Fields)
  unfolding given_or_fetched find mappings
  groups_of =
      Exec.◌>>=◌
        (given_or_fetched provider.security_groups_payload
          ("/ccx/service/" ⧺ (provider.tenant ⧺ "/soap/v39.2")))
        λ payload.
          Exec.◌>>=◌ (lift (listed "Security_Group_Assignment" "security_groups" payload))
            λ values. pure (mappings values)

  -- `snapshot`
  unfoldable pub workday_snapshot : Exec D (List Entitlement)
  unfolding workers_of groups_of workers_by_id group_entitlements sorted entitlement_le
  workday_snapshot = Exec.◌>>=◌ workers_of λ workers. Exec.◌>>=◌ groups_of λ assignments.
      Exec.◌>>=◌ (lift (group_entitlements rt (workers_by_id rt workers end) assignments))
        λ result. pure (sorted entitlement_le result)

  abbrev pub refused : Entitlement → Bool → ActionResult
  refused e dry_run = record {
    succeeded = false;
    system = "workday";
    resource = e.resource;
    scope = scope_value e.scope;
    dry_run = dry_run;
    pre_image = some e.raw;
    message = "Workday security groups are read-only in Deadbolt";
    provider_latency_ms = pos 0;
  }

  -- `WorkdayProvider` as a provider: `revoke` is refused, and `restore` raises.
  unfoldable pub workday_provider : EntitlementProvider D
  unfolding workday_snapshot
  workday_provider = record {
    system = "workday";
    snapshot = workday_snapshot;
    revoke = λ e dry_run. pure (refused e dry_run);
    restore = λ pre_image. raise provider_error;
  }
