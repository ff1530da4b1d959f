-- ===== src/Broker/StateMachine.antt =====
-- The approval workflow (backend/src/deadbolt/broker/statemachine.py): the generated definition, and
-- the transitions of Amazon States Language that it uses.
pub mod Data
pub mod Safety
pub mod Audited
pub mod Progress
pub mod Timeout
use sams_simlplifynext.Prelude.{
  ℕ, ◌*◌, all, is_some, String, Bool, true, false, Option, none, some, List, [], ◌∷◌, map, ◌≡◌,
  if◌then◌else◌,
}
use sams_simlplifynext.Prelude.Text.{str_eq}
use sams_simlplifynext.Prelude.Int.{pos}
use sams_simlplifynext.Value.{
  name, Value, Fields, boolean, number, text, end, field, find, get, put,
}
use sams_simlplifynext.Contracts.{Tier, T0, T1, T2, T3, tier_value}

pub data TimeoutAction : Type 0 where
  proceed : TimeoutAction
  escalate : TimeoutAction
  page : TimeoutAction

-- The keys of `states`; a state's `Next` is one of them.
pub data StateName : Type 0 where
  route_tier : StateName
  prepare_t1_approval : StateName
  prepare_t2_approval : StateName
  notify_approver : StateName
  timeout_by_tier : StateName
  mark_decision_disposition : StateName
  mark_approved : StateName
  mark_declined : StateName
  record_decision : StateName
  route_decision : StateName
  execute_approved : StateName
  reduce_further : StateName
  keep_with_reason : StateName
  declined_to_act : StateName
  record_declined_decision : StateName
  observe_only : StateName
  record_observation : StateName
  proceed_after_timeout : StateName
  mark_approved_timeout : StateName
  record_timeout_proceed : StateName
  escalate_security_admin : StateName
  page_security_on_call : StateName
  mark_declined_timeout : StateName
  record_timeout_decline : StateName
  succeed : StateName

pub record TierTimeoutPolicy : Type 0 where
  pub timeout_seconds : ℕ
  pub on_timeout : TimeoutAction
  pub destination : StateName

-- `TIER_TIMEOUT_POLICY`
unfoldable pub tier_timeout_policy : Tier → TierTimeoutPolicy
tier_timeout_policy T0 = record {
  timeout_seconds = 1;
  on_timeout = proceed;
  destination = observe_only;
}
tier_timeout_policy T1 = record {
  timeout_seconds = 72 * 60 * 60;
  on_timeout = proceed;
  destination = proceed_after_timeout;
}
tier_timeout_policy T2 = record {
  timeout_seconds = 24 * 60 * 60;
  on_timeout = escalate;
  destination = escalate_security_admin;
}
tier_timeout_policy T3 = record {
  timeout_seconds = 1;
  on_timeout = page;
  destination = page_security_on_call;
}

-- `_TIER_ENTRY_STATE`
unfoldable pub tier_entry_state : Tier → StateName
tier_entry_state T0 = observe_only
tier_entry_state T1 = prepare_t1_approval
tier_entry_state T2 = prepare_t2_approval
tier_entry_state T3 = page_security_on_call

-- `_TIMEOUT_STATE_BY_ACTION`
unfoldable pub timeout_state_by_action : TimeoutAction → StateName
timeout_state_by_action proceed = proceed_after_timeout
timeout_state_by_action escalate = escalate_security_admin
timeout_state_by_action page = page_security_on_call

-- The functions of the tasks.
pub data Function : Type 0 where
  notify_function : Function
  audit_function : Function
  executor_function : Function
  negotiator_function : Function
  pager_function : Function

-- One branch of a Choice state: the field is the text.
pub record Choice : Type 0 where
  pub variable : String
  pub value : String  -- `StringEquals`
  pub next : StateName

-- The kinds of states that the definition uses. A task with `replaces` puts its output in place of
-- the data (no `ResultPath`), and the others leave the data (`"ResultPath": None`). Its payload takes
-- the fields that are listed. `catch_timeout` is the state after `States.Timeout`; the catcher has
-- no `ResultPath`, so the error output replaces the data.
pub data AslState : Type 0 where
  choice_state : List Choice → StateName → AslState
  pass_state : Value → String → StateName → AslState
  task_state : Function → List String → Bool → Option StateName → StateName → AslState
  succeed_state : AslState

-- `_choice`
abbrev choice : String → String → StateName → Choice
choice variable value next = record { variable = variable; value = value; next = next }

-- `_lambda_task`, whose payload is the data
abbrev pub lambda_task : Function → StateName → AslState
lambda_task f next = task_state f [] false none next

-- The fields that the payload of `_audit_task` takes.
abbrev pub audit_paths : List String
audit_paths =
    "approver_id" ∷ "action" ∷ "decision" ∷ "finding_id" ∷ "identity_id" ∷ "plan_hash" ∷ "plan_id"
    ∷ "pre_image_key" ∷ "provider" ∷ "resource" ∷ "result" ∷ "scope" ∷ "system" ∷ "trace_id"
    ∷ "traceparent" ∷ "tier" ∷ "acted" ∷ []

-- `_audit_task`
abbrev pub audit_task : StateName → AslState
audit_task next = task_state audit_function audit_paths false none next

abbrev tiers : List Tier
tiers = T0 ∷ T1 ∷ T2 ∷ T3 ∷ []

unfoldable pub timeout_choice : Tier → Choice
unfolding tier_timeout_policy timeout_state_by_action
timeout_choice tier =
    choice "tier" (tier_value tier) (timeout_state_by_action (tier_timeout_policy tier).on_timeout)

unfoldable pub entry_choice : Tier → Choice
unfolding tier_entry_state
entry_choice tier = choice "tier" (tier_value tier) (tier_entry_state tier)

unfoldable pub entry_choices : List Choice
unfolding entry_choice
entry_choices = map entry_choice tiers

unfoldable pub timeout_choices : List Choice
unfolding timeout_choice
timeout_choices = map timeout_choice tiers

abbrev pub disposition_choices : List Choice
disposition_choices = choice "decision" "Approve" mark_approved ∷ []

abbrev pub decision_choices : List Choice
decision_choices =
    choice "decision" "Approve" execute_approved
    ∷ choice "decision" "Reduce further" reduce_further
    ∷ choice "decision" "Keep, with reason" keep_with_reason
    ∷ choice "decision" "Defer 30 days" succeed
    ∷ []

-- `build_definition`
unfoldable pub build_definition : StateName → AslState
unfolding tier_timeout_policy entry_choices timeout_choices
build_definition route_tier = choice_state entry_choices observe_only
build_definition prepare_t1_approval =
    pass_state (number (pos (tier_timeout_policy T1).timeout_seconds)) "approval_timeout_seconds"
      notify_approver
build_definition prepare_t2_approval =
    pass_state (number (pos (tier_timeout_policy T2).timeout_seconds)) "approval_timeout_seconds"
      notify_approver
build_definition notify_approver =
    task_state notify_function [] true (some timeout_by_tier) mark_decision_disposition
build_definition timeout_by_tier = choice_state timeout_choices observe_only
build_definition mark_decision_disposition = choice_state disposition_choices mark_declined
build_definition mark_approved = pass_state (boolean true) "acted" record_decision
build_definition mark_declined = pass_state (boolean false) "acted" record_decision
build_definition record_decision = audit_task route_decision
build_definition route_decision = choice_state decision_choices declined_to_act
build_definition execute_approved = lambda_task executor_function succeed
build_definition reduce_further = lambda_task negotiator_function succeed
build_definition keep_with_reason = lambda_task negotiator_function succeed
build_definition declined_to_act = pass_state (boolean false) "acted" record_declined_decision
build_definition record_declined_decision = audit_task succeed
build_definition observe_only = pass_state (boolean false) "acted" record_observation
build_definition record_observation = audit_task succeed
build_definition proceed_after_timeout =
    pass_state (text "Approve") "decision" mark_approved_timeout
build_definition mark_approved_timeout = pass_state (boolean true) "acted" record_timeout_proceed
build_definition record_timeout_proceed = audit_task execute_approved
build_definition escalate_security_admin = lambda_task notify_function mark_declined_timeout
build_definition page_security_on_call = lambda_task pager_function mark_declined_timeout
build_definition mark_declined_timeout = pass_state (boolean false) "acted" record_timeout_decline
build_definition record_timeout_decline = audit_task succeed
build_definition succeed = succeed_state

-- `timeout_input`
unfoldable pub timeout_input : Tier → Fields
unfolding tier_timeout_policy
timeout_input tier = field (name "tier") (text (tier_value tier)) (
    field (name "approval_timeout_seconds")
      (number (pos (tier_timeout_policy tier).timeout_seconds)) end)

-- What a task gives: the output of its function, a timeout with its cause, or another error.
pub data Outcome : Type 0 where
  returned : Fields → Outcome
  timed_out : String → Outcome
  failed : Outcome

-- The error output of `States.Timeout`.
abbrev pub error_output : String → Fields
error_output cause =
    field (name "Error") (text "States.Timeout") (field (name "Cause") (text cause) end)

-- Every field that a payload takes is there.
unfoldable pub has_paths : List String → Fields → Bool
unfolding find all
has_paths paths d = all (λ k. is_some (get k d)) paths

-- `StringEquals` of a field, which must be there.
unfoldable pub string_equals : Option Value → String → Option Bool
string_equals none s = none
string_equals (some (text t)) s = some (str_eq t s)
string_equals (some v) s = some false

abbrev pub or_later : Option Bool → StateName → Option StateName → Option StateName
or_later none n rest = none
or_later (some true) n rest = some n
or_later (some false) n rest = rest

-- The first choice that holds. A missing field ends the execution with an error.
unfoldable pub pick : List Choice → StateName → Fields → Option StateName
unfolding find string_equals
pick [] default d = some default
pick (c ∷ cs) default d =
    or_later (string_equals (get c.variable d) c.value) c.next (pick cs default d)

abbrev pub go_to : Fields → Option StateName → Option (StateName × Fields)
go_to d none = none
go_to d (some n) = some (n, d)

-- The state after a state, with the data; `none` if the execution ends there.
unfoldable pub transition : AslState → Outcome → Fields → Option (StateName × Fields)
unfolding pick put has_paths
transition (choice_state choices default) o d = go_to d (pick choices default d)
transition (pass_state v path next) o d = some (next, put (name path) v d)
transition (task_state f paths replaces catch_timeout next) (returned out) d =
    if has_paths paths d then some (next, if replaces then out else d) else none
transition (task_state f paths replaces (some caught) next) (timed_out cause) d =
    if has_paths paths d then some (caught, error_output cause) else none
transition (task_state f paths replaces catch_timeout next) o d = none
transition succeed_state o d = none

-- An execution from one state to another, with the states it leaves on the way.
pub data Runs : StateName → Fields → List StateName → StateName → Fields → Type 0 where
  here : {n : StateName} {d : Fields} → Runs n d [] n d
  step :
      {n n' n'' : StateName} {d d' d'' : Fields} {visited : List StateName} (o : Outcome)
      → transition (build_definition n) o d ≡ some (n', d')
      → Runs n' d' visited n'' d''
      → Runs n d (n ∷ visited) n'' d''
