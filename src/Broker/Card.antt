-- ===== src/Broker/Card.antt =====
-- The approval card (backend/src/deadbolt/broker/card.py). A finding, a plan and an action are mappings or
-- class instances; `_value` reads either.
pub mod Blocks
use sams_simlplifynext.Prelude.{String, Option, none, some, List, [], ◌∷◌, or_else, if◌then◌else◌}
use sams_simlplifynext.Prelude.Text.{str_eq, filled}
use sams_simlplifynext.Prelude.Int.{pos}
use sams_simlplifynext.Errors.{Result, ok, ◌>>=◌}
use sams_simlplifynext.Runtime.{Runtime}
use sams_simlplifynext.Value.{
  name, Value, Values, Fields, null, number, text, items, mapping, instance_of, nil, cons, end,
  field, find, get, put, attribute,
}
use sams_simlplifynext.Plan.Canonical.{◌⧺◌, json_text}
use sams_simlplifynext.Broker.Negotiate.{to_text}

-- A button: its action, its label and its style
pub record Button : Type 0 where
  pub action_id : String
  pub label : String
  pub style : Option String

-- `_ACTION_IDS`
abbrev pub buttons : List Button
buttons =
    record { action_id = "approve"; label = "Approve"; style = some "primary" }
    ∷ record { action_id = "reduce_further"; label = "Reduce further"; style = some "danger" }
    ∷ record { action_id = "keep_with_reason"; label = "Keep, with reason"; style = none }
    ∷ record { action_id = "defer_30_days"; label = "Defer 30 days"; style = none }
    ∷ []

-- `_value`
unfoldable pub value_of : String → Value → Value → Value
unfolding attribute
value_of k default source = or_else (attribute k source) default

-- `_text`, with the default ""
unfoldable pub source_value_text : Runtime → String → Value → String
unfolding value_of
source_value_text rt k source = to_text rt (value_of k (text "") source)

abbrev pub is_evidence : Value → Fields
is_evidence (mapping m) = m
is_evidence _ = end

-- `_finding_fields`
abbrev pub finding_fields : Value → Value × Fields
unfolding value_of
finding_fields finding = (
  value_of "entitlement" (text "") finding,
  is_evidence (value_of "evidence" (mapping end) finding),
)

-- The first action of a plan. No character of a text is an action.
abbrev pub candidate_of : Value → Option Value
candidate_of (items (cons (instance_of c m) vs)) =
    if str_eq c "Action" then some (instance_of c m) else none
candidate_of (items (cons (mapping m) vs)) = some (mapping m)
candidate_of _ = none

abbrev pub chosen_action : Option Value → Value → Option Value
unfolding value_of
chosen_action (some action) plan = some action
chosen_action none plan = candidate_of (value_of "actions" (items nil) plan)

-- What the card takes of an action
pub record ActionFields : Type 0 where
  pub finding_id : Value
  pub seq : Value
  pub scope : Value
  pub verb : Value
  pub to_scope : Value

abbrev pub fields_from : Option Value → ActionFields
unfolding value_of
fields_from none = record {
  finding_id = text "";
  seq = number (pos 0);
  scope = text "";
  verb = text "";
  to_scope = text "";
}
fields_from (some action) = record {
  finding_id = value_of "finding_id" (text "") action;
  seq = value_of "seq" (number (pos 0)) action;
  scope = value_of "scope" (text "") action;
  verb = value_of "verb" (text "") action;
  to_scope = value_of "to_scope" (text "") action;
}

-- `_action_fields`
unfoldable pub action_fields : Option Value → Value → ActionFields
unfolding value_of
action_fields action plan = fields_from (chosen_action action plan)

-- `_plan_hash`
abbrev pub hash_or_body : Runtime → Value → Value → String
unfolding value_of
hash_or_body rt (text digest) plan = digest
hash_or_body rt v plan =
    to_text rt (value_of "plan_hash" (text "") (value_of "body" (mapping end) plan))

unfoldable pub plan_hash_text : Runtime → Value → String
unfolding value_of
plan_hash_text rt plan = hash_or_body rt (value_of "plan_hash" (text "") plan) plan

abbrev pub with_token : Option String → Fields → Fields
unfolding put
with_token none context = context
with_token (some task_token) context = put (name "task_token") (text task_token) context

-- The context of a button, as fields
unfoldable pub context_fields : Runtime → String → Value → ActionFields → Option String → Fields
unfolding plan_hash_text source_value_text put
context_fields rt action_id plan action task_token =
    let envelope = value_of "envelope" (mapping end) plan in
    with_token task_token (
      field (name "action_id") (text action_id) (
        field (name "finding_id") action.finding_id (
          field (name "plan_hash") (text (plan_hash_text rt plan)) (
            field (name "plan_id") (text (source_value_text rt "plan_id" envelope)) (
              field (name "trace_id") (text (source_value_text rt "trace_id" envelope))
                (field (name "seq") action.seq end))))))

-- `_context_value`
unfoldable pub context_value :
    Runtime → String → Value → ActionFields → Option String → Result String
unfolding context_fields json_text
context_value rt action_id plan action task_token =
    json_text (mapping (context_fields rt action_id plan action task_token))
