-- ===== src/Broker/Card/Blocks.antt =====
-- The blocks of the approval card (backend/src/deadbolt/broker/card.py).
use sams_simlplifynext.Prelude.{String, Option, none, some, List, [], ◌∷◌, or_else, if◌then◌else◌}
use sams_simlplifynext.Prelude.Text.{str_eq, filled}
use sams_simlplifynext.Prelude.Int.{pos}
use sams_simlplifynext.Errors.{Result, ok, ◌>>=◌}
use sams_simlplifynext.Runtime.{Runtime}
use sams_simlplifynext.Value.{
  name, Value, Values, Fields, null, number, text, items, mapping, nil, cons, end, field, find, get,
}
use sams_simlplifynext.Plan.Canonical.{◌⧺◌, json_text}
use sams_simlplifynext.Broker.Negotiate.{to_text}
use sams_simlplifynext.Broker.Card.{
  Button, buttons, value_of, source_value_text, finding_fields, ActionFields, action_fields,
  plan_hash_text, context_fields, context_value,
}

abbrev pub plain_text : String → String → Value
plain_text kind s = mapping (field (name "type") (text kind) (field (name "text") (text s) end))

abbrev pub styled : Option String → String → Fields
styled none context = field (name "value") (text context) end
styled (some style) context =
    field (name "style") (text style) (field (name "value") (text context) end)

-- The elements of the last block
unfoldable pub elements :
    Runtime → Value → ActionFields → Option String → List Button → Result Values
unfolding context_fields json_text
elements rt plan action task_token [] = ok nil
elements rt plan action task_token (b ∷ bs) = do
  context ← context_value rt b.action_id plan action task_token
  rest ← elements rt plan action task_token bs
  ok (
      cons
        (mapping (
          field (name "type") (text "button") (
            field (name "action_id") (text b.action_id)
              (field (name "text") (plain_text "plain_text" b.label) (styled b.style context)))))
        rest)

abbrev pub tier_text : Runtime → Value → Option Value → String
unfolding source_value_text
tier_text rt finding action =
    let tier = source_value_text rt "tier" finding in
    if filled tier then tier else elim action [ none ↦ "" | some a ↦ source_value_text rt "tier" a ]

abbrev pub days_text : Runtime → Option Value → String
days_text rt none = "unknown days"
days_text rt (some (text s)) = if str_eq s "never" then "never" else s ⧺ " days"
days_text rt (some v) = to_text rt v ⧺ " days"

-- The first value that is not `None`
unfoldable pub first_present : List String → Fields → Value → Value
unfolding find
first_present [] evidence default = default
first_present (k ∷ ks) evidence default =
    let rest = first_present ks evidence default in
    elim (get k evidence) [ none ↦ rest | some null ↦ rest | some v ↦ v ]

unfoldable pub template_version_of : Value → Fields → Value
unfolding first_present value_of
template_version_of plan evidence =
    first_present
      ("template_version_absent" ∷ "absent_from_template_version" ∷ "template_version" ∷ [])
      evidence (value_of "template_version" (text "unknown") (value_of "body" (mapping end) plan))

abbrev pub section_of : String → Value → Value
section_of k v = mapping (field (name "type") (text "section") (field (name k) v end))

-- `build_approval_card`
unfoldable pub build_approval_card :
    Runtime → Value → Value → Option Value → Option String → Result Fields
unfolding action_fields source_value_text find template_version_of plan_hash_text elements
build_approval_card rt finding plan action task_token = do
  let (entitlement, evidence) = finding_fields finding
  let chosen = action_fields action plan
  let identity_id = source_value_text rt "identity_id" entitlement
  let system = source_value_text rt "system" entitlement
  let resource = source_value_text rt "resource" entitlement
  let scope = source_value_text rt "scope" entitlement
  let tier = tier_text rt finding action
  let blast_count = to_text rt (or_else (get "blast_radius_count" evidence) (number (pos 0)))
  let version = to_text rt (template_version_of plan evidence)
  let proposed =
      to_text rt chosen.verb ⧺ (" " ⧺ (scope ⧺ (" access to " ⧺ to_text rt chosen.to_scope)))
  let summary =
      "*"
      ⧺ (identity_id
          ⧺ ("* · `"
              ⧺ (system
                  ⧺ (":"
                      ⧺ (resource
                          ⧺ ("`\nTier *" ⧺ (tier ⧺ ("* · Proposed: *" ⧺ (proposed ⧺ "*")))))))))
  made ← elements rt plan chosen task_token buttons
  ok (
      field (name "blocks")
        (items (
          cons
            (mapping (
              field (name "type") (text "header")
                (field (name "text") (plain_text "plain_text" "Deadbolt approval") end)))
            (cons (section_of "text" (plain_text "mrkdwn" summary)) (
              cons
                (section_of "fields" (
                  items (
                    cons
                      (plain_text "mrkdwn"
                        ("*Last use*\n" ⧺ (days_text rt (get "days_unused" evidence) ⧺ " ago")))
                      (cons (plain_text "mrkdwn" ("*Template*\nAbsent from version " ⧺ version)) (
                        cons
                          (plain_text "mrkdwn"
                            ("*Blast radius*\n" ⧺ (blast_count ⧺ " reachable identities")))
                          (cons
                            (plain_text "mrkdwn"
                              ("*Plan hash*\n`" ⧺ (plan_hash_text rt plan ⧺ "`")))
                            nil))))))
                (cons (mapping (field (name "type") (text "divider") end)) (
                  cons
                    (mapping (
                      field (name "type") (text "actions")
                        (field (name "elements") (items made) end)))
                    nil))))))
        end)
