-- ===== src/Tests/Cards.antt =====
-- The context of the button of an approval.
use sams_simlplifynext.Prelude.{some, none, ◌≡◌, refl}
use sams_simlplifynext.Prelude.Int.{pos}
use sams_simlplifynext.Prelude.Order.{insert}
use sams_simlplifynext.Prelude.Text.{text_le}
use sams_simlplifynext.Errors.{ok}
use sams_simlplifynext.Value.{name, Value, number, text, mapping, items, nil, cons, end, field}
use sams_simlplifynext.Plan.Canonical.{json_text}
use sams_simlplifynext.Broker.Card.{context_value, context_fields, action_fields}
use sams_simlplifynext.Tests.Fixtures.{test_runtime}

abbrev card_plan : Value
card_plan = mapping (
    field (name "plan_hash") (text "h") (
      field (name "envelope") (mapping (field (name "plan_id") (text "p") end)) (
        field (name "actions")
          (items (
            cons
              (mapping
                (field (name "finding_id") (text "f") (field (name "seq") (number (pos 2)) end)))
              nil))
          end)))

approve_context :
    context_value test_runtime "approve" card_plan (action_fields none card_plan) (some "t")
    ≡ ok
        "{\"action_id\":\"approve\",\"finding_id\":\"f\",\"plan_hash\":\"h\",\"plan_id\":\"p\",\"seq\":2,\"task_token\":\"t\",\"trace_id\":\"\"}"
unfolding context_value context_fields action_fields json_text insert text_le
approve_context = refl
