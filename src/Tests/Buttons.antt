-- ===== src/Tests/Buttons.antt =====
-- A press of the approve button.
use sams_simlplifynext.Prelude.{String, some, List, [], ◌∷◌, ◌≡◌, refl}
use sams_simlplifynext.Prelude.Int.{pos}
use sams_simlplifynext.Errors.{ok}
use sams_simlplifynext.Runtime.{Runtime}
use sams_simlplifynext.Value.{Value, Fields, name, text, items, cons, nil, mapping, field, end}
use sams_simlplifynext.Plan.Canonical.{json_text}
use sams_simlplifynext.Broker.Callback.{
  SlackRuntime, CallbackPorts, Approval, Response, lambda_handler, read_approval,
}
use sams_simlplifynext.Broker.Callback.Guarded.{IsSigned, Progress, lambda_handler-Progress}
use sams_simlplifynext.Broker.Callback.Accepted.{IsSent, lambda_handler-IsSent}
use sams_simlplifynext.Tests.Fixtures.{test_runtime}

abbrev pressed : Value
pressed = mapping (
    field (name "actions")
      (items (cons (mapping (field (name "action_id") (text "approve") end)) nil))
      (field (name "task_token") (text "t1") end))

abbrev button_runtime : Runtime
button_runtime = record test_runtime { json_loads = λ s. ok pressed; parse_int = λ s. ok (pos 100) }

abbrev slack : SlackRuntime
slack = record {
  hmac = λ secret base. "ab";
  b64decode = λ s. ok s;
  form_payload = λ s. s;
  exn_text = λ e. "error";
}

-- The calls that were made
abbrev Calls : Type 0
Calls = List String

abbrev ports : CallbackPorts Calls
ports = record {
  open_audit = λ w. (ok (some (λ m w. (ok "audit/1", "audit" ∷ w))), w);
  send_task_success = λ token output w. (ok tt, token ∷ w);
}

abbrev press_event : Fields
press_event =
    field (name "headers")
      (mapping (
        field (name "x-slack-request-timestamp") (text "100")
          (field (name "x-slack-signature") (text "v0=ab") end)))
      (field (name "body") (text "{}") end)

abbrev answered : Response
answered = record { status_code = 200; body = "{\"ok\":true}" }

pressed_once :
    lambda_handler button_runtime slack ports "key" (pos 100000000) press_event []
    ≡ (ok answered, "t1" ∷ "audit" ∷ [])
unfolding lambda_handler json_text
pressed_once = refl

lambda_handler-Progress_example :
    Progress button_runtime slack ports "key"
      (pos 100000000)
      press_event
      []
      (lambda_handler button_runtime slack ports "key" (pos 100000000) press_event []).1
lambda_handler-Progress_example =
    lambda_handler-Progress button_runtime slack ports "key" (pos 100000000) press_event []

lambda_handler-IsSent_example :
    (body : String) × (a : Approval) × IsSigned button_runtime slack ports "key"
      (pos 100000000)
      press_event
      body
    × (read_approval button_runtime slack body ≡ ok a)
    × IsSent button_runtime slack ports a [] ("t1" ∷ "audit" ∷ [])
lambda_handler-IsSent_example =
    lambda_handler-IsSent button_runtime slack ports "key" (pos 100000000) press_event []
      ("t1" ∷ "audit" ∷ []) pressed_once refl
