-- ===== src/Broker/Callback.antt =====
-- The callback of an approval button (backend/src/deadbolt/broker/handler.py). The Slack signature, the
-- audit writer and the Step Functions client are ports.
pub mod Guarded
pub mod Accepted
use Prim.Native.Char.{code}
use sams_simlplifynext.Prelude.{
  ℕ, ◌*◌, String, Bool, true, false, not, ◌&&◌, ltb, Option, none, some, List, [], ◌∷◌, or_else,
  if◌then◌else◌,
}
use sams_simlplifynext.Prelude.Text.{str_eq, filled}
use sams_simlplifynext.Prelude.Int.{ℤ, pos, negsuc, ◌-ℤ◌, ◌*ℤ◌, leb_ℤ}
use sams_simlplifynext.Errors.{
  Exn, Result, ok, err, policy_violation, value_error, type_error, ◌>>=◌, ◌>>◌, require,
}
use sams_simlplifynext.Exec
use sams_simlplifynext.Exec.{Exec, pure, raise, lift, catch}
use sams_simlplifynext.Runtime.{Runtime}
use sams_simlplifynext.Value.{
  name, Value, Fields, null, boolean, text, items, mapping, nil, cons, end, field, find, get, put,
  truthy,
}
use sams_simlplifynext.Plan.Canonical.{◌⧺◌, json_text}
use sams_simlplifynext.Audit.Safe.{key_text}
use sams_simlplifynext.Audit.Writer.{text_or_else}
use sams_simlplifynext.Graph.Identity.{value_text}

-- What the handler takes from libraries: the HMAC with SHA-256 in hexadecimal digits, base 64, the
-- field `payload` of a form, and the text of an exception.
pub record SlackRuntime : Type 0 where
  pub hmac : String → String → String
  pub b64decode : String → Result String
  pub form_payload : String → String
  pub exn_text : Exn → String

abbrev is_ascii : String → Bool
is_ascii String.[] = true
is_ascii (String.◌∷◌ c s) = ltb (code c) 128 && is_ascii s

-- `hmac.compare_digest` of texts, which must be ASCII
abbrev compare_digest : String → String → Result Bool
compare_digest a b = do require (is_ascii a && is_ascii b) type_error; ok (str_eq a b)

-- `abs(now - seconds) > 300`, with the time in microseconds
abbrev pub is_stale : ℤ → ℤ → Bool
unfolding ◌-ℤ◌ ◌*ℤ◌
is_stale now seconds =
    let age = now -ℤ seconds *ℤ pos 1000000 in
    not (leb_ℤ age (pos 300000000) && leb_ℤ (pos 0 -ℤ pos 300000000) age)

-- `verify_slack_signature`, from what `int(timestamp)` gives
unfoldable pub verify_at :
    SlackRuntime → String → String → String → String → ℤ → Result ℤ → Result Bool
unfolding ◌-ℤ◌ ◌*ℤ◌
verify_at sl secret timestamp body signature now (err value_error) = ok false
verify_at sl secret timestamp body signature now (err e) = err e
verify_at sl secret timestamp body signature now (ok seconds) =
    if is_stale now seconds
    then ok false
    else compare_digest ("v0=" ⧺ sl.hmac secret ("v0:" ⧺ (timestamp ⧺ (":" ⧺ body)))) signature

unfoldable pub verify_slack_signature :
    Runtime → SlackRuntime → String → String → String → String → ℤ → Result Bool
unfolding verify_at
verify_slack_signature rt sl secret timestamp body signature now =
    verify_at sl secret timestamp body signature now (rt.parse_int timestamp)

-- `{str(key).lower(): str(value) for key, value in raw.items()}`
unfoldable pub lowered : Runtime → Fields → Fields → Fields
unfolding put
lowered rt end result = result
lowered rt (field k v m) result =
    lowered rt m (put (name (rt.lower (key_text rt k))) (text (value_text rt v)) result)

-- `_headers`
abbrev pub headers_of : Runtime → Option Value → Fields
unfolding lowered
headers_of rt (some (mapping m)) = lowered rt m end
headers_of rt _ = end

-- `_text`
abbrev pub source_text : Runtime → String → Fields → String
unfolding find
source_text rt key m = value_text rt (or_else (get key m) (text ""))

-- `_raw_body`
unfoldable pub raw_body : Runtime → SlackRuntime → Fields → Result String
unfolding find truthy
raw_body rt sl event =
    let body = source_text rt "body" event in
    if truthy (or_else (get "isBase64Encoded" event) (boolean false))
    then sl.b64decode body
    else ok body

abbrev pub starts_with : String → String → Bool
starts_with String.[] s = true
starts_with (String.◌∷◌ c p) String.[] = false
starts_with (String.◌∷◌ c p) (String.◌∷◌ d s) =
    let rest = starts_with p s in
    if str_eq (String.◌∷◌ c String.[]) (String.◌∷◌ d String.[]) then rest else false

abbrev object_of : Value → Result Fields
object_of (mapping m) = ok m
object_of v = err policy_violation

-- `_payload`
unfoldable pub payload_of : Runtime → SlackRuntime → String → Result Fields
payload_of rt sl body = do
  decoded ← rt.json_loads (if starts_with "payload=" body then sl.form_payload body else body)
  object_of decoded

-- `_first_action`
abbrev pub first_action : Option Value → Result Fields
first_action (some (items (cons (mapping m) vs))) = ok m
first_action _ = err policy_violation

-- `_ACTION_IDS.get`
unfoldable pub decision_of : String → Option String
decision_of action_id =
    if str_eq action_id "approve"
    then some "Approve"
    else if str_eq action_id "reduce_further"
    then some "Reduce further"
    else if str_eq action_id "keep_with_reason"
    then some "Keep, with reason"
    else if str_eq action_id "defer_30_days"
    then some "Defer 30 days"
    else none

abbrev known_decision : Option String → Result String
known_decision (some d) = ok d
known_decision none = err policy_violation

abbrev fields_or_empty : Value → Fields
fields_or_empty (mapping m) = m
fields_or_empty v = end

-- `json.loads`, with an empty object for what is no JSON
abbrev decoded_or_empty : Result Value → Result Fields
decoded_or_empty (ok v) = ok (fields_or_empty v)
decoded_or_empty (err value_error) = ok end
decoded_or_empty (err e) = err e

abbrev context_from : Runtime → Value → Result Fields
context_from rt (text s) = decoded_or_empty (rt.json_loads s)
context_from rt v = ok (fields_or_empty v)

-- `_context`
unfoldable pub context_of : Runtime → Fields → Fields → Result Fields
unfolding find
context_of rt action payload =
    context_from rt (or_else (get "value" action) (or_else (get "value" payload) (text "{}")))

abbrev first_filled : List (Option Value) → String
first_filled [] = "unknown"
first_filled (some (text s) ∷ vs) = if filled s then s else first_filled vs
first_filled (v ∷ vs) = first_filled vs

abbrev user_name : Option Value → String
unfolding find
user_name (some (mapping u)) = first_filled (get "id" u ∷ get "username" u ∷ get "name" u ∷ [])
user_name _ = "unknown"

-- `_approver_id`
unfoldable pub approver_of : Fields → String
unfolding find
approver_of payload = user_name (get "user" payload)

-- What the handler reads of a payload.
pub record Approval : Type 0 where
  pub decision : String
  pub task_token : String
  pub approver_id : String
  pub reason : String
  pub details : Fields

unfoldable pub read_approval : Runtime → SlackRuntime → String → Result Approval
unfolding find payload_of decision_of context_of approver_of
read_approval rt sl body = do
  payload ← payload_of rt sl body
  action ← first_action (get "actions" payload)
  decision ← known_decision (decision_of (source_text rt "action_id" action))
  details ← context_of rt action payload
  let task_token =
      text_or_else (source_text rt "task_token" details) (source_text rt "task_token" payload)
  require (filled task_token) policy_violation
  ok (record {
    decision = decision;
    task_token = task_token;
    approver_id = approver_of payload;
    reason = text_or_else (source_text rt "reason" payload) (source_text rt "reason" details);
    details = details;
  })

-- The audit record
abbrev pub decision_record : Runtime → Approval → Fields
unfolding find
decision_record rt a = field (name "approver_id") (text a.approver_id) (
    field (name "decision") (text a.decision) (
      field (name "finding_id") (text (source_text rt "finding_id" a.details)) (
        field (name "plan_hash") (text (source_text rt "plan_hash" a.details)) (
          field (name "trace_id") (text (source_text rt "trace_id" a.details)) (
            field (name "acted") (boolean (str_eq a.decision "Approve"))
              (field (name "reason") (text a.reason) end))))))

-- The output of the task
abbrev pub decision_output : Approval → Fields
decision_output a =
    field (name "decision") (text a.decision)
      (field (name "approver_id") (text a.approver_id) (field (name "reason") (text a.reason) end))

pub record Response : Type 0 where
  pub status_code : ℕ
  pub body : String

-- `_response`; the header names the type of the body
unfoldable pub respond : ℕ → Fields → Result Response
unfolding json_text
respond status_code body = do
  s ← json_text (mapping body)
  ok (record { status_code = status_code; body = s })

-- What the handler acts on: a writer of audit records if there is one, and the Step Functions client.
pub record CallbackPorts (W : Type 0) : Type 0 where
  pub open_audit : Exec W (Option (Fields → Exec W String))
  pub send_task_success : String → String → Exec W (Unit {0})

module _ {W : Type 0} (rt : Runtime) (sl : SlackRuntime) (ports : CallbackPorts W) where
  abbrev pub write_decision : Option (Fields → Exec W String) → Fields → Exec W (Unit {0})
  write_decision none decided = pure tt
  write_decision (some writer) decided = Exec.◌>>=◌ (writer decided) λ key. pure tt

  -- `client.send_task_success` and the response
  abbrev pub send_output : Approval → String → Exec W Response
  unfolding respond json_text
  send_output a output =
      Exec.◌>>=◌ (ports.send_task_success a.task_token output)
        λ _. lift (respond 200 (field (name "ok") (boolean true) end))

  unfoldable pub send_decision : Approval → Exec W Response
  unfolding json_text respond
  send_decision a = Exec.◌>>=◌ (lift (json_text (mapping (decision_output a)))) (send_output a)

  unfoldable pub record_with : Approval → Option (Fields → Exec W String) → Exec W Response
  unfolding send_decision find
  record_with a writer =
      Exec.◌>>=◌ (write_decision writer (decision_record rt a)) λ _. send_decision a

  unfoldable pub record_and_send : Approval → Exec W Response
  unfolding record_with
  record_and_send a = Exec.◌>>=◌ ports.open_audit (record_with a)

  -- `except (ValueError, PolicyViolationError)`
  unfoldable pub rejected : Exn → Exec W Response
  unfolding respond
  rejected value_error =
      lift (respond 400 (field (name "error") (text (sl.exn_text value_error)) end))
  rejected policy_violation =
      lift (respond 400 (field (name "error") (text (sl.exn_text policy_violation)) end))
  rejected e = raise e

  unfoldable pub handle_verified : String → Bool → Exec W Response
  unfolding respond read_approval record_and_send rejected
  handle_verified body false =
      lift (respond 401 (field (name "error") (text "invalid Slack signature") end))
  handle_verified body true =
      catch (Exec.◌>>=◌ (lift (read_approval rt sl body)) record_and_send) rejected

  -- `lambda_handler`
  unfoldable pub lambda_handler : String → ℤ → Fields → Exec W Response
  unfolding find raw_body lowered verify_slack_signature handle_verified
  lambda_handler secret now event = Exec.◌>>=◌ (lift (raw_body rt sl event)) λ body.
      let headers = headers_of rt (some (or_else (get "headers" event) (mapping end))) in
      Exec.◌>>=◌
        (lift (
          verify_slack_signature rt sl secret (source_text rt "x-slack-request-timestamp" headers)
            body (source_text rt "x-slack-signature" headers) now))
        (handle_verified body)
