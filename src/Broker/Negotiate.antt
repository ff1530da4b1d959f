-- ===== src/Broker/Negotiate.antt =====
-- Negotiation of an approval (backend/src/deadbolt/broker/negotiate.py). The model may suggest a
-- scope or write prose; what is done is decided here.
pub mod Adapters
pub mod Narrowing
pub mod Decision
use sams_simlplifynext.Prelude.{
  ℕ, String, Bool, true, false, not, ◌&&◌, ◌||◌, Option, none, some, List, [], ◌∷◌, ltb, leb, keep,
  map, is_some, or_else, if◌then◌else◌,
}
use sams_simlplifynext.Prelude.Text.{str_eq, text_in, filled}
use sams_simlplifynext.Prelude.Int.{ℤ, pos, ◌+ℤ◌, eqb_ℤ}
use sams_simlplifynext.Prelude.Order.{sorted, lex, by_text}
use sams_simlplifynext.Errors.{
  Result, ok, err, policy_violation, type_error, is_ok, ◌>>=◌, traverse,
}
use sams_simlplifynext.Exec.{Exec, pure, raise, lift}
use sams_simlplifynext.Exec as Exec
use sams_simlplifynext.Runtime.{Runtime}
use sams_simlplifynext.Value.{
  name, pair, Value, Values, Fields, null, boolean, number, text, items, mapping, nil, cons, end,
  field, find, get, put, attribute, as_text, texts,
}
use sams_simlplifynext.Engine.Scoring.{scope_severity}
use sams_simlplifynext.Plan.Canonical.{plan_hash, ◌⧺◌}
use sams_simlplifynext.Plan.Builder.{
  Action, Plan, make_action, action_dict, with_key, no_access_scope, envelope_text,
}

abbrev pub nova_lite_model : String
nova_lite_model = "amazon.nova-lite-v1:0"

abbrev pub claude_haiku_model : String
claude_haiku_model = "anthropic.claude-3-haiku-20240307-v1:0"

-- `LLMClient.complete` and `ProposalStore.write`, on a state of their own.
pub record Ports (W : Type 0) : Type 0 where
  pub complete : String → String → Exec W String
  pub write : Fields → Exec W String

pub record NegotiationResult : Type 0 where
  pub decision : String
  pub scope : Option String
  pub accepted_model_scope : Bool
  pub rejection_reason : Option String
  pub proposal_id : Option String
  pub proposal : Option Fields
  pub plan : Option Plan
  pub audit_record : Fields

-- The `action` argument: an `Action`, a mapping, or nothing.
pub data ActionArgument : Type 0 where
  given : Action → ActionArgument
  described : Fields → ActionArgument
  missing : ActionArgument

-- `_text`, for a value that was found
abbrev pub to_text : Runtime → Value → String
to_text rt (text s) = s
to_text rt v = rt.repr v

-- `_text(value, key, default)`
abbrev pub text_of : Runtime → Value → String → String → String
unfolding attribute
text_of rt v k default = to_text rt (or_else (attribute k v) (text default))

-- The items of an iterable: a mapping is iterated by its keys, a text by characters, none of which
-- is a scope.
unfoldable pub iterate : Value → Result Values
iterate (items vs) = ok vs
iterate (mapping m) = ok (keys m)
  where
    keys : Fields → Values
    keys end = nil
    keys (field (name s) v m) = cons (text s) (keys m)
    keys (field (pair a b) v m) = keys m
iterate (text s) = ok nil
iterate v = err type_error

-- The iterable that a graph stands for.
unfoldable pub graph_items : Value → Result Values
unfolding iterate find
graph_items (mapping m) =
    elim (or_else (get "entitlements" m) (or_else (get "scopes" m) (items nil))) [
      | items vs ↦ ok vs
      | mapping n ↦ iterate (mapping n)
      | _ ↦ ok nil
    ]
graph_items v = iterate v

-- The scope of one item, a text or the field or attribute of it.
abbrev pub item_scope : Value → Option Value
unfolding attribute
item_scope (text s) = some (text s)
item_scope v = attribute "scope" v

abbrev pub add_scope : Option Value → List String → List String
unfolding text_in
add_scope (some (text s)) found =
    if is_ok (scope_severity s) && not (text_in s found) then s ∷ found else found
add_scope v found = found

unfoldable pub collect_scopes : Values → List String
unfolding item_scope add_scope
collect_scopes nil = []
collect_scopes (cons v vs) = add_scope (item_scope v) (collect_scopes vs)

-- `graph_scopes`
unfoldable pub graph_scopes : Value → Result (List String)
unfolding graph_items collect_scopes by_text
graph_scopes graph = do vs ← graph_items graph; ok (sorted (by_text (λ s. s)) (collect_scopes vs))

-- The severity of a candidate of `next_lowest_scope`; an unknown scope is no candidate.
abbrev pub is_below : ℕ → String → Bool
is_below current scope = elim (scope_severity scope) [ ok n ↦ ltb n current | err e ↦ false ]

abbrev severity_of : String → ℕ
severity_of scope = elim (scope_severity scope) [ ok n ↦ n | err e ↦ 0 ]

unfoldable pub scope_le : String → String → Bool
unfolding lex by_text
scope_le = lex (λ s t. leb (severity_of s) (severity_of t)) (by_text (λ s. s))

-- The last of a list, or a default for an empty one.
unfoldable pub last_or : String → List String → String
last_or s [] = s
last_or s (t ∷ l) = last_or t l

-- `next_lowest_scope`. A scope of lower severity is another one than the current.
unfoldable pub next_lowest_scope : String → List String → Result String
unfolding keep scope_le
next_lowest_scope current closed = do
  severity ← scope_severity current
  let candidates = keep (λ s. not (str_eq s current) && is_below severity s) closed
  ok (last_or no_access_scope (sorted scope_le candidates))

-- `_scope_from_response`
abbrev scope_of : Option Value → String
scope_of (some (text s)) = s
scope_of v = ""

unfoldable pub scope_from_response : Runtime → String → String
unfolding find
scope_from_response rt response = elim (rt.json_loads response) [
  | ok (mapping m) ↦ scope_of (get "scope" m)
  | _ ↦ ""
]

-- `envelope.get("attempt", 0)`, one higher
abbrev next_attempt : Option Value → Value
next_attempt none = number (pos 1)
next_attempt (some (number n)) = number (n +ℤ pos 1)
next_attempt (some (boolean true)) = number (pos 2)
next_attempt (some v) = number (pos 1)

-- The updated action in the place of the one with its number.
unfoldable pub replace_action : Action → Action → Action
replace_action updated candidate = if eqb_ℤ candidate.seq updated.seq then updated else candidate

abbrev dicts : List Action → Values
unfolding action_dict
dicts [] = nil
dicts (a ∷ l) = cons (mapping (action_dict a)) (dicts l)

-- `_replan`
unfoldable pub replan : Runtime → Plan → Action → String → Result Plan
unfolding replace_action put find dicts
replan rt plan action to_scope = do
  let verb = if str_eq to_scope no_access_scope then "revoke" else "downgrade"
  updated ← make_action (record action { verb = verb; to_scope = to_scope; pre_image_key = none })
  let base = map (replace_action updated) plan.actions
  let body = put (name "actions") (items (dicts base)) plan.body
  digest ← plan_hash rt body
  actions ← traverse (with_key rt digest) base
  let attempt = next_attempt (get "attempt" plan.envelope)
  ok (record {
    body = body;
    envelope = put (name "attempt") attempt plan.envelope;
    actions = actions;
  })

abbrev int_field : String → Fields → Result ℤ
unfolding find
int_field k m = elim (get k m) [
  | none ↦ ok (pos 0)
  | some (number n) ↦ ok n
  | some v ↦ err policy_violation
]

abbrev some_filled : String → Option String
some_filled s = if filled s then some s else none

-- `_action_from_plan`
unfoldable pub action_from_plan : Runtime → Plan → ActionArgument → Result Action
unfolding text_of int_field
action_from_plan rt plan (given action) = ok action
action_from_plan rt plan (described m) = do
  let scope = text_of rt (mapping m) "scope" ""
  score ← int_field "score" m
  seq ← int_field "seq" m
  make_action (record {
    seq = seq;
    system = text_of rt (mapping m) "system" "";
    resource = text_of rt (mapping m) "resource" "";
    scope = scope;
    verb = text_of rt (mapping m) "verb" "";
    from_scope = text_of rt (mapping m) "from_scope" scope;
    to_scope = text_of rt (mapping m) "to_scope" no_access_scope;
    finding_id = text_of rt (mapping m) "finding_id" "";
    score = score;
    tier = text_of rt (mapping m) "tier" "";
    pre_image_key = some_filled (text_of rt (mapping m) "pre_image_key" "");
  })
action_from_plan rt plan missing = elim plan.actions [ a ∷ [] ↦ ok a | _ ↦ err policy_violation ]

-- `_finding_id`
unfoldable pub finding_id_of : Runtime → Value → Action → String
unfolding text_of
finding_id_of rt finding action =
    if filled action.finding_id then action.finding_id else text_of rt finding "finding_id" ""

-- `scope_severity(a) < scope_severity(b)`
abbrev narrower : String → String → Result Bool
narrower a b = do p ← scope_severity a; c ← scope_severity b; ok (ltb p c)

-- Whether the scope that the model proposes is one of the graph's, and narrower than the current.
unfoldable pub accepts : String → List String → String → Result Bool
unfolding text_in
accepts current closed proposed =
    if text_in proposed closed then narrower proposed current else ok false

abbrev text_list : List String → Values
text_list [] = nil
text_list (s ∷ l) = cons (text s) (text_list l)

module _ {W : Type 0} (rt : Runtime) (ports : Ports W) (finding : Value) (plan : Plan)
    (action : Action) (base_audit : Fields) where
  abbrev reduce_prompt : List String → String
  reduce_prompt closed =
      "Return JSON only with one key, scope. Choose a narrower scope from this closed set: "
      ⧺ (rt.repr (items (text_list closed)) ⧺ (". Current scope: " ⧺ (action.from_scope ⧺ ".")))

  -- What is done with the answer of the model.
  unfoldable pub settle_scope : List String → String → String → Result NegotiationResult
  unfolding accepts replan put
  settle_scope closed fallback proposed = do
    accepted ← accepts action.from_scope closed proposed
    let chosen = if accepted then proposed else fallback
    replanned ← replan rt plan action chosen
    ok (record {
      decision = "Reduce further";
      scope = some chosen;
      accepted_model_scope = accepted;
      rejection_reason =
          if accepted then none else some "model scope rejected; deterministic fallback used";
      proposal_id = none;
      proposal = none;
      plan = some replanned;
      audit_record =
          put (name "model_scope_accepted") (boolean accepted) (
            put (name "result_scope") (text chosen) (put (name "acted") (boolean true) base_audit));
    })

  -- The branch "Reduce further".
  unfoldable pub reduce_further : Value → Exec W NegotiationResult
  unfolding scope_from_response
  reduce_further graph = Exec.◌>>=◌ (lift (graph_scopes graph)) λ closed.
      Exec.◌>>=◌ (lift (next_lowest_scope action.from_scope closed)) λ fallback.
        Exec.◌>>=◌ (ports.complete nova_lite_model (reduce_prompt closed))
          λ response. lift (settle_scope closed fallback (scope_from_response rt response))

  -- The branch "Keep, with reason".
  unfoldable pub keep_with_reason : String → String → String → String → Exec W NegotiationResult
  unfolding put attribute
  keep_with_reason finding_id reason digest trace_id =
      Exec.◌>>=◌
        (ports.complete claude_haiku_model (
          "Draft a concise template-amendment candidate for this access finding. "
          ⧺ ("Do not recommend any access grant. Approver reason: " ⧺ reason)))
        λ draft.
          let proposal = field (name "proposal_type") (text "template_amendment_candidate") (
            field (name "status") (text "pending_human_ratification") (
              field (name "ratified_template_mutated") (boolean false) (
                field (name "finding_id") (text finding_id) (
                  field (name "identity_id")
                    (text (
                      text_of rt (or_else (attribute "entitlement" finding) null) "identity_id" ""))
                    (field (name "current_scope") (text action.from_scope) (
                      field (name "reason") (text reason) (
                        field (name "draft") (text draft) (
                          field (name "plan_hash") (text digest)
                            (field (name "trace_id") (text trace_id) end))))))))) in
          Exec.◌>>=◌ (ports.write proposal) λ proposal_id. pure (record {
            decision = "Keep, with reason";
            scope = none;
            accepted_model_scope = false;
            rejection_reason = none;
            proposal_id = some proposal_id;
            proposal = some proposal;
            plan = none;
            audit_record =
                put (name "proposal_id") (text proposal_id)
                  (put (name "acted") (boolean false) base_audit);
          })

  -- The other two decisions, without a word of the model.
  unfoldable pub plain_decision : String → Result NegotiationResult
  unfolding put
  plain_decision decision =
      let acted = str_eq decision "Approve" in
      if acted || str_eq decision "Defer 30 days"
      then ok (record {
        decision = decision;
        scope = none;
        accepted_model_scope = false;
        rejection_reason = none;
        proposal_id = none;
        proposal = none;
        plan = if acted then some plan else none;
        audit_record = put (name "acted") (boolean acted) base_audit;
      })
      else err policy_violation

abbrev pub base_record : String → String → String → String → String → Fields
base_record approver_id decision finding_id digest trace_id =
    field (name "approver_id") (text approver_id) (
      field (name "decision") (text decision) (
        field (name "finding_id") (text finding_id) (
          field (name "plan_hash") (text digest) (
            field (name "trace_id") (text trace_id)
              (field (name "acted") (boolean (str_eq decision "Approve")) end)))))

module _ {W : Type 0} (rt : Runtime) (ports : Ports W) (decision : String) (finding : Value)
    (plan : Plan) (graph : Value) (reason : String) (selected : Action) where
  -- The branches on the decision.
  unfoldable pub decide : Fields → String → String → String → Exec W NegotiationResult
  decide audit finding_id digest trace_id =
      if str_eq decision "Reduce further"
      then reduce_further rt ports finding plan selected audit graph
      else if str_eq decision "Keep, with reason"
      then keep_with_reason rt ports finding plan selected audit finding_id reason digest trace_id
      else lift (plain_decision rt ports finding plan selected audit decision)

-- `negotiate_decision`
unfoldable pub negotiate_decision :
    {W : Type 0}
    → Runtime
    → Ports W
    → String
    → Value
    → Plan
    → Value
    → ActionArgument
    → String
    → String
    → Exec W NegotiationResult
unfolding finding_id_of
negotiate_decision rt ports decision finding plan graph action approver_id reason =
    Exec.◌>>=◌ (lift (action_from_plan rt plan action)) λ selected.
      Exec.◌>>=◌ (lift (plan_hash rt plan.body)) λ digest.
        Exec.◌>>=◌ (lift (envelope_text "trace_id" plan.envelope)) λ trace_id.
          let finding_id = finding_id_of rt finding selected in
          decide rt ports decision finding plan graph reason selected
            (base_record approver_id decision finding_id digest trace_id) finding_id digest trace_id
