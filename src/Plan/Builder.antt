-- ===== src/Plan/Builder.antt =====
-- The builder of plans (backend/src/deadbolt/plan/builder.py).
pub mod Reduction
use sams_simlplifynext.Prelude.{
  ℕ, suc, ◌≤◌, String, Bool, true, false, not, ◌&&◌, ◌||◌, Option, none, some, List, [], ◌∷◌, ltb,
  leb, if◌then◌else◌, map,
}
use sams_simlplifynext.Prelude.Text.{str_eq, text_append}
use sams_simlplifynext.Prelude.Int.{ℤ, pos, negsuc}
use sams_simlplifynext.Prelude.Order.{sorted, lex, by_text}
use sams_simlplifynext.Errors.{
  Result, ok, err, policy_violation, type_error, key_error, ◌>>=◌, ◌>>◌, require, traverse,
}
use sams_simlplifynext.Runtime.{Runtime}
use sams_simlplifynext.Value.{
  Datetime, name, Value, Values, Fields, boolean, number, text, items, mapping, nil, cons, end,
  field, find, get,
}
use sams_simlplifynext.Contracts.{Tier, T0, T1, scope_value, tier_value, Entitlement}
use sams_simlplifynext.Engine.Scoring.{scope_severity}
use sams_simlplifynext.Engine.Drift.{Finding}
use sams_simlplifynext.Plan.Canonical.{canonical_dumps, iso_second, plan_hash, preimage_key, ◌⧺◌}

abbrev pub no_access_scope : String
no_access_scope = "none"

-- `_severity`: an unknown scope is a policy violation here.
unfoldable pub severity : String → Result ℕ
unfolding scope_severity
severity scope =
    if str_eq scope no_access_scope
    then ok 0
    else elim (scope_severity scope) [ ok n ↦ ok n | err e ↦ err policy_violation ]

pub record Action : Type 0 where
  pub seq : ℤ
  pub system : String
  pub resource : String
  pub scope : String
  pub verb : String
  pub from_scope : String
  pub to_scope : String
  pub finding_id : String
  pub score : ℤ
  pub tier : String
  pub pre_image_key : Option String

abbrev is_natural : ℤ → Bool
is_natural (pos n) = true
is_natural (negsuc n) = false

abbrev is_score : ℤ → Bool
is_score (pos n) = leb n 10000
is_score (negsuc n) = false

-- The constructor `Action(…)` with the checks of `__post_init__`.
unfoldable pub make_action : Action → Result Action
make_action a = do
  require (is_natural a.seq) policy_violation
  require (str_eq a.verb "revoke" || str_eq a.verb "downgrade") policy_violation
  require (str_eq a.scope a.from_scope) policy_violation
  from_severity ← severity a.from_scope
  to_severity ← severity a.to_scope
  require (leb to_severity from_severity) policy_violation
  require (not (str_eq a.verb "revoke") || str_eq a.to_scope no_access_scope) policy_violation
  require (not (str_eq a.verb "downgrade") || ltb to_severity from_severity) policy_violation
  require (is_score a.score) policy_violation
  ok a

-- `as_dict`: the hashed form has no pre-image key.
unfoldable pub action_dict : Action → Fields
action_dict a = field (name "seq") (number a.seq) (
    field (name "system") (text a.system) (
      field (name "resource") (text a.resource) (
        field (name "scope") (text a.scope) (
          field (name "verb") (text a.verb) (
            field (name "from_scope") (text a.from_scope) (
              field (name "to_scope") (text a.to_scope) (
                field (name "finding_id") (text a.finding_id) (
                  field (name "score") (number a.score)
                    (field (name "tier") (text a.tier) end)))))))))

pub record Plan : Type 0 where
  pub body : Fields
  pub envelope : Fields
  pub actions : List Action

-- `_envelope_text`
unfoldable pub envelope_text : String → Fields → Result String
unfolding find
envelope_text k envelope = elim (get k envelope) [
  | some (text s) ↦ ok s
  | some _ ↦ err type_error
  | none ↦ err key_error
]

-- `_stable_finding_id`. A `Finding` has no `finding_id`, so the id is always the digest.
unfoldable pub stable_finding_id : Runtime → Finding → Result String
unfolding canonical_dumps
stable_finding_id rt f = do
  let e = f.entitlement
  let identity =
      e.identity_id ⧺ ("|" ⧺ (e.system ⧺ ("|" ⧺ (e.resource ⧺ ("|" ⧺ scope_value e.scope)))))
  s ← canonical_dumps rt (mapping (field (name "identity") (text identity) end))
  ok (rt.sha256 s)

abbrev is_false : Option Value → Bool
is_false (some (boolean false)) = true
is_false _ = false

abbrev is_T0 : Tier → Bool
is_T0 T0 = true
is_T0 _ = false

abbrev is_T1 : Tier → Bool
is_T1 T1 = true
is_T1 _ = false

-- The verb and the scope that is left: T1 lowers to `read`, all else revokes.
unfoldable pub reduction : Tier → String → String × String
reduction tier from_scope =
    if is_T1 tier && not (str_eq from_scope "read")
    then ("downgrade", "read")
    else ("revoke", no_access_scope)

-- The action that a finding proposes, before the checks of its constructor.
unfoldable pub proposed_action : Finding → String → Action
unfolding reduction
proposed_action f finding_id =
    let e = f.entitlement in
    let from_scope = scope_value e.scope in
    let (verb, to_scope) = reduction f.tier from_scope in
    record {
      seq = pos 0;
      system = e.system;
      resource = e.resource;
      scope = from_scope;
      verb = verb;
      from_scope = from_scope;
      to_scope = to_scope;
      finding_id = finding_id;
      score = f.score;
      tier = tier_value f.tier;
      pre_image_key = none;
    }

-- Whether `_action_for` returns no action.
unfoldable pub is_skipped : Finding → Bool
unfolding find
is_skipped f =
    f.observe_only
    || (is_T0 f.tier || (is_T1 f.tier && is_false (get "reversible" f.entitlement.raw)))

-- `_action_for`
unfoldable pub action_for : Finding → String → Result (Option Action)
unfolding is_skipped proposed_action make_action
action_for f finding_id =
    if is_skipped f then ok none else do a ← make_action (proposed_action f finding_id); ok (some a)

-- `f.tier is T1` findings that cannot be undone, and T0 ones, drop out.
unfoldable pub propose : Runtime → List Finding → Result (List Action)
propose rt [] = ok []
propose rt (f ∷ fs) = do
  finding_id ← stable_finding_id rt f
  candidate ← action_for f finding_id
  rest ← propose rt fs
  elim candidate [ none ↦ ok rest | some a ↦ ok (a ∷ rest) ]

unfoldable pub action_le : Action → Action → Bool
unfolding lex by_text
action_le =
    lex (by_text (λ a. a.system))
      (lex (by_text (λ a. a.resource)) (lex (by_text (λ a. a.scope)) (by_text (λ a. a.finding_id))))

-- `replace(action, seq=seq)` for each action and its place.
unfoldable pub enumerate : ℕ → List Action → Result (List Action)
enumerate n [] = ok []
enumerate n (a ∷ l) = do
  b ← make_action (record a { seq = pos n })
  rest ← enumerate (suc n) l
  ok (b ∷ rest)

unfoldable pub dict_items : List Action → Values
unfolding action_dict
dict_items [] = nil
dict_items (a ∷ l) = cons (mapping (action_dict a)) (dict_items l)

unfoldable pub plan_body : String → String → List Action → Fields
unfolding dict_items
plan_body evaluated_at template_version actions = field (name "schema_version") (text "1") (
    field (name "evaluated_at") (text evaluated_at) (
      field (name "template_version") (text template_version) (
        field (name "weights_version") (text "v1")
          (field (name "actions") (items (dict_items actions)) end))))

-- `replace(action, pre_image_key=…)`
unfoldable pub with_key : Runtime → String → Action → Result Action
with_key rt digest a =
    make_action
      (record a { pre_image_key = some (preimage_key rt digest a.seq a.resource a.scope) })

-- `build`. The two ids are those that `uuid4` returns.
unfoldable pub build : Runtime → String → String → List Finding → Datetime → String → Result Plan
unfolding enumerate plan_body with_key
build rt plan_id trace_id findings evaluated_at template_version = do
  evaluated_at_text ← iso_second rt evaluated_at
  proposed ← propose rt findings
  base_actions ← enumerate 0 (sorted action_le proposed)
  let body = plan_body evaluated_at_text template_version base_actions
  digest ← plan_hash rt body
  actions ← traverse (with_key rt digest) base_actions
  let envelope = field (name "plan_id") (text plan_id) (
      field (name "created_at") (text evaluated_at_text)
        (field (name "trace_id") (text trace_id) (field (name "attempt") (number (pos 0)) end)))
  ok (record { body = body; envelope = envelope; actions = actions })
