-- ===== src/Engine/Drift.antt =====
-- Drift detection over entitlements and graph inputs (backend/src/deadbolt/engine/drift.py). The
-- identities, templates and reachability are plain Python objects, told apart by `isinstance`.
pub mod Findings
pub mod Ranking
use sams_simlplifynext.Prelude.{
  ℕ, zero, suc, String, Bool, true, false, not, ◌&&◌, ◌||◌, Option, none, some, List, [], ◌∷◌,
  if◌then◌else◌, or_else, is_some, length, leb,
}
use sams_simlplifynext.Prelude.Text.{str_eq, text_append}
use sams_simlplifynext.Prelude.Int.{ℤ, pos, pos_part, leb_ℤ}
use sams_simlplifynext.Prelude.Order.{sorted, lex, by_text}
use sams_simlplifynext.Errors.{Result, ok, err, ◌>>=◌}
use sams_simlplifynext.Runtime.{Runtime}
use sams_simlplifynext.Value.{
  Datetime, Key, name, pair, Value, Values, Fields, null, boolean, number, text, items, mapping,
  nil, cons, end, field, find, get, as_text, strings, truthy, attribute,
}
use sams_simlplifynext.Contracts.{Tier, T0, scope_value, Entitlement}
use sams_simlplifynext.Engine.Scoring.{
  scope_severity, whole_days_since, dormancy, role_mismatch, blast_radius, risk,
}
use sams_simlplifynext.Engine.Tiers.{Identity, identity_object, select_tier}

pub record Finding : Type 0 where
  pub entitlement : Entitlement
  pub s : ℕ
  pub d : ℕ
  pub m : ℕ
  pub b : ℕ
  pub score : ℤ
  pub tier : Tier
  pub evidence : Fields
  pub observe_only : Bool

-- `str(value)`
abbrev to_text : Runtime → Value → String
to_text rt (text s) = s
to_text rt v = rt.repr v

-- `Identity(identity_id=identity_id)`
abbrev pub bare_identity : String → Identity
bare_identity identity_id = record {
  identity_id = identity_id;
  role = none;
  oncall = false;
  groups = [];
  incident_tags = [];
}

module _ (rt : Runtime) where
  -- What the last two branches of `_identity` share, for the role that each finds.
  read_identity : Value → Value → String → Identity
  unfolding attribute truthy strings
  read_identity raw role identity_id = record {
    identity_id = to_text rt (or_else (attribute "identity_id" raw) (text identity_id));
    role = as_text role;
    oncall = truthy (or_else (attribute "oncall" raw) (boolean false));
    groups = strings (or_else (attribute "groups" raw) (items nil));
    incident_tags = strings (or_else (attribute "incident_tags" raw) (items nil));
  }

  -- `_identity`. An `Identity` is read by its attributes, which gives it back.
  unfoldable pub to_identity : Value → String → Identity
  unfolding read_identity find
  to_identity (mapping m) identity_id =
      let role =
        or_else (get "role" m) (or_else (get "role_title" m) (or_else (get "title" m) null)) in
      read_identity (mapping m) role identity_id
  to_identity raw identity_id = read_identity raw (or_else (attribute "role" raw) null) identity_id

  -- The loop over an iterable of identities.
  unfoldable pub identity_among : Values → String → Identity
  unfolding to_identity
  identity_among nil identity_id = bare_identity identity_id
  identity_among (cons raw rest) identity_id =
      let candidate = to_identity raw identity_id in
      let later = identity_among rest identity_id in
      if str_eq candidate.identity_id identity_id then candidate else later

  -- `_identity_for`
  unfoldable pub identity_for : Value → String → Identity
  unfolding identity_among find
  identity_for (mapping m) identity_id = elim (get identity_id m) [
    | some raw ↦ to_identity raw identity_id
    | none ↦
        if is_some (get "identity_id" m)
          || (is_some (get "oncall" m)
              || (is_some (get "groups" m) || is_some (get "incident_tags" m)))
        then to_identity (mapping m) identity_id
        else bare_identity identity_id
  ]
  identity_for (items vs) identity_id = identity_among vs identity_id
  identity_for _ identity_id = bare_identity identity_id

abbrev find_role : Option String → Fields → Option Value
unfolding find
find_role none m = none
find_role (some role) m = get role m

-- `_template_for`
unfoldable pub template_for : Value → Identity → String → Value
unfolding find
template_for (mapping m) identity identity_id =
    if is_some (get "scopes" m) || is_some (get "allowed_scopes" m)
    then mapping m
    else or_else (find_role identity.role m) (or_else (get identity_id m) null)
template_for templates identity identity_id = templates

-- `f"{system}#{resource}"`
abbrev pub joined_key : String → String → String
joined_key system resource = text_append system (text_append "#" resource)

-- The first of the three keys that is in the mapping.
unfoldable pub direct_reach : Fields → Entitlement → Value
unfolding find
direct_reach m e =
    or_else (find (pair e.system e.resource) m)
      (or_else (get (joined_key e.system e.resource) m) (or_else (get e.resource m) null))

-- A missing or null value is looked up once more in the mapping of the system.
unfoldable pub reach_value : Fields → Entitlement → Value → Value
unfolding find
reach_value m e null = elim (get e.system m) [
  | some (mapping nested) ↦ or_else (get e.resource nested) null
  | _ ↦ null
]
reach_value m e value = value

unfoldable pub count_reach : Value → ℕ
unfolding strings
count_reach (boolean true) = 1
count_reach (boolean false) = 0
count_reach (number n) = pos_part n
count_reach value = length (strings value)

-- `_reachable_count`
unfoldable pub reachable_count : Value → Entitlement → ℕ
unfolding direct_reach reach_value count_reach
reachable_count (mapping m) e = count_reach (reach_value m e (direct_reach m e))
reachable_count reachability e = 0

module _ (rt : Runtime) where
  -- `Tier.T0 if not entitlement.revocable else select_tier(score, identity)`
  unfoldable pub finding_tier : Entitlement → ℤ → Identity → Result Tier
  finding_tier e score identity =
      if e.revocable then select_tier rt (number score) (identity_object identity) else ok T0

  unfoldable pub days_unused : Entitlement → Datetime → Result Value
  days_unused e evaluated_at = elim e.last_used_at [
    | none ↦ ok (text "never")
    | some t ↦ do days ← whole_days_since t evaluated_at; ok (number (pos days))
  ]

  -- `_finding`
  unfoldable pub make_finding :
      Entitlement → Identity → Value → Value → Datetime → Fields → Result Finding
  unfolding finding_tier days_unused
  make_finding e identity templates reachability evaluated_at weights = do
    let template = template_for templates identity e.identity_id
    s ← scope_severity (scope_value e.scope)
    d ← dormancy e.last_used_at evaluated_at
    let m = role_mismatch e template
    let count = reachable_count reachability e
    b ← blast_radius rt (number (pos count))
    score ← risk rt (number (pos s)) (number (pos d)) (number (pos m)) (number (pos b)) weights
    tier ← finding_tier e score identity
    unused ← days_unused e evaluated_at
    ok (record {
      entitlement = e;
      s = s;
      d = d;
      m = m;
      b = b;
      score = score;
      tier = tier;
      evidence = field (name "scope_severity") (number (pos s)) (
          field (name "dormancy") (number (pos d)) (
            field (name "role_mismatch") (boolean (not (leb m 0))) (
              field (name "role_mismatch_score") (number (pos m)) (
                field (name "blast_radius") (number (pos b)) (
                  field (name "days_unused") unused
                    (field (name "blast_radius_count") (number (pos count)) end))))));
      observe_only = not e.revocable;
    })

-- The sort key of `detect`: the score downwards, then four texts by their encoding.
abbrev pub score_ge : Finding → Finding → Bool
score_ge f g = leb_ℤ g.score f.score

unfoldable pub finding_le : Finding → Finding → Bool
unfolding lex by_text
finding_le = lex score_ge (
    lex (by_text (λ f. f.entitlement.system)) (
      lex (by_text (λ f. f.entitlement.resource)) (
        lex (by_text (λ f. scope_value f.entitlement.scope))
          (by_text (λ f. f.entitlement.identity_id)))))

module _ (rt : Runtime) (identities templates reachability : Value) (evaluated_at : Datetime)
    (weights : Fields) where
  -- The list that `detect` sorts.
  unfoldable pub find_all : List Entitlement → Result (List Finding)
  find_all [] = ok []
  find_all (e ∷ es) = do
    f ←
        make_finding rt e (identity_for rt identities e.identity_id) templates reachability
          evaluated_at weights
    rest ← find_all es
    ok (f ∷ rest)

  unfoldable pub detect : List Entitlement → Result (List Finding)
  unfolding find_all
  detect entitlements = do findings ← find_all entitlements; ok (sorted finding_le findings)
