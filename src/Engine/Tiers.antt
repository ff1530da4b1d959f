-- ===== src/Engine/Tiers.antt =====
-- Tier selection and break-glass handling (backend/src/deadbolt/engine/tiers.py).
pub mod Policy
use sams_simlplifynext.Prelude.{
  ℕ, String, Bool, true, false, ◌||◌, Option, none, some, List, [], ◌∷◌, map, ltb, leb,
  if◌then◌else◌, or_else, any,
}
use sams_simlplifynext.Prelude.Text.{text_in}
use sams_simlplifynext.Prelude.Int.{ℤ, pos}
use sams_simlplifynext.Errors.{Result, ok, err, policy_violation, ◌>>=◌, ◌>>◌, require}
use sams_simlplifynext.Runtime.{Runtime}
use sams_simlplifynext.Value.{
  name, Value, Values, Fields, null, boolean, number, text, items, instance_of, nil, cons, end,
  field, strings, truthy, attribute,
}
use sams_simlplifynext.Contracts.{Tier, T0, T1, T2, T3}

abbrev pub protected_groups : List String
protected_groups =
    "break-glass" ∷ "break_glass" ∷ "protected" ∷ "security" ∷ "security-admin" ∷ "security-admins"
    ∷ []

abbrev pub max_score : ℕ
max_score = 10000

abbrev pub t1_start : ℕ
t1_start = 3000

abbrev pub t2_start : ℕ
t2_start = 6000

abbrev pub t3_start : ℕ
t3_start = 8500

pub record Identity : Type 0 where
  pub identity_id : String
  pub role : Option String
  pub oncall : Bool
  pub groups : List String
  pub incident_tags : List String

abbrev pub text_values : List String → Values
text_values [] = nil
text_values (s ∷ l) = cons (text s) (text_values l)

abbrev pub optional_text : Option String → Value
optional_text none = null
optional_text (some s) = text s

-- An `Identity` as the object that the policy reads by attribute.
abbrev pub identity_object : Identity → Value
identity_object i = instance_of "Identity" (
    field (name "identity_id") (text i.identity_id) (
      field (name "role") (optional_text i.role) (
        field (name "oncall") (boolean i.oncall) (
          field (name "groups") (items (text_values i.groups))
            (field (name "incident_tags") (items (text_values i.incident_tags)) end)))))

-- `bool(_value(identity, k, default))`, and `_text_set` of it, where the default is empty.
abbrev flag : String → Value → Bool
unfolding attribute truthy
flag k identity = truthy (or_else (attribute k identity) null)

abbrev text_set : String → Value → List String
unfolding attribute strings
text_set k identity = strings (or_else (attribute k identity) null)

-- `{group.lower() for group in groups} & PROTECTED_GROUPS` is not empty
unfoldable pub in_protected_group : Runtime → List String → Bool
unfolding any text_in
in_protected_group rt groups = any (λ g. text_in (rt.lower g) protected_groups) groups

abbrev is_filled {ℓ} : {A : Type ℓ} → List A → Bool
is_filled [] = false
is_filled (x ∷ xs) = true

-- `_break_glass`
unfoldable pub break_glass : Runtime → Value → Bool
unfolding in_protected_group attribute truthy strings
break_glass rt identity =
    flag "oncall" identity
    || (flag "protected" identity
        || (in_protected_group rt (text_set "groups" identity)
            || (in_protected_group rt (text_set "protected_groups" identity)
                || (flag "active_incident" identity
                    || (flag "incident_active" identity
                        || is_filled (text_set "incident_tags" identity))))))

-- The ladder of thresholds.
unfoldable pub score_tier : ℕ → Tier
score_tier n =
    if ltb n t1_start then T0 else if ltb n t2_start then T1 else if ltb n t3_start then T2 else T3

abbrev lift_T1 : Bool → Tier → Tier
lift_T1 true T1 = T2
lift_T1 _ t = t

unfoldable pub select_tier : Runtime → Value → Value → Result Tier
unfolding score_tier
select_tier rt (number (pos n)) identity = do
  require (leb n max_score) policy_violation
  ok (lift_T1 (break_glass rt identity) (score_tier n))
select_tier rt _ identity = err policy_violation
