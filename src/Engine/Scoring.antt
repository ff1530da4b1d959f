-- ===== src/Engine/Scoring.antt =====
-- Integer risk scores (backend/src/deadbolt/engine/scoring.py). Factors are basis points.
pub mod Bounds
use sams_simlplifynext.Prelude.{
  ℕ, ◌+◌, ◌*◌, ◌/◌, min, String, Bool, true, false, ◌&&◌, ◌||◌, Option, none, some, List, [], ◌∷◌,
  leb, if◌then◌else◌, or_else,
}
use sams_simlplifynext.Prelude.Text.{str_eq, text_in}
use sams_simlplifynext.Prelude.Int.{ℤ, pos, negsuc, pos_part, ◌+ℤ◌, ◌-ℤ◌, ◌*ℤ◌, floor_div}
use sams_simlplifynext.Errors.{
  Result, ok, err, value_error, policy_violation, attribute_error, ◌>>=◌, ◌>>◌, require,
}
use sams_simlplifynext.Runtime.{Runtime}
use sams_simlplifynext.Value.{
  Datetime, Key, name, pair, Value, Values, Fields, null, real, boolean, number, text, instant,
  items, mapping, instance_of, end, field, find, get, put, attribute, strings,
}
use sams_simlplifynext.Contracts.{Scope, scope_value, Entitlement}

abbrev pub max_basis_points : ℕ
max_basis_points = 10000

abbrev pub seconds_per_day : ℕ
seconds_per_day = 86400

abbrev pub weight_total : ℕ
weight_total = 100

abbrev weight : String → ℕ → Fields → Fields
weight k n rest = field (name k) (number (pos n)) rest

abbrev pub default_weights : Fields
default_weights = weight "s" 40 (weight "d" 25 (weight "m" 20 (weight "b" 15 end)))

-- The table `_SCOPE_SEVERITIES`, and the error of a scope that it lacks.
unfoldable pub scope_severity : String → Result ℕ
scope_severity s =
    if str_eq s "read"
    then ok 1000
    else if str_eq s "write"
    then ok 5000
    else if str_eq s "admin"
    then ok 9000
    else if str_eq s "billing" || (str_eq s "secrets" || str_eq s "iam")
    then ok 10000
    else err value_error

-- `_basis_points`
unfoldable pub basis_points : Value → Result ℕ
basis_points (number (pos n)) = if leb n max_basis_points then ok n else err policy_violation
basis_points _ = err policy_violation

-- `_aware`
unfoldable pub check_aware : Datetime → Result (Unit {0})
check_aware t = require t.aware value_error

-- Whole seconds are rounded down, also those before the epoch of the difference.
unfoldable pub elapsed_days : ℤ → ℤ → ℕ
unfolding floor_div ◌-ℤ◌
elapsed_days last now =
    let whole_seconds = floor_div (now -ℤ last) 1000000 in
    pos_part (floor_div whole_seconds seconds_per_day)

unfoldable pub whole_days_since : Datetime → Datetime → Result ℕ
unfolding check_aware elapsed_days
whole_days_since last_used_at evaluated_at = do
  check_aware last_used_at
  check_aware evaluated_at
  ok (elapsed_days last_used_at.micros evaluated_at.micros)

unfoldable pub dormancy : Option Datetime → Datetime → Result ℕ
unfolding check_aware whole_days_since
dormancy none evaluated_at = do check_aware evaluated_at; ok max_basis_points
dormancy (some last_used_at) evaluated_at = do
  check_aware evaluated_at
  days_since ← whole_days_since last_used_at evaluated_at
  ok (min max_basis_points (max_basis_points * days_since / 90))

-- A mapping's `scopes`, or its `allowed_scopes`; an object's `scopes`.
unfoldable pub scope_names : Value → List String
unfolding find attribute strings
scope_names (mapping m) = strings (or_else (get "scopes" m) (or_else (get "allowed_scopes" m) null))
scope_names template = strings (or_else (attribute "scopes" template) null)

unfoldable pub role_mismatch : Entitlement → Value → ℕ
unfolding text_in scope_names
role_mismatch entitlement template =
    if text_in (scope_value entitlement.scope) (scope_names template) then 0 else max_basis_points

-- The clamp is by `pos_part` (`max(0, …)`) and `min`.
unfoldable pub blast_radius : Runtime → Value → Result ℕ
blast_radius rt (number n) =
    let count = pos_part n in
    if leb count 0 then ok 0 else ok (min max_basis_points (pos_part (rt.decimal_log count)))
blast_radius rt _ = err value_error

-- `{key.lower(): value for key, value in weights.items()}`
unfoldable pub lower_keys : Runtime → Fields → Fields → Result Fields
unfolding put
lower_keys rt end acc = ok acc
lower_keys rt (field (name k) v m) acc = lower_keys rt m (put (name (rt.lower k)) v acc)
lower_keys rt (field (pair a b) v m) acc = err attribute_error

-- The first of the aliases that is a key must hold an integer.
unfoldable pub select_weight : Fields → List String → Result ℤ
unfolding find
select_weight m [] = err policy_violation
select_weight m (k ∷ choices) =
    let rest = select_weight m choices in
    elim (get k m) [ none ↦ rest | some (number n) ↦ ok n | some _ ↦ err policy_violation ]

abbrev is_weight_total : ℤ → Bool
is_weight_total (pos n) = leb n weight_total && leb weight_total n
is_weight_total (negsuc n) = false

-- `_weights`
unfoldable pub read_weights : Runtime → Fields → Result (ℤ × ℤ × ℤ × ℤ)
read_weights rt weights = do
  normalized ← lower_keys rt weights end
  s ← select_weight normalized ("s" ∷ "scope" ∷ "scope_severity" ∷ [])
  d ← select_weight normalized ("d" ∷ "dormancy" ∷ [])
  m ← select_weight normalized ("m" ∷ "mismatch" ∷ "role_mismatch" ∷ [])
  b ← select_weight normalized ("b" ∷ "blast" ∷ "blast_radius" ∷ [])
  require (is_weight_total (s +ℤ d +ℤ m +ℤ b)) policy_violation
  ok (s, d, m, b)

-- The weighted sum of `risk`, rounded down.
unfoldable pub weighted_score : ℕ → ℕ → ℕ → ℕ → ℤ × ℤ × ℤ × ℤ → ℤ
weighted_score s d m b (ws, wd, wm, wb) =
    floor_div (pos s *ℤ ws +ℤ pos d *ℤ wd +ℤ pos m *ℤ wm +ℤ pos b *ℤ wb) weight_total

unfoldable pub risk : Runtime → Value → Value → Value → Value → Fields → Result ℤ
risk rt s d m b weights = do
  s' ← basis_points s
  d' ← basis_points d
  m' ← basis_points m
  b' ← basis_points b
  ws ← read_weights rt weights
  ok (weighted_score s' d' m' b' ws)
