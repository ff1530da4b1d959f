-- ===== src/Engine/Scoring/Bounds.antt =====
-- Every factor is a number of basis points, and so is a score by weights that are not negative.
use sams_simlplifynext.Prelude.{ℕ, ◌+◌, ◌*◌, ◌/◌, ◌≤◌, ◌≡◌, refl, ◌⊎◌, Option, none, some, arith}
use sams_simlplifynext.Prelude.Int.{
  ℤ, pos, ◌≤ℤ◌, ◌+ℤ◌, ◌-ℤ◌, floor_div, pos_part, neg_part, -ℤ_parts, add_pos, mul_pos,
}
use sams_simlplifynext.Errors.{ok}
use sams_simlplifynext.Runtime.{Runtime}
use sams_simlplifynext.Value.{Datetime, Value, Fields, number}
use sams_simlplifynext.Contracts.{Scope, scope_value}
use sams_simlplifynext.Engine.Scoring.{
  scope_severity, basis_points, elapsed_days, dormancy, blast_radius, read_weights, weighted_score,
  risk,
}

pub scope_severity_total :
    (s : Scope) → (n : ℕ) × (scope_severity (scope_value s) ≡ ok n) × (n ≤ 10000)
unfolding scope_severity
scope_severity_total Scope.read = (1000, refl, omega arith)
scope_severity_total Scope.write = (5000, refl, omega arith)
scope_severity_total Scope.admin = (9000, refl, omega arith)
scope_severity_total _ = (10000, refl, omega arith)

pub dormancy_bound :
    (last : Option Datetime) (now : Datetime) {d : ℕ} → dormancy last now ≡ ok d → d ≤ 10000
unfolding dormancy
dormancy_bound none now h = ground arith
dormancy_bound (some t) now h = ground arith

floor_div_mono : (a b : ℤ) → a ≤ℤ b → floor_div a 1000000 ≤ℤ floor_div b 1000000
unfolding floor_div
floor_div_mono a b h = ground arith

floor_div_mono_day : (a b : ℤ) → a ≤ℤ b → floor_div a 86400 ≤ℤ floor_div b 86400
unfolding floor_div
floor_div_mono_day a b h = ground arith

parts_split : (a : ℤ) → (pos_part a ≡ 0) ⊎ (neg_part a ≡ 0)
parts_split a = ground arith

pub elapsed_days_mono : (t a b : ℤ) → a ≤ℤ b → elapsed_days t a ≤ elapsed_days t b
unfolding elapsed_days
elapsed_days_mono t a b h = omega (
  arith,
  -ℤ_parts a t,
  -ℤ_parts b t,
  floor_div_mono (a -ℤ t) (b -ℤ t),
  floor_div_mono_day (floor_div (a -ℤ t) 1000000) (floor_div (b -ℤ t) 1000000),
  parts_split (floor_div (floor_div (a -ℤ t) 1000000) 86400),
  parts_split (floor_div (floor_div (b -ℤ t) 1000000) 86400),
)

-- If both evaluations of the dormancy of a last use return, the one at the later time is not
-- lower.
pub dormancy_mono :
    (last : Option Datetime) (now later : Datetime) {c d : ℕ}
    → now.micros ≤ℤ later.micros
    → dormancy last now ≡ ok c
    → dormancy last later ≡ ok d
    → c ≤ d
unfolding dormancy
dormancy_mono none now later h p q = ground arith
dormancy_mono (some t) now later h p q =
    ground (arith, elapsed_days_mono t.micros now.micros later.micros h)

pub blast_radius_bound : (rt : Runtime) (v : Value) {b : ℕ} → blast_radius rt v ≡ ok b → b ≤ 10000
unfolding blast_radius
blast_radius_bound rt (number n) h = ground arith
blast_radius_bound rt _ h = cc

pub basis_points_bound : (v : Value) {n : ℕ} → basis_points v ≡ ok n → n ≤ 10000
unfolding basis_points
basis_points_bound (number (pos n)) h = ground arith
basis_points_bound _ h = cc

scale : (f w : ℕ) → f ≤ 10000 → f * w ≤ 10000 * w
scale f w h = grind arith

-- The weights of the policy as natural numbers.
pub weighted_score_lem :
    (s d m b ws wd wm wb : ℕ)
    → weighted_score s d m b (pos ws, pos wd, pos wm, pos wb)
      ≡ pos ((s * ws + d * wd + m * wm + b * wb) / 100)
unfolding weighted_score
weighted_score_lem s d m b ws wd wm wb = simp (mul_pos, add_pos) (unfold floor_div in refl)

pub weighted_score_bound :
    (s d m b ws wd wm wb : ℕ)
    → s ≤ 10000
    → d ≤ 10000
    → m ≤ 10000
    → b ≤ 10000
    → ws + wd + wm + wb ≡ 100
    → (s * ws + d * wd + m * wm + b * wb) / 100 ≤ 10000
weighted_score_bound s d m b ws wd wm wb hs hd hm hb sum =
    omega (arith, scale s ws hs, scale d wd hd, scale m wm hm, scale b wb hb)

weight_sum : (a b c d : ℕ) → pos a +ℤ pos b +ℤ pos c +ℤ pos d ≡ pos (a + b + c + d)
weight_sum a b c d = simp add_pos

pub read_weights-sum :
    (rt : Runtime) (weights : Fields) (ws wd wm wb : ℕ)
    → read_weights rt weights ≡ ok (pos ws, pos wd, pos wm, pos wb)
    → ws + wd + wm + wb ≡ 100
unfolding read_weights
read_weights-sum rt weights ws wd wm wb h = ground (arith, weight_sum ws wd wm wb)

-- From four factors of at most 10000 and weights that are read as natural numbers, `risk`
-- returns the weighted sum divided by 100 and rounded down, which is at most 10000.
pub risk_mean :
    (rt : Runtime) (s d m b ws wd wm wb : ℕ) (weights : Fields)
    → s ≤ 10000
    → d ≤ 10000
    → m ≤ 10000
    → b ≤ 10000
    → read_weights rt weights ≡ ok (pos ws, pos wd, pos wm, pos wb)
    → let r = (s * ws + d * wd + m * wm + b * wb) / 100 in
      (risk rt (number (pos s)) (number (pos d)) (number (pos m)) (number (pos b)) weights
        ≡ ok (pos r))
      × (r ≤ 10000)
unfolding risk basis_points
risk_mean rt s d m b ws wd wm wb weights hs hd hm hb h = (
  ground (arith, weighted_score_lem s d m b ws wd wm wb),
  weighted_score_bound s d m b ws wd wm wb hs hd hm hb (read_weights-sum rt weights ws wd wm wb h),
)
