-- ===== src/Tests/Scores.antt =====
-- The engine at concrete inputs.
use mathlib.Core.List.{Perm}
use sams_simlplifynext.Prelude.{
  ℕ, ◌≤◌, ◌*◌, ◌+◌, ◌/◌, true, not, some, List, [], ◌∷◌, ◌≡◌, ◌≢◌, refl, arith,
}
use sams_simlplifynext.Prelude.Order.{AreRanked}
use sams_simlplifynext.Prelude.Int.{pos, ◌+ℤ◌}
use sams_simlplifynext.Errors.{ok, is_ok, ok-of_is_ok}
use sams_simlplifynext.Value.{
  Value, null, boolean, number, mapping, name, end, field, put, find, attribute, truthy,
}
use sams_simlplifynext.Contracts.{Tier, T0, T1, T2}
use sams_simlplifynext.Engine.Scoring.{
  default_weights, dormancy, elapsed_days, check_aware, whole_days_since, lower_keys, select_weight,
  read_weights, risk,
}
use sams_simlplifynext.Engine.Scoring.Bounds.{dormancy_mono, risk_mean}
use sams_simlplifynext.Engine.Tiers.{break_glass, select_tier, identity_object, score_tier}
use sams_simlplifynext.Engine.Tiers.Policy.{
  rank, InTier, select_tier_total, select_tier_mono, break_glass-ne-T1,
}
use sams_simlplifynext.Engine.Drift.{Finding, bare_identity, make_finding, detect}
use sams_simlplifynext.Engine.Drift.Findings.{IsTiered, make_finding_lem, make_finding_total}
use sams_simlplifynext.Engine.Drift.Ranking.{IsBefore, AreFindings, detect_lem, detect_total}
use sams_simlplifynext.Tests.Fixtures.{test_runtime, at, alice_write, bob_write}

default_weights-valid :
    read_weights test_runtime default_weights ≡ ok (pos 40, pos 25, pos 20, pos 15)
unfolding read_weights lower_keys select_weight put find ◌+ℤ◌
default_weights-valid = refl

risk_mean_example :
    (risk test_runtime
        (number (pos 9000))
        (number (pos 10000))
        (number (pos 0))
        (number (pos 7501))
        default_weights
      ≡ ok (pos ((9000 * 40 + 10000 * 25 + 0 * 20 + 7501 * 15) / 100)))
    × ((9000 * 40 + 10000 * 25 + 0 * 20 + 7501 * 15) / 100 ≤ 10000)
risk_mean_example =
    risk_mean test_runtime 9000 10000 0 7501 40 25 20 15 default_weights (omega arith) (omega arith)
      (omega arith) (omega arith) default_weights-valid

dormancy_45 : dormancy (some (at (pos 0))) (at (pos 3888000000000)) ≡ ok 5000
unfolding dormancy elapsed_days check_aware whole_days_since
dormancy_45 = refl

dormancy_90 : dormancy (some (at (pos 0))) (at (pos 7776000000000)) ≡ ok 10000
unfolding dormancy elapsed_days check_aware whole_days_since
dormancy_90 = refl

dormancy_mono_example : 5000 ≤ 10000
dormancy_mono_example =
    dormancy_mono (some (at (pos 0))) (at (pos 3888000000000)) (at (pos 7776000000000))
      (omega arith) dormancy_45 dormancy_90

abbrev on_call : Value
on_call = mapping (field (name "oncall") (boolean true) end)

on_call-break_glass : break_glass test_runtime on_call ≡ true
unfolding break_glass attribute truthy find
on_call-break_glass = refl

break_glass-ne-T1_example : select_tier test_runtime (number (pos 4000)) on_call ≢ ok T1
break_glass-ne-T1_example =
    break_glass-ne-T1 test_runtime (number (pos 4000)) on_call on_call-break_glass

select_tier_total_example :
    (t : Tier) × (select_tier test_runtime (number (pos 4000)) on_call ≡ ok t)
    × InTier (break_glass test_runtime on_call) 4000 t
select_tier_total_example = select_tier_total test_runtime 4000 on_call (omega arith)

on_call-T0 : select_tier test_runtime (number (pos 2999)) on_call ≡ ok T0
unfolding select_tier break_glass attribute truthy find score_tier
on_call-T0 = refl

on_call-T2 : select_tier test_runtime (number (pos 4000)) on_call ≡ ok T2
unfolding select_tier break_glass attribute truthy find score_tier
on_call-T2 = refl

select_tier_mono_example : rank T0 ≤ rank T2
select_tier_mono_example =
    select_tier_mono test_runtime 2999 4000 on_call (omega arith) on_call-T0 on_call-T2

make_finding_total_example :
    is_ok (
      make_finding test_runtime alice_write
        (bare_identity "alice")
        null
        null
        (at (pos 3888000000000))
        default_weights)
    ≡ true
make_finding_total_example =
    make_finding_total test_runtime alice_write (bare_identity "alice") null null
      (at (pos 3888000000000)) default_weights 40 25 20 15 refl refl default_weights-valid

abbrev made :
    (f : Finding) × (make_finding test_runtime alice_write
        (bare_identity "alice")
        null
        null
        (at (pos 3888000000000))
        default_weights
      ≡ ok f)
made = ok-of_is_ok _ make_finding_total_example

make_finding_lem_example :
    (made.0.entitlement ≡ alice_write)
    × (made.0.s ≤ 10000)
    × (made.0.d ≤ 10000)
    × (made.0.m ≤ 10000)
    × (made.0.b ≤ 10000)
    × (made.0.observe_only ≡ not alice_write.revocable)
    × (n : ℕ) × (made.0.score ≡ pos n)
    × (n ≤ 10000)
    × (n ≡ (made.0.s * 40 + made.0.d * 25 + made.0.m * 20 + made.0.b * 15) / 100)
    × IsTiered made.0.observe_only
        (break_glass test_runtime (identity_object (bare_identity "alice")))
        n
        made.0.tier
make_finding_lem_example =
    make_finding_lem test_runtime alice_write (bare_identity "alice") null null
      (at (pos 3888000000000)) default_weights 40 25 20 15 default_weights-valid made.1

detect_total_example :
    is_ok (
      detect test_runtime null null null
        (at (pos 3888000000000))
        default_weights
        (alice_write ∷ bob_write ∷ []))
    ≡ true
detect_total_example =
    detect_total test_runtime null null null (at (pos 3888000000000)) default_weights
      (alice_write ∷ bob_write ∷ []) 40 25 20 15 (refl, (refl, tt)) refl default_weights-valid

abbrev detected :
    (l : List Finding) × (detect test_runtime null null null
        (at (pos 3888000000000))
        default_weights
        (alice_write ∷ bob_write ∷ [])
      ≡ ok l)
detected = ok-of_is_ok _ detect_total_example

detect_lem_example :
    (fs : List Finding) × AreFindings test_runtime null null null
      (at (pos 3888000000000))
      default_weights
      (alice_write ∷ bob_write ∷ [])
      fs
    × Perm detected.0 fs
    × AreRanked IsBefore detected.0
detect_lem_example =
    detect_lem test_runtime null null null (at (pos 3888000000000)) default_weights
      (alice_write ∷ bob_write ∷ []) detected.1
