-- ===== src/Tests/Plans.antt =====
-- Plans at concrete inputs.
use sams_simlplifynext.Prelude.{ℕ, ◌<◌, String, true, false, some, [], ◌∷◌, All, ◌≡◌, refl, arith}
use sams_simlplifynext.Prelude.Int.{pos}
use sams_simlplifynext.Errors.{ok, is_ok, ok-of_is_ok, traverse}
use sams_simlplifynext.Contracts.{scope_value}
use sams_simlplifynext.Plan.Canonical.{plan_hash, iso_second, canonical_value, json_text}
use sams_simlplifynext.Plan.Builder.{
  severity, propose, stable_finding_id, make_action, Plan, is_skipped, proposed_action, action_for,
  build,
}
use sams_simlplifynext.Plan.Builder.Reduction.{
  IsReduction, make_action_lem, action_for_total, HasKey, AreNumbered, build_lem,
}
use sams_simlplifynext.Tests.Fixtures.{test_runtime, at, alice_action, alice_finding}

alice_action-made : make_action alice_action ≡ ok alice_action
unfolding make_action severity
alice_action-made = refl

make_action_lem_example : (alice_action ≡ alice_action) × IsReduction alice_action
make_action_lem_example = make_action_lem alice_action alice_action alice_action-made

alice_finding-kept : is_skipped alice_finding ≡ false
unfolding is_skipped
alice_finding-kept = refl

action_for_total_example :
    (action_for alice_finding "f1" ≡ ok (some (proposed_action alice_finding "f1")))
    × (s : ℕ) × (t : ℕ) × (severity (scope_value alice_finding.entitlement.scope) ≡ ok s)
    × (severity (proposed_action alice_finding "f1").to_scope ≡ ok t)
    × (t < s)
action_for_total_example =
    action_for_total alice_finding "f1" 6500 refl (omega arith) alice_finding-kept

alice_plan-built : is_ok (build test_runtime "p1" "t1" (alice_finding ∷ []) (at (pos 0)) "1") ≡ true
unfolding build iso_second propose stable_finding_id canonical_value json_text action_for severity
    plan_hash traverse
alice_plan-built = refl

abbrev built :
    (p : Plan) × (build test_runtime "p1" "t1" (alice_finding ∷ []) (at (pos 0)) "1" ≡ ok p)
built = ok-of_is_ok _ alice_plan-built

build_lem_example :
    (digest : String) × (plan_hash test_runtime built.0.body ≡ ok digest)
    × All (λ a. HasKey test_runtime digest a × IsReduction a) built.0.actions
    × AreNumbered 0 built.0.actions
build_lem_example = build_lem test_runtime "p1" "t1" (alice_finding ∷ []) (at (pos 0)) "1" built.1
