-- ===== src/Tests/Approval.antt =====
-- Executions of the approval workflow.
use sams_simlplifynext.Prelude.{
  ◌+◌, ◌≤◌, String, true, false, List, [], ◌∷◌, all, length, ◌≡◌, ◌≢◌, refl, ap,
}
use sams_simlplifynext.Prelude.Text.{str_eq}
use sams_simlplifynext.Value.{Fields, name, boolean, text, end, field, find, put}
use sams_simlplifynext.Contracts.{T1, T3}
use sams_simlplifynext.Broker.StateMachine.{
  StateName, route_tier, prepare_t1_approval, notify_approver, mark_decision_disposition,
  mark_approved, record_decision, route_decision, execute_approved, proceed_after_timeout,
  page_security_on_call, build_definition, transition, returned, failed, Runs, here, step,
  entry_choices, timeout_input, tier_timeout_policy, pick, string_equals, has_paths,
  tier_entry_state,
}
use sams_simlplifynext.Broker.StateMachine.Progress.{rank, Runs-bound, Runs-unattended}
use sams_simlplifynext.Broker.StateMachine.Timeout.{Runs-ne-proceed}

-- An output of the callback with every field that the audit task takes.
abbrev callback : String → Fields
callback decision = field (name "approver_id") (text "sam") (
    field (name "action") (text "revoke") (
      field (name "decision") (text decision) (
        field (name "finding_id") (text "f1") (
          field (name "identity_id") (text "alice") (
            field (name "plan_hash") (text "h") (
              field (name "plan_id") (text "p1") (
                field (name "pre_image_key") (text "k") (
                  field (name "provider") (text "github") (
                    field (name "resource") (text "repo") (
                      field (name "result") (text "pending") (
                        field (name "scope") (text "write") (
                          field (name "system") (text "github") (
                            field (name "trace_id") (text "t1") (
                              field (name "traceparent") (text "00")
                                (field (name "tier") (text "T1") end)))))))))))))))

abbrev to_notify : List StateName
to_notify = route_tier ∷ prepare_t1_approval ∷ []

abbrev to_executor : List StateName
to_executor =
    route_tier ∷ prepare_t1_approval ∷ notify_approver ∷ mark_decision_disposition ∷ mark_approved
    ∷ record_decision ∷ route_decision ∷ []

approved_run :
    Runs route_tier
      (timeout_input T1)
      to_executor
      execute_approved
      (put (name "acted") (boolean true) (callback "Approve"))
unfolding timeout_input tier_timeout_policy build_definition transition pick string_equals has_paths
    find put all entry_choices tier_entry_state
approved_run = step failed refl (
    step failed refl (
      step (returned (callback "Approve")) refl
        (step failed refl (step failed refl (step (returned end) refl (step failed refl here))))))

Runs-bound_example : length to_executor + rank execute_approved ≤ rank route_tier
Runs-bound_example = Runs-bound approved_run

Runs-ne-proceed_example : execute_approved ≢ proceed_after_timeout
Runs-ne-proceed_example = Runs-ne-proceed approved_run

abbrev to_page : List StateName
to_page = route_tier ∷ []

page_run : Runs route_tier (timeout_input T3) to_page page_security_on_call (timeout_input T3)
unfolding timeout_input tier_timeout_policy build_definition transition pick string_equals find
    entry_choices tier_entry_state
page_run = step failed refl here

t3-ne-t1 : ◌≢◌ {A = String} "T3" "T1"
t3-ne-t1 e = let differ : true ≡ false = ap (str_eq "T3") e in absurd cc

t3-ne-t2 : ◌≢◌ {A = String} "T3" "T2"
t3-ne-t2 e = let differ : true ≡ false = ap (str_eq "T3") e in absurd cc

Runs-unattended_example : page_security_on_call ≢ execute_approved
unfolding timeout_input find
Runs-unattended_example = Runs-unattended "T3" refl t3-ne-t1 t3-ne-t2 page_run
