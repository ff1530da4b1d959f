-- ===== src/Broker/StateMachine/Safety.antt =====
-- Only an approved action is executed.
use sams_simlplifynext.Prelude.{true, false, some, List, [], ◌≡◌, refl, sym, ◌∙◌}
use sams_simlplifynext.Value.{Fields, boolean, text, find, get}
use sams_simlplifynext.Value.Lookup.{get-put, get-put_other}
use sams_simlplifynext.Broker.StateMachine.{
  StateName, route_tier, prepare_t1_approval, prepare_t2_approval, notify_approver, timeout_by_tier,
  mark_decision_disposition, mark_approved, mark_declined, record_decision, route_decision,
  execute_approved, reduce_further, keep_with_reason, declined_to_act, record_declined_decision,
  observe_only, record_observation, proceed_after_timeout, mark_approved_timeout,
  record_timeout_proceed, escalate_security_admin, page_security_on_call, mark_declined_timeout,
  record_timeout_decline, succeed, build_definition, entry_choices, timeout_choices,
  disposition_choices, decision_choices, audit_paths, audit_function, executor_function,
  negotiator_function, notify_function, pager_function, Outcome, returned, timed_out, failed, Runs,
  here, step, transition,
}
use sams_simlplifynext.Broker.StateMachine.Data.{Leads, Leads-some, choice-Leads, task-Leads}

abbrev pub IsApproved : Fields → Type 0
unfolding find
IsApproved d = get "decision" d ≡ some (text "Approve")

abbrev pub HasActed : Fields → Type 0
unfolding find
HasActed d = get "acted" d ≡ some (boolean true)

-- What is known of the data in each state.
abbrev pub Known : StateName → Fields → Type 0
Known mark_approved d = IsApproved d
Known mark_declined d = ¬ IsApproved d
Known record_decision d = IsApproved d → HasActed d
Known route_decision d = IsApproved d → HasActed d
Known mark_approved_timeout d = IsApproved d
Known record_timeout_proceed d = IsApproved d × HasActed d
Known execute_approved d = IsApproved d × HasActed d
Known n d = Unit {0}

transition-Known :
    (n : StateName) (o : Outcome) (d : Fields)
    → Known n d
    → Leads Known (transition (build_definition n) o d)
unfolding build_definition transition entry_choices timeout_choices
transition-Known route_tier o d k =
    choice-Leads Known entry_choices observe_only o d (λ _. tt, (λ _. tt, (λ _. tt, (λ _. tt, tt))))
      (λ _. tt)
transition-Known prepare_t1_approval o d k = tt
transition-Known prepare_t2_approval o d k = tt
transition-Known notify_approver (returned out) d k = tt
transition-Known notify_approver (timed_out cause) d k = tt
transition-Known notify_approver failed d k = tt
transition-Known timeout_by_tier o d k =
    choice-Leads Known timeout_choices observe_only o d
      (λ _. tt, (λ _. tt, (λ _. tt, (λ _. tt, tt)))) (λ _. tt)
transition-Known mark_decision_disposition o d k =
    choice-Leads Known disposition_choices mark_declined o d (λ e. e, tt) (λ others. others.0)
transition-Known mark_approved o d k = λ _. get-put "acted" (boolean true) d
transition-Known mark_declined o d k =
    λ e. absurd (k (sym (get-put_other "decision" "acted" (boolean false) d refl) ∙ e))
transition-Known record_decision o d k =
    task-Leads Known audit_function audit_paths route_decision o d k
transition-Known route_decision o d k =
    choice-Leads Known decision_choices declined_to_act o d
      (λ e. (e, k e), (λ _. tt, (λ _. tt, (λ _. tt, tt)))) (λ _. tt)
transition-Known execute_approved o d k = task-Leads Known executor_function [] succeed o d tt
transition-Known reduce_further o d k = task-Leads Known negotiator_function [] succeed o d tt
transition-Known keep_with_reason o d k = task-Leads Known negotiator_function [] succeed o d tt
transition-Known declined_to_act o d k = tt
transition-Known record_declined_decision o d k =
    task-Leads Known audit_function audit_paths succeed o d tt
transition-Known observe_only o d k = tt
transition-Known record_observation o d k =
    task-Leads Known audit_function audit_paths succeed o d tt
transition-Known proceed_after_timeout o d k = get-put "decision" (text "Approve") d
transition-Known mark_approved_timeout o d k =
    (get-put_other "decision" "acted" (boolean true) d refl ∙ k, get-put "acted" (boolean true) d)
transition-Known record_timeout_proceed o d k =
    task-Leads Known audit_function audit_paths execute_approved o d k
transition-Known escalate_security_admin o d k =
    task-Leads Known notify_function [] mark_declined_timeout o d tt
transition-Known page_security_on_call o d k =
    task-Leads Known pager_function [] mark_declined_timeout o d tt
transition-Known mark_declined_timeout o d k = tt
transition-Known record_timeout_decline o d k =
    task-Leads Known audit_function audit_paths succeed o d tt
transition-Known succeed o d k = tt

pub Runs-Known :
    {n n' : StateName} {d d' : Fields} {visited : List StateName}
    → Runs n d visited n' d'
    → Known n d
    → Known n' d'
Runs-Known here k = k
Runs-Known (step {n = n} {d = d} o e runs) k =
    Runs-Known runs (Leads-some Known e (transition-Known n o d k))
