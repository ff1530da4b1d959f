-- ===== src/Broker/StateMachine/Progress.antt =====
-- Every execution ends, and some never reach the executor.
use sams_simlplifynext.Prelude.{
  String, Option, some, sym, ap, ◌∙◌, ℕ, ◌+◌, ◌≤◌, ltb, ltb→lt, length, Bool, true, false, not,
  ◌||◌, List, all, ◌≡◌, ◌≢◌, refl, arith,
}
use sams_simlplifynext.Value.{Value, text, Fields, get}
use sams_simlplifynext.Broker.StateMachine.{
  StateName, route_tier, prepare_t1_approval, prepare_t2_approval, notify_approver, timeout_by_tier,
  mark_decision_disposition, mark_approved, mark_declined, record_decision, route_decision,
  execute_approved, reduce_further, keep_with_reason, declined_to_act, record_declined_decision,
  observe_only, record_observation, proceed_after_timeout, mark_approved_timeout,
  record_timeout_proceed, escalate_security_admin, page_security_on_call, mark_declined_timeout,
  record_timeout_decline, succeed, build_definition, transition, Runs, here, step, entry_choices,
  timeout_choices,
}
use sams_simlplifynext.Broker.StateMachine.Data.{successors, step-test, choice-Leads, Leads-some}

-- The most steps that an execution takes from a state.
abbrev pub rank : StateName → ℕ
rank route_tier = 10
rank prepare_t1_approval = 9
rank prepare_t2_approval = 9
rank notify_approver = 8
rank timeout_by_tier = 7
rank mark_decision_disposition = 7
rank proceed_after_timeout = 6
rank mark_approved_timeout = 5
rank mark_approved = 6
rank mark_declined = 6
rank record_decision = 5
rank route_decision = 4
rank declined_to_act = 3
rank record_declined_decision = 1
rank execute_approved = 1
rank reduce_further = 1
rank keep_with_reason = 1
rank record_timeout_proceed = 2
rank observe_only = 2
rank record_observation = 1
rank escalate_security_admin = 3
rank page_security_on_call = 3
rank mark_declined_timeout = 2
rank record_timeout_decline = 1
rank succeed = 0

abbrev rank_test : StateName → StateName → Bool
rank_test n n' = ltb (rank n') (rank n)

rank_test-all : (n : StateName) → all (rank_test n) (successors (build_definition n)) ≡ true
unfolding build_definition successors all entry_choices timeout_choices
rank_test-all route_tier = refl
rank_test-all n = refl

-- The number of steps of an execution and the rank of the state that it reaches are together at
-- most the rank of the state where it starts, so an execution from `RouteTier` takes at most ten
-- steps.
pub Runs-bound :
    {n n' : StateName} {d d' : Fields} {visited : List StateName}
    → Runs n d visited n' d'
    → length visited + rank n' ≤ rank n
Runs-bound here = omega arith
Runs-bound (step {n = n} {n' = n'} {d = d} o e runs) =
    omega
      (arith, Runs-bound runs, ltb→lt (rank n') (rank n) (step-test rank_test rank_test-all o d e))

-- The states from which no action is executed any more.
abbrev pub is_declined : StateName → Bool
is_declined observe_only = true
is_declined record_observation = true
is_declined escalate_security_admin = true
is_declined page_security_on_call = true
is_declined mark_declined_timeout = true
is_declined record_timeout_decline = true
is_declined declined_to_act = true
is_declined record_declined_decision = true
is_declined succeed = true
is_declined n = false

abbrev declined_test : StateName → StateName → Bool
declined_test n n' = not (is_declined n) || is_declined n'

declined_test-all : (n : StateName) → all (declined_test n) (successors (build_definition n)) ≡ true
unfolding build_definition successors all entry_choices timeout_choices
declined_test-all route_tier = refl
declined_test-all n = refl

stays : (before later : Bool) → (not before || later) ≡ true → before ≡ true → later ≡ true
stays before later h k = ground arith

pub Runs-declined :
    {n n' : StateName} {d d' : Fields} {visited : List StateName}
    → Runs n d visited n' d'
    → is_declined n ≡ true
    → is_declined n' ≡ true
Runs-declined here h = h
Runs-declined (step {n = n} {n' = n'} {d = d} o e runs) h =
    Runs-declined runs
      (stays (is_declined n) (is_declined n') (step-test declined_test declined_test-all o d e) h)

same_text : {a b : String} → ◌≡◌ {A = Option Value} (some (text a)) (some (text b)) → a ≡ b
same_text e = cc

true-ne-false : true ≡ false → ⊥
true-ne-false e = cc

route_tier-ne-execute_approved : route_tier ≢ execute_approved
route_tier-ne-execute_approved e = cc

-- An execution that starts at `RouteTier` with a tier that is a text other than T1 and T2 never
-- reaches `ExecuteApproved`.
pub Runs-unattended :
    {n : StateName} {d d' : Fields} {visited : List StateName} (tier : String)
    → get "tier" d ≡ some (text tier)
    → tier ≢ "T1"
    → tier ≢ "T2"
    → Runs route_tier d visited n d'
    → n ≢ execute_approved
unfolding build_definition transition entry_choices
Runs-unattended tier e not_t1 not_t2 here = λ same. route_tier-ne-execute_approved same
Runs-unattended {d = d} tier e not_t1 not_t2 (step {n' = n'} o first runs) = λ same.
    let declines : is_declined n' ≡ true =
      Leads-some (λ n d. is_declined n ≡ true) first
        (choice-Leads (λ n d. is_declined n ≡ true) entry_choices observe_only o d
          (
            λ _. refl,
            (
              λ t1. absurd (not_t1 (same_text (sym e ∙ t1))),
              (λ t2. absurd (not_t2 (same_text (sym e ∙ t2))), (λ _. refl, tt)),
            ),
          )
          (λ _. refl)) in
    let ends = Runs-declined runs declines in
    absurd (true-ne-false (sym ends ∙ ap is_declined same))
