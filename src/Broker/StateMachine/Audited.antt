-- ===== src/Broker/StateMachine/Audited.antt =====
-- Nothing is done, and no execution ends, before an audit record is written.
use sams_simlplifynext.Prelude.{Bool, true, false, not, ◌||◌}
use sams_simlplifynext.Broker.StateMachine.{
  StateName, record_decision, route_decision, execute_approved, reduce_further, keep_with_reason,
  declined_to_act, record_declined_decision, record_observation, record_timeout_proceed,
  record_timeout_decline, succeed,
}

-- The states that call the audit function.
abbrev pub is_audit : StateName → Bool
is_audit record_decision = true
is_audit record_declined_decision = true
is_audit record_observation = true
is_audit record_timeout_proceed = true
is_audit record_timeout_decline = true
is_audit n = false

-- The states that stand behind such a state.
abbrev pub is_audited : StateName → Bool
is_audited route_decision = true
is_audited execute_approved = true
is_audited reduce_further = true
is_audited keep_with_reason = true
is_audited declined_to_act = true
is_audited record_declined_decision = true
is_audited succeed = true
is_audited n = false

abbrev audit_test : StateName → StateName → Bool
audit_test n n' = not (is_audited n') || (is_audit n || is_audited n)
