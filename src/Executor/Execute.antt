-- ===== src/Executor/Execute.antt =====
-- `Executor.execute`: the ordered steps of one action (backend/src/deadbolt/executor/run.py).
pub mod FailClosed
pub mod Guarded
pub mod Locked
pub mod Published
pub mod Settled
pub mod Whole
pub mod Verified
use sams_simlplifynext.Prelude.{
  ◌≡◌, refl, ◌⊎◌, inl, inr, ℕ, String, Bool, true, false, not, Option, none, some, [], ◌∷◌, ◌++◌,
  if◌then◌else◌, or_else,
}
use sams_simlplifynext.Prelude.Text.{filled}
use sams_simlplifynext.Prelude.Int.{ℤ, pos}
use sams_simlplifynext.Errors.{
  Exn, provider_error, irreversible, policy_violation, idempotency_conflict, audit_configuration,
  authentication_error, jwt_error, audit_chain, value_error, type_error, key_error, attribute_error,
  runtime_error, client_error, unfinished, untyped, Result, ok, err,
}
use sams_simlplifynext.Errors as Errors
use sams_simlplifynext.Exec.{Exec, pure, raise, lift, gets, catch, modify, ◌>>=◌, ◌>>◌}
use sams_simlplifynext.Runtime.{Runtime}
use sams_simlplifynext.Value.{name, Fields, number, text, mapping, end, field, find, get}
use sams_simlplifynext.Contracts.{Entitlement, ActionResult, scope_value}
use sams_simlplifynext.Plan.Canonical.{canonical_dumps, plan_hash, ◌⧺◌}
use sams_simlplifynext.Plan.Builder.{Action, Plan, envelope_text}
use sams_simlplifynext.Executor.Idempotency.{
  IdempotencyLease, LockMetadata, acquire, complete, release,
}
use sams_simlplifynext.Executor.State.{Run, Clients, on_provider, on_table, on_store, fresh}
use sams_simlplifynext.Executor.Snapshots.{wire, find_target, verify_revoked, verify_restored}

pub record ExecutionResult : Type 0 where
  pub succeeded : Bool  -- `ok`
  pub plan_id : String
  pub plan_hash : String
  pub seq : ℤ
  pub action_result : Option ActionResult
  pub rollback_result : Option ActionResult
  pub audit_key : Option String
  pub message : String

-- What `execute` reads of its plan: `plan_hash`, and two texts of the envelope.
pub record PlanIds : Type 0 where
  pub plan_id : String
  pub plan_hash : String
  pub trace_id : String

-- The properties of a plan do not change, so one reading stands for all; the first of them is made
-- by the first log line, before anything is done.
unfoldable pub plan_ids : Runtime → Plan → Result PlanIds
unfolding find
plan_ids rt plan = Errors.◌>>=◌ (plan_hash rt plan.body) λ digest.
    Errors.◌>>=◌ (envelope_text "trace_id" plan.envelope) λ trace_id.
      Errors.◌>>=◌ (envelope_text "plan_id" plan.envelope)
        λ plan_id. ok (record { plan_id = plan_id; plan_hash = digest; trace_id = trace_id })

-- `type(exc).__name__`
abbrev pub exn_name : Exn → String
exn_name provider_error = "ProviderError"
exn_name irreversible = "IrreversibleActionError"
exn_name policy_violation = "PolicyViolationError"
exn_name idempotency_conflict = "IdempotencyConflict"
exn_name audit_configuration = "AuditConfigurationError"
exn_name authentication_error = "AuthenticationError"
exn_name jwt_error = "PyJWTError"
exn_name audit_chain = "AuditChainError"
exn_name value_error = "ValueError"
exn_name type_error = "TypeError"
exn_name key_error = "KeyError"
exn_name attribute_error = "AttributeError"
exn_name runtime_error = "RuntimeError"
exn_name (client_error code) = "ClientError"
exn_name unfinished = ""
exn_name untyped = ""

-- `_failure_result` with `dry_run=False`
abbrev pub failure_result : Action → Option Fields → String → ActionResult
failure_result a pre_image message = record {
  succeeded = false;
  system = a.system;
  resource = a.resource;
  scope = a.scope;
  dry_run = false;
  pre_image = pre_image;
  message = message;
  provider_latency_ms = pos 0;
}

-- The result that stands for a mutation whose own result was lost.
abbrev pub completed_result : Entitlement → Option Fields → ActionResult
completed_result t pre_image = record {
  succeeded = true;
  system = t.system;
  resource = t.resource;
  scope = scope_value t.scope;
  dry_run = false;
  pre_image = pre_image;
  message = "provider mutation completed";
  provider_latency_ms = pos 0;
}

abbrev optional_field : String → Option String → Fields → Fields
optional_field k none rest = rest
optional_field k (some s) rest = field (name k) (text s) rest

-- The record of `_audit`.
unfoldable pub audit_record : PlanIds → Action → String → Option String → Option String → Fields
audit_record ids a status rollback_of message = field (name "event") (text "execute") (
    field (name "status") (text status) (
      field (name "plan_id") (text ids.plan_id) (
        field (name "plan_hash") (text ids.plan_hash) (
          field (name "seq") (number a.seq) (
            field (name "trace_id") (text ids.trace_id) (
              field (name "system") (text a.system) (
                field (name "resource") (text a.resource) (
                  field (name "scope") (text a.scope) (
                    field (name "verb") (text a.verb) (
                      field (name "pre_image_key") (text (or_else a.pre_image_key "")) (
                        optional_field "rollback_of" rollback_of
                          (optional_field "message" message end))))))))))))

abbrev pub rollback_text : Bool → String
rollback_text done = if done then "completed" else "failed"

abbrev pub undo_message : Bool → String
undo_message done = "post-state verification failed; automatic rollback " ⧺ rollback_text done

abbrev undo_status : Bool → String
undo_status done = if done then "rolled_back" else "rollback_failed"

abbrev pub recover_message : Bool → String
recover_message done = "provider error; automatic rollback " ⧺ rollback_text done

-- The state may be changed even by a call that raises.
abbrev pub Step : Type 0 → Type 0 → Type 0 → Type 0 → Type 0
Step P D B A = Exec (Run P D B) A

module _ {P D B : Type 0} (rt : Runtime) (c : Clients P D B) (ids : PlanIds) (action : Action) where
  unfoldable pub log_step : String → Step P D B (Unit {0})
  log_step step = modify λ s. record s { steps = s.steps ++ (step ∷ []) }

  unfoldable pub outcome :
      Bool → Option ActionResult → Option ActionResult → Option String → String → ExecutionResult
  outcome succeeded action_result rollback_result audit_key message = record {
    succeeded = succeeded;
    plan_id = ids.plan_id;
    plan_hash = ids.plan_hash;
    seq = action.seq;
    action_result = action_result;
    rollback_result = rollback_result;
    audit_key = audit_key;
    message = message;
  }

  unfoldable pub complete_lock : IdempotencyLease → ActionResult → Step P D B (Unit {0})
  complete_lock lease r = on_table (complete rt c.table c.ttl_seconds c.wait_micros lease r)

  unfoldable pub release_lock : IdempotencyLease → Step P D B (Unit {0})
  release_lock lease = on_table (release rt c.table c.ttl_seconds c.wait_micros lease)

  unfoldable pub audit : String → Option String → Option String → Step P D B String
  unfolding audit_record
  audit status rollback_of message =
      on_store (c.audit (audit_record ids action status rollback_of message))

  -- `_put_preimage`
  unfoldable pub put_preimage : String → Fields → Step P D B (Unit {0})
  put_preimage key pre_image = do
    body ← lift (canonical_dumps rt (mapping pre_image))
    on_store (c.store.put_object c.preimage_bucket key body)

  -- The key of the pre-image, which must not be empty.
  key_of_action : Result String
  key_of_action =
      if filled (or_else action.pre_image_key "")
      then ok (or_else action.pre_image_key "")
      else err irreversible

  unfoldable pub store_target : String → Entitlement → Step P D B (Entitlement × Fields)
  unfolding put_preimage wire
  store_target key target = do
    modify (λ s. record s { target = some target; pre_image = some (wire target) })
    put_preimage key (wire target)
    pure (target, wire target)

  unfoldable pub capture_with : String → Step P D B (Entitlement × Fields)
  capture_with key = on_provider (find_target rt c.provider action) >>= store_target key

  -- From `capture_preimage` on: the target and its stored pre-image.
  unfoldable pub capture : Step P D B (Entitlement × Fields)
  unfolding log_step key_of_action
  capture = do log_step "capture_preimage"; lift key_of_action >>= capture_with

  -- `rollback.ok and verify_restored(…)`
  unfoldable pub restored_ok : ActionResult → Fields → Step P D B Bool
  restored_ok r pre_image =
      if r.succeeded then on_provider (verify_restored rt c.provider pre_image) else pure false

  -- A failed dry run or mutation: publish it, and record it.
  unfoldable pub give_up : IdempotencyLease → String → ActionResult → Step P D B ExecutionResult
  unfolding complete_lock log_step audit outcome
  give_up lease status r = do
    complete_lock lease r
    log_step "audit"
    key ← audit status none (some r.message)
    pure (outcome false (some r) none (some key) r.message)

  unfoldable pub after_undo :
      IdempotencyLease → ActionResult → Fields → ActionResult → Bool → Step P D B ExecutionResult
  unfolding complete_lock log_step audit outcome
  after_undo lease applied pre_image rollback done = do
    complete_lock lease (failure_result action (some pre_image) (undo_message done))
    log_step "audit"
    key ← audit (undo_status done) action.pre_image_key (some (undo_message done))
    pure (outcome false (some applied) (some rollback) (some key) (undo_message done))

  -- The target is still there after the mutation.
  unfoldable pub undo : IdempotencyLease → ActionResult → Fields → Step P D B ExecutionResult
  unfolding log_step restored_ok
  undo lease applied pre_image = do
    log_step "automatic_rollback"
    rollback ← on_provider (c.provider.restore pre_image)
    restored_ok rollback pre_image >>= after_undo lease applied pre_image rollback

  -- An audit that fails does not undo a completed action.
  unfoldable pub after_audit :
      IdempotencyLease → ActionResult → Result String → Step P D B ExecutionResult
  unfolding complete_lock outcome
  after_audit lease applied recorded = do
    complete_lock lease applied
    elim recorded [
      | ok key ↦ pure (outcome true (some applied) none (some key) applied.message)
      | err e ↦ pure (
          outcome false (some applied) none none
            ("action completed but audit failed: " ⧺ exn_name e))
    ]

  -- The last step.
  unfoldable pub finish : IdempotencyLease → ActionResult → Step P D B ExecutionResult
  unfolding log_step audit
  finish lease applied = do
    log_step "audit"
    catch (audit "completed" none (some applied.message) >>= λ key. pure (ok key))
          (λ e. pure (err e))
        >>= after_audit lease applied

  unfoldable pub after_apply :
      IdempotencyLease → Entitlement → Fields → ActionResult → Step P D B ExecutionResult
  unfolding log_step
  after_apply lease target pre_image applied =
      if not applied.succeeded
      then give_up lease "apply_failed" applied
      else (log_step "verify"
          >> (on_provider (verify_revoked rt c.provider target) >>= λ gone.
              if gone then finish lease applied else undo lease applied pre_image))

  -- `applied = …`, and what follows.
  unfoldable pub keep_applied :
      IdempotencyLease → Entitlement → Fields → ActionResult → Step P D B ExecutionResult
  keep_applied lease target pre_image applied = do
    modify (λ s. record s { applied = some applied })
    after_apply lease target pre_image applied

  unfoldable pub apply_action : IdempotencyLease → Entitlement → Fields → Step P D B ExecutionResult
  unfolding log_step
  apply_action lease target pre_image = do
    log_step "apply"
    modify (λ s. record s { apply_started = true })
    on_provider (c.provider.revoke target false) >>= keep_applied lease target pre_image

  unfoldable pub after_dry_run :
      IdempotencyLease → Entitlement → Fields → ActionResult → Step P D B ExecutionResult
  after_dry_run lease target pre_image dry_run =
      if not dry_run.succeeded
      then give_up lease "dry_run_failed" dry_run
      else apply_action lease target pre_image

  unfoldable pub rehearse : IdempotencyLease → Entitlement × Fields → Step P D B ExecutionResult
  unfolding log_step
  rehearse lease (target, pre_image) = do
    log_step "dry_run"
    on_provider (c.provider.revoke target true) >>= after_dry_run lease target pre_image

  -- The body of the `try`.
  unfoldable pub attempt : IdempotencyLease → Step P D B ExecutionResult
  attempt lease = capture >>= rehearse lease

  -- After a provider error the live state shows that the action is done.
  unfoldable pub accept : IdempotencyLease → Entitlement → Step P D B ExecutionResult
  unfolding complete_lock log_step audit outcome
  accept lease target = do
    completed ← gets (λ s. or_else s.applied (completed_result target s.pre_image))
    complete_lock lease completed
    log_step "audit"
    audit "completed_after_provider_error" none (some completed.message)
    pure (outcome true (some completed) none none "provider error followed by verified completion")

  unfoldable pub after_recover :
      IdempotencyLease → Option Fields → ActionResult → Bool → Step P D B ExecutionResult
  unfolding complete_lock log_step audit outcome
  after_recover lease pre_image rollback done = do
    complete_lock lease (failure_result action pre_image (recover_message done))
    log_step "audit"
    audit (undo_status done) action.pre_image_key (some (recover_message done))
    applied ← gets (λ s. s.applied)
    pure (outcome false applied (some rollback) none (recover_message done))

  -- After a provider error the action is undone.
  unfoldable pub recover : IdempotencyLease → Step P D B ExecutionResult
  unfolding restored_ok
  recover lease = do
    pre_image ← gets (λ s. s.pre_image)
    rollback ← on_provider (c.provider.restore (or_else pre_image end))
    restored_ok rollback (or_else pre_image end) >>= after_recover lease pre_image rollback

  unfoldable pub settle : IdempotencyLease → Entitlement → Step P D B ExecutionResult
  settle lease target = on_provider (verify_revoked rt c.provider target) >>= λ gone.
      if gone then accept lease target else recover lease

  unfoldable pub abandon : IdempotencyLease → Exn → Step P D B ExecutionResult
  unfolding release_lock
  abandon lease e = release_lock lease >> raise e

  -- `except Exception as exc`
  unfoldable pub on_exception : IdempotencyLease → Exn → Step P D B ExecutionResult
  on_exception lease e s = elim s.target [
    | none ↦ abandon lease e s
    | some target ↦ if not s.apply_started then abandon lease e s else settle lease target s
  ]

  -- The two `except` clauses.
  unfoldable pub on_error : IdempotencyLease → Exn → Step P D B ExecutionResult
  on_error lease irreversible = abandon lease irreversible
  on_error lease e = on_exception lease e

  -- Which of the two runs.
  pub on_error-cases :
      (lease : IdempotencyLease) (e : Exn)
      → (on_error lease e ≡ abandon lease e) ⊎ (on_error lease e ≡ on_exception lease e)
  unfolding on_error
  on_error-cases lease irreversible = inl refl
  on_error-cases lease e = inr refl

  -- A delivery that does not own the lock gets the original result.
  unfoldable pub duplicate : IdempotencyLease → ExecutionResult
  unfolding outcome
  duplicate lease =
      outcome (elim lease.result [ none ↦ false | some r ↦ r.succeeded ]) lease.result none none
        "duplicate delivery: original result returned"

  unfoldable pub execute_with : IdempotencyLease → Step P D B ExecutionResult
  unfolding duplicate
  execute_with lease =
      if lease.acquired then catch (attempt lease) (on_error lease) else pure (duplicate lease)

abbrev pub metadata : PlanIds → Action → LockMetadata
metadata ids a = record {
  plan_id = ids.plan_id;
  seq = a.seq;
  resource = a.resource;
  scope = a.scope;
  system = a.system;
  plan_hash = ids.plan_hash;
  trace_id = ids.trace_id;
  pre_image_key = or_else a.pre_image_key "";
}

module _ {P D B : Type 0} (rt : Runtime) (c : Clients P D B) (fuel : ℕ) where
  -- `execute`; the fuel bounds the rounds of the wait for a lock that another delivery holds.
  unfoldable pub execute : Plan → Action → Step P D B ExecutionResult
  unfolding log_step
  execute plan action = do
    ids ← lift (plan_ids rt plan)
    modify fresh
    log_step rt c ids action "acquire_lock"
    lease ← on_table (acquire rt c.table c.ttl_seconds c.wait_micros fuel (metadata ids action))
    execute_with rt c ids action lease
