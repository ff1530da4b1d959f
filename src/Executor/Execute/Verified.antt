-- ===== src/Executor/Execute/Verified.antt =====
-- A run that reports success has seen its target gone, and has left the provider at that.
use sams_simlplifynext.Executor.Execute.Guarded.{attempt-IsSafe}
use sams_simlplifynext.Prelude.{
  Option-cases, Bool-cases, String, [], ◌∷◌, ◌++◌, ◌≡◌, refl, true, false, none, some, arith, inl,
  inr,
}
use sams_simlplifynext.Errors.{Exn, Result, ok, err}
use sams_simlplifynext.Exec.{lift, Returns, Returns-bind, Returns-catch, Returns-ok}
use sams_simlplifynext.Runtime.{Runtime}
use sams_simlplifynext.Value.{Fields}
use sams_simlplifynext.Contracts.{Entitlement, ActionResult}
use sams_simlplifynext.Plan.Builder.{Action}
use sams_simlplifynext.Executor.Idempotency.{IdempotencyLease}
use sams_simlplifynext.Executor.State.{Run, Clients, on_provider}
use sams_simlplifynext.Executor.Snapshots.{find_target, verify_revoked}
use sams_simlplifynext.Executor.Execute.{
  ExecutionResult, PlanIds, key_of_action, store_target, capture_with, capture, give_up, after_undo,
  undo, after_audit, finish, after_recover, after_apply, keep_applied, apply_action, after_dry_run,
  rehearse, attempt, accept, recover, settle, abandon, on_exception, on_error, on_error-cases,
  execute_with,
}

module _ {P D B : Type 0} (rt : Runtime) (c : Clients P D B) (ids : PlanIds) (action : Action)
    (lease : IdempotencyLease) where
  -- The target of the run is gone, as the provider stands.
  abbrev pub IsGone : Entitlement → Run P D B → Type 0
  IsGone t s =
      (s.target ≡ some t) × (verify_revoked rt c.provider t s.provider ≡ (ok true, s.provider))

  abbrev Verified : Entitlement → ExecutionResult → Run P D B → Type 0
  Verified t r s = r.succeeded ≡ true → IsGone t s

  finish-Verified :
      (t : Entitlement) (r : ActionResult) (s : Run P D B)
      → IsGone t s
      → Returns (Verified t) (finish rt c ids action lease r s)
  unfolding finish after_audit
  finish-Verified t r s h = ground arith

  give_up-Verified :
      (t : Entitlement) (status : String) (r : ActionResult) (s : Run P D B)
      → Returns (Verified t) (give_up rt c ids action lease status r s)
  unfolding give_up
  give_up-Verified t status r s = ground arith

  undo-Verified :
      (t : Entitlement) (r : ActionResult) (pre_image : Fields) (s : Run P D B)
      → Returns (Verified t) (undo rt c ids action lease r pre_image s)
  unfolding undo after_undo
  undo-Verified t r pre_image s = ground arith

  recover-Verified :
      (t : Entitlement) (s : Run P D B) → Returns (Verified t) (recover rt c ids action lease s)
  unfolding recover after_recover
  recover-Verified t s = ground arith

  accept-Verified :
      (t : Entitlement) (s : Run P D B)
      → IsGone t s
      → Returns (Verified t) (accept rt c ids action lease t s)
  unfolding accept
  accept-Verified t s h = ground arith

  module _ (readonly : (p : P) → (c.provider.snapshot p).1 ≡ p) where
    -- A check that finds the target gone leaves the provider as it was.
    verify_revoked-readonly : (t : Entitlement) (p : P) → (verify_revoked rt c.provider t p).1 ≡ p
    unfolding verify_revoked
    verify_revoked-readonly t p = ground (arith, readonly p)

    after_apply-Verified :
        (t : Entitlement) (pre_image : Fields) (r : ActionResult) (s : Run P D B)
        → s.target ≡ some t
        → Returns (Verified t) (after_apply rt c ids action lease t pre_image r s)
    unfolding after_apply
    after_apply-Verified t pre_image r s h =
        let checking = record s { steps = s.steps ++ ("verify" ∷ []) } in
        let checked = record checking {
          provider = (verify_revoked rt c.provider t s.provider).1;
        } in
        ground (
          arith,
          verify_revoked-readonly t s.provider,
          give_up-Verified t "apply_failed" r s,
          finish-Verified t r checked,
          undo-Verified t r pre_image checked,
        )

    keep_applied-Verified :
        (t : Entitlement) (pre_image : Fields) (r : ActionResult) (s : Run P D B)
        → s.target ≡ some t
        → Returns (Verified t) (keep_applied rt c ids action lease t pre_image r s)
    unfolding keep_applied
    keep_applied-Verified t pre_image r s h =
        after_apply-Verified t pre_image r (record s { applied = some r }) h

    apply_action-Verified :
        (t : Entitlement) (pre_image : Fields) (s : Run P D B)
        → s.target ≡ some t
        → Returns (Verified t) (apply_action rt c ids action lease t pre_image s)
    unfolding apply_action
    apply_action-Verified t pre_image s h =
        let started = record s { steps = s.steps ++ ("apply" ∷ []); apply_started = true } in
        Returns-bind (Verified t) (on_provider (c.provider.revoke t false))
          (keep_applied rt c ids action lease t pre_image) started
          (λ applied e. keep_applied-Verified t pre_image applied _ h)

    after_dry_run-Verified :
        (t : Entitlement) (pre_image : Fields) (r : ActionResult) (s : Run P D B)
        → s.target ≡ some t
        → Returns (Verified t) (after_dry_run rt c ids action lease t pre_image r s)
    unfolding after_dry_run
    after_dry_run-Verified t pre_image r s h =
        ground
          (arith, give_up-Verified t "dry_run_failed" r s, apply_action-Verified t pre_image s h)

    rehearse-Verified :
        (t : Entitlement) (pre_image : Fields) (s : Run P D B)
        → s.target ≡ some t
        → Returns (Verified t) (rehearse rt c ids action lease (t, pre_image) s)
    unfolding rehearse
    rehearse-Verified t pre_image s h =
        Returns-bind (Verified t) (on_provider (c.provider.revoke t true))
          (after_dry_run rt c ids action lease t pre_image)
          (record s { steps = s.steps ++ ("dry_run" ∷ []) })
          (λ dry_run e. after_dry_run-Verified t pre_image dry_run _ h)

    settle-Verified :
        (t : Entitlement) (s : Run P D B)
        → s.target ≡ some t
        → Returns (Verified t) (settle rt c ids action lease t s)
    unfolding settle
    settle-Verified t s h =
        let checked = record s { provider = (verify_revoked rt c.provider t s.provider).1 } in
        ground (
          arith,
          verify_revoked-readonly t s.provider,
          accept-Verified t checked,
          recover-Verified t checked,
        )

    abbrev Targeted : P → Entitlement × Fields → Run P D B → Type 0
    Targeted p r s = (s.target ≡ some r.0) × ((find_target rt c.provider action p).0 ≡ ok r.0)

    -- The target of the run was found in the provider `p`, and it is gone.
    abbrev pub Succeeds : P → ExecutionResult → Run P D B → Type 0
    Succeeds p r s =
        r.succeeded ≡ true
        → (t : Entitlement) × ((find_target rt c.provider action p).0 ≡ ok t) × IsGone t s

    store_target-lem :
        (p : P) (key : String) (t : Entitlement) (s : Run P D B)
        → (find_target rt c.provider action p).0 ≡ ok t
        → Returns (Targeted p) (store_target rt c ids action key t s)
    unfolding store_target
    store_target-lem p key t s h = ground arith

    capture-Targeted : (s : Run P D B) → Returns (Targeted s.provider) (capture rt c ids action s)
    unfolding capture
    capture-Targeted s =
        let logged = record s { steps = s.steps ++ ("capture_preimage" ∷ []) } in
        Returns-bind (Targeted s.provider) (lift (key_of_action rt c ids action))
          (capture_with rt c ids action) logged
          (λ key e.
            unfold capture_with in
            Returns-bind (Targeted s.provider) (on_provider (find_target rt c.provider action))
              (store_target rt c ids action key) logged
              (λ t found. store_target-lem s.provider key t _ found))

    Succeeds-Verified :
        (p : P) (t : Entitlement) (x : Result ExecutionResult × Run P D B)
        → (find_target rt c.provider action p).0 ≡ ok t
        → Returns (Verified t) x
        → Returns (Succeeds p) x
    Succeeds-Verified p t (ok r, s) found h = λ e. (t, found, h e)
    Succeeds-Verified p t (err e, s) found h = tt

    rehearse-Succeeds :
        (p : P) (r : Entitlement × Fields) (s : Run P D B)
        → Targeted p r s
        → Returns (Succeeds p) (rehearse rt c ids action lease r s)
    rehearse-Succeeds p (t, pre_image) s h =
        Succeeds-Verified p t (rehearse rt c ids action lease (t, pre_image) s) h.1
          (rehearse-Verified t pre_image s h.0)

    attempt-Succeeds :
        (s : Run P D B) → Returns (Succeeds s.provider) (attempt rt c ids action lease s)
    unfolding attempt
    attempt-Succeeds s =
        Returns-bind (Succeeds s.provider) (capture rt c ids action)
          (rehearse rt c ids action lease) s
          (λ r e.
            rehearse-Succeeds s.provider r _
              (Returns-ok (Targeted s.provider) (capture rt c ids action s) (capture-Targeted s) e))

    abandon-Succeeds :
        (p : P) (e : Exn) (s : Run P D B) → Returns (Succeeds p) (abandon rt c ids action lease e s)
    unfolding abandon
    abandon-Succeeds p e s = ground arith

    on_exception-Succeeds :
        (p : P) (e : Exn) (s : Run P D B)
        → ((t : Entitlement) → s.target ≡ some t → (find_target rt c.provider action p).0 ≡ ok t)
        → Returns (Succeeds p) (on_exception rt c ids action lease e s)
    unfolding on_exception
    on_exception-Succeeds p e s h = elim (Option-cases s.target) [
      | inl none_yet ↦ ground (arith, abandon-Succeeds p e s)
      | inr (t, found) ↦ elim (Bool-cases s.apply_started) [
        | inl started ↦ ground (
          arith,
          Succeeds-Verified p t (settle rt c ids action lease t s) (h t found)
              (settle-Verified t s found),
        )
        | inr not_started ↦ ground (arith, abandon-Succeeds p e s)
      ]
    ]

    on_error-Succeeds :
        (p : P) (e : Exn) (s : Run P D B)
        → ((t : Entitlement) → s.target ≡ some t → (find_target rt c.provider action p).0 ≡ ok t)
        → Returns (Succeeds p) (on_error rt c ids action lease e s)
    on_error-Succeeds p e s h = elim (on_error-cases rt c ids action lease e) [
      | inl same ↦ rw same (abandon-Succeeds p e s)
      | inr same ↦ rw same (on_exception-Succeeds p e s h)
    ]

    module _ (dry : (t : Entitlement) (p : P) → (c.provider.revoke t true p).1 ≡ p) where
      -- A delivery that owns the lock and returns success has its one candidate gone: the last
      -- snapshot of the provider does not hold it any more.
      pub execute_with-Succeeds :
          (s : Run P D B)
          → s.target ≡ none
          → s.apply_started ≡ false
          → lease.acquired ≡ true
          → Returns (Succeeds s.provider) (execute_with rt c ids action lease s)
      unfolding execute_with
      execute_with-Succeeds s unset idle owned =
          let safe =
            attempt-IsSafe rt c ids action lease s.store s.provider readonly dry s
              (unset, idle, refl, refl) in
          let caught =
            Returns-catch (Succeeds s.provider) (attempt rt c ids action lease)
              (on_error rt c ids action lease) s (attempt-Succeeds s)
              (λ e raised. on_error-Succeeds s.provider e _ safe.found) in
          ground (arith, caught)
