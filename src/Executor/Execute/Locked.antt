-- ===== src/Executor/Execute/Locked.antt =====
-- What the body of the `try` in `execute` does to the lock table: at most one publication.
use sams_simlplifynext.Prelude.{
  String, Bool, not, some, none, true, false, [], ◌∷◌, ◌++◌, ◌≡◌, refl, ◌⊎◌, inl, inr, arith,
  if◌then◌else◌,
}
use mathlib.Core.Path.{subst}
use sams_simlplifynext.Errors.{Result, ok, err}
use sams_simlplifynext.Exec.{Exec, pure, catch, lift, ◌>>=◌, Always-bind}
use sams_simlplifynext.Runtime.{Runtime}
use sams_simlplifynext.Value.{Fields}
use sams_simlplifynext.Contracts.{Entitlement, ActionResult}
use sams_simlplifynext.Plan.Builder.{Action}
use sams_simlplifynext.Executor.Idempotency.{IdempotencyLease, complete}
use sams_simlplifynext.Executor.State.{Run, Clients, on_provider}
use sams_simlplifynext.Executor.Snapshots.{wire, find_target, verify_revoked}
use sams_simlplifynext.Executor.Execute.{
  failure_result, undo_message, PlanIds, give_up, undo, finish, audit, after_audit, after_undo,
  restored_ok, after_apply, keep_applied, apply_action, after_dry_run, rehearse, attempt, capture,
  capture_with, store_target, put_preimage, key_of_action,
}

module _ {P D B : Type 0} (rt : Runtime) (c : Clients P D B) (ids : PlanIds) (action : Action)
    (lease : IdempotencyLease) where
  -- A table is as it was, or as one publication under the lease left it, also one that raised.
  abbrev pub IsTouched : D → D → Type 0
  IsTouched d d' =
      (d' ≡ d)
      ⊎ ((q : ActionResult) × (d' ≡ (complete rt c.table c.ttl_seconds c.wait_micros lease q d).1))

  -- A call that keeps the table, and then one that publishes at most once.
  IsTouched-bind :
      {A C : Type 0} (m : Exec (Run P D B) A) (f : A → Exec (Run P D B) C) (s : Run P D B)
      → (m s).1.table ≡ s.table
      → ((a : A) (s' : Run P D B) → IsTouched s'.table (f a s').1.table)
      → IsTouched s.table ((m >>= f) s).1.table
  IsTouched-bind m f s kept next =
      Always-bind (λ s'. IsTouched s.table s'.table) m f s (inl kept)
        (λ a e. subst (λ d. IsTouched d (f a (m s).1).1.table) kept (next a (m s).1))

  IsTouched-if :
      {A : Type 0} (test : Bool) (m n : Exec (Run P D B) A) (s : Run P D B)
      → IsTouched s.table (m s).1.table
      → IsTouched s.table (n s).1.table
      → IsTouched s.table ((if test then m else n) s).1.table
  IsTouched-if true m n s first second = first
  IsTouched-if false m n s first second = second

  give_up-IsTouched :
      (status : String) (r : ActionResult) (s : Run P D B)
      → IsTouched s.table (give_up rt c ids action lease status r s).1.table
  unfolding give_up
  give_up-IsTouched status r s = inr (r, ground arith)

  after_audit-IsTouched :
      (r : ActionResult) (recorded : Result String) (s : Run P D B)
      → IsTouched s.table (after_audit rt c ids action lease r recorded s).1.table
  unfolding after_audit
  after_audit-IsTouched r recorded s = inr (r, ground arith)

  pub audited-table :
      (r : ActionResult) (s : Run P D B)
      → (catch
          (audit rt c ids action "completed" none (some r.message) >>= λ key. pure (ok key))
          (λ e. pure (err e))
          s).1.table
        ≡ s.table
  unfolding audit
  audited-table r s = ground arith

  finish-IsTouched :
      (r : ActionResult) (s : Run P D B)
      → IsTouched s.table (finish rt c ids action lease r s).1.table
  unfolding finish
  finish-IsTouched r s =
      let logged = record s { steps = s.steps ++ ("audit" ∷ []) } in
      IsTouched-bind
        (catch (audit rt c ids action "completed" none (some r.message) >>= λ key. pure (ok key))
          (λ e. pure (err e)))
        (after_audit rt c ids action lease r) logged (audited-table r logged)
        (after_audit-IsTouched r)

  pub restored_ok-table :
      (r : ActionResult) (pre_image : Fields) (s : Run P D B)
      → (restored_ok rt c ids action r pre_image s).1.table ≡ s.table
  unfolding restored_ok
  restored_ok-table r pre_image s = ground arith

  after_undo-IsTouched :
      (r : ActionResult) (pre_image : Fields) (rollback : ActionResult) (done : Bool)
      (s : Run P D B)
      → IsTouched s.table (after_undo rt c ids action lease r pre_image rollback done s).1.table
  unfolding after_undo
  after_undo-IsTouched r pre_image rollback done s =
      inr (failure_result action (some pre_image) (undo_message done), ground arith)

  undo-IsTouched :
      (r : ActionResult) (pre_image : Fields) (s : Run P D B)
      → IsTouched s.table (undo rt c ids action lease r pre_image s).1.table
  unfolding undo
  undo-IsTouched r pre_image s =
      IsTouched-bind (on_provider (c.provider.restore pre_image)) _
        (record s { steps = s.steps ++ ("automatic_rollback" ∷ []) }) refl
        (λ rollback s'.
          IsTouched-bind (restored_ok rt c ids action rollback pre_image)
            (after_undo rt c ids action lease r pre_image rollback) s'
            (restored_ok-table rollback pre_image s') (after_undo-IsTouched r pre_image rollback))

  after_apply-IsTouched :
      (t : Entitlement) (pre_image : Fields) (r : ActionResult) (s : Run P D B)
      → IsTouched s.table (after_apply rt c ids action lease t pre_image r s).1.table
  unfolding after_apply
  after_apply-IsTouched t pre_image r s =
      IsTouched-if (not r.succeeded) (give_up rt c ids action lease "apply_failed" r) _ s
        (give_up-IsTouched "apply_failed" r s)
        (IsTouched-bind (on_provider (verify_revoked rt c.provider t)) _
          (record s { steps = s.steps ++ ("verify" ∷ []) }) refl
          (λ gone s'.
            IsTouched-if gone (finish rt c ids action lease r)
              (undo rt c ids action lease r pre_image) s' (finish-IsTouched r s')
              (undo-IsTouched r pre_image s')))

  apply_action-IsTouched :
      (t : Entitlement) (pre_image : Fields) (s : Run P D B)
      → IsTouched s.table (apply_action rt c ids action lease t pre_image s).1.table
  unfolding apply_action keep_applied
  apply_action-IsTouched t pre_image s =
      IsTouched-bind (on_provider (c.provider.revoke t false)) _
        (record s { steps = s.steps ++ ("apply" ∷ []); apply_started = true }) refl
        (λ applied s'.
          after_apply-IsTouched t pre_image applied (record s' { applied = some applied }))

  after_dry_run-IsTouched :
      (t : Entitlement) (pre_image : Fields) (r : ActionResult) (s : Run P D B)
      → IsTouched s.table (after_dry_run rt c ids action lease t pre_image r s).1.table
  unfolding after_dry_run
  after_dry_run-IsTouched t pre_image r s =
      IsTouched-if (not r.succeeded) (give_up rt c ids action lease "dry_run_failed" r) _ s
        (give_up-IsTouched "dry_run_failed" r s) (apply_action-IsTouched t pre_image s)

  rehearse-IsTouched :
      (r : Entitlement × Fields) (s : Run P D B)
      → IsTouched s.table (rehearse rt c ids action lease r s).1.table
  unfolding rehearse
  rehearse-IsTouched (t, pre_image) s =
      IsTouched-bind (on_provider (c.provider.revoke t true))
        (after_dry_run rt c ids action lease t pre_image)
        (record s { steps = s.steps ++ ("dry_run" ∷ []) }) refl
        (after_dry_run-IsTouched t pre_image)

  put_preimage-table :
      (key : String) (m : Fields) (s : Run P D B)
      → (put_preimage rt c ids action key m s).1.table ≡ s.table
  unfolding put_preimage
  put_preimage-table key m s = ground arith

  store_target-table :
      (key : String) (t : Entitlement) (s : Run P D B)
      → (store_target rt c ids action key t s).1.table ≡ s.table
  unfolding store_target
  store_target-table key t s =
      let chosen = record s { target = some t; pre_image = some (wire t) } in
      ground (arith, put_preimage-table key (wire t) chosen)

  pub capture-table : (s : Run P D B) → (capture rt c ids action s).1.table ≡ s.table
  unfolding capture capture_with
  capture-table s =
      let logged = record s { steps = s.steps ++ ("capture_preimage" ∷ []) } in
      Always-bind (λ s'. s'.table ≡ s.table) (lift (key_of_action rt c ids action))
        (capture_with rt c ids action) logged refl
        (λ key e.
          Always-bind (λ s'. s'.table ≡ s.table) (on_provider (find_target rt c.provider action))
            (store_target rt c ids action key) logged refl (λ t found. store_target-table key t _))

  -- The body of the `try` publishes at most once, whether it returns or raises.
  pub attempt-IsTouched :
      (s : Run P D B) → IsTouched s.table (attempt rt c ids action lease s).1.table
  unfolding attempt
  attempt-IsTouched s =
      IsTouched-bind (capture rt c ids action) (rehearse rt c ids action lease) s (capture-table s)
        rehearse-IsTouched
