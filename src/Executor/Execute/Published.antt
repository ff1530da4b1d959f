-- ===== src/Executor/Execute/Published.antt =====
-- A run that returns has published a result under its lock.
use sams_simlplifynext.Prelude.{
  String, refl, not, if◌then◌else◌, is_some, Option-cases, or_else, [], ◌∷◌, ◌++◌, ◌≡◌, sym, ap,
  ◌∙◌, ◌⊎◌, Bool, true, false, Option, none, some, arith, inl, inr,
}
use mathlib.Core.Path.{subst}
use sams_simlplifynext.Executor.Execute.Locked.{audited-table, restored_ok-table, capture-table}
use sams_simlplifynext.Errors.{Result, ok, err}
use sams_simlplifynext.Exec.{Exec, pure, catch, ◌>>=◌, Returns, Returns-bind, Returns-map}
use sams_simlplifynext.Runtime.{Runtime}
use sams_simlplifynext.Value.{Fields, end}
use sams_simlplifynext.Contracts.{Entitlement, ActionResult}
use sams_simlplifynext.Plan.Builder.{Action}
use sams_simlplifynext.Executor.Idempotency.{IdempotencyLease, complete}
use sams_simlplifynext.Executor.State.{Run, Clients, on_provider}
use sams_simlplifynext.Executor.Snapshots.{verify_revoked}
use sams_simlplifynext.Executor.Execute.{
  ExecutionResult, PlanIds, completed_result, failure_result, complete_lock, audit, give_up, undo,
  finish, after_audit, after_undo, after_recover, undo_message, recover_message, restored_ok,
  outcome, after_apply, keep_applied, apply_action, after_dry_run, rehearse, attempt, accept,
  recover, capture,
}

-- How the published result and the returned one go together: the same outcome, or a completed
-- action whose audit failed, published as a success and returned as a failure without an audit key.
abbrev pub Agrees : ActionResult → ExecutionResult → Type 0
Agrees p r =
    (p.succeeded ≡ r.succeeded)
    ⊎ ((p.succeeded ≡ true) × (r.succeeded ≡ false) × (r.audit_key ≡ none))

module _ {P D B : Type 0} (rt : Runtime) (c : Clients P D B) (ids : PlanIds) (action : Action)
    (lease : IdempotencyLease) where
  -- The lock table is as a publication of `p` left it.
  abbrev pub Wrote : ActionResult → D → Run P D B → Type 0
  Wrote p d s = complete rt c.table c.ttl_seconds c.wait_micros lease p d ≡ (ok tt, s.table)

  give_up-Wrote :
      (status : String) (p : ActionResult) (s : Run P D B)
      → Returns
          (λ r s'. Wrote p s.table s' × (r.succeeded ≡ false))
          (give_up rt c ids action lease status p s)
  unfolding give_up complete_lock
  give_up-Wrote status p s = ground arith

  after_audit-Wrote :
      (p : ActionResult) (recorded : Result String) (s : Run P D B)
      → Returns
          (λ r s'. Wrote p s.table s' × (r.succeeded ≡ is_some r.audit_key))
          (after_audit rt c ids action lease p recorded s)
  unfolding after_audit complete_lock outcome
  after_audit-Wrote p recorded s = ground arith

  after_undo-Wrote :
      (p : ActionResult) (pre_image : Fields) (rollback : ActionResult) (done : Bool)
      (s : Run P D B)
      → Returns
          (λ r s'.
            Wrote (failure_result action (some pre_image) (undo_message done)) s.table s'
            × (r.succeeded ≡ false))
          (after_undo rt c ids action lease p pre_image rollback done s)
  unfolding after_undo complete_lock
  after_undo-Wrote p pre_image rollback done s = ground arith

  after_recover-Wrote :
      (pre_image : Option Fields) (rollback : ActionResult) (done : Bool) (s : Run P D B)
      → Returns
          (λ r s'.
            Wrote (failure_result action pre_image (recover_message done)) s.table s'
            × (r.succeeded ≡ false))
          (after_recover rt c ids action lease pre_image rollback done s)
  unfolding after_recover complete_lock
  after_recover-Wrote pre_image rollback done s = ground arith

  pub accept-Wrote :
      (t : Entitlement) (s : Run P D B)
      → Returns
          (λ r s'.
            Wrote (or_else s.applied (completed_result t s.pre_image)) s.table s'
            × (r.succeeded ≡ true)
            × (r.action_result ≡ some (or_else s.applied (completed_result t s.pre_image)))
            × (s'.target ≡ s.target)
            × (s'.provider ≡ s.provider))
          (accept rt c ids action lease t s)
  unfolding accept complete_lock
  accept-Wrote t s = ground arith

  -- From the table `d`, the publication of a result that agrees with the returned one.
  abbrev pub IsPublished : D → ExecutionResult → Run P D B → Type 0
  IsPublished d r s = (p : ActionResult) × Agrees p r × Wrote p d s

  IsPublished-bind :
      {A : Type 0} (m : Exec (Run P D B) A) (f : A → Exec (Run P D B) ExecutionResult)
      (s : Run P D B)
      → (m s).1.table ≡ s.table
      → ((a : A) (s' : Run P D B) → Returns (IsPublished s'.table) (f a s'))
      → Returns (IsPublished s.table) ((m >>= f) s)
  IsPublished-bind m f s kept next =
      Returns-bind (IsPublished s.table) m f s
        (λ a e. subst (λ d. Returns (IsPublished d) (f a (m s).1)) kept (next a (m s).1))

  give_up-IsPublished :
      (status : String) (p : ActionResult) (s : Run P D B)
      → p.succeeded ≡ false
      → Returns (IsPublished s.table) (give_up rt c ids action lease status p s)
  give_up-IsPublished status p s failed =
      Returns-map _ (IsPublished s.table) (give_up rt c ids action lease status p s)
        (λ r s' h. (p, inl cc, h.0)) (give_up-Wrote status p s)

  after_audit-Agrees :
      (p : ActionResult) (r : ExecutionResult)
      → p.succeeded ≡ true
      → r.succeeded ≡ is_some r.audit_key
      → Agrees p r
  after_audit-Agrees p r done h = elim (Option-cases r.audit_key) [
    | inl e ↦ inr (done, h ∙ ap is_some e, e)
    | inr (key, e) ↦ inl (done ∙ sym (h ∙ ap is_some e))
  ]

  finish-IsPublished :
      (p : ActionResult) (s : Run P D B)
      → p.succeeded ≡ true
      → Returns (IsPublished s.table) (finish rt c ids action lease p s)
  unfolding finish
  finish-IsPublished p s done =
      let logged = record s { steps = s.steps ++ ("audit" ∷ []) } in
      IsPublished-bind
        (catch (audit rt c ids action "completed" none (some p.message) >>= λ key. pure (ok key))
          (λ e. pure (err e)))
        (after_audit rt c ids action lease p) logged (audited-table rt c ids action lease p logged)
        (λ recorded s'.
          Returns-map _ (IsPublished s'.table) (after_audit rt c ids action lease p recorded s')
            (λ r s'' h. (p, after_audit-Agrees p r done h.1, h.0))
            (after_audit-Wrote p recorded s'))

  undo-IsPublished :
      (p : ActionResult) (pre_image : Fields) (s : Run P D B)
      → Returns (IsPublished s.table) (undo rt c ids action lease p pre_image s)
  unfolding undo
  undo-IsPublished p pre_image s =
      IsPublished-bind (on_provider (c.provider.restore pre_image)) _
        (record s { steps = s.steps ++ ("automatic_rollback" ∷ []) }) refl
        (λ rollback s'.
          IsPublished-bind (restored_ok rt c ids action rollback pre_image)
            (after_undo rt c ids action lease p pre_image rollback) s'
            (restored_ok-table rt c ids action lease rollback pre_image s')
            (λ done s''.
              Returns-map _ (IsPublished s''.table)
                (after_undo rt c ids action lease p pre_image rollback done s'')
                (λ r s0 h. (_, inl (sym h.1), h.0))
                (after_undo-Wrote p pre_image rollback done s'')))

  pub recover-IsPublished :
      (s : Run P D B) → Returns (IsPublished s.table) (recover rt c ids action lease s)
  unfolding recover
  recover-IsPublished s =
      IsPublished-bind (on_provider (c.provider.restore (or_else s.pre_image end))) _ s refl
        (λ rollback s'.
          IsPublished-bind (restored_ok rt c ids action rollback (or_else s.pre_image end))
            (after_recover rt c ids action lease s.pre_image rollback) s'
            (restored_ok-table rt c ids action lease rollback (or_else s.pre_image end) s')
            (λ done s''.
              Returns-map _ (IsPublished s''.table)
                (after_recover rt c ids action lease s.pre_image rollback done s'')
                (λ r s0 h. (_, inl (sym h.1), h.0))
                (after_recover-Wrote s.pre_image rollback done s'')))

  IsPublished-if :
      (test : Bool) (m n : Exec (Run P D B) ExecutionResult) (s : Run P D B)
      → (test ≡ true → Returns (IsPublished s.table) (m s))
      → (test ≡ false → Returns (IsPublished s.table) (n s))
      → Returns (IsPublished s.table) ((if test then m else n) s)
  IsPublished-if true m n s first second = first refl
  IsPublished-if false m n s first second = second refl

  after_apply-IsPublished :
      (t : Entitlement) (pre_image : Fields) (p : ActionResult) (s : Run P D B)
      → Returns (IsPublished s.table) (after_apply rt c ids action lease t pre_image p s)
  unfolding after_apply
  after_apply-IsPublished t pre_image p s =
      IsPublished-if (not p.succeeded) (give_up rt c ids action lease "apply_failed" p) _ s
        (λ failed. give_up-IsPublished "apply_failed" p s (ground arith))
        (λ done.
          IsPublished-bind (on_provider (verify_revoked rt c.provider t)) _
            (record s { steps = s.steps ++ ("verify" ∷ []) }) refl
            (λ gone s'.
              IsPublished-if gone (finish rt c ids action lease p)
                (undo rt c ids action lease p pre_image) s'
                (λ _. finish-IsPublished p s' (ground arith))
                (λ _. undo-IsPublished p pre_image s')))

  apply_action-IsPublished :
      (t : Entitlement) (pre_image : Fields) (s : Run P D B)
      → Returns (IsPublished s.table) (apply_action rt c ids action lease t pre_image s)
  unfolding apply_action keep_applied
  apply_action-IsPublished t pre_image s =
      IsPublished-bind (on_provider (c.provider.revoke t false)) _
        (record s { steps = s.steps ++ ("apply" ∷ []); apply_started = true }) refl
        (λ applied s'.
          after_apply-IsPublished t pre_image applied (record s' { applied = some applied }))

  after_dry_run-IsPublished :
      (t : Entitlement) (pre_image : Fields) (r : ActionResult) (s : Run P D B)
      → Returns (IsPublished s.table) (after_dry_run rt c ids action lease t pre_image r s)
  unfolding after_dry_run
  after_dry_run-IsPublished t pre_image r s =
      IsPublished-if (not r.succeeded) (give_up rt c ids action lease "dry_run_failed" r) _ s
        (λ failed. give_up-IsPublished "dry_run_failed" r s (ground arith))
        (λ done. apply_action-IsPublished t pre_image s)

  rehearse-IsPublished :
      (r : Entitlement × Fields) (s : Run P D B)
      → Returns (IsPublished s.table) (rehearse rt c ids action lease r s)
  unfolding rehearse
  rehearse-IsPublished (t, pre_image) s =
      IsPublished-bind (on_provider (c.provider.revoke t true))
        (after_dry_run rt c ids action lease t pre_image)
        (record s { steps = s.steps ++ ("dry_run" ∷ []) }) refl
        (after_dry_run-IsPublished t pre_image)

  pub attempt-IsPublished :
      (s : Run P D B) → Returns (IsPublished s.table) (attempt rt c ids action lease s)
  unfolding attempt
  attempt-IsPublished s =
      IsPublished-bind (capture rt c ids action) (rehearse rt c ids action lease) s
        (capture-table rt c ids action lease s) rehearse-IsPublished
