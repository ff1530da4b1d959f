-- ===== src/Executor/Execute/FailClosed.antt =====
-- The executor fails closed: until the pre-image of the target is stored, the provider is only read.
use sams_simlplifynext.Prelude.{
  String, ◌≡◌, refl, sym, ◌∙◌, true, false, some, [], ◌∷◌, ◌++◌, arith,
}
use mathlib.Core.Option.{some-injective}
use mathlib.Core.Path.{subst}
use sams_simlplifynext.Errors.{Result, ok}
use sams_simlplifynext.Exec.{Always-bind}
use sams_simlplifynext.Runtime.{Runtime}
use sams_simlplifynext.Value.{Fields, mapping}
use sams_simlplifynext.Contracts.{Entitlement, ActionResult}
use sams_simlplifynext.Plan.Canonical.{canonical_dumps}
use sams_simlplifynext.Plan.Builder.{Action}
use sams_simlplifynext.Executor.Idempotency.{IdempotencyLease}
use sams_simlplifynext.Executor.State.{Run, Clients, on_provider}
use sams_simlplifynext.Executor.Snapshots.{wire, find_target, verify_revoked}
use sams_simlplifynext.Executor.Execute.{
  PlanIds, give_up, after_undo, undo, after_audit, finish, after_recover, after_apply, keep_applied,
  apply_action, after_dry_run, accept, recover, settle,
}

module _ {P D B : Type 0} (rt : Runtime) (c : Clients P D B) (action : Action) (b : B) where
  -- In the store `b`, the pre-image of the target was stored under the key of the action.
  abbrev pub IsStored : Entitlement → Type 0
  IsStored t =
      (key : String) × (body : String) × (action.pre_image_key ≡ some key)
      × (canonical_dumps rt (mapping (wire t)) ≡ ok body)
      × ((c.store.put_object c.preimage_bucket key body b).0 ≡ ok tt)

module _ {P D B : Type 0} (rt : Runtime) (c : Clients P D B) (ids : PlanIds) (action : Action)
    (lease : IdempotencyLease) (b : B) where
  -- A call that keeps the target and does not begin the mutation.
  abbrev pub SameLocals : {A : Type 0} → Run P D B → Result A × Run P D B → Type 0
  SameLocals s x = (x.1.target ≡ s.target) × (x.1.apply_started ≡ s.apply_started)

  give_up-SameLocals :
      (status : String) (r : ActionResult) (s : Run P D B)
      → SameLocals s (give_up rt c ids action lease status r s)
  unfolding give_up
  give_up-SameLocals status r s = ground arith

  undo-SameLocals :
      (r : ActionResult) (pre_image : Fields) (s : Run P D B)
      → SameLocals s (undo rt c ids action lease r pre_image s)
  unfolding undo after_undo
  undo-SameLocals r pre_image s = ground arith

  finish-SameLocals :
      (r : ActionResult) (s : Run P D B) → SameLocals s (finish rt c ids action lease r s)
  unfolding finish after_audit
  finish-SameLocals r s = ground arith

  accept-SameLocals :
      (t : Entitlement) (s : Run P D B) → SameLocals s (accept rt c ids action lease t s)
  unfolding accept
  accept-SameLocals t s = ground arith

  recover-SameLocals : (s : Run P D B) → SameLocals s (recover rt c ids action lease s)
  unfolding recover after_recover
  recover-SameLocals s = ground arith

  pub settle-SameLocals :
      (t : Entitlement) (s : Run P D B) → SameLocals s (settle rt c ids action lease t s)
  unfolding settle
  settle-SameLocals t s =
      let checked = record s { provider = (verify_revoked rt c.provider t s.provider).1 } in
      ground (arith, accept-SameLocals t checked, recover-SameLocals checked)

  after_apply-SameLocals :
      (t : Entitlement) (pre_image : Fields) (r : ActionResult) (s : Run P D B)
      → SameLocals s (after_apply rt c ids action lease t pre_image r s)
  unfolding after_apply
  after_apply-SameLocals t pre_image r s =
      let checked = record s {
        steps = s.steps ++ ("verify" ∷ []);
        provider = (verify_revoked rt c.provider t s.provider).1;
      } in
      ground (
        arith,
        give_up-SameLocals "apply_failed" r s,
        finish-SameLocals r checked,
        undo-SameLocals r pre_image checked,
      )

  keep_applied-SameLocals :
      (t : Entitlement) (pre_image : Fields) (r : ActionResult) (s : Run P D B)
      → SameLocals s (keep_applied rt c ids action lease t pre_image r s)
  unfolding keep_applied
  keep_applied-SameLocals t pre_image r s =
      after_apply-SameLocals t pre_image r (record s { applied = some r })

  -- The target was found in the provider `p`, as its one candidate of the action.
  abbrev pub IsFound : P → Entitlement → Type 0
  IsFound p t = (find_target rt c.provider action p).0 ≡ ok t

  -- Until the mutation begins the provider is as it was; once it begins, the pre-image is stored.
  pub record IsSafe (p : P) (s : Run P D B) : Type 0 where
    pub found : (t : Entitlement) → s.target ≡ some t → IsFound p t
    pub untouched : s.apply_started ≡ false → s.provider ≡ p
    pub stored :
        s.apply_started ≡ true → (t : Entitlement) × (s.target ≡ some t) × IsStored rt c action b t

  -- The state of the run once the target is captured.
  abbrev pub IsCaptured : P → Entitlement × Fields → Run P D B → Type 0
  IsCaptured p r s =
      (s.target ≡ some r.0)
      × (s.apply_started ≡ false)
      × (s.provider ≡ p)
      × IsStored rt c action b r.0
      × IsFound p r.0

  pub same-IsFound : (p : P) {t t' : Entitlement} → t ≡ t' → IsFound p t → IsFound p t'
  same-IsFound p e h = subst (IsFound p) e h

  pub IsSafe-captured :
      (p : P) (r : Entitlement × Fields) (s : Run P D B) → IsCaptured p r s → IsSafe p s
  IsSafe-captured p r s h = record {
    found = λ t e. same-IsFound p (some-injective _ _ (sym h.0 ∙ e)) h.4;
    untouched = λ _. h.2;
    stored = λ e. cc;
  }

  pub IsSafe-started :
      {A : Type 0} (p : P) (s : Run P D B) (x : Result A × Run P D B)
      → s.apply_started ≡ true
      → IsSafe p s
      → SameLocals s x
      → IsSafe p x.1
  IsSafe-started p s x started h same = record {
    found = λ t e. h.found t (sym same.0 ∙ e);
    untouched = λ e. cc;
    stored = λ e. let (t, target, stored) = h.stored started in (t, same.0 ∙ target, stored);
  }

  apply_action-IsSafe :
      (p : P) (t : Entitlement) (pre_image : Fields) (s : Run P D B)
      → IsCaptured p (t, pre_image) s
      → IsSafe p (apply_action rt c ids action lease t pre_image s).1
  unfolding apply_action
  apply_action-IsSafe p t pre_image s h =
      let started = record s { steps = s.steps ++ ("apply" ∷ []); apply_started = true } in
      let safe : IsSafe p started = record {
        found = λ t' e. same-IsFound p (some-injective _ _ (sym h.0 ∙ e)) h.4;
        untouched = λ e. cc;
        stored = λ e. (t, h.0, h.3);
      } in
      let after = record started { provider = (c.provider.revoke t false s.provider).1 } in
      let safe_after : IsSafe p after = record {
        found = safe.found;
        untouched = λ e. cc;
        stored = safe.stored;
      } in
      Always-bind (IsSafe p) (on_provider (c.provider.revoke t false))
        (keep_applied rt c ids action lease t pre_image) started safe_after
        (λ applied e.
          IsSafe-started p after (keep_applied rt c ids action lease t pre_image applied after) refl
            safe_after (keep_applied-SameLocals t pre_image applied after))

  -- Before the mutation begins: a call that leaves the provider too.
  pub IsSafe-kept :
      {A : Type 0} (p : P) (s : Run P D B) (x : Result A × Run P D B)
      → IsSafe p s
      → SameLocals s x
      → x.1.provider ≡ s.provider
      → IsSafe p x.1
  IsSafe-kept p s x h same e = record {
    found = λ t e'. h.found t (sym same.0 ∙ e');
    untouched = λ e'. e ∙ h.untouched (sym same.1 ∙ e');
    stored =
        λ e'. let (t, target, stored) = h.stored (sym same.1 ∙ e') in (t, same.0 ∙ target, stored);
  }

  pub give_up-provider :
      (status : String) (r : ActionResult) (s : Run P D B)
      → (give_up rt c ids action lease status r s).1.provider ≡ s.provider
  unfolding give_up
  give_up-provider status r s = ground arith

  pub after_dry_run-IsSafe :
      (p : P) (t : Entitlement) (pre_image : Fields) (r : ActionResult) (s : Run P D B)
      → IsCaptured p (t, pre_image) s
      → IsSafe p (after_dry_run rt c ids action lease t pre_image r s).1
  unfolding after_dry_run
  after_dry_run-IsSafe p t pre_image r s h = ground (
    arith,
    apply_action-IsSafe p t pre_image s h,
    IsSafe-kept p s (give_up rt c ids action lease "dry_run_failed" r s)
        (IsSafe-captured p (t, pre_image) s h) (give_up-SameLocals "dry_run_failed" r s)
        (give_up-provider "dry_run_failed" r s),
  )
