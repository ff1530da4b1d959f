-- ===== src/Executor/Execute/Guarded.antt =====
-- The whole run fails closed: the provider is changed only after the pre-image was stored.
use sams_simlplifynext.Prelude.{
  String, or_else, if◌then◌else◌, Option-cases, Bool-cases, inl, inr, ◌≡◌, sym, ◌∙◌, true, false,
  Option, none, some, [], ◌∷◌, ◌++◌, arith,
}
use mathlib.Core.Option.{some-injective}
use mathlib.Core.Path.{subst}
use sams_simlplifynext.Prelude.Text.{filled}
use sams_simlplifynext.Errors.{Exn, irreversible, Result, Result-cases, ok, err}
use sams_simlplifynext.Exec.{
  pure, lift, catch, Always-bind, Always-catch, Returns, Returns-bind, Returns-ok,
}
use sams_simlplifynext.Runtime.{Runtime}
use sams_simlplifynext.Value.{Fields, mapping}
use sams_simlplifynext.Contracts.{Entitlement}
use sams_simlplifynext.Plan.Canonical.{canonical_dumps}
use sams_simlplifynext.Plan.Builder.{Action}
use sams_simlplifynext.Executor.Idempotency.{IdempotencyLease}
use sams_simlplifynext.Executor.State.{Run, Clients, on_provider}
use sams_simlplifynext.Executor.Snapshots.{wire, find_target}
use sams_simlplifynext.Executor.Execute.{
  PlanIds, settle, abandon, on_exception, on_error, on_error-cases, rehearse, attempt, execute_with,
  after_dry_run, key_of_action, put_preimage, store_target, capture_with, capture,
}
use sams_simlplifynext.Executor.Execute.FailClosed.{
  SameLocals, settle-SameLocals, IsStored, IsSafe, IsCaptured, same-IsFound, IsFound,
  IsSafe-captured, IsSafe-started, IsSafe-kept, after_dry_run-IsSafe,
}

module _ {P D B : Type 0} (rt : Runtime) (c : Clients P D B) (ids : PlanIds) (action : Action)
    (lease : IdempotencyLease) (b : B) where
  -- A state in which nothing is decided yet.
  abbrev IsFresh : P → Run P D B → Type 0
  IsFresh p s = (s.target ≡ none) × (s.apply_started ≡ false) × (s.provider ≡ p) × (s.store ≡ b)

  IsSafe-fresh : (p : P) (s : Run P D B) → IsFresh p s → IsSafe rt c ids action lease b p s
  IsSafe-fresh p s h = record { found = λ t e. cc; untouched = λ _. h.2; stored = λ e. cc }

  key_of_action-lem :
      {key : String} → key_of_action rt c ids action ≡ ok key → action.pre_image_key ≡ some key
  unfolding key_of_action
  key_of_action-lem {key = key} h = elim (Option-cases action.pre_image_key) [
    | inl e ↦
        let kept : Option String → Result String =
          λ k. if filled (or_else k "") then ok (or_else k "") else err irreversible in
        let failed : err irreversible ≡ ok key = subst (λ k. kept k ≡ ok key) e h in absurd cc
    | inr (k, e) ↦ ground arith
  ]

  -- A write to the object store keeps all that is not the store.
  put_preimage-keeps :
      (key : String) (m : Fields) (s : Run P D B)
      → ((put_preimage rt c ids action key m s).1.target ≡ s.target)
        × ((put_preimage rt c ids action key m s).1.apply_started ≡ s.apply_started)
        × ((put_preimage rt c ids action key m s).1.provider ≡ s.provider)
  unfolding put_preimage
  put_preimage-keeps key m s = ground arith

  store_target-lem :
      (key : String) (t : Entitlement) (s : Run P D B)
      → ((store_target rt c ids action key t s).1.target ≡ some t)
        × ((store_target rt c ids action key t s).1.apply_started ≡ s.apply_started)
        × ((store_target rt c ids action key t s).1.provider ≡ s.provider)
  unfolding store_target
  store_target-lem key t s =
      let chosen = record s { target = some t; pre_image = some (wire t) } in
      ground (arith, put_preimage-keeps key (wire t) chosen)

  store_target-IsSafe :
      (p : P) (key : String) (t : Entitlement) (s : Run P D B)
      → IsFresh p s
      → IsFound rt c ids action lease b p t
      → IsSafe rt c ids action lease b p (store_target rt c ids action key t s).1
  store_target-IsSafe p key t s h one =
      let same = store_target-lem key t s in
      record {
        found = λ t' e.
            same-IsFound rt c ids action lease b p (some-injective _ _ (sym same.0 ∙ e)) one;
        untouched = λ _. same.2 ∙ h.2;
        stored = λ e. absurd (ground arith);
      }

  put_preimage-lem :
      (key : String) (t : Entitlement) (s : Run P D B) {u : Unit {0}}
      → action.pre_image_key ≡ some key
      → s.store ≡ b
      → (put_preimage rt c ids action key (wire t) s).0 ≡ ok u
      → IsStored rt c action b t
  unfolding put_preimage
  put_preimage-lem key t s {u} e same h =
      elim (Result-cases (canonical_dumps rt (mapping (wire t)))) [
        | inl (body, e') ↦ (
          key,
          body,
          e,
          e',
          subst (λ b. (c.store.put_object c.preimage_bucket key body b).0 ≡ ok tt) same
              (ground arith),
        )
        | inr (x, e') ↦ absurd (ground arith)
      ]

  store_target-IsCaptured :
      (p : P) (key : String) (t : Entitlement) (s : Run P D B)
      → IsFresh p s
      → action.pre_image_key ≡ some key
      → IsFound rt c ids action lease b p t
      → Returns (IsCaptured rt c ids action lease b p) (store_target rt c ids action key t s)
  store_target-IsCaptured p key t s h e one =
      unfold store_target in
      let chosen = record s { target = some t; pre_image = some (wire t) } in
      let same = put_preimage-keeps key (wire t) chosen in
      Returns-bind (IsCaptured rt c ids action lease b p)
        (put_preimage rt c ids action key (wire t)) (λ _. pure (t, wire t)) chosen
        (λ u stored.
          (same.0, same.1 ∙ h.1, same.2 ∙ h.2, put_preimage-lem key t chosen e h.3 stored, one))

  abbrev Safe : P → Run P D B → Type 0
  Safe p s = IsSafe rt c ids action lease b p s

  abbrev Captured : P → Entitlement × Fields → Run P D B → Type 0
  Captured p r s = IsCaptured rt c ids action lease b p r s

  module _ (p : P) (readonly : (q : P) → (c.provider.snapshot q).1 ≡ q)
      (dry : (t : Entitlement) (q : P) → (c.provider.revoke t true q).1 ≡ q) where
    find_target-readonly : (q : P) → (find_target rt c.provider action q).1 ≡ q
    unfolding find_target
    find_target-readonly q = ground (arith, readonly q)

    -- The state in which the snapshot leaves the run is fresh too.
    looked_up-IsFresh :
        (s : Run P D B)
        → IsFresh p s
        → IsFresh p (on_provider (find_target rt c.provider action) s).1
    looked_up-IsFresh s h = (h.0, h.1, find_target-readonly s.provider ∙ h.2, h.3)

    capture_with-IsSafe :
        (key : String) (s : Run P D B) → IsFresh p s → Safe p (capture_with rt c ids action key s).1
    unfolding capture_with
    capture_with-IsSafe key s h =
        Always-bind (Safe p) (on_provider (find_target rt c.provider action))
          (store_target rt c ids action key) s (IsSafe-fresh p _ (looked_up-IsFresh s h))
          (λ t found.
            store_target-IsSafe p key t _ (looked_up-IsFresh s h)
              (subst (λ q. IsFound rt c ids action lease b q t) h.2 found))

    capture_with-IsCaptured :
        (key : String) (s : Run P D B)
        → IsFresh p s
        → action.pre_image_key ≡ some key
        → Returns (Captured p) (capture_with rt c ids action key s)
    unfolding capture_with
    capture_with-IsCaptured key s h e =
        Returns-bind (Captured p) (on_provider (find_target rt c.provider action))
          (store_target rt c ids action key) s
          (λ t found.
            store_target-IsCaptured p key t _ (looked_up-IsFresh s h) e
              (subst (λ q. IsFound rt c ids action lease b q t) h.2 found))

    capture-IsSafe : (s : Run P D B) → IsFresh p s → Safe p (capture rt c ids action s).1
    unfolding capture
    capture-IsSafe s h =
        let logged = record s { steps = s.steps ++ ("capture_preimage" ∷ []) } in
        Always-bind (Safe p) (lift (key_of_action rt c ids action)) (capture_with rt c ids action)
          logged (IsSafe-fresh p logged h) (λ key e. capture_with-IsSafe key logged h)

    capture-IsCaptured :
        (s : Run P D B) → IsFresh p s → Returns (Captured p) (capture rt c ids action s)
    unfolding capture
    capture-IsCaptured s h =
        let logged = record s { steps = s.steps ++ ("capture_preimage" ∷ []) } in
        Returns-bind (Captured p) (lift (key_of_action rt c ids action))
          (capture_with rt c ids action) logged
          (λ key e. capture_with-IsCaptured key logged h (key_of_action-lem e))

    rehearse-IsSafe :
        (r : Entitlement × Fields) (s : Run P D B)
        → Captured p r s
        → Safe p (rehearse rt c ids action lease r s).1
    unfolding rehearse
    rehearse-IsSafe (t, pre_image) s h =
        let logged = record s { steps = s.steps ++ ("dry_run" ∷ []) } in
        let after = record logged { provider = (c.provider.revoke t true s.provider).1 } in
        let still : Captured p (t, pre_image) after =
          (h.0, h.1, dry t s.provider ∙ h.2, h.3, h.4) in
        Always-bind (Safe p) (on_provider (c.provider.revoke t true))
          (after_dry_run rt c ids action lease t pre_image) logged
          (IsSafe-captured rt c ids action lease b p (t, pre_image) after still)
          (λ rehearsed e.
            after_dry_run-IsSafe rt c ids action lease b p t pre_image rehearsed after still)

    pub attempt-IsSafe : (s : Run P D B) → IsFresh p s → Safe p (attempt rt c ids action lease s).1
    unfolding attempt
    attempt-IsSafe s h =
        Always-bind (Safe p) (capture rt c ids action) (rehearse rt c ids action lease) s
          (capture-IsSafe s h)
          (λ r e.
            rehearse-IsSafe r _
              (Returns-ok (Captured p) (capture rt c ids action s) (capture-IsCaptured s h) e))

    abandon-keeps :
        (e : Exn) (s : Run P D B)
        → SameLocals rt c ids action lease b s (abandon rt c ids action lease e s)
          × ((abandon rt c ids action lease e s).1.provider ≡ s.provider)
    unfolding abandon
    abandon-keeps e s = ground arith

    abandon-IsSafe :
        (e : Exn) (s : Run P D B) → Safe p s → Safe p (abandon rt c ids action lease e s).1
    abandon-IsSafe e s h =
        let keeps = abandon-keeps e s in
        IsSafe-kept rt c ids action lease b p s (abandon rt c ids action lease e s) h keeps.0
          keeps.1

    on_exception-IsSafe :
        (e : Exn) (s : Run P D B) → Safe p s → Safe p (on_exception rt c ids action lease e s).1
    unfolding on_exception
    on_exception-IsSafe e s h = elim (Option-cases s.target) [
      | inl none_yet ↦ ground (arith, abandon-IsSafe e s h)
      | inr (t, found) ↦ elim (Bool-cases s.apply_started) [
        | inl started ↦ ground (
          arith,
          IsSafe-started rt c ids action lease b p s (settle rt c ids action lease t s) started h
              (settle-SameLocals rt c ids action lease b t s),
        )
        | inr not_started ↦ ground (arith, abandon-IsSafe e s h)
      ]
    ]

    on_error-IsSafe :
        (e : Exn) (s : Run P D B) → Safe p s → Safe p (on_error rt c ids action lease e s).1
    on_error-IsSafe e s h = elim (on_error-cases rt c ids action lease e) [
      | inl same ↦ rw same (abandon-IsSafe e s h)
      | inr same ↦ rw same (on_exception-IsSafe e s h)
    ]

    caught-IsSafe :
        (s : Run P D B)
        → IsFresh p s
        → Safe p (catch (attempt rt c ids action lease) (on_error rt c ids action lease) s).1
    caught-IsSafe s h =
        Always-catch (Safe p) (attempt rt c ids action lease) (on_error rt c ids action lease) s
          (attempt-IsSafe s h) (λ e raised. on_error-IsSafe e _ (attempt-IsSafe s h))

    -- The fields of the provider are changed only once the pre-image of the one candidate of the
    -- action is stored, in a run that starts with the locals unset.
    pub execute_with-IsSafe :
        (s : Run P D B) → IsFresh p s → Safe p (execute_with rt c ids action lease s).1
    unfolding execute_with
    execute_with-IsSafe s h = elim (Bool-cases lease.acquired) [
      | inl owned ↦ ground (arith, caught-IsSafe s h)
      | inr other ↦ ground (arith, IsSafe-fresh p s h)
    ]
