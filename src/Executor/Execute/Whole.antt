-- ===== src/Executor/Execute/Whole.antt =====
-- `execute` as a whole, from any state: what a delivery of an action guarantees.
use sams_simlplifynext.Prelude.{
  ℕ, String, Option, none, some, Option-cases, Bool, true, false, Bool-cases, [], ◌∷◌, ◌++◌, ◌≡◌,
  refl, sym, ap, ◌∙◌, ◌⊎◌, inl, inr, arith,
}
use mathlib.Core.Path.{subst}
use sams_simlplifynext.Errors.{ok, ok-injective}
use sams_simlplifynext.Exec.{
  Exec, lift, Returns, Returns-ok, Returns-bind, Returns-map, Always-bind,
}
use sams_simlplifynext.Runtime.{Runtime}
use sams_simlplifynext.Contracts.{Entitlement, ActionResult}
use sams_simlplifynext.Plan.Builder.{Action, Plan}
use sams_simlplifynext.Executor.Idempotency.{IdempotencyLease, lock_key, acquire}
use sams_simlplifynext.Executor.Idempotency.Exclusive.{
  IsConditional, IsReadLock, acquire-IsReadLock,
}
use sams_simlplifynext.Executor.State.{Run, Clients, on_table, fresh}
use sams_simlplifynext.Executor.Snapshots.{is_candidate}
use sams_simlplifynext.Executor.Snapshots.Target.{
  IsOnlyCandidate, find_target-only, find_target-candidate, IsAbsent, verify_revoked-IsAbsent,
}
use sams_simlplifynext.Executor.Execute.{
  ExecutionResult, duplicate, outcome, PlanIds, plan_ids, metadata, log_step, execute_with, execute,
}
use sams_simlplifynext.Executor.Execute.FailClosed.{IsStored, IsSafe}
use sams_simlplifynext.Executor.Execute.Guarded.{execute_with-IsSafe}
use sams_simlplifynext.Executor.Execute.Settled.{IsConcluded}
use sams_simlplifynext.Executor.Execute.Verified.{execute_with-Succeeds}

module _ {P D B : Type 0} (rt : Runtime) (c : Clients P D B) (fuel : ℕ) (plan : Plan)
    (action : Action) where
  -- The state in which `execute` asks for the lock.
  abbrev begun : Run P D B → Run P D B
  begun s = let f = fresh s in record f { steps = s.steps ++ ("acquire_lock" ∷ []) }

  -- The lease, and the state it leaves.
  abbrev leased : PlanIds → Exec (Run P D B) IdempotencyLease
  leased ids = on_table (acquire rt c.table c.ttl_seconds c.wait_micros fuel (metadata ids action))

  -- What holds in every state before the lock is tried and after, and of every run with a lease,
  -- holds of `execute`.
  execute-Always :
      (Q : Run P D B → Type 0) (s : Run P D B)
      → Q s
      → ((ids : PlanIds) → Q (leased ids (begun s)).1)
      → ((ids : PlanIds) (lease : IdempotencyLease)
          → Q (execute_with rt c ids action lease (leased ids (begun s)).1).1)
      → Q (execute rt c fuel plan action s).1
  unfolding execute log_step
  execute-Always Q s start waited run = Always-bind Q (lift (plan_ids rt plan)) _ s start (λ ids e.
      Always-bind Q (leased ids) (execute_with rt c ids action) (begun s) (waited ids)
        (λ lease e'. run ids lease))

  execute-Returns :
      (Q : ExecutionResult → Run P D B → Type 0) (s : Run P D B)
      → ((ids : PlanIds) (lease : IdempotencyLease)
          → plan_ids rt plan ≡ ok ids
          → (leased ids (begun s)).0 ≡ ok lease
          → Returns Q (execute_with rt c ids action lease (leased ids (begun s)).1))
      → Returns Q (execute rt c fuel plan action s)
  unfolding execute log_step
  execute-Returns Q s run = Returns-bind Q (lift (plan_ids rt plan)) _ s (λ ids e.
      Returns-bind Q (leased ids) (execute_with rt c ids action) (begun s)
        (λ lease e'. run ids lease e e'))

  -- From the first state to the second: the provider is as it was, or the pre-image of a candidate of
  -- the action was put into the store.
  abbrev pub FailsClosed : Run P D B → Run P D B → Type 0
  FailsClosed s s' =
      (s'.provider ≡ s.provider)
      ⊎ ((t : Entitlement) × (s'.target ≡ some t)
          × (is_candidate action t ≡ true)
          × IsStored rt c action s.store t)

  FailsClosed-IsSafe :
      (ids : PlanIds) (lease : IdempotencyLease) (s s' : Run P D B)
      → IsSafe rt c ids action lease s.store s.provider s'
      → FailsClosed s s'
  FailsClosed-IsSafe ids lease s s' h = elim (Bool-cases s'.apply_started) [
    | inl started ↦
        let (t, target, stored) = h.stored started in
        inr (
          t,
          target,
          find_target-candidate rt c.provider action s.provider (h.found t target),
          stored,
        )
    | inr idle ↦ inl (h.untouched idle)
  ]

  -- What the executor relies on of a provider: a snapshot and a dry run change nothing.
  pub record IsReadOnly : Type 0 where
    pub snapshot : (p : P) → (c.provider.snapshot p).1 ≡ p
    pub dry_run : (t : Entitlement) (p : P) → (c.provider.revoke t true p).1 ≡ p

  module _ (readonly : IsReadOnly) where
    -- If snapshots and dry runs of the provider change nothing, then whatever `execute` does
    -- from any state, also when it raises, leaves the provider as it found it, or has the target
    -- of the run set to a candidate of the action, for whose wire form the put under the pre-
    -- image key of the action, into the object store as it was at the start, succeeds.
    pub execute-FailsClosed : (s : Run P D B) → FailsClosed s (execute rt c fuel plan action s).1
    execute-FailsClosed s =
        execute-Always (FailsClosed s) s (inl refl) (λ ids. inl refl)
          (λ ids lease. FailsClosed-IsSafe ids lease s _ (
            execute_with-IsSafe rt c ids action lease s.store s.provider readonly.snapshot
              readonly.dry_run (leased ids (begun s)).1 (refl, refl, refl, refl)))

  -- What `acquire` returns for the action on the table of `s`, and the table it leaves.
  abbrev pub Acquires : Run P D B → PlanIds → IdempotencyLease → D → Type 0
  Acquires s ids lease d =
      (plan_ids rt plan ≡ ok ids)
      × (acquire rt c.table c.ttl_seconds c.wait_micros fuel (metadata ids action) s.table
          ≡ (ok lease, d))

  leased-Acquires :
      (s : Run P D B) (ids : PlanIds) (lease : IdempotencyLease)
      → plan_ids rt plan ≡ ok ids
      → (leased ids (begun s)).0 ≡ ok lease
      → Acquires s ids lease (leased ids (begun s)).1.table
  leased-Acquires s ids lease known got = (known, λ i. (got i, (leased ids (begun s)).1.table))

  -- The success of a result, if there is one.
  abbrev pub outcome_of : Option ActionResult → Bool
  outcome_of none = false
  outcome_of (some q) = q.succeeded

  -- The delivery asked for the lock and got a lease that does not own it; it returned the result
  -- of this lease, and did nothing else.
  abbrev pub IsRepeat : Run P D B → ExecutionResult → Run P D B → Type 0
  IsRepeat s r s' =
      (ids : PlanIds) × (lease : IdempotencyLease) × Acquires s ids lease s'.table
      × (lease.acquired ≡ false)
      × (r.action_result ≡ lease.result)
      × (r.succeeded ≡ outcome_of lease.result)
      × (s'.provider ≡ s.provider)
      × (s'.store ≡ s.store)

  -- The target of the run was the one candidate of the action in the snapshot of the provider at
  -- the start, and is not in its snapshot at the end.
  abbrev pub IsRevoked : Run P D B → Run P D B → Type 0
  IsRevoked s s' =
      (t : Entitlement) × (s'.target ≡ some t)
      × IsOnlyCandidate c.provider action t s.provider
      × IsAbsent c.provider t s'.provider

  execute_with-unowned :
      (ids : PlanIds) (lease : IdempotencyLease) (s : Run P D B)
      → lease.acquired ≡ false
      → Returns
          (λ r s'.
            (r.action_result ≡ lease.result) × (r.succeeded ≡ outcome_of lease.result) × (s' ≡ s))
          (execute_with rt c ids action lease s)
  unfolding execute_with duplicate outcome
  execute_with-unowned ids lease s other = elim (Option-cases lease.result) [
    | inl empty ↦ ground arith
    | inr (q, stored) ↦ ground arith
  ]

  execute_with-IsRepeat :
      (s : Run P D B) (ids : PlanIds) (lease : IdempotencyLease)
      → plan_ids rt plan ≡ ok ids
      → (leased ids (begun s)).0 ≡ ok lease
      → lease.acquired ≡ false
      → Returns (IsRepeat s) (execute_with rt c ids action lease (leased ids (begun s)).1)
  execute_with-IsRepeat s ids lease known got other =
      Returns-map _ (IsRepeat s) (execute_with rt c ids action lease _)
        (λ r s' (same, success, kept). (
          ids,
          lease,
          subst (Acquires s ids lease) (sym (ap (λ x. x.table) kept))
              (leased-Acquires s ids lease known got),
          other,
          same,
          success,
          ap (λ x. x.provider) kept,
          ap (λ x. x.store) kept,
        ))
        (execute_with-unowned ids lease _ other)

  module _ (readonly : IsReadOnly) where
    -- If snapshots and dry runs of the provider change nothing, then a run of `execute` that
    -- returns a success either has the target that is the one candidate of the action in the
    -- snapshot of the provider at the start, and this target is not in the snapshot of the
    -- provider as the run leaves it; or is a repeat: `acquire` for the action returned a lease
    -- that does not own the lock, the run returned the result of this lease with its success,
    -- the provider and the object store are untouched, and the lock table is as `acquire` left
    -- it.
    pub execute-IsRevoked :
        (s : Run P D B)
        → Returns
            (λ r s'. r.succeeded ≡ true → IsRevoked s s' ⊎ IsRepeat s r s')
            (execute rt c fuel plan action s)
    execute-IsRevoked s = execute-Returns _ s λ ids lease e e'. elim (Bool-cases lease.acquired) [
      | inl owned ↦
          Returns-map _ _ (execute_with rt c ids action lease _)
            (λ r s' h done.
              let (t, found, (target, gone)) = h done in
              inl (
                t,
                target,
                find_target-only rt c.provider action s.provider found,
                verify_revoked-IsAbsent rt c.provider action t s'.provider (ap (λ x. x.0) gone),
              ))
            (execute_with-Succeeds rt c ids action lease readonly.snapshot readonly.dry_run _ refl
              refl owned)
      | inr other ↦
          Returns-map (IsRepeat s) _ (execute_with rt c ids action lease _) (λ r s' h done. inr h)
            (execute_with-IsRepeat s ids lease e e' other)
    ]

  -- The delivery acquired the lock of its action and concluded on the table that this left.
  abbrev pub IsSettled : Run P D B → ExecutionResult → Run P D B → Type 0
  IsSettled s r s' =
      (ids : PlanIds) × (lease : IdempotencyLease) × Acquires s ids lease
        (leased ids (begun s)).1.table
      × (lease.acquired ≡ true)
      × (lease.key ≡ lock_key rt ids.plan_id action.seq action.resource action.scope)
      × IsConcluded rt c ids action lease (leased ids (begun s)).1 r s'

  -- The result is that of a lease without the lock, which `acquire` read from the lock of the action.
  abbrev pub IsRead : PlanIds → ExecutionResult → Run P D B → Type 0
  IsRead ids r s' =
      (lease : IdempotencyLease) × (r.action_result ≡ lease.result)
      × IsReadLock rt c.table c.ttl_seconds c.wait_micros
          (lock_key rt ids.plan_id action.seq action.resource action.scope) lease s'.table

  module _ (holds : D → String → String → Bool) (lawful : IsConditional c.table holds) where
    abbrev Holds : Run P D B → PlanIds → Type 0
    Holds s ids =
        holds s.table (lock_key rt ids.plan_id action.seq action.resource action.scope) "LOCK"
        ≡ true

    execute_with-IsRead :
        (s : Run P D B) (ids : PlanIds) (lease : IdempotencyLease)
        → Holds s ids
        → (leased ids (begun s)).0 ≡ ok lease
        → Returns (IsRead ids) (execute_with rt c ids action lease (leased ids (begun s)).1)
    execute_with-IsRead s ids lease there got =
        let Q =
          IsReadLock rt c.table c.ttl_seconds c.wait_micros
            (lock_key rt ids.plan_id action.seq action.resource action.scope) in
        let read : Q lease (leased ids (begun s)).1.table =
          Returns-ok Q
            (acquire rt c.table c.ttl_seconds c.wait_micros fuel (metadata ids action) s.table)
            (acquire-IsReadLock rt c.table c.ttl_seconds c.wait_micros holds lawful fuel
              (metadata ids action) s.table there)
            got in
        let (_, _, _, _, _, _, _, is) = read in
        Returns-map _ (IsRead ids) (execute_with rt c ids action lease _)
          (λ r s' (same, success, kept).
            (lease, same, subst (Q lease) (sym (ap (λ x. x.table) kept)) read))
          (execute_with-unowned ids lease _ (ap (λ l. l.acquired) is))

    execute-untouched :
        (s : Run P D B) {ids : PlanIds}
        → plan_ids rt plan ≡ ok ids
        → Holds s ids
        → ((execute rt c fuel plan action s).1.provider ≡ s.provider)
          × ((execute rt c fuel plan action s).1.store ≡ s.store)
    unfolding execute log_step execute_with
    execute-untouched s {ids} known there = ground (
      arith,
      acquire-IsReadLock rt c.table c.ttl_seconds c.wait_micros holds lawful fuel
          (metadata ids action) s.table there,
    )

    -- If a conditional put is refused where the item is there and puts and readings of the clock
    -- remove no item, then `execute` of an action whose lock is in the table changes neither the
    -- provider nor the object store, and if it returns, its action result is the one that the
    -- result text of the lock is decoded to, in a read that found the item of this lock complete
    -- and left the table as the run leaves it.
    pub execute-repeat :
        (s : Run P D B) {ids : PlanIds}
        → plan_ids rt plan ≡ ok ids
        → holds s.table (lock_key rt ids.plan_id action.seq action.resource action.scope) "LOCK"
          ≡ true
        → ((execute rt c fuel plan action s).1.provider ≡ s.provider)
          × ((execute rt c fuel plan action s).1.store ≡ s.store)
          × Returns (IsRead ids) (execute rt c fuel plan action s)
    execute-repeat s {ids} known there =
        let (provider, store) = execute-untouched s known there in
        (
          provider,
          store,
          execute-Returns (IsRead ids) s λ ids' lease e got.
              let same : ids ≡ ids' = ok-injective (sym known ∙ e) in
              subst
                (λ i.
                  Returns (IsRead i)
                    (execute_with rt c ids' action lease (leased ids' (begun s)).1))
                (sym same) (execute_with-IsRead s ids' lease (subst (Holds s) same there) got),
        )
