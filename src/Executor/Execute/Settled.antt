-- ===== src/Executor/Execute/Settled.antt =====
-- What a run that owns the lock has published when it returns, also after an exception.
use sams_simlplifynext.Prelude.{
  refl, if◌then◌else◌, Bool-cases, Option-cases, ◌≡◌, sym, ◌∙◌, ◌⊎◌, Bool, true, false, some, arith,
  inl, inr,
}
use mathlib.Core.Path.{subst}
use sams_simlplifynext.Executor.Execute.Locked.{IsTouched, attempt-IsTouched}
use sams_simlplifynext.Errors.{Exn, ok, err}
use sams_simlplifynext.Exec.{catch, Returns, Returns-bind, Returns-catch, Returns-map, Returns-same}
use sams_simlplifynext.Runtime.{Runtime}
use sams_simlplifynext.Contracts.{Entitlement, ActionResult}
use sams_simlplifynext.Plan.Builder.{Action}
use sams_simlplifynext.Executor.Idempotency.{IdempotencyLease}
use sams_simlplifynext.Executor.State.{Run, Clients, on_provider}
use sams_simlplifynext.Executor.Snapshots.{verify_revoked}
use sams_simlplifynext.Executor.Execute.{
  ExecutionResult, PlanIds, attempt, accept, recover, settle, abandon, on_exception, on_error,
  on_error-cases, execute_with,
}
use sams_simlplifynext.Executor.Execute.Published.{
  Agrees, Wrote, accept-Wrote, IsPublished, recover-IsPublished, attempt-IsPublished,
}

module _ {P D B : Type 0} (rt : Runtime) (c : Clients P D B) (ids : PlanIds) (action : Action)
    (lease : IdempotencyLease) where
  -- An action found completed after an error: the target was missing from a snapshot that left the
  -- provider as it is, and the published result is returned as a success.
  abbrev pub IsAccepted : ActionResult → ExecutionResult → Run P D B → Type 0
  IsAccepted p r s =
      (r.succeeded ≡ true)
      × (r.action_result ≡ some p)
      × (t : Entitlement) × (before : P) × (s.target ≡ some t)
      × (verify_revoked rt c.provider t before ≡ (ok true, s.provider))

  -- What follows an exception in the state `s0`.
  abbrev IsSettledFrom : Run P D B → ExecutionResult → Run P D B → Type 0
  IsSettledFrom s0 r s =
      (s0.apply_started ≡ true)
      × (p : ActionResult) × (Agrees p r ⊎ IsAccepted p r s)
      × Wrote rt c ids action lease p s0.table s

  accept-IsSettledFrom :
      (t : Entitlement) (s : Run P D B)
      → s.apply_started ≡ true
      → s.target ≡ some t
      → (verify_revoked rt c.provider t s.provider).0 ≡ ok true
      → Returns (IsSettledFrom s) (
          accept rt c ids action lease t
            (record s { provider = (verify_revoked rt c.provider t s.provider).1 }))
  accept-IsSettledFrom t s started found gone =
      let checked = record s { provider = (verify_revoked rt c.provider t s.provider).1 } in
      Returns-map _ (IsSettledFrom s) (accept rt c ids action lease t checked)
        (λ r s' (wrote, done, same, target, provider). (
          started,
          _,
          inr (done, same, t, s.provider, target ∙ found, λ i. (gone i, sym provider i)),
          wrote,
        ))
        (accept-Wrote rt c ids action lease t checked)

  recover-IsSettledFrom :
      (s0 s : Run P D B)
      → s0.apply_started ≡ true
      → s.table ≡ s0.table
      → Returns (IsSettledFrom s0) (recover rt c ids action lease s)
  recover-IsSettledFrom s0 s started kept =
      Returns-map _ (IsSettledFrom s0) (recover rt c ids action lease s)
        (λ r s' (p, agrees, wrote).
          (started, p, inl agrees, subst (λ d. Wrote rt c ids action lease p d s') kept wrote))
        (recover-IsPublished rt c ids action lease s)

  settled-if :
      (t : Entitlement) (s : Run P D B) (gone : Bool)
      → s.apply_started ≡ true
      → s.target ≡ some t
      → (verify_revoked rt c.provider t s.provider).0 ≡ ok gone
      → Returns (IsSettledFrom s) (
          (if gone then accept rt c ids action lease t else recover rt c ids action lease)
            (record s { provider = (verify_revoked rt c.provider t s.provider).1 }))
  settled-if t s true started found e = accept-IsSettledFrom t s started found e
  settled-if t s false started found e = recover-IsSettledFrom s _ started refl

  settle-IsSettledFrom :
      (t : Entitlement) (s : Run P D B)
      → s.apply_started ≡ true
      → s.target ≡ some t
      → Returns (IsSettledFrom s) (settle rt c ids action lease t s)
  unfolding settle
  settle-IsSettledFrom t s started found =
      Returns-bind (IsSettledFrom s) (on_provider (verify_revoked rt c.provider t)) _ s
        (λ gone e. settled-if t s gone started found e)

  abandon-IsSettledFrom :
      (e : Exn) (s0 s : Run P D B) → Returns (IsSettledFrom s0) (abandon rt c ids action lease e s)
  unfolding abandon
  abandon-IsSettledFrom e s0 s = ground arith

  on_exception-IsSettledFrom :
      (e : Exn) (s : Run P D B) → Returns (IsSettledFrom s) (on_exception rt c ids action lease e s)
  unfolding on_exception
  on_exception-IsSettledFrom e s = elim (Option-cases s.target) [
    | inl none_yet ↦ ground (arith, abandon-IsSettledFrom e s s)
    | inr (t, found) ↦ elim (Bool-cases s.apply_started) [
      | inl started ↦ ground (arith, settle-IsSettledFrom t s started found)
      | inr idle ↦ ground (arith, abandon-IsSettledFrom e s s)
    ]
  ]

  on_error-IsSettledFrom :
      (e : Exn) (s : Run P D B) → Returns (IsSettledFrom s) (on_error rt c ids action lease e s)
  on_error-IsSettledFrom e s = elim (on_error-cases rt c ids action lease e) [
    | inl same ↦ rw same (abandon-IsSettledFrom e s s)
    | inr same ↦ rw same (on_exception-IsSettledFrom e s)
  ]

  -- From the state `s0`, a run published one result: when the attempt returned; or when it raised
  -- in the mutation or after it, on the table that the attempt left, which then is as it was or as
  -- one publication left it.
  abbrev pub IsConcluded : Run P D B → ExecutionResult → Run P D B → Type 0
  IsConcluded s0 r s =
      ((attempt rt c ids action lease s0 ≡ (ok r, s))
        × IsPublished rt c ids action lease s0.table r s)
      ⊎ ((e : Exn) × (s1 : Run P D B) × (attempt rt c ids action lease s0 ≡ (err e, s1))
          × (s1.apply_started ≡ true)
          × IsTouched rt c ids action lease s0.table s1.table
          × (p : ActionResult) × (Agrees p r ⊎ IsAccepted p r s)
          × Wrote rt c ids action lease p s1.table s)

  caught-IsConcluded :
      (s : Run P D B)
      → Returns
          (IsConcluded s)
          (catch (attempt rt c ids action lease) (on_error rt c ids action lease) s)
  caught-IsConcluded s =
      let s1 = (attempt rt c ids action lease s).1 in
      Returns-catch (IsConcluded s) (attempt rt c ids action lease) (on_error rt c ids action lease)
        s
        (Returns-map _ (IsConcluded s) (attempt rt c ids action lease s) (λ r s' h. inl h)
          (Returns-same _ (attempt rt c ids action lease s)
            (attempt-IsPublished rt c ids action lease s)))
        (λ e raised.
          Returns-map (IsSettledFrom s1) (IsConcluded s) (on_error rt c ids action lease e s1)
            (λ r s' (started, p, agrees, wrote). inr (
              e,
              s1,
              λ i. (raised i, s1),
              started,
              attempt-IsTouched rt c ids action lease s,
              p,
              agrees,
              wrote,
            ))
            (on_error-IsSettledFrom e s1))

  -- A delivery that owns the lock and returns has published a result that agrees with what it
  -- returns.
  pub execute_with-IsConcluded :
      (s : Run P D B)
      → lease.acquired ≡ true
      → Returns (IsConcluded s) (execute_with rt c ids action lease s)
  unfolding execute_with
  execute_with-IsConcluded s owned = ground (arith, caught-IsConcluded s)
