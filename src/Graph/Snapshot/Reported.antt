-- ===== src/Graph/Snapshot/Reported.antt =====
-- The loop over the providers and the report of a run (backend/src/deadbolt/graph/snapshot.py).
use sams_simlplifynext.Prelude.{
  String, Bool, Option, List, [], ◌∷◌, All, All-map, ◌≡◌, sym, ap, ◌∙◌, ◌⊎◌, inl, inr, Bool-cases,
}
use sams_simlplifynext.Prelude.Text.{str_eq, eq_iff}
use sams_simlplifynext.Prelude.Order.{sorted, by_text, All-sorted}
use mathlib.Core.Path.{subst}
use sams_simlplifynext.Errors.{ok, value_error, require, ok-injective}
use sams_simlplifynext.Exec.{lift, ◌>>=◌, bind-ok}
use sams_simlplifynext.Runtime.{Runtime}
use sams_simlplifynext.Value.{Datetime, name, end, field, get, mapping, instant}
use sams_simlplifynext.Graph.Store.{put_run}
use sams_simlplifynext.Graph.Snapshot.{
  Source, SnapshotClients, SnapshotResult, RunProgress, try_call, collect, settle_provider,
  run_providers, run_id_or, run_snapshot, iso_hour,
}
use sams_simlplifynext.Prelude.Any.{Any, Any-sorted}
use sams_simlplifynext.Graph.Snapshot.Outcomes.{
  IsReported, IsUnchanged, Settled, settle_provider-Settled, own_or_later,
}

module _ {D : Type 0} (rt : Runtime) (clients : SnapshotClients D) (hour : String) where
  -- The first round of the loop.
  run_providers-first :
      (provider : Source D) (rest : List (Source D)) (before after : RunProgress) (d d' : D)
      → run_providers rt clients hour (provider ∷ rest) before d ≡ (ok after, d')
      → (reached : RunProgress) × (d2 : D) × Settled rt clients hour provider before reached
        × (run_providers rt clients hour rest reached d2 ≡ (ok after, d'))
  unfolding run_providers
  run_providers-first provider rest before after d d' h =
      let (r, d1, e, h1) =
        bind-ok (try_call (collect rt clients provider))
          (λ x.
            settle_provider rt clients hour provider.system before x
            >>= run_providers rt clients hour rest)
          d h in
      let (reached, d2, e2, h2) =
        bind-ok (settle_provider rt clients hour provider.system before r)
          (run_providers rt clients hour rest) d1 h1 in
      (
        reached,
        d2,
        settle_provider-Settled rt clients hour provider d before reached d1 d2 r
            (ok-injective (ap (λ x. x.0) e)) e2,
        h2,
      )

  -- The loop: a system is reported by one of its providers, or its entries are as before.
  run_providers-IsReported :
      (providers : List (Source D)) (before after : RunProgress) (d d' : D)
      → run_providers rt clients hour providers before d ≡ (ok after, d')
      → (system : String)
      → Any (IsReported rt clients hour after.statuses after.snapshot_keys system) providers
        ⊎ IsUnchanged rt clients hour after before system
  unfolding run_providers
  run_providers-IsReported [] before after d d' h system =
      let e = ok-injective (ap (λ x. x.0) h) in
      inr (ap (λ p. get system p.statuses) (sym e), ap (λ p. get system p.snapshot_keys) (sym e))
  run_providers-IsReported (provider ∷ rest) before after d d' h system =
      let (reached, d2, (report, other), h2) =
        run_providers-first provider rest before after d d' h in
      let later = run_providers-IsReported rest reached after d2 d' h2 in
      elim (Bool-cases (str_eq provider.system system)) [
        | inl same ↦
            let own : provider.system ≡ system = (eq_iff provider.system system).0 same in
            inl (
              subst
                (λ s.
                  Any (IsReported rt clients hour after.statuses after.snapshot_keys s)
                    (provider ∷ rest))
                own
                (own_or_later rt clients hour provider rest reached after report
                  (later provider.system)))
        | inr ne ↦
            let (v, w) = other system ne in
            elim (later system) [ inl a ↦ inl (inr a) | inr u ↦ inr (u.0 ∙ v, u.1 ∙ w) ]
      ]

  run_providers-each :
      (providers : List (Source D)) (before after : RunProgress) (d d' : D)
      → run_providers rt clients hour providers before d ≡ (ok after, d')
      → All
          (λ p.
            Any (IsReported rt clients hour after.statuses after.snapshot_keys p.system) providers)
          providers
  unfolding run_providers
  run_providers-each [] before after d d' h = tt
  run_providers-each (provider ∷ rest) before after d d' h =
      let (reached, d2, (report, _), h2) = run_providers-first provider rest before after d d' h in
      (
        own_or_later rt clients hour provider rest reached after report
            (run_providers-IsReported rest reached after d2 d' h2 provider.system),
        All-map
            (λ p. Any (IsReported rt clients hour after.statuses after.snapshot_keys p.system) rest)
            (λ p.
              Any (IsReported rt clients hour after.statuses after.snapshot_keys p.system)
                (provider ∷ rest))
            rest (λ p a. inr a) (run_providers-each rest reached after d2 d' h2),
      )

module _ {D : Type 0} (rt : Runtime) (clients : SnapshotClients D) where
  -- If a snapshot run returns, then for each provider its system is reported by a provider of
  -- this system, in one of two ways: the snapshot of that provider raised, or an entitlement of
  -- it could not be normalized, and the status is stale; or they returned, the canonical text of
  -- the normalized and sorted entitlements was put as the object of this system and hour, the
  -- status is fresh and the snapshot key is the key of this object.
  pub run_snapshot-IsReported :
      (providers : List (Source D)) (evaluated_at : Datetime) (run_id : Option String)
      (result : SnapshotResult) (d d' : D)
      → run_snapshot rt clients providers evaluated_at run_id d ≡ (ok result, d')
      → All
          (λ provider.
            Any
              (IsReported rt clients
                (iso_hour rt evaluated_at)
                result.statuses
                result.snapshot_keys
                provider.system)
              providers)
          providers
  unfolding run_snapshot
  run_snapshot-IsReported providers evaluated_at run_id result d d' h =
      let hour = iso_hour rt evaluated_at in
      let le : Source D → Source D → Bool = by_text (λ p. p.system) in
      let (_, d1, _, h1) = bind-ok (lift (require evaluated_at.aware value_error)) _ d h in
      let (done, d2, e, h2) =
        bind-ok (run_providers rt clients hour (sorted le providers) _) _ d1 h1 in
      let (_, d3, _, h3) =
        bind-ok
          (put_run rt clients.astimezone clients.codec clients.table clients.max_retries
            (run_id_or rt clients hour run_id)
            (field (name "evaluated_at") (instant evaluated_at)
              (field (name "systems") (mapping done.run_systems) end)))
          _ d2 h2 in
      let r = ok-injective (ap (λ x. x.0) h3) in
      subst
        (λ x.
          All (λ p. Any (IsReported rt clients hour x.statuses x.snapshot_keys p.system) providers)
            providers)
        r
        (All-sorted le
          (λ p.
            Any (IsReported rt clients hour done.statuses done.snapshot_keys p.system) providers)
          providers
          (All-map
            (λ p.
              Any (IsReported rt clients hour done.statuses done.snapshot_keys p.system)
                (sorted le providers))
            (λ p.
              Any (IsReported rt clients hour done.statuses done.snapshot_keys p.system) providers)
            (sorted le providers)
            (λ p a.
              Any-sorted le (IsReported rt clients hour done.statuses done.snapshot_keys p.system)
                providers a)
            (run_providers-each rt clients hour (sorted le providers)
              (record { statuses = end; snapshot_keys = end; run_systems = end }) done d1 d2 e)))
