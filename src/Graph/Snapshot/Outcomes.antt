-- ===== src/Graph/Snapshot/Outcomes.antt =====
-- What the outcome of one provider leaves in the report (backend/src/deadbolt/graph/snapshot.py).
use sams_simlplifynext.Prelude.{
  String, false, some, List, ◌∷◌, map, ◌≡◌, refl, ap, ◌∙◌, ◌⊎◌, inl, inr,
}
use sams_simlplifynext.Prelude.Text.{str_eq}
use sams_simlplifynext.Prelude.Order.{sorted, by_text}
use mathlib.Core.Path.{subst}
use sams_simlplifynext.Errors.{Exn, Result, ok, err, ok-injective}
use sams_simlplifynext.Exec.{lift, bind-ok}
use sams_simlplifynext.Runtime.{Runtime}
use sams_simlplifynext.Value.{Fields, text, items, get}
use sams_simlplifynext.Value.Lookup.{get-put, get-put_other}
use sams_simlplifynext.Contracts.{Entitlement}
use sams_simlplifynext.Plan.Canonical.{canonical_dumps}
use sams_simlplifynext.Graph.Store.{put_entitlements}
use sams_simlplifynext.Graph.Store.Items.{distinct}
use sams_simlplifynext.Graph.Snapshot.{
  Source, SnapshotClients, RunProgress, wires, snapshot_key, collect, put_identities, keep_snapshot,
  mark_stale, mark_fresh, settle_provider,
}
use sams_simlplifynext.Prelude.Any.{Any}

module _ {D : Type 0} (rt : Runtime) (clients : SnapshotClients D) (hour : String) where
  -- The snapshot of the provider raised.
  abbrev pub IsStale : Fields → Source D → Type 0
  IsStale statuses provider =
      (d : D) × (raised : Exn) × ((collect rt clients provider d).0 ≡ err raised)
      × (get provider.system statuses ≡ some (text "stale"))

  -- The snapshot of the provider returned, and its canonical text was put as an object.
  abbrev pub IsFresh : Fields → Fields → Source D → Type 0
  IsFresh statuses snapshot_keys provider =
      let key = snapshot_key hour provider.system in
      (d d1 d2 : D) × (entitlements : List Entitlement) × (body : String) × ((collect rt clients
          provider d).0
        ≡ ok entitlements)
      × (canonical_dumps rt (items (wires entitlements)) ≡ ok body)
      × (clients.put_object key body d1 ≡ (ok tt, d2))
      × (get provider.system statuses ≡ some (text "fresh"))
      × (get provider.system snapshot_keys ≡ some (text key))

  abbrev pub IsReported : Fields → Fields → String → Source D → Type 0
  IsReported statuses snapshot_keys system provider =
      (provider.system ≡ system)
      × (IsStale statuses provider ⊎ IsFresh statuses snapshot_keys provider)

  -- Both maps have at a system what they had.
  abbrev pub IsUnchanged : RunProgress → RunProgress → String → Type 0
  IsUnchanged p q system =
      (get system p.statuses ≡ get system q.statuses)
      × (get system p.snapshot_keys ≡ get system q.snapshot_keys)

  -- What the outcome of a provider leaves in the maps, for its own system and for the others.
  abbrev pub Settled : Source D → RunProgress → RunProgress → Type 0
  Settled provider before after =
      (IsStale after.statuses provider ⊎ IsFresh after.statuses after.snapshot_keys provider)
      × ((system : String)
          → str_eq provider.system system ≡ false
          → IsUnchanged after before system)

  mark_stale-Settled :
      (provider : Source D) (before : RunProgress) (d : D) (raised : Exn)
      → (collect rt clients provider d).0 ≡ err raised
      → Settled provider before (mark_stale rt clients provider.system raised before)
  unfolding mark_stale
  mark_stale-Settled provider before d raised e = (
    inl (d, raised, e, get-put provider.system (text "stale") before.statuses),
    λ system h. (get-put_other system provider.system (text "stale") before.statuses h, refl),
  )

  mark_fresh-Settled :
      (provider : Source D) (before : RunProgress) (d d1 d2 : D) (entitlements : List Entitlement)
      → (collect rt clients provider d).0 ≡ ok entitlements
      → keep_snapshot rt clients hour provider.system entitlements d1 ≡ (ok tt, d2)
      → Settled provider before (mark_fresh rt clients hour provider.system entitlements before)
  unfolding mark_fresh keep_snapshot
  mark_fresh-Settled provider before d d1 d2 entitlements e kept =
      let key = snapshot_key hour provider.system in
      let (_, d3, _, h3) =
        bind-ok
          (put_entitlements rt clients.astimezone clients.codec clients.table clients.max_retries
            entitlements)
          _ d1 kept in
      let (_, d4, _, h4) =
        bind-ok
          (put_identities rt clients
            (sorted (by_text (λ s. s)) (distinct (map (λ e. e.identity_id) entitlements))))
          _ d3 h3 in
      let (body, d5, h5, h6) =
        bind-ok (lift (canonical_dumps rt (items (wires entitlements)))) _ d4 h4 in
      (
        inr (
          d,
          d5,
          d2,
          entitlements,
          body,
          e,
          ap (λ x. x.0) h5,
          h6,
          get-put provider.system (text "fresh") before.statuses,
          get-put provider.system (text key) before.snapshot_keys,
        ),
        λ system h. (
          get-put_other system provider.system (text "fresh") before.statuses h,
          get-put_other system provider.system (text key) before.snapshot_keys h,
        ),
      )

  pub settle_provider-Settled :
      (provider : Source D) (d : D) (before after : RunProgress) (d1 d2 : D)
      (r : Result (List Entitlement))
      → (collect rt clients provider d).0 ≡ r
      → settle_provider rt clients hour provider.system before r d1 ≡ (ok after, d2)
      → Settled provider before after
  unfolding settle_provider
  settle_provider-Settled provider d before after d1 d2 (err raised) e h =
      subst (Settled provider before) (ok-injective (ap (λ x. x.0) h))
        (mark_stale-Settled provider before d raised e)
  settle_provider-Settled provider d before after d1 d2 (ok entitlements) e h =
      let (_, d3, kept, h3) =
        bind-ok (keep_snapshot rt clients hour provider.system entitlements) _ d1 h in
      subst (Settled provider before) (ok-injective (ap (λ x. x.0) h3))
        (mark_fresh-Settled provider before d d1 d3 entitlements e kept)

  pub IsReported-moved :
      (provider : Source D) (p q : RunProgress)
      → IsUnchanged q p provider.system
      → IsStale p.statuses provider ⊎ IsFresh p.statuses p.snapshot_keys provider
      → IsStale q.statuses provider ⊎ IsFresh q.statuses q.snapshot_keys provider
  IsReported-moved provider p q (u, v) (inl (d, raised, e, s)) = inl (d, raised, e, u ∙ s)
  IsReported-moved provider p q (u, v) (inr (d, d1, d2, es, body, e, b, o, s, k)) =
      inr (d, d1, d2, es, body, e, b, o, u ∙ s, v ∙ k)

  -- The provider itself reports its system, or a later one does.
  pub own_or_later :
      (provider : Source D) (rest : List (Source D)) (reached after : RunProgress)
      → IsStale reached.statuses provider ⊎ IsFresh reached.statuses reached.snapshot_keys provider
      → Any (IsReported after.statuses after.snapshot_keys provider.system) rest
        ⊎ IsUnchanged after reached provider.system
      → Any (IsReported after.statuses after.snapshot_keys provider.system) (provider ∷ rest)
  own_or_later provider rest reached after report (inl later) = inr later
  own_or_later provider rest reached after report (inr u) =
      inl (refl, IsReported-moved provider reached after u report)
