-- ===== src/Graph/Snapshot.antt =====
-- The snapshot run over the providers (backend/src/deadbolt/graph/snapshot.py). A provider, the store
-- of the graph and the object store act on one outside.
pub mod Outcomes
pub mod Reported
use sams_simlplifynext.Prelude.{
  ℕ, String, Bool, true, Option, none, some, List, [], ◌∷◌, map, length, if◌then◌else◌,
}
use sams_simlplifynext.Prelude.Text.{str_eq, filled}
use sams_simlplifynext.Prelude.Int.{pos, ◌*ℤ◌, floor_div}
use sams_simlplifynext.Prelude.Order.{sorted, by_text}
use sams_simlplifynext.Errors.{Exn, Result, ok, err, value_error, require, traverse}
use sams_simlplifynext.Exec.{Exec, pure, lift, ◌>>=◌, ◌>>◌}
use sams_simlplifynext.Runtime.{Runtime}
use sams_simlplifynext.Value.{
  Datetime, name, Value, Values, Fields, number, text, instant, items, mapping, nil, cons, end,
  field, get, put, find,
}
use sams_simlplifynext.Contracts.{Entitlement, make_entitlement}
use sams_simlplifynext.Plan.Canonical.{◌⧺◌, canonical_dumps}
use sams_simlplifynext.Executor.Snapshots.{wire}
use sams_simlplifynext.Graph.Store.{GraphTable, put_entitlements, put_identity, put_run}
use sams_simlplifynext.Graph.Store.Codec.{TypeCodec}
use sams_simlplifynext.Graph.Store.Items.{distinct, stored_le}

-- What a run reads of a provider
pub record Source (D : Type 0) : Type 0 where
  pub system : String
  pub snapshot : Exec D (List Entitlement)

-- The table of the store with its settings, the object store, and the class name of an exception
pub record SnapshotClients (D : Type 0) : Type 0 where
  pub astimezone : Datetime → Datetime
  pub codec : TypeCodec
  pub table : GraphTable D
  pub max_retries : ℕ
  pub put_object : String → String → Exec D (Unit {0})
  pub class_name : Exn → String

pub record SnapshotResult : Type 0 where
  pub run_id : String
  pub evaluated_at : Datetime
  pub statuses : Fields
  pub snapshot_keys : Fields

-- The local variables `statuses`, `snapshot_keys` and `run_systems`
pub record RunProgress : Type 0 where
  pub statuses : Fields
  pub snapshot_keys : Fields
  pub run_systems : Fields

-- `_iso_hour`
unfoldable pub iso_hour : Runtime → Datetime → String
unfolding floor_div ◌*ℤ◌
iso_hour rt t = rt.iso_text (floor_div t.micros 3600000000 *ℤ pos 3600)

abbrev pub email_or_id : Runtime → Entitlement → Option Value → String
email_or_id rt e (some (text s)) =
    if filled (rt.strip s) then rt.lower (rt.strip s) else rt.lower e.identity_id
email_or_id rt e _ = rt.lower e.identity_id

-- `_canonical_identity`
unfoldable pub canonical_identity : Runtime → Entitlement → String
unfolding find
canonical_identity rt e = email_or_id rt e (get "email" e.raw)

-- `_normalize`
unfoldable pub normalize_entitlement : Runtime → Entitlement → Result Entitlement
unfolding canonical_identity make_entitlement
normalize_entitlement rt e =
    let identity_id = canonical_identity rt e in
    if str_eq identity_id e.identity_id
    then ok e
    else make_entitlement (record e { identity_id = identity_id })

unfoldable pub wires : List Entitlement → Values
unfolding wire
wires [] = nil
wires (e ∷ es) = cons (mapping (wire e)) (wires es)

abbrev pub snapshot_key : String → String → String
snapshot_key hour system = "snapshots/" ⧺ (hour ⧺ ("/" ⧺ (system ⧺ ".json")))

-- `try: ... except Exception`, with what comes next decided by the outcome
abbrev pub try_call : {S A : Type 0} → Exec S A → Exec S (Result A)
try_call m s = let (r, s') = m s in (ok r, s')

module _ {D : Type 0} (rt : Runtime) (clients : SnapshotClients D) where
  -- The entitlements of a provider, normalized and sorted
  unfoldable pub collect : Source D → Exec D (List Entitlement)
  unfolding traverse sorted stored_le normalize_entitlement
  collect provider = do
    found ← provider.snapshot
    entitlements ← lift (traverse (normalize_entitlement rt) found)
    pure (sorted stored_le entitlements)

  unfoldable pub put_identities : List String → Exec D (Unit {0})
  unfolding put_identity
  put_identities [] = pure tt
  put_identities (identity_id ∷ ids) = do
    put_identity rt clients.astimezone clients.codec clients.table clients.max_retries identity_id
        (field (name "email") (text identity_id) end)
    put_identities ids

  -- What is kept of one provider, up to the object of the snapshot.
  unfoldable pub keep_snapshot : String → String → List Entitlement → Exec D (Unit {0})
  unfolding put_entitlements put_identities canonical_dumps wires sorted by_text distinct
  keep_snapshot hour system entitlements = do
    put_entitlements rt clients.astimezone clients.codec clients.table clients.max_retries
        entitlements
    put_identities (sorted (by_text (λ s. s)) (distinct (map (λ e. e.identity_id) entitlements)))
    body ← lift (canonical_dumps rt (items (wires entitlements)))
    clients.put_object (snapshot_key hour system) body

  unfoldable pub mark_stale : String → Exn → RunProgress → RunProgress
  unfolding put
  mark_stale system raised progress = record progress {
    statuses = put (name system) (text "stale") progress.statuses;
    run_systems =
        put (name system)
          (mapping (
            field (name "status") (text "stale")
              (field (name "error") (text (clients.class_name raised)) end)))
          progress.run_systems;
  }

  unfoldable pub mark_fresh : String → String → List Entitlement → RunProgress → RunProgress
  unfolding put
  mark_fresh hour system entitlements progress = record {
    statuses = put (name system) (text "fresh") progress.statuses;
    snapshot_keys = put (name system) (text (snapshot_key hour system)) progress.snapshot_keys;
    run_systems =
        put (name system)
          (mapping (
            field (name "status") (text "fresh") (
              field (name "snapshot_key") (text (snapshot_key hour system))
                (field (name "count") (number (pos (length entitlements))) end))))
          progress.run_systems;
  }

  unfoldable pub settle_provider :
      String → String → RunProgress → Result (List Entitlement) → Exec D RunProgress
  unfolding keep_snapshot mark_stale mark_fresh
  settle_provider hour system progress (err raised) = pure (mark_stale system raised progress)
  settle_provider hour system progress (ok entitlements) = do
    keep_snapshot hour system entitlements
    pure (mark_fresh hour system entitlements progress)

  -- The loop over the providers
  unfoldable pub run_providers : String → List (Source D) → RunProgress → Exec D RunProgress
  unfolding collect settle_provider
  run_providers hour [] progress = pure progress
  run_providers hour (provider ∷ rest) progress = do
    collected ← try_call (collect provider)
    reached ← settle_provider hour provider.system progress collected
    run_providers hour rest reached

  abbrev pub run_id_or : String → Option String → String
  run_id_or hour (some run_id) = if filled run_id then run_id else hour
  run_id_or hour none = hour

  unfoldable pub run_snapshot : List (Source D) → Datetime → Option String → Exec D SnapshotResult
  unfolding sorted by_text iso_hour run_providers put_run
  run_snapshot providers evaluated_at run_id = do
    lift (require evaluated_at.aware value_error)
    let hour = iso_hour rt evaluated_at
    let effective_run_id = run_id_or hour run_id
    done ←
        run_providers hour (sorted (by_text (λ p. p.system)) providers)
          (record { statuses = end; snapshot_keys = end; run_systems = end })
    put_run rt clients.astimezone clients.codec clients.table clients.max_retries effective_run_id (
        field (name "evaluated_at") (instant evaluated_at)
          (field (name "systems") (mapping done.run_systems) end))
    pure (record {
      run_id = effective_run_id;
      evaluated_at = evaluated_at;
      statuses = done.statuses;
      snapshot_keys = done.snapshot_keys;
    })
