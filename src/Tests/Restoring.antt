-- ===== src/Tests/Restoring.antt =====
-- The rollback of one recorded action.
use sams_simlplifynext.Prelude.{some, List, [], ◌∷◌, Bool, true, false, ◌≡◌, refl}
use sams_simlplifynext.Prelude.Int.{pos}
use sams_simlplifynext.Errors.{Result, ok, err}
use sams_simlplifynext.Exec.{Returns}
use sams_simlplifynext.Runtime.{Runtime}
use sams_simlplifynext.Services.{S, N, Item}
use sams_simlplifynext.Value.{mapping}
use sams_simlplifynext.Contracts.{Entitlement}
use sams_simlplifynext.Executor.State.{Run, Clients}
use sams_simlplifynext.Executor.Snapshots.{wire, verify_restored, matches_preimage}
use sams_simlplifynext.Executor.Rollback.{
  RollbackResult, one_action, rollback, get_action, stored_action, rollback_selected, gather,
  rollback_one, read_preimage, restore_action, check_restored, conclude,
}
use sams_simlplifynext.Plan.Canonical.{canonical_value, json_text}
use sams_simlplifynext.Executor.Rollback.Verified.{IsRolledBack, rollback-IsRolledBack}
use sams_simlplifynext.Tests.Fixtures.{
  test_runtime, memory_provider, memory_table, memory_store, MemoryTable, Objects, start,
  alice_write,
}

abbrev reading_runtime : Runtime
reading_runtime = record test_runtime { json_loads = λ s. ok (mapping (wire alice_write)) }

abbrev reading_clients : Clients (List Entitlement) MemoryTable Objects
reading_clients = record {
  provider = memory_provider;
  table = memory_table;
  store = record memory_store { get_object = λ bucket key b. (ok (some "{}"), b) };
  audit = λ r b. (ok "audit/2", b);
  preimage_bucket = "preimages";
  ttl_seconds = 60;
  wait_micros = 5;
}

abbrev recorded : Item
recorded =
    ("plan_id", S "p1")
    ∷ ("seq", N (pos 0))
    ∷ ("plan_hash", S "h")
    ∷ ("trace_id", S "t1")
    ∷ ("system", S "github")
    ∷ ("resource", S "repo")
    ∷ ("scope", S "write")
    ∷ ("pre_image_key", S "preimages/0")
    ∷ ("lock_key", S "k")
    ∷ []

abbrev executed : Run (List Entitlement) MemoryTable Objects
executed = record start { table = record { rows = ("PLAN#p1", "ACT#0", recorded) ∷ []; clock = 0 } }

abbrev did_succeed : Result RollbackResult → Bool
did_succeed (ok r) = r.succeeded
did_succeed (err e) = false

executed-restored :
    did_succeed (rollback reading_runtime reading_clients "p1" (one_action (pos 0)) executed).0
    ≡ true
unfolding rollback get_action memory_table stored_action rollback_selected gather rollback_one
    read_preimage restore_action memory_provider check_restored verify_restored wire
    matches_preimage canonical_value json_text conclude
executed-restored = refl

reading-readonly : (p : List Entitlement) → (reading_clients.provider.snapshot p).1 ≡ p
unfolding memory_provider
reading-readonly p = refl

rollback-IsRolledBack_example :
    Returns
      (λ r s.
        r.succeeded ≡ true
        → IsRolledBack reading_runtime reading_clients reading-readonly "p1"
            (one_action (pos 0))
            executed)
      (rollback reading_runtime reading_clients "p1" (one_action (pos 0)) executed)
rollback-IsRolledBack_example =
    rollback-IsRolledBack reading_runtime reading_clients reading-readonly "p1" (one_action (pos 0))
      executed
