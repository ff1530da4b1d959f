-- ===== src/Tests/Runs.antt =====
-- One delivery of one action, and its lock.
use sams_simlplifynext.Prelude.{true, none, List, [], ◌∷◌, any, ◌⊎◌, ◌≡◌, ◌≢◌, refl, arith}
use sams_simlplifynext.Prelude.Text.{eq_refl}
use sams_simlplifynext.Prelude.Int.{pos}
use sams_simlplifynext.Errors.{ok, err, unfinished}
use sams_simlplifynext.Exec.{Returns}
use sams_simlplifynext.Contracts.{Entitlement}
use sams_simlplifynext.Plan.Builder.{envelope_text}
use sams_simlplifynext.Plan.Canonical.{canonical_dumps, canonical_value, json_text, plan_hash}
use sams_simlplifynext.Executor.State.{Run}
use sams_simlplifynext.Executor.Idempotency.{
  lock_key, IdempotencyLease, acquire, claim, expiry, shared_attributes, plan_partition,
  action_sort,
}
use sams_simlplifynext.Executor.Idempotency.Exclusive.{IsConditional, IsDuplicate, acquire-acquire}
use sams_simlplifynext.Executor.Idempotency.Waiting.{IsClock, IsOutside, acquire-finishes}
use sams_simlplifynext.Executor.Execute.{plan_ids, PlanIds, execute, metadata}
use sams_simlplifynext.Executor.Execute.Whole.{
  IsReadOnly, FailsClosed, IsRevoked, IsRepeat, IsRead, execute-FailsClosed, execute-IsRevoked,
  execute-repeat,
}
use sams_simlplifynext.Tests.Fixtures.{
  test_runtime, test_clients, memory_provider, memory_table, MemoryTable, Objects, holds,
  empty_table, start, alice_plan, alice_action,
}

memory_provider-IsReadOnly : IsReadOnly test_runtime test_clients 10 alice_plan alice_action
unfolding test_clients memory_provider
memory_provider-IsReadOnly = record { snapshot = λ p. refl; dry_run = λ t p. refl }

memory_table-IsConditional : IsConditional memory_table holds
unfolding memory_table holds any
memory_table-IsConditional = record {
  put_existing = λ k s item d there. rw there refl;
  put_holds = λ k s item new d k' s' there. ground arith;
  put_new = λ k s item new d done. ground (arith, eq_refl k, eq_refl s);
  now_holds = λ d k s there. there;
}

memory_table-IsClock : IsClock memory_table (λ d. d.clock)
unfolding memory_table
memory_table-IsClock = record {
  now_reads = λ d. refl;
  now_later = λ d. omega arith;
  sleep_later = λ n d. omega arith;
  get_later = λ k s d. omega arith;
}

memory_table-IsOutside : IsOutside test_runtime memory_table
unfolding memory_table
memory_table-IsOutside = record {
  get_item = λ k s d e. cc;
  put_item = λ k s item new d. ground arith;
  json_loads = λ s e. cc;
  from_iso = λ s e. cc;
}

execute-FailsClosed_example :
    FailsClosed test_runtime test_clients 10 alice_plan alice_action start
      (execute test_runtime test_clients 10 alice_plan alice_action start).1
execute-FailsClosed_example =
    execute-FailsClosed test_runtime test_clients 10 alice_plan alice_action
      memory_provider-IsReadOnly start

execute-IsRevoked_example :
    Returns
      (λ r s.
        r.succeeded ≡ true
        → IsRevoked test_runtime test_clients 10 alice_plan alice_action start s
          ⊎ IsRepeat test_runtime test_clients 10 alice_plan alice_action start r s)
      (execute test_runtime test_clients 10 alice_plan alice_action start)
execute-IsRevoked_example =
    execute-IsRevoked test_runtime test_clients 10 alice_plan alice_action
      memory_provider-IsReadOnly start

abbrev alice_ids : PlanIds
alice_ids = record { plan_id = "p1"; plan_hash = "{\"schema_version\":\"1\"}"; trace_id = "t1" }

alice_ids-known : plan_ids test_runtime alice_plan ≡ ok alice_ids
unfolding plan_ids plan_hash canonical_dumps canonical_value json_text envelope_text
alice_ids-known = refl

abbrev locked : Run (List Entitlement) MemoryTable Objects
unfolding lock_key
locked = record start {
  table = record {
    rows = (lock_key test_runtime "p1" (pos 0) "repo" "write", "LOCK", []) ∷ [];
    clock = 0;
  };
}

locked-holds : holds locked.table (lock_key test_runtime "p1" (pos 0) "repo" "write") "LOCK" ≡ true
unfolding locked holds any lock_key
locked-holds = refl

execute-repeat_example :
    ((execute test_runtime test_clients 10 alice_plan alice_action locked).1.provider
      ≡ locked.provider)
    × ((execute test_runtime test_clients 10 alice_plan alice_action locked).1.store ≡ locked.store)
    × Returns
        (IsRead test_runtime test_clients 10 alice_plan alice_action alice_ids)
        (execute test_runtime test_clients 10 alice_plan alice_action locked)
unfolding test_clients
execute-repeat_example =
    execute-repeat test_runtime test_clients 10 alice_plan alice_action holds
      memory_table-IsConditional locked {ids = alice_ids} alice_ids-known locked-holds

abbrev first_lease : IdempotencyLease
unfolding lock_key
first_lease = record {
  key = lock_key test_runtime "p1" (pos 0) "repo" "write";
  acquired = true;
  result = none;
}

first_lease-acquired :
    (acquire test_runtime memory_table 60 5 10 (metadata alice_ids alice_action) empty_table).0
    ≡ ok first_lease
unfolding acquire claim expiry memory_table holds any first_lease lock_key shared_attributes
    plan_partition action_sort
first_lease-acquired = refl

acquire-acquire_example : Returns (IsDuplicate test_runtime memory_table 60 5) (
    acquire test_runtime memory_table 60 5 10
      (metadata alice_ids alice_action)
      (acquire test_runtime memory_table 60 5 10 (metadata alice_ids alice_action) empty_table).1)
unfolding first_lease
acquire-acquire_example =
    acquire-acquire test_runtime memory_table 60 5 holds memory_table-IsConditional 10 10
      (metadata alice_ids alice_action) empty_table {lease = first_lease} first_lease-acquired refl

acquire-finishes_example :
    (acquire test_runtime memory_table 60 5 10 (metadata alice_ids alice_action) locked.table).0
    ≢ err unfinished
acquire-finishes_example =
    acquire-finishes test_runtime memory_table memory_table-IsOutside 60 5 (λ d. d.clock)
      memory_table-IsClock 10 (metadata alice_ids alice_action) locked.table (omega arith)
