-- ===== src/Tests/Fixtures.antt =====
-- A runtime, services in memory, and one entitlement with its finding and its plan.
use sams_simlplifynext.Prelude.{
  ℕ, ◌+◌, String, Bool, true, false, not, ◌&&◌, Option, none, some, List, [], ◌∷◌, any, keep,
  if◌then◌else◌,
}
use sams_simlplifynext.Prelude.Text.{str_eq}
use sams_simlplifynext.Prelude.Int.{ℤ, pos}
use sams_simlplifynext.Errors.{ok, err, value_error, client_error}
use sams_simlplifynext.Runtime.{Runtime}
use sams_simlplifynext.Services.{Item, Table, ObjectStore}
use sams_simlplifynext.Value.{
  Datetime, name, Value, null, text, boolean, number, mapping, end, field,
}
use sams_simlplifynext.Contracts.{
  Entitlement, ActionResult, Scope, CredentialType, Tier, scope_value,
}
use sams_simlplifynext.Contracts.Provider.{EntitlementProvider}
use sams_simlplifynext.Engine.Drift.{Finding}
use sams_simlplifynext.Plan.Builder.{Action, Plan}
use sams_simlplifynext.Executor.State.{Run, Clients}
use sams_simlplifynext.Executor.Snapshots.{is_target}

-- The decoded result of every stored text.
abbrev stored_value : Value
stored_value = mapping (
    field (name "ok") (boolean true) (
      field (name "system") (text "github") (
        field (name "resource") (text "repo") (
          field (name "scope") (text "write") (
            field (name "dry_run") (boolean false) (
              field (name "pre_image") null (
                field (name "message") (text "done")
                  (field (name "provider_latency_ms") (number (pos 3)) end))))))))

abbrev pub test_runtime : Runtime
test_runtime = record {
  sha256 = λ s. s;
  lower = λ s. s;
  upper = λ s. s;
  strip = λ s. s;
  prefix = λ n s. s;
  iso_text = λ n. "2026-01-01T00:00:00Z";
  decimal_log = λ n. pos n;
  repr = λ v. "";
  pair_text = λ a b. a;
  parse_int = λ s. err value_error;
  json_loads = λ s. ok stored_value;
  from_iso = λ s. err value_error;
}

abbrev pub at : ℤ → Datetime
at n = record { aware = true; micros = n }

abbrev pub alice_write : Entitlement
alice_write = record {
  identity_id = "alice";
  system = "github";
  resource = "repo";
  scope = Scope.write;
  granted_at = none;
  last_used_at = some (at (pos 0));
  credential_type = CredentialType.federated;
  revocable = true;
  raw = end;
}

abbrev pub bob_write : Entitlement
bob_write = record alice_write { identity_id = "bob" }

abbrev result_of : Entitlement → Bool → ActionResult
result_of e dry_run = record {
  succeeded = true;
  system = e.system;
  resource = e.resource;
  scope = scope_value e.scope;
  dry_run = dry_run;
  pre_image = none;
  message = "revoked";
  provider_latency_ms = pos 0;
}

unfoldable pub memory_provider : EntitlementProvider (List Entitlement)
unfolding keep
memory_provider = record {
  system = "github";
  snapshot = λ p. (ok p, p);
  revoke = λ t dry_run p.
      (ok (result_of t dry_run), if dry_run then p else keep (λ e. not (is_target t e)) p);
  restore = λ pre_image p. (ok (result_of alice_write false), p);
}

pub record MemoryTable : Type 0 where
  pub rows : List (String × String × Item)
  pub clock : ℕ

unfoldable pub holds : MemoryTable → String → String → Bool
unfolding any
holds d k s = any (λ row. str_eq row.0 k && str_eq row.1 s) d.rows

abbrev lookup : List (String × String × Item) → String → String → Option Item
lookup [] k s = none
lookup ((k', s', item) ∷ rows) k s =
    let rest = lookup rows k s in if str_eq k' k && str_eq s' s then some item else rest

unfoldable pub memory_table : Table MemoryTable
unfolding holds
memory_table = record {
  put_item = λ k s item new d.
      if new && holds d k s
      then (err (client_error "ConditionalCheckFailedException"), d)
      else (ok tt, record d { rows = (k, s, item) ∷ d.rows });
  get_item = λ k s d. (ok (lookup d.rows k s), d);
  update_item = λ k s item d. (ok tt, record d { rows = (k, s, item) ∷ d.rows });
  delete_item = λ k s d. (ok tt, d);
  query = λ k s d. (ok [], d);
  now = λ d. (d.clock, d);
  sleep = λ n d. record d { clock = d.clock + n };
}

abbrev pub Objects : Type 0
Objects = List (String × String × String)

abbrev pub memory_store : ObjectStore Objects
memory_store = record {
  put_object = λ bucket key body b. (ok tt, (bucket, key, body) ∷ b);
  put_new_object = λ bucket key body lock b. (ok tt, (bucket, key, body) ∷ b);
  get_object = λ bucket key b. (ok none, b);
  list_objects = λ bucket prefix b. (ok [], b);
}

unfoldable pub test_clients : Clients (List Entitlement) MemoryTable Objects
unfolding memory_provider memory_table
test_clients = record {
  provider = memory_provider;
  table = memory_table;
  store = memory_store;
  audit = λ r b. (ok "audit/1", b);
  preimage_bucket = "preimages";
  ttl_seconds = 60;
  wait_micros = 5;
}

abbrev pub empty_table : MemoryTable
empty_table = record { rows = []; clock = 0 }

abbrev pub start : Run (List Entitlement) MemoryTable Objects
start = record {
  provider = alice_write ∷ [];
  table = empty_table;
  store = [];
  steps = [];
  target = none;
  pre_image = none;
  applied = none;
  apply_started = false;
}

abbrev pub alice_action : Action
alice_action = record {
  seq = pos 0;
  system = "github";
  resource = "repo";
  scope = "write";
  verb = "revoke";
  from_scope = "write";
  to_scope = "none";
  finding_id = "f1";
  score = pos 4000;
  tier = "T2";
  pre_image_key = some "preimages/0";
}

abbrev pub alice_plan : Plan
alice_plan = record {
  body = field (name "schema_version") (text "1") end;
  envelope = field (name "plan_id") (text "p1") (field (name "trace_id") (text "t1") end);
  actions = alice_action ∷ [];
}

abbrev pub alice_finding : Finding
alice_finding = record {
  entitlement = alice_write;
  s = 5000;
  d = 10000;
  m = 10000;
  b = 0;
  score = pos 6500;
  tier = Tier.T2;
  evidence = end;
  observe_only = false;
}
