-- ===== src/Tests/Snapshots.antt =====
-- A snapshot run over a provider that raises and one that returns an entitlement.
use sams_simlplifynext.Prelude.{String, true, none, List, [], ◌∷◌, All, ◌≡◌, refl}
use sams_simlplifynext.Prelude.Order.{insert}
use sams_simlplifynext.Prelude.Text.{text_le}
use sams_simlplifynext.Prelude.Int.{pos}
use sams_simlplifynext.Errors.{provider_error, ok, err}
use sams_simlplifynext.Value.{Datetime, Fields, name, text, field, end}
use sams_simlplifynext.Graph.Store.Codec.{ddb_value}
use sams_simlplifynext.Plan.Canonical.{canonical_value, json_text}
use sams_simlplifynext.Graph.Snapshot.{
  Source, SnapshotClients, SnapshotResult, run_snapshot, iso_hour,
}
use sams_simlplifynext.Prelude.Any.{Any}
use sams_simlplifynext.Graph.Snapshot.Outcomes.{IsReported}
use sams_simlplifynext.Graph.Snapshot.Reported.{run_snapshot-IsReported}
use sams_simlplifynext.Tests.Fixtures.{test_runtime, alice_write}
use sams_simlplifynext.Tests.Storing.{slow_table, plain_codec}

abbrev snapshot_clients : SnapshotClients (List Fields)
snapshot_clients = record {
  astimezone = λ t. t;
  codec = plain_codec;
  table = slow_table;
  max_retries = 5;
  put_object = λ key body d. (ok tt, d);
  class_name = λ e. "ProviderError";
}

abbrev two_sources : List (Source (List Fields))
two_sources =
    record { system = "salesforce"; snapshot = λ d. (err provider_error, d) }
    ∷ record { system = "github"; snapshot = λ d. (ok (alice_write ∷ []), d) }
    ∷ []

abbrev noon : Datetime
noon = record { aware = true; micros = pos 43200000000 }

abbrev github_key : String
github_key = "snapshots/2026-01-01T00:00:00Z/github.json"

abbrev two_reported : SnapshotResult
two_reported = record {
  run_id = "2026-01-01T00:00:00Z";
  evaluated_at = noon;
  statuses = field (name "github") (text "fresh") (field (name "salesforce") (text "stale") end);
  snapshot_keys = field (name "github") (text github_key) end;
}

abbrev after_two : List Fields
unfolding run_snapshot
after_two = (run_snapshot test_runtime snapshot_clients two_sources noon none []).1

two_run :
    run_snapshot test_runtime snapshot_clients two_sources noon none []
    ≡ (ok two_reported, after_two)
unfolding run_snapshot insert text_le ddb_value canonical_value json_text
two_run = refl

run_snapshot-IsReported_example :
    All
      (λ provider.
        Any
          (IsReported test_runtime snapshot_clients
            (iso_hour test_runtime noon)
            two_reported.statuses
            two_reported.snapshot_keys
            provider.system)
          two_sources)
      two_sources
run_snapshot-IsReported_example =
    run_snapshot-IsReported test_runtime snapshot_clients two_sources noon none two_reported []
      after_two two_run
