-- ===== src/Tests/Providers.antt =====
-- The fixture provider with one entitlement.
use mathlib.Core.List.{Perm}
use sams_simlplifynext.Prelude.Order.{AreRanked}
use sams_simlplifynext.Providers.Fixture.Listing.{
  IsBefore, AreRead, IsWellFormed, fixture_provider-IsWellFormed, snapshot_lem,
}
use sams_simlplifynext.Prelude.{String, List, true, false, [], ◌∷◌, ◌≡◌, ◌≢◌, refl}
use sams_simlplifynext.Prelude.Int.{pos}
use sams_simlplifynext.Errors.{ok, err, untyped}
use sams_simlplifynext.Value.{find, Fields, name, text, boolean, instant, mapping, field, end, null}
use sams_simlplifynext.Contracts.{Entitlement, make_entitlement}
use sams_simlplifynext.Executor.State.{Clients}
use sams_simlplifynext.Executor.Execute.Whole.{IsReadOnly}
use sams_simlplifynext.Providers.Fixture.{
  FixtureState, key_of, lookup, snapshot, entitlement_of, read_scope, parse_datetime,
  read_credential, revoke, restore, fixture_provider,
}
use sams_simlplifynext.Providers.Fixture.RoundTrip.{
  IsUndone, revoke-restore, fixture_provider-IsReadOnly,
}
use sams_simlplifynext.Tests.Fixtures.{
  test_runtime, test_clients, at, alice_write, bob_write, alice_plan, alice_action, MemoryTable,
  Objects,
}

abbrev record_of : String → Fields
record_of identity_id = field (name "identity_id") (text identity_id) (
    field (name "system") (text "github") (
      field (name "resource") (text "repo") (
        field (name "scope") (text "write") (
          field (name "granted_at") null (
            field (name "last_used_at") (instant (at (pos 0))) (
              field (name "credential_type") (text "federated") (
                field (name "revocable") (boolean true)
                  (field (name "raw") (mapping end) end))))))))

abbrev alice_record : Fields
alice_record = record_of "alice"

abbrev seeded : FixtureState
seeded = record {
  state = (key_of alice_write, alice_record) ∷ [];
  pre_images = (key_of alice_write, alice_record) ∷ [];
  mutation_count = 0;
}

abbrev fixture_clients : Clients FixtureState MemoryTable Objects
unfolding test_clients fixture_provider
fixture_clients = record {
  provider = fixture_provider test_runtime "github";
  table = test_clients.table;
  store = test_clients.store;
  audit = test_clients.audit;
  preimage_bucket = test_clients.preimage_bucket;
  ttl_seconds = test_clients.ttl_seconds;
  wait_micros = test_clients.wait_micros;
}

read_alice : entitlement_of test_runtime alice_record ≡ ok alice_write
unfolding entitlement_of read_scope parse_datetime read_credential make_entitlement
read_alice = refl

revoke-restore_example :
    IsUndone test_runtime "github" alice_write alice_record seeded
      (revoke test_runtime "github" alice_write false seeded).1
      (restore test_runtime "github" alice_record
        (revoke test_runtime "github" alice_write false seeded).1).1
unfolding lookup
revoke-restore_example =
    revoke-restore test_runtime "github" alice_write alice_record seeded refl refl read_alice refl
      refl

fixture_provider-IsReadOnly_example :
    IsReadOnly test_runtime fixture_clients 10 alice_plan alice_action
unfolding fixture_clients
fixture_provider-IsReadOnly_example =
    fixture_provider-IsReadOnly test_runtime "github" fixture_clients 10 alice_plan alice_action
      refl

abbrev two_seeded : FixtureState
two_seeded = record {
  state = (key_of bob_write, record_of "bob") ∷ (key_of alice_write, alice_record) ∷ [];
  pre_images = [];
  mutation_count = 0;
}

read_bob : entitlement_of test_runtime (record_of "bob") ≡ ok bob_write
unfolding entitlement_of read_scope parse_datetime read_credential make_entitlement
read_bob = refl

two_seeded-IsWellFormed : IsWellFormed test_runtime "github" two_seeded.state
two_seeded-IsWellFormed =
    ((bob_write, read_bob, refl, refl), ((alice_write, read_alice, refl, refl), tt))

snapshot_lem_example :
    (out es : List Entitlement) × ((snapshot test_runtime "github" two_seeded).0 ≡ ok out)
    × AreRead test_runtime "github" two_seeded.state es
    × Perm out es
    × AreRanked IsBefore out
snapshot_lem_example = snapshot_lem test_runtime "github" two_seeded two_seeded-IsWellFormed

test_runtime-from_iso : (t : String) → test_runtime.from_iso t ≢ err untyped
test_runtime-from_iso t h = cc

fixture_provider-IsWellFormed_example :
    IsWellFormed test_runtime "github"
      ((fixture_provider test_runtime "github").revoke alice_write false two_seeded).1.state
    × (((fixture_provider test_runtime "github").restore alice_record two_seeded).0 ≢ err untyped)
    × IsWellFormed test_runtime "github"
        ((fixture_provider test_runtime "github").restore alice_record two_seeded).1.state
unfolding find
fixture_provider-IsWellFormed_example =
    fixture_provider-IsWellFormed test_runtime "github" two_seeded alice_write false alice_record
      two_seeded-IsWellFormed (tt, tt, tt, tt) test_runtime-from_iso
