-- ===== src/Tests/Negotiation.antt =====
-- A negotiation with a model that always answers the same.
use sams_simlplifynext.Prelude.{String, List, [], ◌∷◌}
use sams_simlplifynext.Errors.{ok}
use sams_simlplifynext.Exec.{Returns}
use sams_simlplifynext.Value.{Value, text, items, null, nil, cons}
use sams_simlplifynext.Broker.Negotiate.{Ports, given, negotiate_decision}
use sams_simlplifynext.Broker.Negotiate.Decision.{IsDecision, negotiate_decision-IsBounded}
use sams_simlplifynext.Tests.Fixtures.{test_runtime, alice_plan, alice_action}

abbrev test_ports : Ports (List String)
test_ports = record {
  complete = λ model prompt w. (ok "{\"scope\":\"write\"}", model ∷ w);
  write = λ proposal w. (ok "proposal-1", w);
}

abbrev graph_of_two : Value
graph_of_two = items (cons (text "read") (cons (text "write") nil))

negotiate_decision-IsBounded_example :
    Returns
      (λ r w.
        IsDecision test_runtime graph_of_two alice_plan "Reduce further" (given alice_action) r)
      (negotiate_decision test_runtime test_ports "Reduce further" null alice_plan graph_of_two
        (given alice_action)
        "sam"
        ""
        [])
negotiate_decision-IsBounded_example =
    negotiate_decision-IsBounded test_runtime graph_of_two alice_plan test_ports "Reduce further"
      null (given alice_action) "sam" "" []
