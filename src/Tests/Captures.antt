-- ===== src/Tests/Captures.antt =====
-- A capture of one entitlement, at the epoch.
use sams_simlplifynext.Prelude.{false, [], ◌∷◌, ◌≡◌, refl, sym, ap}
use sams_simlplifynext.Prelude.Int.{ℤ, pos, ◌*ℤ◌, floor_div}
use sams_simlplifynext.Errors.{ok}
use sams_simlplifynext.Runtime.{Runtime}
use sams_simlplifynext.Value.{Fields}
use sams_simlplifynext.Plan.Canonical.{canonical_value, json_text}
use sams_simlplifynext.Graph.Capture.{EmailPattern, safe_string}
use sams_simlplifynext.Graph.Capture.Provider.{capture_body}
use sams_simlplifynext.Graph.Capture.Reading.{IsIso, IsCapturable}
use sams_simlplifynext.Graph.Capture.Body.{IsCapture, capture_time, capture_body-IsCapture}
use sams_simlplifynext.Tests.Fixtures.{test_runtime, alice_write, at}

abbrev epoch_runtime : Runtime
epoch_runtime = record test_runtime { from_iso = λ s. ok (at (pos 0)) }

abbrev IsEpoch : ℤ → Type 0
IsEpoch n = n ≡ pos 0

abbrev no_email : EmailPattern
no_email = record { fullmatch = λ s. false; sub = λ f s. s }

epoch-IsIso : IsIso epoch_runtime IsEpoch
unfolding ◌*ℤ◌
epoch-IsIso = record {
  reads = λ n h. ap (λ m. ok (at (m *ℤ pos 1000000))) (sym h);
  writes = λ n. refl;
}

alice-IsCapturable : IsCapturable epoch_runtime no_email IsEpoch epoch-IsIso alice_write
unfolding floor_div safe_string
alice-IsCapturable = record {
  granted = tt;
  used = (refl, refl);
  identity_id_filled = refl;
  system_filled = refl;
  resource_filled = refl;
}

alice_made :
    (made : Fields × Fields) × (capture_body epoch_runtime no_email
        (λ t. t)
        (alice_write ∷ [])
        "acme"
        (at (pos 0))
        "v1"
      ≡ ok made)
unfolding capture_body canonical_value json_text
alice_made = (_, refl)

capture_body-IsCapture_example :
    IsCapture epoch_runtime no_email IsEpoch epoch-IsIso
      (λ t. t)
      (alice_write ∷ [])
      (capture_time epoch_runtime no_email IsEpoch epoch-IsIso (λ t. t) (at (pos 0)))
      alice_made.0
capture_body-IsCapture_example =
    capture_body-IsCapture epoch_runtime no_email IsEpoch epoch-IsIso (λ t. t) (alice_write ∷ [])
      "acme" (at (pos 0)) "v1" alice_made.0 (alice-IsCapturable, tt) alice_made.1
