-- ===== src/Graph/Capture/Body.antt =====
-- What is read of the body of a capture (backend/src/deadbolt/graph/capture.py).
use sams_simlplifynext.Prelude.{String, Bool, some, List, All, map, ◌≡◌, refl, sym, ap, ◌∙◌}
use sams_simlplifynext.Prelude.Int.{ℤ, ◌*ℤ◌, floor_div}
use sams_simlplifynext.Prelude.Order.{sorted, sorted-map, sorted-All}
use mathlib.Core.Path.{subst}
use sams_simlplifynext.Errors.{Result, ok, ◌>>=◌, bind-ok, ok-injective}
use sams_simlplifynext.Runtime.{Runtime}
use sams_simlplifynext.Value.{Datetime, Fields, text, mapping, find, get}
use sams_simlplifynext.Contracts.{Entitlement}
use sams_simlplifynext.Plan.Canonical.{iso_second, canonical_dumps}
use sams_simlplifynext.Providers.Fixture.{entitlement_le}
use sams_simlplifynext.Graph.Capture.{
  EmailPattern, safe_string, captured_le, record_rows, whole_second,
}
use sams_simlplifynext.Graph.Capture.Provider.{
  capture_body, capture_fields, manifest_of, body_entitlements, parse_all,
}
use sams_simlplifynext.Graph.Capture.Reading.{
  IsIso, IsCapturable, fields_of, captured, capture_each, parse_all-record_rows,
}

module _ (rt : Runtime) (email : EmailPattern) (IsTime : ℤ → Type 0) (iso : IsIso rt IsTime)
    (astimezone : Datetime → Datetime) where
  -- The text of the time of a capture
  abbrev pub capture_time : Datetime → String
  unfolding floor_div ◌*ℤ◌
  capture_time t = rt.iso_text (floor_div (whole_second astimezone t).micros 1000000)

  whole_second-text :
      (t : Datetime) → iso_second rt (whole_second astimezone t) ≡ ok (capture_time t)
  unfolding iso_second whole_second
  whole_second-text t = refl

  same_order :
      (at : String) (a b : Entitlement)
      → captured_le (fields_of rt email IsTime iso at a) (fields_of rt email IsTime iso at b)
        ≡ entitlement_le (captured rt email IsTime iso at a) (captured rt email IsTime iso at b)
  unfolding captured_le entitlement_le find captured safe_string
  same_order at a b = refl

  parse_all-sorted :
      (n : ℤ) (es : List Entitlement)
      → All (IsCapturable rt email IsTime iso) es
      → parse_all rt (
          record_rows (sorted captured_le (map (fields_of rt email IsTime iso (rt.iso_text n)) es)))
        ≡ ok (sorted entitlement_le (map (captured rt email IsTime iso (rt.iso_text n)) es))
  parse_all-sorted n es a =
      let f = fields_of rt email IsTime iso (rt.iso_text n) in
      let g = captured rt email IsTime iso (rt.iso_text n) in
      let le : Entitlement → Entitlement → Bool = λ a b. captured_le (f a) (f b) in
      ap (λ ms. parse_all rt (record_rows ms)) (sorted-map f captured_le es)
      ∙ (parse_all-record_rows rt email IsTime iso n (sorted le es)
            (sorted-All le (IsCapturable rt email IsTime iso) es a)
          ∙ ap (λ l. ok l)
              (ap (λ le. map g (sorted le es)) (λ i a b. same_order (rt.iso_text n) a b i)
                ∙ sym (sorted-map g entitlement_le es)))

  -- What a body and a manifest are to the captured entitlements
  abbrev pub IsCapture : List Entitlement → String → Fields × Fields → Type 0
  IsCapture es at made =
      (body_entitlements rt (mapping made.0)
        ≡ ok (sorted entitlement_le (map (captured rt email IsTime iso at) es)))
      × ((dumped : String) × (canonical_dumps rt (mapping made.0) ≡ ok dumped)
          × (get "sha256" made.1 ≡ some (text (rt.sha256 dumped))))

  -- If `fromisoformat` reads what `isoformat` writes of the times in question, each entitlement
  -- has times with a zone or none, and a system, a resource and a redacted identity that are not
  -- empty, and `capture_body` returns, then reading the entitlements of its body gives these
  -- entitlements back, sorted by identity, resource and scope, with the identity redacted, the
  -- times cut to the second and the redacted raw fields marked as captured at the time of the
  -- capture; and the manifest has the hash of the canonical text of the body.
  pub capture_body-IsCapture :
      (es : List Entitlement) (org : String) (captured_at : Datetime) (version : String)
      (made : Fields × Fields)
      → All (IsCapturable rt email IsTime iso) es
      → capture_body rt email astimezone es org captured_at version ≡ ok made
      → IsCapture es (capture_time captured_at) made
  unfolding capture_body body_entitlements find
  capture_body-IsCapture es org captured_at version made a h =
      let at = capture_time captured_at in
      let n = floor_div (whole_second astimezone captured_at).micros 1000000 in
      let records = sorted captured_le (map (fields_of rt email IsTime iso at) es) in
      let body = capture_fields at org version records in
      let second = whole_second astimezone captured_at in
      let dump : String → List Fields → Result (Fields × Fields) = λ t ms.
        ◌>>=◌ (canonical_dumps rt (mapping (capture_fields t org version ms))) λ dumped.
          ok (capture_fields t org version ms, manifest_of t org version ms (rt.sha256 dumped)) in
      let after : String → Result (Fields × Fields) =
        λ dumped. ok (body, manifest_of at org version records (rt.sha256 dumped)) in
      let computed : capture_body rt email astimezone es org captured_at version
          ≡ ◌>>=◌ (canonical_dumps rt (mapping body)) after =
        ap (λ r. r >>= λ found. iso_second rt second >>= λ t. dump t (sorted captured_le found))
          (capture_each rt email IsTime iso n second es (whole_second-text captured_at) a)
        ∙ ap (λ r. r >>= λ t. dump t records) (whole_second-text captured_at) in
      let (dumped, e, h1) = bind-ok (canonical_dumps rt (mapping body)) after (sym computed ∙ h) in
      subst (IsCapture es at) (ok-injective h1) (parse_all-sorted n es a, (dumped, e, refl))
