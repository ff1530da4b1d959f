-- ===== src/Tests/Auditing.antt =====
-- A chain of two records in a store in memory.
use sams_simlplifynext.Prelude.{
  String, true, Option, none, some, List, [], ◌∷◌, map, ◌≡◌, refl, if◌then◌else◌,
}
use sams_simlplifynext.Prelude.Text.{str_eq}
use sams_simlplifynext.Prelude.Int.{pos, ◌+ℤ◌}
use sams_simlplifynext.Prelude.Order.{sorted}
use sams_simlplifynext.Errors.{Result, ok, err, value_error}
use sams_simlplifynext.Runtime.{Runtime}
use sams_simlplifynext.Services.{ObjectStore}
use sams_simlplifynext.Value.{Value, Fields, text, mapping, end, field, name, find, put}
use sams_simlplifynext.Plan.Canonical.{canonical_dumps, canonical_value, json_text}
use sams_simlplifynext.Audit.Safe.{safe_value, safe_any, is_redacted}
use sams_simlplifynext.Audit.Redaction.{is_clean, safe_value-clean}
use sams_simlplifynext.Audit.Chain.{AuditRecord, verify_records, head_hash}
use sams_simlplifynext.Audit.Tamper.{IsParsed, AreSame, verify_records-AreSame}
use sams_simlplifynext.Audit.Chain.Append.{IsStored}
use sams_simlplifynext.Audit.Writer.{
  AuditWriter, normalize, records, found_records, read_records, max_seq, object_lock, write,
  verify_chain,
}
use sams_simlplifynext.Audit.Writer.Extension.{normalized_after, write-verify_chain}
use sams_simlplifynext.Tests.Fixtures.{test_runtime, at}

abbrev hidden_token : Value
hidden_token = mapping (
    field (name "token") (text "t") (
      field (name "note")
        (mapping (field (name "secret") (text "s") (field (name "kind") (text "k") end))) end))

shown_note : Value
shown_note = mapping (field (name "note") (mapping (field (name "kind") (text "k") end)) end)

hidden_token-safe : safe_value test_runtime hidden_token "" ≡ ok shown_note
unfolding safe_value safe_any is_redacted put shown_note
hidden_token-safe = refl

safe_value-clean_example : is_clean test_runtime shown_note ≡ true
safe_value-clean_example = safe_value-clean test_runtime hidden_token "" hidden_token-safe

abbrev event : Fields
event = field (name "plan_id") (text "p1") (field (name "result") (text "done") end)

abbrev fields_of : Result Fields → Fields
fields_of (ok m) = m
fields_of (err e) = end

abbrev body_of : Result String → String
body_of (ok s) = s
body_of (err e) = ""

first_fields : Fields
unfolding normalize find safe_value
first_fields = fields_of (normalize test_runtime "e1" (at (pos 0)) event "" (pos 0))

first_body : String
unfolding first_fields canonical_dumps canonical_value json_text
first_body = body_of (canonical_dumps test_runtime (mapping first_fields))

second_fields : Fields
unfolding normalize find safe_value first_body
second_fields = fields_of (normalize test_runtime "e2" (at (pos 0)) event first_body (pos 1))

second_body : String
unfolding second_fields canonical_dumps canonical_value json_text
second_body = body_of (canonical_dumps test_runtime (mapping second_fields))

audit_runtime : Runtime
unfolding first_body second_body first_fields second_fields
audit_runtime = record test_runtime {
  json_loads = λ s.
      if str_eq s first_body
      then ok (mapping first_fields)
      else if str_eq s second_body
      then ok (mapping second_fields)
      else err value_error;
}

abbrev Stored : Type 0
Stored = List (String × String)

abbrev body_at : String → Stored → Option String
body_at key [] = none
body_at key ((k, body) ∷ rest) = if str_eq k key then some body else body_at key rest

abbrev listing_store : ObjectStore Stored
listing_store = record {
  put_object = λ bucket key body b. (ok tt, (key, body) ∷ b);
  put_new_object = λ bucket key body lock b. (ok tt, (key, body) ∷ b);
  get_object = λ bucket key b. (ok (body_at key b), b);
  list_objects = λ bucket prefix b. (ok (map (λ x. x.0) b), b);
}

abbrev writer : AuditWriter
writer = record { bucket = "audit"; config = none }

abbrev first_record : AuditRecord
first_record = record { key = "audit/p1/0/e1.json"; fields = first_fields; raw = first_body }

abbrev second_record : AuditRecord
second_record = record { key = "audit/p1/1/e2.json"; fields = second_fields; raw = second_body }

abbrev one_stored : Stored
one_stored = (first_record.key, first_body) ∷ []

two_verified : verify_records audit_runtime (first_record ∷ second_record ∷ []) ≡ true
unfolding verify_records audit_runtime find
two_verified = refl

first_record-IsParsed : IsParsed audit_runtime first_record
unfolding audit_runtime
first_record-IsParsed = refl

second_record-IsParsed : IsParsed audit_runtime second_record
unfolding audit_runtime
second_record-IsParsed = refl

verify_records-AreSame_example :
    AreSame (first_record ∷ second_record ∷ []) (first_record ∷ second_record ∷ [])
unfolding audit_runtime
verify_records-AreSame_example =
    verify_records-AreSame audit_runtime (first_record ∷ second_record ∷ [])
      (first_record ∷ second_record ∷ []) two_verified two_verified refl refl (λ h. h, (λ h. h, tt))
      (first_record-IsParsed, (second_record-IsParsed, tt))
      (first_record-IsParsed, (second_record-IsParsed, tt))

one_found :
    found_records audit_runtime listing_store writer "p1" one_stored
    ≡ (ok (first_record ∷ []), one_stored)
unfolding found_records read_records audit_runtime
one_found = refl

abbrev two_stored : Stored
two_stored = (second_record.key, second_body) ∷ one_stored

two_listed :
    records audit_runtime listing_store writer "p1" two_stored
    ≡ (ok (second_record ∷ first_record ∷ []), two_stored)
unfolding records audit_runtime
two_listed = refl

second_normalized :
    normalized_after audit_runtime listing_store writer "e2" (at (pos 0)) event (first_record ∷ [])
    ≡ ok second_fields
unfolding normalize sorted head_hash max_seq audit_runtime find ◌+ℤ◌
second_normalized = refl

second_dumped : canonical_dumps audit_runtime (mapping second_fields) ≡ ok second_body
unfolding second_body audit_runtime
second_dumped = refl

second_written :
    write audit_runtime listing_store writer "e2" (at (pos 0)) event one_stored
    ≡ (ok second_record.key, two_stored)
unfolding write audit_runtime
second_written = refl

second_stored : IsStored audit_runtime second_fields second_body second_record
second_stored = record {
  raw = refl;
  canonical = second_dumped;
  present = λ k. refl;
  texts = λ k s h. h;
  numbers = λ k n h. h;
}

write-verify_chain_example :
    (listing_store.put_new_object "audit" second_record.key second_body
        (object_lock audit_runtime listing_store writer)
        one_stored
      ≡ (ok tt, two_stored))
    × (verify_chain audit_runtime listing_store writer "p1" two_stored ≡ (ok true, two_stored))
unfolding find
write-verify_chain_example =
    write-verify_chain audit_runtime listing_store writer "e2" (at (pos 0)) event second_fields
      second_body second_record [] (first_record ∷ []) one_stored two_stored refl one_found
      second_normalized second_dumped second_written second_stored two_listed

abbrev second_alone : Stored
second_alone = (second_record.key, second_body) ∷ []
