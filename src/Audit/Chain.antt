-- ===== src/Audit/Chain.antt =====
-- The hash chain of the records of a plan (backend/src/deadbolt/audit/writer.py, _records,
-- _sort_record, _verify_records and _previous_hash).
pub mod Append
use sams_simlplifynext.Prelude.{
  ℕ, String, Bool, true, false, not, ◌&&◌, ◌||◌, Option, none, some, is_some, List, [], ◌∷◌, all,
  any, map, or_else, if◌then◌else◌,
}
use sams_simlplifynext.Prelude.Text.{str_eq}
use sams_simlplifynext.Prelude.Int.{ℤ, pos, eqb_ℤ, leb_ℤ}
use sams_simlplifynext.Prelude.Order.{sorted, lex, by_text}
use sams_simlplifynext.Errors.{Exn, Result, ok, err, audit_chain, value_error, attribute_error}
use sams_simlplifynext.Exec.{Exec, pure, raise, lift, catch, ◌>>=◌}
use sams_simlplifynext.Runtime.{Runtime}
use sams_simlplifynext.Services.{ObjectStore}
use sams_simlplifynext.Value.{Value, Fields, text, number, mapping, find, get}
use sams_simlplifynext.Plan.Canonical.{canonical_dumps}

-- `(key, record, raw)`: a stored object, as a record and as its text.
pub record AuditRecord : Type 0 where
  pub key : String
  pub fields : Fields
  pub raw : String

abbrev pub required_fields : List String
required_fields =
    "event_id" ∷ "ts" ∷ "actor" ∷ "action" ∷ "identity_id" ∷ "system" ∷ "resource" ∷ "scope"
    ∷ "plan_hash" ∷ "finding_id" ∷ "tier" ∷ "decision" ∷ "trace_id" ∷ "pre_image_key" ∷ "result"
    ∷ "prev_hash" ∷ []

-- `_as_text(m.get(k), default)`
abbrev pub text_or_default : String → String → Fields → String
unfolding find
text_or_default k default m = elim (get k m) [ some (text s) ↦ s | _ ↦ default ]

-- An integer that is no Boolean
abbrev pub number_of : Option Value → Option ℤ
number_of (some (number n)) = some n
number_of _ = none

-- The sequence number, if there is one.
abbrev pub seq_of : Fields → Option ℤ
unfolding find
seq_of m = number_of (get "seq" m)

abbrev pub seq_key : AuditRecord → ℤ
unfolding seq_of
seq_key r = or_else (seq_of r.fields) (pos 0)

unfoldable pub by_seq : AuditRecord → AuditRecord → Bool
unfolding seq_key
by_seq a b = leb_ℤ (seq_key a) (seq_key b)

-- The order of `_sort_record`
unfoldable pub record_le : AuditRecord → AuditRecord → Bool
unfolding lex by_text by_seq text_or_default
record_le =
    lex by_seq (lex (by_text (λ r. text_or_default "ts" "" r.fields)) (by_text (λ r. r.key)))

abbrev pub is_text : String → Option Value → Bool
is_text expected (some (text s)) = str_eq s expected
is_text expected _ = false

abbrev pub has_prev_hash : String → Fields → Bool
unfolding find
has_prev_hash previous m = is_text previous (get "prev_hash" m)

abbrev pub is_result : String → Result String → Bool
is_result expected (ok s) = str_eq s expected
is_result expected (err e) = false

-- `canonical_dumps(record) == raw`, where a raise is a failure too
abbrev pub is_canonical : Runtime → AuditRecord → Bool
is_canonical rt r = is_result r.raw (canonical_dumps rt (mapping r.fields))

abbrev pub is_fresh : List ℤ → Option ℤ → Bool
is_fresh seen none = false
is_fresh seen (some n) = not (any (eqb_ℤ n) seen)

-- What one round of the loop asks.
unfoldable pub is_next : Runtime → String → List ℤ → AuditRecord → Bool
unfolding all any find seq_of has_prev_hash canonical_dumps
is_next rt previous seen r =
    all (λ f. is_some (get f r.fields)) required_fields
    && (is_fresh seen (seq_of r.fields) && (has_prev_hash previous r.fields && is_canonical rt r))

unfoldable pub verify_from : Runtime → String → List ℤ → List AuditRecord → Bool
unfolding is_next seq_key
verify_from rt previous seen [] = true
verify_from rt previous seen (r ∷ rs) =
    is_next rt previous seen r && verify_from rt (rt.sha256 r.raw) (seq_key r ∷ seen) rs

-- `_verify_records`
unfoldable pub verify_records : Runtime → List AuditRecord → Bool
unfolding verify_from
verify_records rt records = verify_from rt "" [] records

-- The hash of the last object, or the start value.
unfoldable pub head_hash : Runtime → String → List AuditRecord → String
head_hash rt previous [] = previous
head_hash rt previous (r ∷ rs) = head_hash rt (rt.sha256 r.raw) rs

-- `json.loads(raw)` of an object: a record, or the chain is broken.
abbrev pub parse_record : Runtime → String → String → Result AuditRecord
parse_record rt key raw = elim (rt.json_loads raw) [
  | ok (mapping m) ↦ ok (record { key = key; fields = m; raw = raw })
  | ok v ↦ err audit_chain
  | err value_error ↦ err audit_chain
  | err e ↦ err e
]
