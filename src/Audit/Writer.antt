-- ===== src/Audit/Writer.antt =====
-- The audit writer (backend/src/deadbolt/audit/writer.py, AuditWriter): the chain of a plan is read
-- from the object store, a record is normalized, and one new object is put.
pub mod Extension
use sams_simlplifynext.Prelude.{
  ℕ, String, Bool, true, false, not, Option, none, some, is_some, List, [], ◌∷◌, or_else,
  if◌then◌else◌,
}
use sams_simlplifynext.Prelude.Text.{filled}
use sams_simlplifynext.Prelude.Int.{ℤ, pos, negsuc, leb_ℤ, ◌+ℤ◌}
use sams_simlplifynext.Prelude.Order.{sorted}
use sams_simlplifynext.Errors.{
  Exn, Result, ok, err, audit_chain, audit_configuration, value_error, type_error, key_error,
  attribute_error,
}
use sams_simlplifynext.Errors
use sams_simlplifynext.Exec.{Exec, pure, raise, lift, catch, ◌>>=◌, ◌>>◌}
use sams_simlplifynext.Runtime.{Runtime}
use sams_simlplifynext.Services.{ObjectStore}
use sams_simlplifynext.Value.{
  Datetime, name, Value, Fields, null, text, number, instant, mapping, end, field, find, get,
}
use sams_simlplifynext.Plan.Canonical.{◌⧺◌, canonical_dumps, iso_second, int_text}
use sams_simlplifynext.Audit.Config.{AuditConfig, make_config, config_value, from_env}
use sams_simlplifynext.Audit.Safe.{safe_value}
use sams_simlplifynext.Audit.Chain.{
  AuditRecord, text_or_default, seq_of, record_le, verify_records, head_hash, parse_record,
}

pub record AuditWriter : Type 0 where
  pub bucket : String
  pub config : Option AuditConfig

-- The argument `config` of the constructor
pub data GivenConfig : Type 0 where
  settings : AuditConfig → GivenConfig
  raw_settings : Fields → GivenConfig

-- `_config_value`
abbrev checked_config : Runtime → GivenConfig → Result AuditConfig
checked_config rt (settings c) = ok c
checked_config rt (raw_settings m) = config_value rt m

-- The settings that the constructor selects: given, by a mode alone, from the environment, or none.
unfoldable pub select_config :
    Runtime
    → (String → Option String)
    → Option GivenConfig
    → Option String
    → Result (Option AuditConfig)
unfolding config_value make_config from_env
select_config rt environ (some config) (some mode) = err audit_configuration
select_config rt environ (some config) none =
    Errors.◌>>=◌ (checked_config rt config) λ c. ok (some c)
select_config rt environ none (some mode) =
    Errors.◌>>=◌ (make_config rt mode (number (pos 1)) "audit") λ c. ok (some c)
select_config rt environ none none =
    if filled (or_else (environ "AUDIT_OBJECT_LOCK_MODE") "")
    then Errors.◌>>=◌ (from_env rt environ) (λ c. ok (some c))
    else ok none

-- `AuditWriter.__init__`
unfoldable pub make_writer :
    Runtime
    → (String → Option String)
    → String
    → Option GivenConfig
    → Option String
    → Result AuditWriter
unfolding select_config
make_writer rt environ bucket config mode =
    Errors.◌>>=◌ (select_config rt environ config mode)
      λ selected. ok (record { bucket = bucket; config = selected })

-- `a or b` of texts
abbrev pub text_or_else : String → String → String
text_or_else a b = if filled a then a else b

-- `_as_text(m.get("plan_id")) or _as_text(m.get("plan_hash")) or "unscoped"`
abbrev pub plan_id_of : Fields → String
unfolding find
plan_id_of m =
    text_or_else (text_or_default "plan_id" "" m)
      (text_or_else (text_or_default "plan_hash" "" m) "unscoped")

-- `source.get("ts")` as a text, or the time of the clock
abbrev timestamp_of : Runtime → Datetime → Option Value → Result String
unfolding iso_second
timestamp_of rt now (some (instant t)) = iso_second rt t
timestamp_of rt now (some (text s)) = if filled s then ok s else iso_second rt now
timestamp_of rt now _ = iso_second rt now

abbrev reported_result : Fields → Value
unfolding find
reported_result m =
    or_else (get "result" m) (or_else (get "status" m) (or_else (get "message" m) (text "unknown")))

abbrev text_or_null : String → Value
text_or_null s = if filled s then text s else null

-- `_normalize`: the record that is stored. The event id and the time come from outside.
unfoldable pub normalize : Runtime → String → Datetime → Fields → String → ℤ → Result Fields
unfolding find timestamp_of reported_result plan_id_of safe_value
normalize rt event_id now source prev_hash default_seq =
    Errors.◌>>=◌ (timestamp_of rt now (get "ts" source)) λ ts.
      Errors.◌>>=◌ (safe_value rt (reported_result source) "") λ result. ok (
        field (name "event_id") (text event_id) (
          field (name "ts") (text ts) (
            field (name "actor")
              (text (
                text_or_else (text_or_default "actor" "" source)
                  (text_or_else (text_or_default "approver_id" "" source) "system")))
              (field (name "action")
                (text (
                  text_or_else (text_or_default "action" "" source) (
                    text_or_else (text_or_default "event" "" source)
                      (text_or_else (text_or_default "verb" "" source) "unknown"))))
                (field (name "identity_id") (text (text_or_default "identity_id" "unknown" source))
                  (field (name "system") (text (text_or_default "system" "unknown" source)) (
                    field (name "resource") (text (text_or_default "resource" "unknown" source)) (
                      field (name "scope") (text (text_or_default "scope" "unknown" source)) (
                        field (name "plan_hash")
                          (text (text_or_default "plan_hash" "unknown" source))
                          (field (name "finding_id") (text (text_or_default "finding_id" "" source))
                            (field (name "tier") (text (text_or_default "tier" "T0" source)) (
                              field (name "decision")
                                (text (
                                  text_or_else (text_or_default "decision" "" source)
                                    (text_or_default "status" "unknown" source)))
                                (field (name "trace_id")
                                  (text (text_or_default "trace_id" "" source))
                                  (field (name "pre_image_key")
                                    (text_or_null (text_or_default "pre_image_key" "" source))
                                    (field (name "result") result (
                                      field (name "prev_hash") (text prev_hash) (
                                        field (name "plan_id") (text (plan_id_of source)) (
                                          field (name "seq")
                                            (number (or_else (seq_of source) default_seq))
                                            end))))))))))))))))))

abbrev pub larger : ℤ → Option ℤ → ℤ
larger n none = n
larger n (some m) = if leb_ℤ n m then m else n

abbrev pub larger_of : Option ℤ → Option ℤ → Option ℤ
larger_of none rest = rest
larger_of (some n) rest = some (larger n rest)

-- `max(sequences)`, and none for no sequence number
unfoldable pub max_seq : List AuditRecord → Option ℤ
unfolding find
max_seq [] = none
max_seq (r ∷ rs) = larger_of (seq_of r.fields) (max_seq rs)

module _ {B : Type 0} (rt : Runtime) (objects : ObjectStore B) (w : AuditWriter) where
  -- `_prefix`
  abbrev pub prefix_of : String → String
  prefix_of plan_id =
      or_else (elim w.config [ none ↦ none | some c ↦ some c.prefix ]) "audit"
      ⧺ ("/" ⧺ (plan_id ⧺ "/"))

  abbrev pub read_body : Option String → Exec B String
  read_body none = raise audit_chain
  read_body (some raw) = pure raw

  unfoldable pub read_records : List String → Exec B (List AuditRecord)
  read_records [] = pure []
  read_records (key ∷ keys) = do
    response ← objects.get_object w.bucket key
    raw ← read_body response
    record_read ← lift (parse_record rt key raw)
    rest ← read_records keys
    pure (record_read ∷ rest)

  -- `_records`
  unfoldable pub records : String → Exec B (List AuditRecord)
  unfolding read_records
  records plan_id = do keys ← objects.list_objects w.bucket (prefix_of plan_id); read_records keys

  -- `except AttributeError`
  abbrev pub without_reads : {A : Type 0} → A → Exn → Exec B A
  without_reads a attribute_error = pure a
  without_reads a e = raise e

  -- What a writer finds: nothing, on a client that cannot list.
  unfoldable pub found_records : String → Exec B (List AuditRecord)
  unfolding records
  found_records plan_id = catch (records plan_id) (without_reads [])

  abbrev pub extend_from : List AuditRecord → Exec B String
  extend_from [] = pure ""
  extend_from (r ∷ rs) =
      let ordered = sorted record_le (r ∷ rs) in
      if verify_records rt ordered then pure (head_hash rt "" ordered) else raise audit_chain

  -- `_previous_hash`
  unfoldable pub previous_hash : String → Exec B String
  unfolding found_records sorted record_le verify_records head_hash
  previous_hash plan_id = do found ← found_records plan_id; extend_from found

  unfoldable pub next_seq : String → Option ℤ → Exec B ℤ
  unfolding found_records max_seq ◌+ℤ◌
  next_seq plan_id (some n) = pure (pos 0)
  next_seq plan_id none = do
    prior ← found_records plan_id
    pure (or_else (max_seq prior) (negsuc 0) +ℤ pos 1)

  abbrev pub object_lock : Option (String × ℤ)
  object_lock = elim w.config [ none ↦ none | some c ↦ some (c.object_lock_mode, c.retention_days) ]

  abbrev pub object_key : String → ℤ → String → String
  unfolding int_text
  object_key plan_id seq event_id =
      prefix_of plan_id ⧺ (int_text seq ⧺ ("/" ⧺ (event_id ⧺ ".json")))

  -- `write`
  unfoldable pub write : String → Datetime → Fields → Exec B String
  unfolding find previous_hash next_seq plan_id_of normalize canonical_dumps object_key
  write event_id now source = do
    previous ← previous_hash (plan_id_of source)
    default_seq ← next_seq (plan_id_of source) (seq_of source)
    normalized ← lift (normalize rt event_id now source previous default_seq)
    body ← lift (canonical_dumps rt (mapping normalized))
    let key = object_key (plan_id_of source) (or_else (seq_of source) default_seq) event_id
    objects.put_new_object w.bucket key body object_lock
    pure key

  -- The exceptions that `verify_chain` takes for a broken chain.
  abbrev pub broken : Exn → Exec B Bool
  broken audit_chain = pure false
  broken key_error = pure false
  broken type_error = pure false
  broken value_error = pure false
  broken e = raise e

  abbrev pub verify_found : List AuditRecord → Exec B Bool
  verify_found [] = pure false
  verify_found (r ∷ rs) = pure (verify_records rt (sorted record_le (r ∷ rs)))

  unfoldable pub verify_chain : String → Exec B Bool
  unfolding records sorted record_le verify_records
  verify_chain plan_id = catch (do found ← records plan_id; verify_found found) broken
