-- ===== src/Audit/Config.antt =====
-- The settings of the audit store (backend/src/deadbolt/audit/writer.py, AuditConfig). The environment
-- is a function from names to texts.
use Prim.Native.Char.{code}
use sams_simlplifynext.Prelude.{
  String, Bool, false, not, ◌&&◌, ◌==◌, Option, some, [], ◌∷◌, or_else,
}
use sams_simlplifynext.Prelude.Text.{text_in, filled}
use sams_simlplifynext.Prelude.Int.{ℤ, pos, leb_ℤ}
use sams_simlplifynext.Errors.{
  Result, ok, err, audit_configuration, value_error, type_error, ◌>>=◌, ◌>>◌, require,
}
use sams_simlplifynext.Runtime.{Runtime}
use sams_simlplifynext.Value.{Value, Fields, boolean, number, text, find, get}

pub record AuditConfig : Type 0 where
  pub object_lock_mode : String
  pub retention_days : ℤ
  pub prefix : String

abbrev starts_with_slash : String → Bool
starts_with_slash String.[] = false
starts_with_slash (String.◌∷◌ c s) = code c == b'/'

-- `isinstance(days, bool) or days < 1` raises; a value that is no number cannot be compared.
unfoldable pub check_retention : Value → Result ℤ
check_retention (boolean b) = err audit_configuration
check_retention (number n) = do require (leb_ℤ (pos 1) n) audit_configuration; ok n
check_retention _ = err type_error

-- `AuditConfig(mode, retention_days, prefix)` with its `__post_init__`
unfoldable pub make_config : Runtime → String → Value → String → Result AuditConfig
unfolding check_retention text_in
make_config rt object_lock_mode retention_days prefix = do
  let mode = rt.upper object_lock_mode
  require (text_in mode ("GOVERNANCE" ∷ "COMPLIANCE" ∷ [])) audit_configuration
  days ← check_retention retention_days
  require (filled prefix && not (starts_with_slash prefix)) audit_configuration
  ok (record { object_lock_mode = mode; retention_days = days; prefix = prefix })

-- `except ValueError`
abbrev configured_int : Result ℤ → Result ℤ
configured_int (ok n) = ok n
configured_int (err value_error) = err audit_configuration
configured_int (err e) = err e

-- `AuditConfig.from_env`
unfoldable pub from_env : Runtime → (String → Option String) → Result AuditConfig
unfolding make_config
from_env rt environ = do
  let mode = or_else (environ "AUDIT_OBJECT_LOCK_MODE") ""
  require (filled mode) audit_configuration
  days ← configured_int (rt.parse_int (or_else (environ "AUDIT_RETENTION_DAYS") "1"))
  make_config rt mode (number days) (or_else (environ "AUDIT_PREFIX") "audit")

abbrev config_text : Option Value → Result String
config_text (some (text s)) = ok s
config_text _ = err audit_configuration

-- `isinstance(retention, int)`, which a Boolean is too
abbrev config_int : Value → Result Value
config_int (number n) = ok (number n)
config_int (boolean b) = ok (boolean b)
config_int _ = err audit_configuration

-- `_config_value` of a mapping
unfoldable pub config_value : Runtime → Fields → Result AuditConfig
unfolding find make_config
config_value rt config = do
  mode ← config_text (get "object_lock_mode" config)
  retention ← config_int (or_else (get "retention_days" config) (number (pos 1)))
  prefix ← config_text (some (or_else (get "prefix" config) (text "audit")))
  make_config rt mode retention prefix
