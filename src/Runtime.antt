-- ===== src/Runtime.antt =====
-- What the program takes from Python's standard library as a black box. A value of `Runtime` is an
-- argument of every definition that calls one of them; laws are hypotheses of the theorems that
-- need them.
use sams_simlplifynext.Prelude.{ℕ, String}
use sams_simlplifynext.Prelude.Int.{ℤ}
use sams_simlplifynext.Errors.{Result}
use sams_simlplifynext.Value.{Datetime, Value}

pub record Runtime : Type 0 where
  -- `hashlib.sha256(text.encode()).hexdigest()`
  pub sha256 : String → String
  -- `text.lower()`, `text.upper()` and `text.strip()`
  pub lower : String → String
  pub upper : String → String
  pub strip : String → String
  -- `text[:n]`
  pub prefix : ℕ → String → String
  -- `strftime("%Y-%m-%dT%H:%M:%SZ")` of an instant in seconds since the epoch, in UTC
  pub iso_text : ℤ → String
  -- `int(floor(10000 * ln(1 + n) / ln(10) / 4))` in decimal arithmetic of 28 digits
  pub decimal_log : ℕ → ℤ
  -- `str(value)` of a value that is not a text
  pub repr : Value → String
  -- `str(key)` of a key that is a pair of texts
  pub pair_text : String → String → String
  -- `int(text)`
  pub parse_int : String → Result ℤ
  -- `json.loads(text)`; a `JSONDecodeError` is a `ValueError`
  pub json_loads : String → Result Value
  -- `datetime.fromisoformat(text.replace("Z", "+00:00"))`
  pub from_iso : String → Result Datetime
