-- ===== src/Audit/Safe.antt =====
-- The copy of a result that an audit record keeps (backend/src/deadbolt/audit/writer.py, _safe_value):
-- fields with a sensitive name are dropped at every depth.
use sams_simlplifynext.Prelude.{String, Bool, true, false, List, [], ◌∷◌, if◌then◌else◌}
use sams_simlplifynext.Prelude.Text.{text_in}
use sams_simlplifynext.Errors.{Result, ok, ◌>>=◌}
use sams_simlplifynext.Runtime.{Runtime}
use sams_simlplifynext.Value.{
  Key, name, pair, Value, Values, Fields, null, real, boolean, number, text, instant, items,
  mapping, instance_of, nil, cons, end, field, put,
}
use sams_simlplifynext.Plan.Canonical.{iso_second}

abbrev pub redacted_keys : List String
redacted_keys =
    "raw" ∷ "secret" ∷ "token" ∷ "pat" ∷ "password" ∷ "authorization" ∷ "access_token" ∷ []

unfoldable pub is_redacted : Runtime → String → Bool
unfolding text_in
is_redacted rt key = text_in (rt.lower key) redacted_keys

-- `str(key)`
abbrev pub key_text : Runtime → Key → String
key_text rt (name s) = s
key_text rt (pair a b) = rt.pair_text a b

abbrev pub is_null : Value → Bool
is_null null = true
is_null _ = false

-- `_safe_value(value, key)` under a key that is not sensitive. The entries of a mapping are set one by
-- one in the mapping that is made.
unfoldable mutual
  unfolding iso_second put is_redacted

  pub safe_any : Runtime → Value → Result Value
  safe_any rt null = ok null
  safe_any rt (real r) = ok (text r)
  safe_any rt (boolean b) = ok (boolean b)
  safe_any rt (number n) = ok (number n)
  safe_any rt (text s) = ok (text s)
  safe_any rt (instant t) = do s ← iso_second rt t; ok (text s)
  safe_any rt (items vs) = do vs' ← safe_items rt vs; ok (items vs')
  safe_any rt (mapping m) = do m' ← safe_fields rt m end; ok (mapping m')
  safe_any rt (instance_of c m) = ok (text (rt.repr (instance_of c m)))

  pub safe_items : Runtime → Values → Result Values
  safe_items rt nil = ok nil
  safe_items rt (cons v vs) = do v' ← safe_any rt v; vs' ← safe_items rt vs; ok (cons v' vs')

  pub safe_fields : Runtime → Fields → Fields → Result Fields
  safe_fields rt end result = ok result
  safe_fields rt (field k v m) result = do
    safe ← (if is_redacted rt (key_text rt k) then ok null else safe_any rt v)
    safe_fields rt m (if is_null safe then result else put (name (key_text rt k)) safe result)

unfoldable pub safe_value : Runtime → Value → String → Result Value
unfolding safe_any is_redacted
safe_value rt value key = if is_redacted rt key then ok null else safe_any rt value
