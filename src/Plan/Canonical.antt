-- ===== src/Plan/Canonical.antt =====
-- Canonical JSON (backend/src/deadbolt/plan/canonical.py) and the keys derived from it
-- (backend/src/deadbolt/plan/preimage.py). `json.dumps` is written out for the arguments that the
-- code passes: sorted keys, no spaces, ASCII only.
use Prim.Native.Char.{Char, code}
use sams_simlplifynext.Prelude.{
  ℕ, zero, suc, ◌+◌, ◌-◌, ◌/◌, ◌%◌, String, Bool, true, false, ◌&&◌, List, [], ◌∷◌, ltb, leb, ◌==◌,
  if◌then◌else◌,
}
use sams_simlplifynext.Prelude.Text.{text_append}
use sams_simlplifynext.Prelude.Int.{ℤ, pos, negsuc, floor_div}
use sams_simlplifynext.Prelude.Order.{sorted, by_text}
use sams_simlplifynext.Errors.{Result, ok, err, value_error, type_error, ◌>>=◌, ◌>>◌, require}
use sams_simlplifynext.Runtime.{Runtime}
use sams_simlplifynext.Value.{
  Datetime, name, pair, Value, Values, Fields, null, real, boolean, number, text, instant, items,
  mapping, instance_of, nil, cons, end, field,
}

infixr 65 ◌⧺◌
abbrev pub ◌⧺◌ : String → String → String
a ⧺ b = text_append a b

-- The digit of a number below 16.
abbrev hex_digits : List String
hex_digits =
    "0" ∷ "1" ∷ "2" ∷ "3" ∷ "4" ∷ "5" ∷ "6" ∷ "7" ∷ "8" ∷ "9" ∷ "a" ∷ "b" ∷ "c" ∷ "d" ∷ "e" ∷ "f"
    ∷ []

digit_at : ℕ → List String → String
digit_at n [] = ""
digit_at zero (d ∷ ds) = d
digit_at (suc n) (d ∷ ds) = digit_at n ds

digit : ℕ → String
unfolding digit_at
digit n = digit_at n hex_digits

-- Decimal digits; a number has fewer than `n + 1` of them.
decimal : ℕ → ℕ → String
unfolding digit
decimal zero n = ""
decimal (suc fuel) n =
    let rest = decimal fuel (n / 10) in
    if ltb n 10 then digit n else text_append rest (digit (n % 10))

unfoldable pub int_text : ℤ → String
unfolding decimal
int_text (pos n) = decimal (suc n) n
int_text (negsuc n) = "-" ⧺ decimal (suc (suc n)) (suc n)

-- `\uXXXX`
escape_unit : ℕ → String
unfolding digit
escape_unit n =
    "\\u" ⧺ (digit (n / 4096) ⧺ (digit (n / 256 % 16) ⧺ (digit (n / 16 % 16) ⧺ digit (n % 16))))

-- A character beyond the first plane is a pair of surrogates.
escape_code : ℕ → String
unfolding escape_unit
escape_code n =
    if ltb n 65536
    then escape_unit n
    else escape_unit (55296 + (n - 65536) / 1024) ⧺ escape_unit (56320 + (n - 65536) % 1024)

escape_char : Char → String
unfolding escape_code
escape_char c =
    let n = code c in
    if n == b'"'
    then "\\\""
    else if n == 92
    then "\\\\"
    else if n == 10
    then "\\n"
    else if n == 13
    then "\\r"
    else if n == 9
    then "\\t"
    else if n == 12
    then "\\f"
    else if n == 8
    then "\\b"
    else if leb 32 n && leb n 126
    then String.◌∷◌ c String.[]
    else escape_code n

escape : String → String
unfolding escape_char
escape String.[] = ""
escape (String.◌∷◌ c s) = text_append (escape_char c) (escape s)

unfoldable pub quoted : String → String
unfolding escape
quoted s = "\"" ⧺ (escape s ⧺ "\"")

unfoldable pub joined : String → List String → String
joined separator [] = ""
joined separator (s ∷ []) = s
joined separator (s ∷ t ∷ rest) =
    text_append s (text_append separator (joined separator (t ∷ rest)))

member_text : List (String × String) → List String
unfolding quoted
member_text [] = []
member_text ((k, v) ∷ members) = (quoted k ⧺ (":" ⧺ v)) ∷ member_text members

abbrev member_le : String × String → String × String → Bool
unfolding by_text
member_le = by_text (λ m. m.0)

-- `json.dumps(…, sort_keys=True, separators=(",", ":"), ensure_ascii=True)`
unfoldable mutual
  unfolding int_text quoted joined member_text sorted by_text

  pub json_text : Value → Result String
  json_text null = ok "null"
  json_text (real r) = ok r
  json_text (boolean true) = ok "true"
  json_text (boolean false) = ok "false"
  json_text (number n) = ok (int_text n)
  json_text (text s) = ok (quoted s)
  json_text (instant t) = err type_error
  json_text (items vs) = do elements ← json_items vs; ok ("[" ⧺ (joined "," elements ⧺ "]"))
  json_text (mapping m) = do
    members ← json_fields m
    ok ("{" ⧺ (joined "," (member_text (sorted member_le members)) ⧺ "}"))
  json_text (instance_of c m) = err type_error

  pub json_items : Values → Result (List String)
  json_items nil = ok []
  json_items (cons v vs) = do s ← json_text v; rest ← json_items vs; ok (s ∷ rest)

  pub json_fields : Fields → Result (List (String × String))
  json_fields end = ok []
  json_fields (field (name k) v m) = do s ← json_text v; rest ← json_fields m; ok ((k, s) ∷ rest)
  json_fields (field (pair a b) v m) = err type_error

-- An aware instant in UTC, cut to the second.
unfoldable pub iso_second : Runtime → Datetime → Result String
unfolding floor_div
iso_second rt t = do require t.aware value_error; ok (rt.iso_text (floor_div t.micros 1000000))

-- `_canonical_value`: floats, keys that are no texts and instances are refused. An enumeration
-- member is given by its value, a text.
unfoldable mutual
  unfolding iso_second

  pub canonical_value : Runtime → Value → Result Value
  canonical_value rt (instant t) = do s ← iso_second rt t; ok (text s)
  canonical_value rt (real r) = err type_error
  canonical_value rt (items vs) = do vs' ← canonical_items rt vs; ok (items vs')
  canonical_value rt (mapping m) = do m' ← canonical_fields rt m; ok (mapping m')
  canonical_value rt (instance_of c m) = err type_error
  canonical_value rt null = ok null
  canonical_value rt (boolean b) = ok (boolean b)
  canonical_value rt (number n) = ok (number n)
  canonical_value rt (text s) = ok (text s)

  pub canonical_items : Runtime → Values → Result Values
  canonical_items rt nil = ok nil
  canonical_items rt (cons v vs) = do
    v' ← canonical_value rt v
    vs' ← canonical_items rt vs
    ok (cons v' vs')

  pub canonical_fields : Runtime → Fields → Result Fields
  canonical_fields rt end = ok end
  canonical_fields rt (field (pair a b) v m) = err type_error
  canonical_fields rt (field (name k) v m) = do
    v' ← canonical_value rt v
    m' ← canonical_fields rt m
    ok (field (name k) v' m')

-- The bytes are ASCII, so they are the text.
unfoldable pub canonical_dumps : Runtime → Value → Result String
canonical_dumps rt v = do normalized ← canonical_value rt v; json_text normalized

unfoldable pub plan_hash : Runtime → Fields → Result String
plan_hash rt body = do s ← canonical_dumps rt (mapping body); ok (rt.sha256 s)

-- `preimages/{plan_hash}/{seq}-{digest}.json`
unfoldable pub preimage_key : Runtime → String → ℤ → String → String → String
unfolding int_text
preimage_key rt digest seq resource scope =
    let identity_digest = rt.prefix 16 (rt.sha256 (resource ⧺ ("|" ⧺ scope))) in
    "preimages/" ⧺ (digest ⧺ ("/" ⧺ (int_text seq ⧺ ("-" ⧺ (identity_digest ⧺ ".json")))))
