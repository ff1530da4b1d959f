-- ===== src/Value.antt =====
-- The values that Python code tests by `isinstance`: `object` in the source's annotations. A class
-- instance is its class name with its attributes, in declaration order.
pub mod Lookup
use sams_simlplifynext.Prelude.{
  ℕ, zero, suc, not, ◌||◌, String, Bool, true, false, Option, none, some, List, [], ◌∷◌, ◌&&◌,
  if◌then◌else◌,
}
use sams_simlplifynext.Prelude.Text.{str_eq, filled}
use sams_simlplifynext.Prelude.Int.{ℤ, pos}

-- An instant in microseconds since the epoch; `aware` says whether it carries a time zone.
pub record Datetime : Type 0 where
  pub aware : Bool
  pub micros : ℤ

-- The keys of a mapping: texts, and the pairs of texts that `reachability` is keyed by.
pub data Key : Type 0 where
  name : String → Key
  pair : String → String → Key

mutual
  pub data Value : Type 0 where
    null : Value
    -- a float, by its `repr`
    real : String → Value
    boolean : Bool → Value
    number : ℤ → Value
    text : String → Value
    instant : Datetime → Value
    items : Values → Value
    mapping : Fields → Value
    instance_of : String → Fields → Value

  pub data Values : Type 0 where
    nil : Values
    cons : Value → Values → Values

  pub data Fields : Type 0 where
    end : Fields
    field : Key → Value → Fields → Fields

abbrev pub key_eq : Key → Key → Bool
key_eq (name a) (name b) = str_eq a b
key_eq (pair a b) (pair c d) = str_eq a c && str_eq b d
key_eq _ _ = false

-- `m.get(k)`, with `none` for a missing key.
unfoldable pub find : Key → Fields → Option Value
find k end = none
find k (field j v m) = if key_eq j k then some v else find k m

abbrev pub get : String → Fields → Option Value
unfolding find
get k m = find (name k) m

-- `m[k] = v`: an old key keeps its place.
unfoldable pub put : Key → Value → Fields → Fields
put k v end = field k v end
put k v (field j w m) = let rest = put k v m in if key_eq j k then field j v m else field j w rest

-- `isinstance(value, str)`
abbrev pub as_text : Value → Option String
as_text (text s) = some s
as_text _ = none

-- `isinstance(value, Mapping)`
abbrev pub as_mapping : Value → Option Fields
as_mapping (mapping m) = some m
as_mapping _ = none

-- `isinstance(value, int) and not isinstance(value, bool)`
abbrev pub as_int : Value → Option ℤ
as_int (number n) = some n
as_int _ = none

-- The texts of `tuple(item for item in value if isinstance(item, str))`.
unfoldable pub texts : Values → List String
texts nil = []
texts (cons (text s) vs) = s ∷ texts vs
texts (cons _ vs) = texts vs

-- Iterating a mapping gives its keys.
unfoldable pub key_texts : Fields → List String
key_texts end = []
key_texts (field (name s) v m) = s ∷ key_texts m
key_texts (field (pair a b) v m) = key_texts m

-- `tuple(item for item in value if isinstance(item, str))`, with a text as the only member of itself.
-- `frozenset` of it is the same list: the code only asks what is a member.
unfoldable pub strings : Value → List String
unfolding texts key_texts
strings (text s) = s ∷ []
strings (items vs) = texts vs
strings (mapping m) = key_texts m
strings _ = []

-- `bool(value)`
unfoldable pub truthy : Value → Bool
truthy null = false
truthy (real r) = not (str_eq r "0.0" || str_eq r "-0.0")
truthy (boolean b) = b
truthy (number (pos zero)) = false
truthy (text s) = filled s
truthy (items nil) = false
truthy (mapping end) = false
truthy _ = true

-- `getattr(value, k, default)` of an instance, and `value.get(k, default)` of a mapping.
unfoldable pub attribute : String → Value → Option Value
unfolding find
attribute k (instance_of c m) = get k m
attribute k (mapping m) = get k m
attribute k _ = none

unfoldable pub value_length : Values → ℕ
value_length nil = 0
value_length (cons v vs) = suc (value_length vs)
