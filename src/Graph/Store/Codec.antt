-- ===== src/Graph/Store/Codec.antt =====
-- Values on their way to and from DynamoDB (backend/src/deadbolt/graph/store.py).
use sams_simlplifynext.Prelude.{String, Option, none, some}
use sams_simlplifynext.Prelude.Int.{floor_div}
use sams_simlplifynext.Errors.{
  Exn, Result, ok, err, provider_error, value_error, type_error, key_error, traverse,
}
use sams_simlplifynext.Errors
use sams_simlplifynext.Runtime.{Runtime}
use sams_simlplifynext.Value.{
  Datetime, name, Value, Values, Fields, null, real, boolean, number, text, instant, items, mapping,
  instance_of, nil, cons, end, field, put,
}
use sams_simlplifynext.Audit.Safe.{key_text}

-- `TypeSerializer` and `TypeDeserializer` of boto3
pub record TypeCodec : Type 0 where
  pub serialize : Value → Result Value
  pub deserialize : Value → Result Value

-- `_timestamp`: an instant without a zone is taken as local time, which is a parameter.
unfoldable pub timestamp : Runtime → (Datetime → Datetime) → Datetime → String
unfolding floor_div
timestamp rt astimezone t = rt.iso_text (floor_div (astimezone t).micros 1000000)

-- `_stored_timestamp`
abbrev pub stored_timestamp : Runtime → Option Value → Result (Option Datetime)
stored_timestamp rt none = ok none
stored_timestamp rt (some null) = ok none
stored_timestamp rt (some (instant t)) = ok (some t)
stored_timestamp rt (some (text s)) = Errors.◌>>=◌ (rt.from_iso s) λ t. ok (some t)
stored_timestamp rt (some v) = err value_error

module _ (rt : Runtime) (astimezone : Datetime → Datetime) (codec : TypeCodec) where
  -- `_ddb_value`
  unfoldable mutual
    unfolding timestamp put

    pub ddb_value : Value → Value
    ddb_value (instant t) = text (timestamp rt astimezone t)
    ddb_value (mapping m) = mapping (ddb_fields m end)
    ddb_value (items vs) = items (ddb_items vs)
    ddb_value null = null
    ddb_value (real r) = real r
    ddb_value (boolean b) = boolean b
    ddb_value (number n) = number n
    ddb_value (text s) = text s
    ddb_value (instance_of c m) = instance_of c m

    pub ddb_items : Values → Values
    ddb_items nil = nil
    ddb_items (cons v vs) = cons (ddb_value v) (ddb_items vs)

    pub ddb_fields : Fields → Fields → Fields
    ddb_fields end result = result
    ddb_fields (field k v m) result = ddb_fields m (put (name (key_text rt k)) (ddb_value v) result)

  -- `_serialize_item`
  unfoldable pub serialize_from : Fields → Fields → Result Fields
  unfolding ddb_value put
  serialize_from end result = ok result
  serialize_from (field k v m) result =
      Errors.◌>>=◌ (codec.serialize (ddb_value v))
        λ a. serialize_from m (put (name (key_text rt k)) a result)

  abbrev pub serialize_item : Fields → Result Fields
  unfolding serialize_from
  serialize_item values = serialize_from values end

  -- `_deserialize_item`
  unfoldable pub deserialize_from : Fields → Fields → Result Fields
  unfolding put
  deserialize_from end result = ok result
  deserialize_from (field k v m) result =
      Errors.◌>>=◌ (codec.deserialize v)
        λ a. deserialize_from m (put (name (key_text rt k)) a result)

  abbrev pub deserialize_item : Fields → Result Fields
  unfolding deserialize_from
  deserialize_item values = deserialize_from values end
