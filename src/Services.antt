-- ===== src/Services.antt =====
-- The AWS services that the code calls through boto3, as operations on a state of their own. Each
-- call may raise. What the code relies on beyond that is a hypothesis of the theorem that needs it.
use sams_simlplifynext.Prelude.{ℕ, String, Bool, Option, List}
use sams_simlplifynext.Prelude.Int.{ℤ}
use sams_simlplifynext.Exec.{Exec}

-- A DynamoDB attribute, a text or a number.
pub data Attribute : Type 0 where
  S : String → Attribute
  N : ℤ → Attribute

abbrev pub Item : Type 0
Item = List (String × Attribute)

-- One DynamoDB table; the first two arguments are the partition key and the sort key.
pub record Table (D : Type 0) : Type 0 where
  -- `put_item`; with `true`, under the condition `attribute_not_exists(PK)`
  pub put_item : String → String → Item → Bool → Exec D (Unit {0})
  -- `get_item` with a consistent read
  pub get_item : String → String → Exec D (Option Item)
  -- `update_item` with `SET` of the attributes that are given
  pub update_item : String → String → Item → Exec D (Unit {0})
  -- `delete_item` under the condition `attribute_exists(PK)`
  pub delete_item : String → String → Exec D (Unit {0})
  -- `query` of a partition key and a prefix of the sort key
  pub query : String → String → Exec D (List Item)
  -- `time.time()` in microseconds, and `time.sleep`
  pub now : D → ℕ × D
  pub sleep : ℕ → D → D

-- The objects of S3, by bucket and key; a body is its text.
pub record ObjectStore (B : Type 0) : Type 0 where
  pub put_object : String → String → String → Exec B (Unit {0})
  -- under `IfNoneMatch: *`, with an object lock of a mode and a number of days if one is set
  pub put_new_object : String → String → String → Option (String × ℤ) → Exec B (Unit {0})
  -- `none` is a response with no body
  pub get_object : String → String → Exec B (Option String)
  pub list_objects : String → String → Exec B (List String)
