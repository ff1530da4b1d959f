-- ===== src/Graph/Store.antt =====
-- The graph repository in one DynamoDB table (backend/src/deadbolt/graph/store.py). The table and the
-- type codec of boto3 are ports; an item is a mapping from names to attribute values.
pub mod Codec
pub mod Items
pub mod Batches
pub mod Saved
pub mod Progress
use sams_simlplifynext.Prelude.{
  ℕ, zero, suc, ◌*◌, String, Bool, true, false, Option, none, some, List, [], ◌∷◌, ◌++◌, map, any,
  or_else, if◌then◌else◌,
}
use sams_simlplifynext.Prelude.Text.{str_eq}
use sams_simlplifynext.Prelude.Int.{ℤ, pos, floor_div}
use sams_simlplifynext.Prelude.Order.{sorted, lex, by_text}
use sams_simlplifynext.Errors.{
  Exn, Result, ok, err, provider_error, value_error, type_error, key_error, traverse,
}
use sams_simlplifynext.Errors
use sams_simlplifynext.Exec.{Exec, pure, raise, lift, ◌>>=◌, ◌>>◌}
use sams_simlplifynext.Runtime.{Runtime}
use sams_simlplifynext.Value.{
  Datetime, Key, name, pair, Value, Values, Fields, null, real, boolean, number, text, instant,
  items, mapping, instance_of, nil, cons, end, field, find, get, put, truthy, key_eq,
}
use sams_simlplifynext.Contracts.{Entitlement, make_entitlement, scope_value, credential_value}
use sams_simlplifynext.Plan.Canonical.{◌⧺◌, int_text}
use sams_simlplifynext.Audit.Safe.{key_text}
use sams_simlplifynext.Graph.Identity.{value_text}
use sams_simlplifynext.Providers.Fixture.{read_scope, read_credential}
use sams_simlplifynext.Graph.Store.Codec.{
  TypeCodec, serialize_from, serialize_item, deserialize_from, deserialize_item,
}
use sams_simlplifynext.Graph.Store.Items.{
  required_text, to_entitlement, stored_le, listed_le, distinct, pop, put_keys, plan_actions,
  plan_items, entitlement_item,
}

-- The calls of the table. `batch_write_item` gives the put requests that were not processed;
-- `query` takes the index, the two attributes of its condition with their values, and a start key,
-- and gives the items of a page with the key of the last one; `pause` sleeps after an attempt.
pub record GraphTable (D : Type 0) : Type 0 where
  pub put_item : Fields → Exec D (Unit {0})
  pub get_item : String → String → Exec D (Option Fields)
  pub batch_write_item : List Fields → Exec D (List Fields)
  pub query : Option String → String → String → Option Value → Exec D (List Fields × Option Value)
  pub pause : ℕ → Exec D (Unit {0})

-- `items[offset : offset + size] for offset in range(0, len(items), size)`, with `room` left in the
-- slice that is being filled
unfoldable pub slices : {A : Type 0} → ℕ → ℕ → List A → List A → List (List A)
slices size room current [] = current ∷ []
slices size zero current (x ∷ xs) = current ∷ slices size size (x ∷ []) xs
slices size (suc room) current (x ∷ xs) = slices size room (current ++ x ∷ []) xs

-- The slices of 25 items
unfoldable pub batches : {A : Type 0} → List A → List (List A)
unfolding slices
batches [] = []
batches (x ∷ xs) = slices 24 24 (x ∷ []) xs

module _ {D : Type 0} (table : GraphTable D) where
  -- What follows on the last attempt.
  unfoldable pub exhaust : List Fields → Exec D (Unit {0})
  exhaust [] = pure tt
  exhaust (u ∷ us) = raise provider_error

  -- What follows on another attempt.
  unfoldable pub retry : (List Fields → Exec D (Unit {0})) → ℕ → List Fields → Exec D (Unit {0})
  retry again attempt [] = pure tt
  retry again attempt (u ∷ us) = table.pause attempt >>= λ _. again (u ∷ us)

  -- The attempts for one batch: `left` more are allowed.
  unfoldable pub write_batch : ℕ → ℕ → List Fields → Exec D (Unit {0})
  unfolding exhaust retry
  write_batch zero attempt pending = table.batch_write_item pending >>= exhaust
  write_batch (suc left) attempt pending =
      table.batch_write_item pending >>= retry (write_batch left (suc attempt)) attempt

module _ {D : Type 0} (rt : Runtime) (astimezone : Datetime → Datetime) (codec : TypeCodec)
    (table : GraphTable D) (max_retries : ℕ) where
  unfoldable pub write_slices : List (List Fields) → Exec D (Unit {0})
  unfolding traverse serialize_from write_batch
  write_slices [] = pure tt
  write_slices (slice ∷ rest) = do
    pending ← lift (traverse (serialize_item rt astimezone codec) slice)
    write_batch table max_retries 0 pending
    write_slices rest

  -- `_batch_write`
  unfoldable pub batch_write : List Fields → Exec D (Unit {0})
  unfolding batches write_slices
  batch_write values = write_slices (batches values)

  unfoldable pub put_entitlements : List Entitlement → Exec D (Unit {0})
  unfolding sorted stored_le entitlement_item batch_write
  put_entitlements entitlements =
      batch_write (map (entitlement_item rt astimezone) (sorted stored_le entitlements))

  -- `_put_item`
  unfoldable pub put_values : Fields → Exec D (Unit {0})
  unfolding serialize_from
  put_values values = do
    item ← lift (serialize_item rt astimezone codec values)
    table.put_item item

  unfoldable pub put_identity : String → Fields → Exec D (Unit {0})
  unfolding put_values put
  put_identity identity_id attributes = put_values (
      put (name "identity_id") (text identity_id)
        (put_keys ("ID#" ⧺ identity_id) "META" attributes))

  unfoldable pub put_role_template : String → String → Fields → Exec D (Unit {0})
  unfolding put_values put
  put_role_template title_slug version template =
      put_values (put_keys ("ROLE#" ⧺ title_slug) ("V#" ⧺ version) template)

  unfoldable pub put_finding : String → Fields → Exec D (Unit {0})
  unfolding put_values put
  put_finding finding_id finding =
      put_values
        (put (name "finding_id") (text finding_id) (put_keys ("FIND#" ⧺ finding_id) "META" finding))

  unfoldable pub put_run : String → Fields → Exec D (Unit {0})
  unfolding put_values put
  put_run run_id run =
      put_values (put (name "run_id") (text run_id) (put_keys ("RUN#" ⧺ run_id) "META" run))

  unfoldable pub put_plan : String → Value → Exec D (Unit {0})
  unfolding plan_actions plan_items batch_write
  put_plan plan_id actions = do
    raw_actions ← lift (plan_actions actions)
    values ← lift (plan_items rt plan_id 0 raw_actions)
    batch_write values

  abbrev template_of : Option Fields → Result (Option Fields)
  unfolding deserialize_from pop
  template_of none = ok none
  template_of (some end) = ok none
  template_of (some (field k v m)) =
      Errors.◌>>=◌ (deserialize_item rt astimezone codec (field k v m))
        λ result. ok (some (pop "SK" (pop "PK" result)))

  unfoldable pub get_role_template : String → String → Exec D (Option Fields)
  unfolding deserialize_from pop
  get_role_template title_slug version = do
    item ← table.get_item ("ROLE#" ⧺ title_slug) ("V#" ⧺ version)
    lift (template_of item)

  abbrev has_more : Option Value → Bool
  unfolding truthy
  has_more none = false
  has_more (some v) = truthy v

  -- `_query_all`: the pages of a query, one by one; the fuel bounds their number.
  unfoldable pub query_all :
      ℕ → Option String → String → String → Option Value → Exec D (List Fields)
  unfolding traverse deserialize_from truthy
  query_all zero index pk prefix start = raise Exn.unfinished
  query_all (suc fuel) index pk prefix start = do
    page ← table.query index pk prefix start
    values ← lift (traverse (deserialize_item rt astimezone codec) page.0)
    elim (has_more page.1) [
      | false ↦ pure values
      | true ↦ query_all fuel index pk prefix page.1 >>= λ rest. pure (values ++ rest)
    ]

  unfoldable pub get_identity_entitlements : ℕ → String → Exec D (List Entitlement)
  unfolding query_all traverse to_entitlement sorted listed_le
  get_identity_entitlements fuel identity_id = do
    values ← query_all fuel none ("ID#" ⧺ identity_id) "ENT#" none
    result ← lift (traverse (to_entitlement rt) values)
    pure (sorted listed_le result)

  unfoldable pub who_can_reach : ℕ → String → String → Exec D (List String)
  unfolding query_all traverse sorted by_text distinct find
  who_can_reach fuel system resource = do
    values ← query_all fuel (some "GSI1") ("RES#" ⧺ (system ⧺ ("#" ⧺ resource))) "ID#" none
    found ← lift (traverse (required_text "identity_id") values)
    pure (sorted (by_text (λ s. s)) (distinct found))
