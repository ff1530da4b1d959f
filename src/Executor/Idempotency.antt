-- ===== src/Executor/Idempotency.antt =====
-- Delivery locks (backend/src/deadbolt/executor/idempotency.py).
pub mod Waiting
pub mod Exclusive
use sams_simlplifynext.Prelude.{
  ℕ, zero, suc, ◌+◌, ◌-◌, ◌/◌, min, max, String, Bool, true, false, Option, none, some, [], ◌∷◌,
  leb, if◌then◌else◌, or_else,
}
use sams_simlplifynext.Prelude.Text.{str_eq}
use sams_simlplifynext.Prelude.Int.{ℤ, pos}
use sams_simlplifynext.Errors.{
  Exn, Result, ok, err, idempotency_conflict, client_error, unfinished, traverse,
}
use sams_simlplifynext.Errors as Errors
use sams_simlplifynext.Exec.{Exec, pure, raise, lift, catch, ◌>>=◌, ◌>>◌}
use sams_simlplifynext.Runtime.{Runtime}
use sams_simlplifynext.Value.{
  name, Value, Fields, null, boolean, number, text, instant, mapping, end, field, find, get, put,
  truthy,
}
use sams_simlplifynext.Contracts.{ActionResult}
use sams_simlplifynext.Plan.Canonical.{canonical_dumps, int_text, ◌⧺◌}
use sams_simlplifynext.Services.{S, N, Item, Table}

-- `lock_key`
unfoldable pub lock_key : Runtime → String → ℤ → String → String → String
unfolding int_text
lock_key rt plan_id seq resource scope =
    rt.sha256 (plan_id ⧺ ("|" ⧺ (int_text seq ⧺ ("|" ⧺ (resource ⧺ ("|" ⧺ scope))))))

abbrev optional_mapping : Option Fields → Value
optional_mapping none = null
optional_mapping (some m) = mapping m

-- `_result_json`
unfoldable pub result_json : Runtime → ActionResult → Result String
result_json rt r = canonical_dumps rt (
    mapping (
      field (name "ok") (boolean r.succeeded) (
        field (name "system") (text r.system) (
          field (name "resource") (text r.resource) (
            field (name "scope") (text r.scope) (
              field (name "dry_run") (boolean r.dry_run) (
                field (name "pre_image") (optional_mapping r.pre_image) (
                  field (name "message") (text r.message)
                    (field (name "provider_latency_ms") (number r.provider_latency_ms) end)))))))))

-- `_text` and `_int` of a decoded field
abbrev pub field_text : String → Fields → Result String
unfolding find
field_text k m = elim (get k m) [ some (text s) ↦ ok s | _ ↦ err idempotency_conflict ]

abbrev pub field_int : String → Fields → Result ℤ
unfolding find
field_int k m = elim (get k m) [ some (number n) ↦ ok n | _ ↦ err idempotency_conflict ]

abbrev field_flag : String → Fields → Bool
unfolding find truthy
field_flag k m = truthy (or_else (get k m) null)

-- A timestamp of a stored pre-image is an instant again.
unfoldable pub with_timestamp : Runtime → String → Fields → Option Value → Result Fields
unfolding put
with_timestamp rt k m (some (text s)) =
    Errors.◌>>=◌ (rt.from_iso s) (λ t. ok (put (name k) (instant t) m))
with_timestamp rt k m v = ok m

unfoldable pub restore_timestamp : Runtime → String → Fields → Result Fields
unfolding find with_timestamp
restore_timestamp rt k m = with_timestamp rt k m (get k m)

unfoldable pub stored_preimage : Runtime → Option Value → Result (Option Fields)
unfolding restore_timestamp
stored_preimage rt none = ok none
stored_preimage rt (some null) = ok none
stored_preimage rt (some (mapping m)) =
    Errors.◌>>=◌ (restore_timestamp rt "granted_at" m)
      λ m'. Errors.◌>>=◌ (restore_timestamp rt "last_used_at" m') λ m''. ok (some m'')
stored_preimage rt (some v) = err idempotency_conflict

unfoldable pub decoded_result : Runtime → Value → Result ActionResult
unfolding stored_preimage find truthy
decoded_result rt (mapping m) = Errors.◌>>=◌ (stored_preimage rt (get "pre_image" m)) λ pre_image.
    Errors.◌>>=◌ (field_text "system" m) λ system.
      Errors.◌>>=◌ (field_text "resource" m) λ resource.
        Errors.◌>>=◌ (field_text "scope" m) λ scope.
          Errors.◌>>=◌ (field_text "message" m) λ message.
            Errors.◌>>=◌ (field_int "provider_latency_ms" m) λ latency. ok (record {
              succeeded = field_flag "ok" m;
              system = system;
              resource = resource;
              scope = scope;
              dry_run = field_flag "dry_run" m;
              pre_image = pre_image;
              message = message;
              provider_latency_ms = latency;
            })
decoded_result rt v = err idempotency_conflict

-- `_result_from_json`
unfoldable pub result_from_json : Runtime → String → Result ActionResult
unfolding decoded_result
result_from_json rt s = Errors.◌>>=◌ (rt.json_loads s) (decoded_result rt)

pub record IdempotencyLease : Type 0 where
  pub key : String
  pub acquired : Bool
  pub result : Option ActionResult

pub record StoredAction : Type 0 where
  pub plan_id : String
  pub seq : ℤ
  pub plan_hash : String
  pub trace_id : String
  pub system : String
  pub resource : String
  pub scope : String
  pub pre_image_key : String
  pub lock_key : String
  pub result : Option ActionResult

-- What `acquire` is given beside the key.
pub record LockMetadata : Type 0 where
  pub plan_id : String
  pub seq : ℤ
  pub resource : String
  pub scope : String
  pub system : String
  pub plan_hash : String
  pub trace_id : String
  pub pre_image_key : String

-- `item.get(k)` of an attribute that is a text
abbrev pub item_text : String → Item → Option String
item_text k [] = none
item_text k ((j, S s) ∷ item) = if str_eq j k then some s else item_text k item
item_text k ((j, N n) ∷ item) = item_text k item

module _ {D : Type 0} (rt : Runtime) (table : Table D) (ttl_seconds wait_micros : ℕ) where
  -- `int(self._clock()) + self._ttl_seconds`, with the bound of `__init__`
  unfoldable pub expiry : D → ℕ × D
  expiry d = let (t, d') = table.now d in (t / 1000000 + max 1 ttl_seconds, d')

  unfoldable pub shared_attributes : LockMetadata → ℕ → Item
  shared_attributes m expires_at =
      ("plan_id", S m.plan_id)
      ∷ ("seq", N m.seq)
      ∷ ("plan_hash", S m.plan_hash)
      ∷ ("trace_id", S m.trace_id)
      ∷ ("system", S m.system)
      ∷ ("resource", S m.resource)
      ∷ ("scope", S m.scope)
      ∷ ("pre_image_key", S m.pre_image_key)
      ∷ ("expires_at", N (pos expires_at))
      ∷ ("ttl", N (pos expires_at))
      ∷ []

  unfoldable pub plan_partition : String → String
  plan_partition plan_id = "PLAN#" ⧺ plan_id

  unfoldable pub action_sort : ℤ → String
  unfolding int_text
  action_sort seq = "ACT#" ⧺ int_text seq

  -- The two writes of the `try` in `acquire`.
  unfoldable pub claim : String → LockMetadata → ℕ → Exec D IdempotencyLease
  unfolding shared_attributes plan_partition action_sort
  claim key m expires_at = do
    table.put_item key "LOCK" (("status", S "pending") ∷ shared_attributes m expires_at) true
    table.put_item (plan_partition m.plan_id) (action_sort m.seq)
        (("lock_key", S key) ∷ shared_attributes m expires_at) false
    pure (record { key = key; acquired = true; result = none })

  -- The published result of a lock, if it is complete.
  unfoldable pub published : Option Item → Option String
  published none = none
  published (some item) =
      if str_eq (or_else (item_text "status" item) "") "complete"
      then item_text "result_json" item
      else none

  -- The end of a round: give up at the deadline, or sleep and go on.
  unfoldable pub pause : ℕ → Exec D IdempotencyLease → Exec D IdempotencyLease
  pause deadline again d =
      let (t, d') = table.now d in
      let (u, d'') = table.now d' in
      let rest = again (table.sleep (min 10000 (deadline - u)) d'') in
      if leb deadline t then (err idempotency_conflict, d') else rest

  -- `while True`, with fuel.
  unfoldable pub wait_for : ℕ → String → ℕ → Exec D IdempotencyLease
  unfolding published pause
  wait_for zero key deadline = raise unfinished
  wait_for (suc fuel) key deadline =
      let again = wait_for fuel key deadline in
      do
        existing ← table.get_item key "LOCK"
        elim (published existing) [
          | some stored ↦ do
            r ← lift (result_from_json rt stored)
            pure (record { key = key; acquired = false; result = some r })
          | none ↦ pause deadline again
        ]

  unfoldable pub start_waiting : ℕ → String → Exec D IdempotencyLease
  start_waiting fuel key d = let (t, d') = table.now d in wait_for fuel key (t + wait_micros) d'

  -- `except ClientError as exc`
  unfoldable pub on_claim_error : ℕ → String → Exn → Exec D IdempotencyLease
  unfolding start_waiting
  on_claim_error fuel key (client_error code) =
      if str_eq code "ConditionalCheckFailedException"
      then start_waiting fuel key
      else raise (client_error code)
  on_claim_error fuel key e = raise e

  unfoldable pub acquire : ℕ → LockMetadata → Exec D IdempotencyLease
  unfolding expiry
  acquire fuel m d =
      let key = lock_key rt m.plan_id m.seq m.resource m.scope in
      let (expires_at, d') = expiry d in catch (claim key m expires_at) (on_claim_error fuel key) d'

  unfoldable pub publish : String → ActionResult → Exec D (Unit {0})
  publish key result = do
    stored ← lift (result_json rt result)
    table.update_item key "LOCK" (("status", S "complete") ∷ ("result_json", S stored) ∷ [])

  unfoldable pub complete : IdempotencyLease → ActionResult → Exec D (Unit {0})
  unfolding publish
  complete lease result = if lease.acquired then publish lease.key result else pure tt

  unfoldable pub release : IdempotencyLease → Exec D (Unit {0})
  release lease = if lease.acquired then table.delete_item lease.key "LOCK" else pure tt
