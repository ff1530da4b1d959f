-- ===== src/Executor/Rollback.antt =====
-- Restoration of stored pre-images (backend/src/deadbolt/executor/rollback.py), with the readers of
-- stored actions in idempotency.py and of a pre-image in run.py.
pub mod Verified
use sams_simlplifynext.Prelude.{
  ℕ, String, Bool, true, false, ◌&&◌, not, Option, none, some, List, [], ◌∷◌, all, if◌then◌else◌,
}
use sams_simlplifynext.Prelude.Text.{filled}
use sams_simlplifynext.Prelude.Int.{ℤ, pos, negsuc, leb_ℤ}
use sams_simlplifynext.Prelude.Order.{sorted}
use sams_simlplifynext.Errors.{Exn, Result, ok, err, irreversible, value_error, traverse}
use sams_simlplifynext.Errors as Errors
use sams_simlplifynext.Exec.{Exec, pure, raise, lift, catch, ◌>>=◌, ◌>>◌}
use sams_simlplifynext.Runtime.{Runtime}
use sams_simlplifynext.Value.{name, Value, Fields, number, text, mapping, end, field, find, get}
use sams_simlplifynext.Services.{S, N, Item}
use sams_simlplifynext.Contracts.{ActionResult}
use sams_simlplifynext.Plan.Canonical.{int_text, joined, ◌⧺◌}
use sams_simlplifynext.Executor.Idempotency.{
  StoredAction, field_text, field_int, result_from_json, plan_partition, action_sort,
}
use sams_simlplifynext.Executor.State.{Run, Clients, on_provider, on_table, on_store}
use sams_simlplifynext.Executor.Snapshots.{verify_restored}
use sams_simlplifynext.Executor.Execute.{exn_name, restored_ok}

-- The decoded attributes of an item.
unfoldable pub decoded_item : Item → Fields
decoded_item [] = end
decoded_item ((k, S s) ∷ item) = field (name k) (text s) (decoded_item item)
decoded_item ((k, N n) ∷ item) = field (name k) (number n) (decoded_item item)

abbrev stored_result : Runtime → Option Value → Result (Option ActionResult)
stored_result rt (some (text s)) = Errors.◌>>=◌ (result_from_json rt s) λ r. ok (some r)
stored_result rt v = ok none

-- `_stored_action`
unfoldable pub stored_action : Runtime → Fields → Result StoredAction
unfolding find
stored_action rt m = Errors.◌>>=◌ (stored_result rt (get "result_json" m)) λ result.
    Errors.◌>>=◌ (field_text "plan_id" m) λ plan_id. Errors.◌>>=◌ (field_int "seq" m) λ seq.
      Errors.◌>>=◌ (field_text "plan_hash" m) λ plan_hash.
        Errors.◌>>=◌ (field_text "trace_id" m) λ trace_id.
          Errors.◌>>=◌ (field_text "system" m) λ system.
            Errors.◌>>=◌ (field_text "resource" m) λ resource.
              Errors.◌>>=◌ (field_text "scope" m) λ scope.
                Errors.◌>>=◌ (field_text "pre_image_key" m) λ pre_image_key.
                  Errors.◌>>=◌ (field_text "lock_key" m) λ lock_key. ok (record {
                    plan_id = plan_id;
                    seq = seq;
                    plan_hash = plan_hash;
                    trace_id = trace_id;
                    system = system;
                    resource = resource;
                    scope = scope;
                    pre_image_key = pre_image_key;
                    lock_key = lock_key;
                    result = result;
                  })

abbrev decoded_action : Runtime → Item → Result StoredAction
unfolding decoded_item
decoded_action rt item = stored_action rt (decoded_item item)

abbrev pub seq_le : StoredAction → StoredAction → Bool
seq_le a b = leb_ℤ a.seq b.seq

-- The body of a pre-image object.
abbrev pub preimage_of : Runtime → Option String → Result Fields
preimage_of rt none = err irreversible
preimage_of rt (some raw) =
    Errors.◌>>=◌ (rt.json_loads raw) λ v. elim v [ mapping m ↦ ok m | _ ↦ err irreversible ]

-- The `seq` argument: "all", or a number.
pub data Selection : Type 0 where
  all_actions : Selection
  one_action : ℤ → Selection

pub record RollbackResult : Type 0 where
  pub succeeded : Bool  -- `ok`
  pub plan_id : String
  pub seq : Option ℤ
  pub results : List ActionResult
  pub audit_keys : List String
  pub message : String

-- What the loop has gathered.
pub record Gathered : Type 0 where
  pub results : List ActionResult
  pub audit_keys : List String
  pub failures : List String

abbrev pub rollback_record : StoredAction → Bool → Fields
rollback_record a verified = field (name "event") (text "rollback") (
    field (name "status") (text (if verified then "rollback_completed" else "rollback_failed")) (
      field (name "plan_id") (text a.plan_id) (
        field (name "plan_hash") (text a.plan_hash) (
          field (name "trace_id") (text a.trace_id) (
            field (name "system") (text a.system) (
              field (name "resource") (text a.resource) (
                field (name "scope") (text a.scope) (
                  field (name "pre_image_key") (text a.pre_image_key)
                    (field (name "rollback_of") (text a.lock_key) end)))))))))

-- The result of an action whose restoration is not verified.
abbrev pub unverified : StoredAction → Fields → ActionResult → ActionResult
unverified a pre_image restored = record {
  succeeded = false;
  system = a.system;
  resource = a.resource;
  scope = a.scope;
  dry_run = false;
  pre_image = some pre_image;
  message = "rollback verification failed";
  provider_latency_ms = restored.provider_latency_ms;
}

module _ {P D B : Type 0} (rt : Runtime) (c : Clients P D B) where
  -- `get_action`
  unfoldable pub get_action : String → ℤ → Exec (Run P D B) (Option StoredAction)
  unfolding plan_partition action_sort decoded_action
  get_action plan_id seq =
      on_table (
        c.table.get_item (plan_partition rt c.table c.ttl_seconds c.wait_micros plan_id)
          (action_sort rt c.table c.ttl_seconds c.wait_micros seq))
      >>= λ found. elim found [
        | none ↦ pure none
        | some item ↦ lift (decoded_action rt item) >>= λ a. pure (some a)
      ]

  -- `get_actions`, in the order of the numbers
  unfoldable pub get_actions : String → Exec (Run P D B) (List StoredAction)
  unfolding plan_partition decoded_action
  get_actions plan_id =
      on_table
        (c.table.query (plan_partition rt c.table c.ttl_seconds c.wait_micros plan_id) "ACT#")
      >>= λ rows.
          lift (traverse (decoded_action rt) rows) >>= λ actions. pure (sorted seq_le actions)

  -- `read_preimage`
  unfoldable pub read_preimage : String → Exec (Run P D B) Fields
  read_preimage key =
      on_store (c.store.get_object c.preimage_bucket key) >>= λ body. lift (preimage_of rt body)

  -- `verified = restored.ok and verify_restored(…)`, for a restoration that was made.
  unfoldable pub check_restored : ActionResult → Fields → Exec (Run P D B) Bool
  check_restored restored pre_image =
      if restored.succeeded
      then on_provider (verify_restored rt c.provider pre_image)
      else pure false

  -- The audit record, and the result.
  unfoldable pub conclude :
      StoredAction → Fields → ActionResult → Bool → Exec (Run P D B) (ActionResult × String)
  conclude a pre_image restored verified =
      on_store (c.audit (rollback_record a verified)) >>= λ key.
      pure (if verified then restored else unverified a pre_image restored, key)

  unfoldable pub restore_action : StoredAction → Fields → Exec (Run P D B) (ActionResult × String)
  restore_action a pre_image = on_provider (c.provider.restore pre_image) >>= λ restored.
      check_restored restored pre_image >>= conclude a pre_image restored

  -- `_rollback_one`
  unfoldable pub rollback_one : StoredAction → Exec (Run P D B) (ActionResult × String)
  rollback_one a =
      if filled a.pre_image_key
      then read_preimage a.pre_image_key >>= restore_action a
      else raise irreversible

  abbrev failure_text : StoredAction → String → String
  unfolding int_text
  failure_text a why = "seq " ⧺ (int_text a.seq ⧺ (": " ⧺ why))

  -- What one action adds to what the later ones gather.
  unfoldable pub gather : StoredAction → Result (ActionResult × String) → Gathered → Gathered
  unfolding failure_text
  gather a (err e) g = record g { failures = failure_text a (exn_name e) ∷ g.failures }
  gather a (ok (r, key)) g = record {
    results = r ∷ g.results;
    audit_keys = key ∷ g.audit_keys;
    failures =
        if r.succeeded
        then g.failures
        else failure_text a "rollback verification failed" ∷ g.failures;
  }

  -- The loop: an action that raises does not stop it.
  unfoldable pub rollback_all : List StoredAction → Run P D B → Gathered × Run P D B
  rollback_all [] s = (record { results = []; audit_keys = []; failures = [] }, s)
  rollback_all (a ∷ l) s =
      let (tried, s') = rollback_one a s in
      let (g, s'') = rollback_all l s' in (gather a tried g, s'')

  abbrev is_empty : {A : Type 0} → List A → Bool
  is_empty [] = true
  is_empty (x ∷ l) = false

  abbrev or_text : String → String → String
  or_text s t = if filled s then s else t

  unfoldable pub summary : String → Option ℤ → List StoredAction → Gathered → RollbackResult
  unfolding all joined
  summary plan_id seq actions g =
      let done =
        not (is_empty g.results) && (is_empty g.failures && all (λ r. r.succeeded) g.results) in
      if is_empty actions
      then record {
        succeeded = false;
        plan_id = plan_id;
        seq = seq;
        results = [];
        audit_keys = [];
        message = "no recorded actions";
      }
      else record {
        succeeded = done;
        plan_id = plan_id;
        seq = seq;
        results = g.results;
        audit_keys = g.audit_keys;
        message =
            if done
            then "rollback verified"
            else or_text (joined "; " g.failures) "rollback failed";
      }

  unfoldable pub rollback_selected :
      String → Option ℤ → List StoredAction → Exec (Run P D B) RollbackResult
  unfolding summary rollback_all
  rollback_selected plan_id seq actions s =
      let (g, s') = rollback_all actions s in (ok (summary plan_id seq actions g), s')

  -- One recorded action, which must be there.
  abbrev pub rollback_found : String → ℤ → Option StoredAction → Exec (Run P D B) RollbackResult
  rollback_found plan_id seq none = raise irreversible
  rollback_found plan_id seq (some a) = rollback_selected plan_id (some seq) (a ∷ [])

  -- `rollback`
  unfoldable pub rollback : String → Selection → Exec (Run P D B) RollbackResult
  rollback plan_id all_actions = get_actions plan_id >>= rollback_selected plan_id none
  rollback plan_id (one_action (pos n)) =
      get_action plan_id (pos n) >>= rollback_found plan_id (pos n)
  rollback plan_id (one_action (negsuc n)) = raise value_error
