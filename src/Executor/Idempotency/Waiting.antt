-- ===== src/Executor/Idempotency/Waiting.antt =====
-- The wait for a lock that another delivery holds ends at its deadline.
use sams_simlplifynext.Prelude.{
  ℕ, zero, suc, ◌+◌, ◌-◌, ◌<◌, ◌≤◌, min, String, Option, some, Option-cases, Bool, true, false, ◌≡◌,
  ◌≢◌, ◌∷◌, ◌∙◌, ap, inl, inr, arith,
}
use sams_simlplifynext.Errors.{Exn, client_error, err-injective, Result-cases, err, unfinished}
use sams_simlplifynext.Exec.{Exec}
use sams_simlplifynext.Runtime.{Runtime}
use sams_simlplifynext.Value.{Value, Fields, text, mapping, get}
use sams_simlplifynext.Services.{Table, Item, S}
use sams_simlplifynext.Executor.Idempotency.{
  with_timestamp, restore_timestamp, stored_preimage, decoded_result, result_from_json,
  IdempotencyLease, LockMetadata, published, pause, wait_for, start_waiting, expiry, lock_key,
  shared_attributes, plan_partition, action_sort, claim, on_claim_error, acquire,
}

-- What the wait relies on of the clock: a reading is the time, which no call turns back, and a
-- sleep lasts at least as long as it is asked to.
pub record IsClock {D : Type 0} (table : Table D) (clock : D → ℕ) : Type 0 where
  pub now_reads : (d : D) → (table.now d).0 ≡ clock d
  pub now_later : (d : D) → clock d ≤ clock (table.now d).1
  pub sleep_later : (n : ℕ) (d : D) → clock d + n ≤ clock (table.sleep n d)
  pub get_later : (k s : String) (d : D) → clock d ≤ clock (table.get_item k s d).1

-- No call outside the model raises the exception that stands for a lack of fuel.
pub record IsOutside {D : Type 0} (rt : Runtime) (table : Table D) : Type 0 where
  pub get_item : (k s : String) (d : D) → (table.get_item k s d).0 ≢ err unfinished
  pub put_item :
      (k s : String) (item : Item) (new : Bool) (d : D)
      → (table.put_item k s item new d).0 ≢ err unfinished
  pub json_loads : (s : String) → rt.json_loads s ≢ err unfinished
  pub from_iso : (s : String) → rt.from_iso s ≢ err unfinished

module _ {D : Type 0} (rt : Runtime) (table : Table D) (outside : IsOutside rt table) where
  with_timestamp-finishes :
      (k : String) (m : Fields) (v : Option Value) → with_timestamp rt k m v ≢ err unfinished
  unfolding with_timestamp
  with_timestamp-finishes k m (some (text s)) h = ground (arith, outside.from_iso s)
  with_timestamp-finishes k m v h = ground arith

  restore_timestamp-finishes : (k : String) (m : Fields) → restore_timestamp rt k m ≢ err unfinished
  unfolding restore_timestamp
  restore_timestamp-finishes k m = with_timestamp-finishes k m (get k m)

  stored_preimage-finishes : (v : Option Value) → stored_preimage rt v ≢ err unfinished
  unfolding stored_preimage
  stored_preimage-finishes (some (mapping m)) h =
      elim (Result-cases (restore_timestamp rt "granted_at" m)) [
        | inl (m', e) ↦ restore_timestamp-finishes "last_used_at" m' (ground arith)
        | inr (x, e) ↦ restore_timestamp-finishes "granted_at" m (ground arith)
      ]
  stored_preimage-finishes v h = ground arith

  decoded_result-finishes : (v : Value) → decoded_result rt v ≢ err unfinished
  unfolding decoded_result
  decoded_result-finishes (mapping m) h =
      ground (arith, stored_preimage-finishes (get "pre_image" m))
  decoded_result-finishes v h = ground arith

  result_from_json-finishes : (s : String) → result_from_json rt s ≢ err unfinished
  unfolding result_from_json
  result_from_json-finishes s h = elim (Result-cases (rt.json_loads s)) [
    | inl (v, e) ↦ decoded_result-finishes v (ground arith)
    | inr (x, e) ↦ outside.json_loads s (ground arith)
  ]

  module _ (ttl_seconds wait_micros : ℕ) (clock : D → ℕ) (lawful : IsClock table clock) where
    pause-finishes :
        (deadline : ℕ) (again : Exec D IdempotencyLease) (d : D)
        → ((d' : D)
            → clock d < deadline
            → deadline - clock d' < deadline - clock d
            → (again d').0 ≢ err unfinished)
        → (pause rt table ttl_seconds wait_micros deadline again d).0 ≢ err unfinished
    unfolding pause
    pause-finishes deadline again d h =
        let (t, d') = table.now d in
        let (u, d'') = table.now d' in
        ground (
          arith,
          h (table.sleep (min 10000 (deadline - u)) d''),
          lawful.now_reads d,
          lawful.now_reads d',
          lawful.now_later d,
          lawful.now_later d',
          lawful.sleep_later (min 10000 (deadline - u)) d'',
        )

    wait_for-finishes :
        (fuel : ℕ) (key : String) (deadline : ℕ) (d : D)
        → deadline - clock d < fuel
        → (wait_for rt table ttl_seconds wait_micros fuel key deadline d).0 ≢ err unfinished
    unfolding wait_for
    wait_for-finishes zero key deadline d h e = absurd (omega arith)
    wait_for-finishes (suc fuel) key deadline d h e =
        let existing = table.get_item key "LOCK" d in
        elim (Result-cases existing.0) [
          | inr (x, failed) ↦ outside.get_item key "LOCK" d (ground arith)
          | inl (item, read) ↦
              elim (Option-cases (published rt table ttl_seconds wait_micros item)) [
                | inr (stored, is) ↦ result_from_json-finishes stored (ground arith)
                | inl is ↦
                    pause-finishes deadline
                      (wait_for rt table ttl_seconds wait_micros fuel key deadline) existing.1
                      (λ d' early less.
                        wait_for-finishes fuel key deadline d'
                          (let later = lawful.get_later key "LOCK" d in omega arith))
                      (ground arith)
              ]
        ]

    -- With fuel for one round per microsecond of the wait, the wait ends.
    start_waiting-finishes :
        (fuel : ℕ) (key : String) (d : D)
        → wait_micros < fuel
        → (start_waiting rt table ttl_seconds wait_micros fuel key d).0 ≢ err unfinished
    unfolding start_waiting
    start_waiting-finishes fuel key d h =
        let (t, d') = table.now d in
        wait_for-finishes fuel key (t + wait_micros) d'
          (let later = lawful.now_later d in let reads = lawful.now_reads d in omega arith)

    on_claim_error-finishes :
        (fuel : ℕ) (key : String) (e : Exn) (d : D)
        → wait_micros < fuel
        → e ≢ unfinished
        → (on_claim_error rt table ttl_seconds wait_micros fuel key e d).0 ≢ err unfinished
    unfolding on_claim_error
    on_claim_error-finishes fuel key (client_error code) d h other =
        ground (arith, start_waiting-finishes fuel key d h)
    on_claim_error-finishes fuel key e d h other = λ same. other (err-injective same)

    claim-finishes :
        (key : String) (m : LockMetadata) (n : ℕ) (d : D)
        → (claim rt table ttl_seconds wait_micros key m n d).0 ≢ err unfinished
    unfolding claim
    claim-finishes key m n d =
        let shared = shared_attributes rt table ttl_seconds wait_micros m n in
        let lock = ("status", S "pending") ∷ shared in
        ground (
          arith,
          outside.put_item key "LOCK" lock true d,
          outside.put_item (plan_partition rt table ttl_seconds wait_micros m.plan_id)
              (action_sort rt table ttl_seconds wait_micros m.seq) (("lock_key", S key) ∷ shared)
              false (table.put_item key "LOCK" lock true d).1,
        )

    -- If the clock never runs backwards and a sleep lasts as long as it is asked to, then with
    -- more fuel than the microseconds of the wait, `acquire` ends before the fuel does: with a
    -- lease, or with an exception of the table, of the stored result or of the deadline.
    pub acquire-finishes :
        (fuel : ℕ) (m : LockMetadata) (d : D)
        → wait_micros < fuel
        → (acquire rt table ttl_seconds wait_micros fuel m d).0 ≢ err unfinished
    unfolding acquire
    acquire-finishes fuel m d h =
        let key = lock_key rt m.plan_id m.seq m.resource m.scope in
        let (n, d') = expiry rt table ttl_seconds wait_micros d in
        let attempted = claim rt table ttl_seconds wait_micros key m n d' in
        elim (Result-cases attempted.0) [
          | inl (lease, e) ↦ ground arith
          | inr (x, e) ↦ ground (
            arith,
            on_claim_error-finishes fuel key x attempted.1 h
                (λ same. claim-finishes key m n d' (e ∙ ap err same)),
          )
        ]
