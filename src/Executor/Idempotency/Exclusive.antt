-- ===== src/Executor/Idempotency/Exclusive.antt =====
-- At most one delivery owns the lock of an action.
use sams_simlplifynext.Prelude.{
  Option, some, Option-cases, refl, ap, inl, inr, ℕ, zero, suc, ◌+◌, ◌-◌, min, String, is_some,
  Bool, true, false, ◌≡◌, ◌∷◌, arith,
}
use sams_simlplifynext.Errors.{Exn, ok, err, client_error}
use sams_simlplifynext.Exec.{
  Exec, lift, Returns-bind, Returns, Returns-catch, Returns-map, Returns-ok,
}
use sams_simlplifynext.Runtime.{Runtime}
use sams_simlplifynext.Contracts.{ActionResult}
use sams_simlplifynext.Services.{Table, Item, S}
use sams_simlplifynext.Executor.Idempotency.{
  published, result_from_json, lock_key, IdempotencyLease, LockMetadata, expiry, shared_attributes,
  plan_partition, action_sort, pause, wait_for, start_waiting, claim, on_claim_error, acquire,
}

-- What the lock relies on of the table: `holds d k s` says that the item is there; a conditional
-- put of an item that is there is refused with the documented code, a put that succeeds leaves the
-- item there, and neither it nor a reading of the clock removes another item.
pub record IsConditional {D : Type 0} (table : Table D) (holds : D → String → String → Bool)
    : Type 0 where
  pub put_existing :
      (k s : String) (item : Item) (d : D)
      → holds d k s ≡ true
      → (table.put_item k s item true d).0 ≡ err (client_error "ConditionalCheckFailedException")
  pub put_holds :
      (k s : String) (item : Item) (new : Bool) (d : D) (k' s' : String)
      → holds d k' s' ≡ true
      → holds (table.put_item k s item new d).1 k' s' ≡ true
  pub put_new :
      (k s : String) (item : Item) (new : Bool) (d : D)
      → (table.put_item k s item new d).0 ≡ ok tt
      → holds (table.put_item k s item new d).1 k s ≡ true
  pub now_holds : (d : D) (k s : String) → holds d k s ≡ true → holds (table.now d).1 k s ≡ true

module _ {D : Type 0} (rt : Runtime) (table : Table D) (ttl_seconds wait_micros : ℕ) where
  -- A delivery that does not own the lock, with the result of the owner.
  abbrev pub IsDuplicate : IdempotencyLease → D → Type 0
  IsDuplicate lease d = (lease.acquired ≡ false) × (is_some lease.result ≡ true)

  -- A lease without the lock: the table is as the read of the lock left it, whose item is complete,
  -- and the result is the one that the item holds.
  abbrev pub IsReadLock : String → IdempotencyLease → D → Type 0
  IsReadLock key lease d =
      (before : D) × (item : Option Item) × (stored : String) × (r : ActionResult) × (table.get_item
          key "LOCK" before
        ≡ (ok item, d))
      × (published rt table ttl_seconds wait_micros item ≡ some stored)
      × (result_from_json rt stored ≡ ok r)
      × (lease ≡ record { key = key; acquired = false; result = some r })

  pause-Returns :
      (Q : IdempotencyLease → D → Type 0) (deadline : ℕ) (again : Exec D IdempotencyLease) (d : D)
      → ((d' : D) → Returns Q (again d'))
      → Returns Q (pause rt table ttl_seconds wait_micros deadline again d)
  unfolding pause
  pause-Returns Q deadline again d h =
      let (t, d') = table.now d in
      let (u, d'') = table.now d' in ground (arith, h (table.sleep (min 10000 (deadline - u)) d''))

  wait_for-IsReadLock :
      (fuel : ℕ) (key : String) (deadline : ℕ) (d : D)
      → Returns (IsReadLock key) (wait_for rt table ttl_seconds wait_micros fuel key deadline d)
  unfolding wait_for
  wait_for-IsReadLock zero key deadline d = tt
  wait_for-IsReadLock (suc fuel) key deadline d =
      let again = wait_for rt table ttl_seconds wait_micros fuel key deadline in
      Returns-bind (IsReadLock key) (table.get_item key "LOCK") _ d λ item read.
        elim (Option-cases (published rt table ttl_seconds wait_micros item)) [
          | inl pending ↦ rw pending (
              pause-Returns (IsReadLock key) deadline again _
                (wait_for-IsReadLock fuel key deadline))
          | inr (stored, complete) ↦ rw complete (
              Returns-bind (IsReadLock key) (lift (result_from_json rt stored)) _ _ λ r decoded. (
                d,
                item,
                stored,
                r,
                λ i. (read i, (table.get_item key "LOCK" d).1),
                complete,
                decoded,
                refl,
              ))
        ]

  on_claim_error-IsReadLock :
      (fuel : ℕ) (key : String) (e : Exn) (d : D)
      → Returns (IsReadLock key) (on_claim_error rt table ttl_seconds wait_micros fuel key e d)
  unfolding on_claim_error start_waiting
  on_claim_error-IsReadLock fuel key (client_error code) d =
      let (t, d') = table.now d in ground (arith, wait_for-IsReadLock fuel key (t + wait_micros) d')
  on_claim_error-IsReadLock fuel key e d = tt

  claim-key :
      (key : String) (m : LockMetadata) (n : ℕ) (d : D)
      → Returns (λ lease d'. lease.key ≡ key) (claim rt table ttl_seconds wait_micros key m n d)
  unfolding claim
  claim-key key m n d = ground arith

  -- A lease is for the lock of its action.
  pub acquire-key :
      (fuel : ℕ) (m : LockMetadata) (d : D)
      → Returns
          (λ lease d'. lease.key ≡ lock_key rt m.plan_id m.seq m.resource m.scope)
          (acquire rt table ttl_seconds wait_micros fuel m d)
  unfolding acquire expiry
  acquire-key fuel m d =
      let key = lock_key rt m.plan_id m.seq m.resource m.scope in
      Returns-catch _ (claim rt table ttl_seconds wait_micros key m _)
        (on_claim_error rt table ttl_seconds wait_micros fuel key) (table.now d).1
        (claim-key key m _ _)
        (λ e raised.
          Returns-map (IsReadLock key) _
            (on_claim_error rt table ttl_seconds wait_micros fuel key e _)
            (λ lease d' (_, _, _, _, _, _, _, same). ap (λ l. l.key) same)
            (on_claim_error-IsReadLock fuel key e _))

  module _ (holds : D → String → String → Bool) (lawful : IsConditional table holds) where
    claim-refused :
        (Q : IdempotencyLease → D → Type 0) (key : String) (m : LockMetadata) (n : ℕ) (d : D)
        → holds d key "LOCK" ≡ true
        → Returns Q (claim rt table ttl_seconds wait_micros key m n d)
    unfolding claim
    claim-refused Q key m n d there =
        let lock =
          ("status", S "pending") ∷ shared_attributes rt table ttl_seconds wait_micros m n in
        ground (arith, lawful.put_existing key "LOCK" lock d there)

    claim-holds :
        (key : String) (m : LockMetadata) (n : ℕ) (d : D)
        → Returns
            (λ lease d'. holds d' key "LOCK" ≡ true)
            (claim rt table ttl_seconds wait_micros key m n d)
    unfolding claim
    claim-holds key m n d =
        let shared = shared_attributes rt table ttl_seconds wait_micros m n in
        let lock = ("status", S "pending") ∷ shared in
        ground (
          arith,
          lawful.put_new key "LOCK" lock true d,
          lawful.put_holds (plan_partition rt table ttl_seconds wait_micros m.plan_id)
              (action_sort rt table ttl_seconds wait_micros m.seq) (("lock_key", S key) ∷ shared)
              false (table.put_item key "LOCK" lock true d).1 key "LOCK",
        )

    -- No delivery acquires a lock that is there: a lease has the result that the lock holds.
    pub acquire-IsReadLock :
        (fuel : ℕ) (m : LockMetadata) (d : D)
        → holds d (lock_key rt m.plan_id m.seq m.resource m.scope) "LOCK" ≡ true
        → Returns
            (IsReadLock (lock_key rt m.plan_id m.seq m.resource m.scope))
            (acquire rt table ttl_seconds wait_micros fuel m d)
    unfolding acquire expiry
    acquire-IsReadLock fuel m d there =
        let key = lock_key rt m.plan_id m.seq m.resource m.scope in
        Returns-catch (IsReadLock key) (claim rt table ttl_seconds wait_micros key m _)
          (on_claim_error rt table ttl_seconds wait_micros fuel key) (table.now d).1
          (claim-refused (IsReadLock key) key m _ _ (lawful.now_holds d key "LOCK" there))
          (λ e raised. on_claim_error-IsReadLock fuel key e _)

    acquire-IsDuplicate :
        (fuel : ℕ) (m : LockMetadata) (d : D)
        → holds d (lock_key rt m.plan_id m.seq m.resource m.scope) "LOCK" ≡ true
        → Returns IsDuplicate (acquire rt table ttl_seconds wait_micros fuel m d)
    acquire-IsDuplicate fuel m d there =
        Returns-map _ IsDuplicate (acquire rt table ttl_seconds wait_micros fuel m d)
          (λ lease d' (_, _, _, _, _, _, _, same).
            (ap (λ l. l.acquired) same, ap (λ l. is_some l.result) same))
          (acquire-IsReadLock fuel m d there)

    -- A delivery that acquires the lock leaves it there.
    pub acquire-holds :
        (fuel : ℕ) (m : LockMetadata) (d : D)
        → Returns
            (λ lease d'.
              lease.acquired ≡ true
              → holds d' (lock_key rt m.plan_id m.seq m.resource m.scope) "LOCK" ≡ true)
            (acquire rt table ttl_seconds wait_micros fuel m d)
    unfolding acquire expiry
    acquire-holds fuel m d =
        let key = lock_key rt m.plan_id m.seq m.resource m.scope in
        Returns-catch _ (claim rt table ttl_seconds wait_micros key m _)
          (on_claim_error rt table ttl_seconds wait_micros fuel key) (table.now d).1
          (Returns-map _ _ (claim rt table ttl_seconds wait_micros key m _ _) (λ lease d' h e. h)
            (claim-holds key m _ _))
          (λ e raised.
            Returns-map _ _ (on_claim_error rt table ttl_seconds wait_micros fuel key e _)
              (λ lease d' (_, _, _, _, _, _, _, same) e'.
                absurd (let other = ap (λ l. l.acquired) same in ground arith))
              (on_claim_error-IsReadLock fuel key e _))

    -- If a conditional put is refused where the item is there and puts remove no item, then
    -- after an `acquire` that returned an owned lease, an `acquire` of the same action on the
    -- table it left returns, if at all, a lease that is not owned and that carries a result.
    pub acquire-acquire :
        (fuel fuel' : ℕ) (m : LockMetadata) (d : D) {lease : IdempotencyLease}
        → (acquire rt table ttl_seconds wait_micros fuel m d).0 ≡ ok lease
        → lease.acquired ≡ true
        → Returns IsDuplicate (
            acquire rt table ttl_seconds wait_micros fuel' m
              (acquire rt table ttl_seconds wait_micros fuel m d).1)
    acquire-acquire fuel fuel' m d e owned = acquire-IsDuplicate fuel' m _ (
        Returns-ok _ (acquire rt table ttl_seconds wait_micros fuel m d) (acquire-holds fuel m d) e
          owned)
