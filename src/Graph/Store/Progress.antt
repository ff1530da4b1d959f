-- ===== src/Graph/Store/Progress.antt =====
-- A table that takes some puts of each batch, and the attempts that are then enough
-- (backend/src/deadbolt/graph/store.py).
use sams_simlplifynext.Prelude.{
  ℕ, zero, suc, ◌+◌, ◌*◌, ◌≤◌, List, [], ◌∷◌, ◌++◌, All, length, map, ◌≡◌, refl, ap, ◌∙◌, ◌⊎◌, inl,
  inr, arith,
}
use sams_simlplifynext.Prelude.Order.{sorted, sorted-All}
use sams_simlplifynext.Errors.{Result, ok, traverse}
use sams_simlplifynext.Errors
use sams_simlplifynext.Exec.{Exec, lift, ◌>>=◌, bind-eq_ok}
use sams_simlplifynext.Runtime.{Runtime}
use sams_simlplifynext.Value.{Datetime, Fields}
use sams_simlplifynext.Contracts.{Entitlement}
use sams_simlplifynext.Graph.Store.Codec.{TypeCodec, serialize_item}
use sams_simlplifynext.Graph.Store.Items.{stored_le, entitlement_item}
use sams_simlplifynext.Graph.Store.{
  GraphTable, slices, batches, exhaust, retry, write_batch, write_slices, batch_write,
  put_entitlements,
}

module _ {D : Type 0} (table : GraphTable D) (step : ℕ) where
  -- Each call returns, and gives back nothing or at least `step` puts fewer than it was given.
  pub record IsProgressing : Type 0 where
    pub takes :
        (pending : List Fields) (d : D)
        → (rest : List Fields) × (d' : D) × (table.batch_write_item pending d ≡ (ok rest, d'))
          × ((rest ≡ []) ⊎ (length rest + step ≤ length pending))
    pub pauses : (n : ℕ) (d : D) → (d' : D) × (table.pause n d ≡ (ok tt, d'))

  module _ (law : IsProgressing) where
    exhaust-returns :
        (rest : List Fields) (d : D) → length rest ≡ 0 → exhaust table rest d ≡ (ok tt, d)
    unfolding exhaust
    exhaust-returns [] d h = refl
    exhaust-returns (x ∷ rest) d h = absurd (ground arith)

    retry-returns :
        (again : List Fields → Exec D (Unit {0})) (attempt : ℕ) (rest : List Fields) (d : D)
        → ((d1 : D) → (rest ≡ []) ⊎ ((d2 : D) × (again rest d1 ≡ (ok tt, d2))))
        → (d' : D) × (retry table again attempt rest d ≡ (ok tt, d'))
    unfolding retry
    retry-returns again attempt [] d h = (d, refl)
    retry-returns again attempt (x ∷ rest) d h =
        let (d1, e) = law.pauses attempt d in
        elim (h d1) [
          | inl empty ↦ cc
          | inr (d2, e2) ↦ (d2, bind-eq_ok (table.pause attempt) (λ _. again (x ∷ rest)) d e ∙ e2)
        ]

    pub write_batch-returns :
        (left attempt : ℕ) (pending : List Fields) (d : D)
        → length pending ≤ step * suc left
        → (d' : D) × (write_batch table left attempt pending d ≡ (ok tt, d'))
    unfolding write_batch
    write_batch-returns zero attempt pending d h =
        let (rest, d1, e, fewer) = law.takes pending d in
        let none_left : length rest ≡ 0 = elim fewer [
          | inl n ↦ ap (λ l. length l) n
          | inr f ↦ omega arith
        ] in
        (
          d1,
          bind-eq_ok (table.batch_write_item pending) (exhaust table) d e
              ∙ exhaust-returns rest d1 none_left,
        )
    write_batch-returns (suc left) attempt pending d h =
        let (rest, d1, e, fewer) = law.takes pending d in
        let again = write_batch table left (suc attempt) in
        let (d2, e2) = retry-returns again attempt rest d1 (λ d0. elim fewer [
          | inl n ↦ inl n
          | inr f ↦ inr (write_batch-returns left (suc attempt) rest d0 (omega arith))
        ]) in
        (d2, bind-eq_ok (table.batch_write_item pending) (retry table again attempt) d e ∙ e2)

traverse-returns :
    {A B : Type 0} (f : A → Result B) (xs : List A)
    → All (λ x. (y : B) × (f x ≡ ok y)) xs
    → (ys : List B) × (traverse f xs ≡ ok ys) × (length ys ≡ length xs)
unfolding traverse
traverse-returns f [] a = ([], refl, refl)
traverse-returns f (x ∷ xs) ((y, e), a) =
    let (ys, e2, n) = traverse-returns f xs a in
    (
      y ∷ ys,
      ap (λ r. Errors.◌>>=◌ r λ y. Errors.◌>>=◌ (traverse f xs) λ ys. ok (y ∷ ys)) e
          ∙ ap (λ r. Errors.◌>>=◌ r λ ys. ok (y ∷ ys)) e2,
      ap (λ k. suc k) n,
    )

-- A slice that has room for one more holds as many items as it has room for, and one.
module _ {A : Type 0} (P : A → Type 0) where
  All-end : (xs : List A) (x : A) → All P xs → P x → All P (xs ++ x ∷ [])
  All-end [] x a p = (p, tt)
  All-end (y ∷ xs) x a p = (a.0, All-end xs x a.1 p)

  length-end : (xs : List A) (x : A) → length (xs ++ x ∷ []) ≡ suc (length xs)
  length-end [] x = refl
  length-end (y ∷ xs) x = ap (λ n. suc n) (length-end xs x)

  slices-each :
      (size room : ℕ) (current xs : List A)
      → length current + room ≤ suc size
      → All P current
      → All P xs
      → All (λ slice. (length slice ≤ suc size) × All P slice) (slices size room current xs)
  unfolding slices
  slices-each size room current [] n c a = ((omega arith, c), tt)
  slices-each size zero current (x ∷ xs) n c a =
      ((omega arith, c), slices-each size size (x ∷ []) xs (omega arith) (a.0, tt) a.1)
  slices-each size (suc room) current (x ∷ xs) n c a =
      let longer = length-end current x in
      slices-each size room (current ++ x ∷ []) xs (omega arith) (All-end current x c a.0) a.1

  batches-each :
      (xs : List A) → All P xs → All (λ slice. (length slice ≤ 25) × All P slice) (batches xs)
  unfolding batches
  batches-each [] a = tt
  batches-each (x ∷ xs) a = slices-each 24 24 (x ∷ []) xs (omega arith) (a.0, tt) a.1

module _ {D : Type 0} (rt : Runtime) (astimezone : Datetime → Datetime) (codec : TypeCodec)
    (table : GraphTable D) (max_retries step : ℕ) (law : IsProgressing table step)
    (enough : 25 ≤ step * suc max_retries) where
  -- The values have an item.
  abbrev pub IsSerializable : Fields → Type 0
  IsSerializable values = (item : Fields) × (serialize_item rt astimezone codec values ≡ ok item)

  write_slices-returns :
      (parts : List (List Fields)) (d : D)
      → All (λ slice. (length slice ≤ 25) × All IsSerializable slice) parts
      → (d' : D) × (write_slices rt astimezone codec table max_retries parts d ≡ (ok tt, d'))
  unfolding write_slices
  write_slices-returns [] d a = (d, refl)
  write_slices-returns (slice ∷ rest) d ((n, s), a) =
      let serialize = serialize_item rt astimezone codec in
      let (pending, e, same) = traverse-returns serialize slice s in
      let (d1, e1) = write_batch-returns table step law max_retries 0 pending d (omega arith) in
      let (d2, e2) = write_slices-returns rest d1 a in
      let others = write_slices rt astimezone codec table max_retries rest in
      (
        d2,
        bind-eq_ok (lift (traverse serialize slice))
              (λ pending. write_batch table max_retries 0 pending >>= λ _. others) d
              (ap (λ r. (r, d)) e)
            ∙ (bind-eq_ok (write_batch table max_retries 0 pending) (λ _. others) d e1 ∙ e2),
      )

  All-map_each :
      {A B : Type 0} (P : B → Type 0) (f : A → B) (xs : List A)
      → All (λ x. P (f x)) xs
      → All P (map f xs)
  All-map_each P f [] a = tt
  All-map_each P f (x ∷ xs) a = (a.0, All-map_each P f xs a.1)

  -- If each call of the table returns and gives back either nothing or at least `step` puts
  -- fewer than it was given, `step` times the number of attempts is at least 25, the pauses
  -- return, and each entitlement has an item to which its fields serialize, then
  -- `put_entitlements` returns: the attempts for a batch are enough.
  pub put_entitlements-returns :
      (entitlements : List Entitlement) (d : D)
      → All (λ e. IsSerializable (entitlement_item rt astimezone e)) entitlements
      → (d' : D) × (put_entitlements rt astimezone codec table max_retries entitlements d
          ≡ (ok tt, d'))
  unfolding put_entitlements batch_write
  put_entitlements-returns entitlements d a =
      let ordered = sorted stored_le entitlements in
      let values = map (entitlement_item rt astimezone) ordered in
      write_slices-returns (batches values) d (
        batches-each IsSerializable values (
          All-map_each IsSerializable (entitlement_item rt astimezone) ordered (
            sorted-All stored_le (λ e. IsSerializable (entitlement_item rt astimezone e))
              entitlements a)))
