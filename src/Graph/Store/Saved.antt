-- ===== src/Graph/Store/Saved.antt =====
-- The items of all slices of a batch write (backend/src/deadbolt/graph/store.py).
use sams_simlplifynext.Prelude.{ℕ, zero, suc, List, [], ◌∷◌, ◌++◌, All, All-map, map, ◌≡◌, sym, ap}
use mathlib.Core.Path.{subst}
use mathlib.Core.List.{append_assoc}
use sams_simlplifynext.Prelude.Order.{sorted, All-sorted}
use sams_simlplifynext.Errors.{Result, ok, err, traverse, ok-injective}
use sams_simlplifynext.Errors
use sams_simlplifynext.Exec.{lift, bind-ok, Always-bind}
use sams_simlplifynext.Runtime.{Runtime}
use sams_simlplifynext.Value.{Datetime, Fields}
use sams_simlplifynext.Contracts.{Entitlement}
use sams_simlplifynext.Graph.Store.Codec.{TypeCodec, serialize_item}
use sams_simlplifynext.Graph.Store.Items.{stored_le, entitlement_item}
use sams_simlplifynext.Graph.Store.{
  GraphTable, slices, batches, write_batch, write_slices, batch_write, put_entitlements,
}
use sams_simlplifynext.Graph.Store.Batches.{IsBatching, write_batch-keeps, write_batch-Taken}

All-append : {A : Type 0} (P : A → Type 0) (xs ys : List A) → All P xs → All P ys → All P (xs ++ ys)
All-append P [] ys a b = b
All-append P (x ∷ xs) ys a b = (a.0, All-append P xs ys a.1 b)

-- The slices hold all items.
slices-All :
    {A : Type 0} (P : A → Type 0) (size room : ℕ) (current xs : List A)
    → All (All P) (slices size room current xs)
    → All P (current ++ xs)
unfolding slices
slices-All P size room current [] a = All-append P current [] a.0 tt
slices-All P size zero current (x ∷ xs) a =
    All-append P current (x ∷ xs) a.0 (slices-All P size size (x ∷ []) xs a.1)
slices-All P size (suc room) current (x ∷ xs) a =
    subst (All P) (append_assoc current (x ∷ []) xs)
      (slices-All P size room (current ++ x ∷ []) xs a)

batches-All : {A : Type 0} (P : A → Type 0) (xs : List A) → All (All P) (batches xs) → All P xs
unfolding batches
batches-All P [] a = tt
batches-All P (x ∷ xs) a = slices-All P 24 24 (x ∷ []) xs a

traverse-Each :
    {A B : Type 0} (f : A → Result B) (P : B → Type 0) (xs : List A) {ys : List B}
    → traverse f xs ≡ ok ys
    → All P ys
    → All (λ x. (y : B) × (f x ≡ ok y) × P y) xs
unfolding traverse
traverse-Each f P [] h a = tt
traverse-Each f P (x ∷ xs) h a =
    let (y, made, h') = Errors.bind-ok (f x) _ h in
    let (ys, rest, e) = Errors.bind-ok (traverse f xs) _ h' in
    let b : All P (y ∷ ys) = subst (All P) (sym (ok-injective e)) a in
    ((y, made, b.0), traverse-Each f P xs rest b.1)

module _ {D : Type 0} (rt : Runtime) (astimezone : Datetime → Datetime) (codec : TypeCodec)
    (table : GraphTable D) (max_retries : ℕ) (Taken : Fields → D → Type 0)
    (law : IsBatching table Taken) where
  -- The table has taken the put of the item that they are serialized to.
  abbrev pub IsSaved : D → Fields → Type 0
  IsSaved d values =
      (item : Fields) × (serialize_item rt astimezone codec values ≡ ok item) × Taken item d

  write_slices-keeps :
      (slices : List (List Fields)) (d : D) (r : Fields)
      → Taken r d
      → Taken r (write_slices rt astimezone codec table max_retries slices d).1
  unfolding write_slices
  write_slices-keeps [] d r h = h
  write_slices-keeps (slice ∷ rest) d r h =
      Always-bind (Taken r) (lift (traverse (serialize_item rt astimezone codec) slice)) _ d h
        λ pending _.
          let kept = write_batch-keeps table Taken law max_retries 0 pending d r h in
          Always-bind (Taken r) (write_batch table max_retries 0 pending)
            (λ _. write_slices rt astimezone codec table max_retries rest) d kept
            λ _ _. write_slices-keeps rest _ r kept

  write_slices-IsSaved :
      (slices : List (List Fields)) (d d' : D)
      → write_slices rt astimezone codec table max_retries slices d ≡ (ok tt, d')
      → All (All (IsSaved d')) slices
  unfolding write_slices
  write_slices-IsSaved [] d d' h = tt
  write_slices-IsSaved (slice ∷ rest) d d' h =
      let serialized = traverse (serialize_item rt astimezone codec) slice in
      let (pending, d1, e, h1) = bind-ok (lift serialized) _ d h in
      let (_, d2, e2, h2) =
        bind-ok (write_batch table max_retries 0 pending)
          (λ _. write_slices rt astimezone codec table max_retries rest) d1 h1 in
      let stored : All (λ r. Taken r d') pending =
        All-map (λ r. Taken r d2) (λ r. Taken r d') pending
          (λ r k. subst (λ t. Taken r t.1) h2 (write_slices-keeps rest d2 r k))
          (write_batch-Taken table Taken law max_retries 0 pending d1 d2 e2) in
      (
        traverse-Each (serialize_item rt astimezone codec) (λ r. Taken r d') slice (ap (λ x. x.0) e)
            stored,
        write_slices-IsSaved rest d2 d' h2,
      )

  pub batch_write-IsSaved :
      (values : List Fields) (d d' : D)
      → batch_write rt astimezone codec table max_retries values d ≡ (ok tt, d')
      → All (IsSaved d') values
  unfolding batch_write
  batch_write-IsSaved values d d' h =
      batches-All (IsSaved d') values (write_slices-IsSaved (batches values) d d' h)

  All-mapped :
      {A B : Type 0} (P : B → Type 0) (f : A → B) (xs : List A)
      → All P (map f xs)
      → All (λ x. P (f x)) xs
  All-mapped P f [] a = tt
  All-mapped P f (x ∷ xs) a = (a.0, All-mapped P f xs a.1)

  -- If the table takes or gives back each put of a batch and keeps what it has taken, and
  -- `put_entitlements` returns, then each given entitlement has an item to which its fields
  -- serialize, and the table has taken the put of this item.
  pub put_entitlements-IsSaved :
      (entitlements : List Entitlement) (d d' : D)
      → put_entitlements rt astimezone codec table max_retries entitlements d ≡ (ok tt, d')
      → All (λ e. IsSaved d' (entitlement_item rt astimezone e)) entitlements
  unfolding put_entitlements
  put_entitlements-IsSaved entitlements d d' h = All-sorted stored_le _ entitlements (
      All-mapped (IsSaved d') (entitlement_item rt astimezone) (sorted stored_le entitlements) (
        batch_write-IsSaved (map (entitlement_item rt astimezone) (sorted stored_le entitlements)) d
          d' h))
