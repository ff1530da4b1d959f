-- ===== src/Graph/Store/Batches.antt =====
-- A batch write and the items that the table takes (backend/src/deadbolt/graph/store.py).
use sams_simlplifynext.Prelude.{
  ℕ, zero, suc, List, [], ◌∷◌, All, All-map, ◌≡◌, sym, ap, ◌⊎◌, inl, inr, arith,
}
use mathlib.Core.Path.{subst}
use sams_simlplifynext.Errors.{ok}
use sams_simlplifynext.Exec.{Exec, bind-ok, Always-bind}
use sams_simlplifynext.Value.{Fields}
use sams_simlplifynext.Graph.Store.{GraphTable, exhaust, retry, write_batch}

abbrev pub IsIn : Fields → List Fields → Type 0
IsIn r [] = ⊥
IsIn r (x ∷ xs) = (r ≡ x) ⊎ IsIn r xs

All-IsIn : (P : Fields → Type 0) (r : Fields) (xs : List Fields) → All P xs → IsIn r xs → P r
All-IsIn P r [] a i = absurd i
All-IsIn P r (x ∷ xs) a (inl e) = subst P (sym e) a.0
All-IsIn P r (x ∷ xs) a (inr i) = All-IsIn P r xs a.1 i

module _ {D : Type 0} (table : GraphTable D) (Taken : Fields → D → Type 0) where
  -- What the table does with a batch: it takes each put or gives it back, and a put that was taken stays so
  -- when later ones, of the same key as well, are taken.
  pub record IsBatching : Type 0 where
    pub processed :
        (pending rest : List Fields) (d d' : D)
        → table.batch_write_item pending d ≡ (ok rest, d')
        → All (λ r. Taken r d' ⊎ IsIn r rest) pending
    pub batch_keeps :
        (pending : List Fields) (d : D) (r : Fields)
        → Taken r d
        → Taken r (table.batch_write_item pending d).1
    pub pause_keeps : (n : ℕ) (d : D) (r : Fields) → Taken r d → Taken r (table.pause n d).1

  module _ (law : IsBatching) where
    exhaust-keeps :
        (u : List Fields) (d : D) (r : Fields) → Taken r d → Taken r (exhaust table u d).1
    unfolding exhaust
    exhaust-keeps [] d r h = h
    exhaust-keeps (x ∷ u) d r h = h

    retry-keeps :
        (again : List Fields → Exec D (Unit {0})) (attempt : ℕ) (u : List Fields) (d : D)
        (r : Fields)
        → ((v : List Fields) (d : D) → Taken r d → Taken r (again v d).1)
        → Taken r d
        → Taken r (retry table again attempt u d).1
    unfolding retry
    retry-keeps again attempt [] d r k h = h
    retry-keeps again attempt (x ∷ u) d r k h =
        Always-bind (Taken r) (table.pause attempt) (λ _. again (x ∷ u)) d
          (law.pause_keeps attempt d r h) λ _ _. k (x ∷ u) _ (law.pause_keeps attempt d r h)

    pub write_batch-keeps :
        (left attempt : ℕ) (pending : List Fields) (d : D) (r : Fields)
        → Taken r d
        → Taken r (write_batch table left attempt pending d).1
    unfolding write_batch
    write_batch-keeps zero attempt pending d r h =
        let kept = law.batch_keeps pending d r h in
        Always-bind (Taken r) (table.batch_write_item pending) (exhaust table) d kept
          λ u _. exhaust-keeps u _ r kept
    write_batch-keeps (suc left) attempt pending d r h =
        let kept = law.batch_keeps pending d r h in
        Always-bind (Taken r) (table.batch_write_item pending)
          (retry table (write_batch table left (suc attempt)) attempt) d kept
          λ u _.
            retry-keeps (write_batch table left (suc attempt)) attempt u _ r
              (λ v d k. write_batch-keeps left (suc attempt) v d r k) kept

    -- A put that was taken counts as taken in the end, and so does one that came back.
    taken_or_back :
        (r : Fields) (u : List Fields) (d d' : D)
        → (Taken r d → Taken r d')
        → All (λ x. Taken x d') u
        → Taken r d ⊎ IsIn r u
        → Taken r d'
    taken_or_back r u d d' k a (inl h) = k h
    taken_or_back r u d d' k a (inr i) = All-IsIn (λ x. Taken x d') r u a i

    exhaust-ok :
        (u : List Fields) (d d' : D)
        → exhaust table u d ≡ (ok tt, d')
        → (d ≡ d') × All (λ x. Taken x d') u
    unfolding exhaust
    exhaust-ok [] d d' h = (ap (λ x. x.1) h, tt)
    exhaust-ok (x ∷ u) d d' h = absurd (ground arith)

    retry-ok :
        (again : List Fields → Exec D (Unit {0})) (attempt : ℕ) (u : List Fields) (d d' : D)
        → ((v : List Fields) (t : D) → again v t ≡ (ok tt, d') → All (λ x. Taken x d') v)
        → retry table again attempt u d ≡ (ok tt, d')
        → All (λ x. Taken x d') u
    unfolding retry
    retry-ok again attempt [] d d' k h = tt
    retry-ok again attempt (x ∷ u) d d' k h =
        let (_, t, _, h1) = bind-ok (table.pause attempt) (λ _. again (x ∷ u)) d h in k (x ∷ u) t h1

    pub write_batch-Taken :
        (left attempt : ℕ) (pending : List Fields) (d d' : D)
        → write_batch table left attempt pending d ≡ (ok tt, d')
        → All (λ x. Taken x d') pending
    unfolding write_batch
    write_batch-Taken zero attempt pending d d' h =
        let (u, d1, e, h1) = bind-ok (table.batch_write_item pending) (exhaust table) d h in
        let (same, rest) = exhaust-ok u d1 d' h1 in
        All-map (λ x. Taken x d1 ⊎ IsIn x u) (λ x. Taken x d') pending
          (λ x. taken_or_back x u d1 d' (subst (Taken x) same) rest)
          (law.processed pending u d d1 e)
    write_batch-Taken (suc left) attempt pending d d' h =
        let again = write_batch table left (suc attempt) in
        let (u, d1, e, h1) =
          bind-ok (table.batch_write_item pending) (retry table again attempt) d h in
        let rest =
          retry-ok again attempt u d1 d' (λ v t e. write_batch-Taken left (suc attempt) v t d' e)
            h1 in
        All-map (λ x. Taken x d1 ⊎ IsIn x u) (λ x. Taken x d') pending
          (λ x.
            taken_or_back x u d1 d'
              (λ k.
                subst (λ t. Taken x t.1) h1
                  (retry-keeps again attempt u d1 x
                    (λ v t k. write_batch-keeps left (suc attempt) v t x k) k))
              rest)
          (law.processed pending u d d1 e)
