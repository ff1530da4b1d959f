-- ===== src/Providers/Fixture/RoundTrip.antt =====
-- A revocation that is undone leaves the provider as it was.
use sams_simlplifynext.Prelude.{
  ℕ, suc, String, true, false, none, some, [], ◌∷◌, ◌≡◌, refl, sym, ap, Bool-cases, Option-cases,
  ◌∙◌, inl, inr, arith,
}
use mathlib.Core.Path.{subst}
use sams_simlplifynext.Prelude.Text.{str_eq, eq_iff, eq_refl}
use sams_simlplifynext.Errors.{ok}
use sams_simlplifynext.Runtime.{Runtime}
use sams_simlplifynext.Value.{Fields}
use sams_simlplifynext.Contracts.{Entitlement}
use sams_simlplifynext.Plan.Builder.{Plan, Action}
use sams_simlplifynext.Executor.State.{Clients}
use sams_simlplifynext.Executor.Execute.Whole.{IsReadOnly}
use sams_simlplifynext.Providers.Fixture.{
  EntitlementKey, same_key, Records, lookup, store, remove, FixtureState, key_of, entitlement_of,
  snapshot, revoked, revoke_known, revoke, restore_known, restore, fixture_provider, result_of,
  stored,
}

same_key_refl : (k : EntitlementKey) → same_key k k ≡ true
same_key_refl k = ground (arith, eq_refl k.identity_id, eq_refl k.resource, eq_refl k.scope)

pub same_key_eq : (j k : EntitlementKey) → same_key j k ≡ true → j ≡ k
same_key_eq j k h =
    let e0 = (eq_iff j.identity_id k.identity_id).0 (ground arith) in
    let e1 = (eq_iff j.resource k.resource).0 (ground arith) in
    let e2 = (eq_iff j.scope k.scope).0 (ground arith) in
    λ i. record { identity_id = e0 i; resource = e1 i; scope = e2 i }

lookup-store : (k : EntitlementKey) (r : Fields) (l : Records) → lookup k (store k r l) ≡ some r
unfolding lookup store
lookup-store k r [] = ground (arith, same_key_refl k)
lookup-store k r ((j, q) ∷ l) = ground (arith, lookup-store k r l, same_key_refl k)

lookup-remove : (k : EntitlementKey) (l : Records) → lookup k (remove k l) ≡ none
unfolding lookup remove
lookup-remove k [] = refl
lookup-remove k ((j, q) ∷ l) = ground (arith, lookup-remove k l)

lookup-store-other :
    (k i : EntitlementKey) (r : Fields) (l : Records)
    → same_key k i ≡ false
    → lookup i (store k r l) ≡ lookup i l
unfolding lookup store
lookup-store-other k i r [] h = ground arith
lookup-store-other k i r ((j, q) ∷ l) h = elim (Bool-cases (same_key j k)) [
  | inl e ↦ ground (arith, lookup-store-other k i r l h, ap (λ x. same_key x i) (same_key_eq j k e))
  | inr e ↦ ground (arith, lookup-store-other k i r l h)
]

lookup-remove-other :
    (k i : EntitlementKey) (l : Records) → same_key k i ≡ false → lookup i (remove k l) ≡ lookup i l
unfolding lookup remove
lookup-remove-other k i [] h = refl
lookup-remove-other k i ((j, q) ∷ l) h = elim (Bool-cases (same_key j k)) [
  | inl e ↦ ground (arith, lookup-remove-other k i l h, ap (λ x. same_key x i) (same_key_eq j k e))
  | inr e ↦ ground (arith, lookup-remove-other k i l h)
]

module _ (rt : Runtime) (system : String) where
  dry_run_unchanged : (e : Entitlement) (s : FixtureState) → (revoke rt system e true s).1 ≡ s
  unfolding revoke revoke_known revoked
  dry_run_unchanged e s = elim (Option-cases (lookup (key_of e) s.pre_images)) [
    | inl unknown ↦ ground arith
    | inr (r, known) ↦ ground arith
  ]

  -- An executor whose provider is the fixture provider has a provider that snapshots and dry
  -- runs leave unchanged.
  pub fixture_provider-IsReadOnly :
      {D B : Type 0} (c : Clients FixtureState D B) (fuel : ℕ) (plan : Plan) (action : Action)
      → c.provider ≡ fixture_provider rt system
      → IsReadOnly rt c fuel plan action
  unfolding fixture_provider snapshot
  fixture_provider-IsReadOnly c fuel plan action h = record {
    snapshot = subst (λ f. (s : FixtureState) → (f.snapshot s).1 ≡ s) (sym h) (λ s. refl);
    dry_run =
        subst (λ f. (t : Entitlement) (s : FixtureState) → (f.revoke t true s).1 ≡ s) (sym h)
          dry_run_unchanged;
  }

  -- After the revocation of an entitlement and the restoration of its pre-image: what the two calls
  -- reported, and the records between them and after them.
  pub record IsUndone (e : Entitlement) (pre_image : Fields) (s after back : FixtureState)
      : Type 0 where
    pub revoke_result :
        (revoke rt system e false s).0
        ≡ ok (result_of system true e false pre_image "entitlement revoked")
    pub restore_result :
        (restore rt system pre_image after).0
        ≡ ok (result_of system true e false pre_image "entitlement restored")
    pub gone : lookup (key_of e) after.state ≡ none
    pub others :
        (k : EntitlementKey)
        → same_key (key_of e) k ≡ false
        → lookup k after.state ≡ lookup k s.state
    pub returned : (k : EntitlementKey) → lookup k back.state ≡ lookup k s.state
    pub pre_images : (k : EntitlementKey) → lookup k back.pre_images ≡ lookup k s.pre_images
    pub mutations : back.mutation_count ≡ suc (suc s.mutation_count)

  lookup-restore :
      (k i : EntitlementKey) (r : Fields) (l m : Records)
      → lookup k l ≡ some r
      → ((j : EntitlementKey) → same_key k j ≡ false → lookup j m ≡ lookup j l)
      → lookup i (store k r m) ≡ lookup i l
  lookup-restore k i r l m h o = elim (Bool-cases (same_key k i)) [
    | inl e ↦
        let stored_again = lookup-store k r m in
        subst (λ j. lookup j (store k r m) ≡ lookup j l) (same_key_eq k i e) cc
    | inr e ↦ lookup-store-other k i r m e ∙ o i e
  ]

  -- The state that a revocation of a present entitlement leaves.
  abbrev after : Entitlement → FixtureState → FixtureState
  unfolding remove
  after e s = record s { state = remove (key_of e) s.state; mutation_count = suc s.mutation_count }

  revoke-known :
      (e : Entitlement) (r : Fields) (s : FixtureState)
      → str_eq e.system system ≡ true
      → e.revocable ≡ true
      → lookup (key_of e) s.state ≡ some r
      → lookup (key_of e) s.pre_images ≡ some r
      → revoke rt system e false s
        ≡ (ok (result_of system true e false r "entitlement revoked"), after e s)
  unfolding revoke revoke_known revoked
  revoke-known e r s h v p q = ground arith

  restore-known :
      (e : Entitlement) (r : Fields) (s : FixtureState)
      → str_eq e.system system ≡ true
      → entitlement_of rt r ≡ ok e
      → restore rt system r s ≡ (
        ok (result_of system true e false r "entitlement restored"),
        stored rt system (key_of e) r s,
      )
  unfolding restore restore_known
  restore-known e r s h v = ap (λ x. restore_known rt system r x s) v ∙ ground arith

  -- If a revocable entitlement of this system is held and known under its key by a record that
  -- reads as this entitlement, then revoking it succeeds and reports this record as the pre-
  -- image, the entitlement is gone and every record under another key is as before, and
  -- restoring the pre-image then succeeds and gives every key the record and the pre-image that
  -- it had before; two changes have been counted.
  pub revoke-restore :
      (e : Entitlement) (r : Fields) (s : FixtureState)
      → str_eq e.system system ≡ true
      → e.revocable ≡ true
      → entitlement_of rt r ≡ ok e
      → lookup (key_of e) s.state ≡ some r
      → lookup (key_of e) s.pre_images ≡ some r
      → IsUndone e r s
          (revoke rt system e false s).1
          (restore rt system r (revoke rt system e false s).1).1
  unfolding after remove stored store
  revoke-restore e r s h v known held pre =
      subst (λ x. IsUndone e r s x.1 (restore rt system r x.1).1)
        (sym (revoke-known e r s h v held pre))
        (subst (λ x. IsUndone e r s (after e s) x.1) (sym (restore-known e r (after e s) h known))
          (record {
            revoke_result = ap (λ x. x.0) (revoke-known e r s h v held pre);
            restore_result = ap (λ x. x.0) (restore-known e r (after e s) h known);
            gone = lookup-remove (key_of e) s.state;
            others = λ k n. lookup-remove-other (key_of e) k s.state n;
            returned = λ k.
                lookup-restore (key_of e) k r s.state (remove (key_of e) s.state) held
                  (λ j n. lookup-remove-other (key_of e) j s.state n);
            pre_images =
                λ k. lookup-restore (key_of e) k r s.pre_images s.pre_images pre (λ j n. refl);
            mutations = refl;
          }))
