-- ===== src/Executor/Snapshots/Target.antt =====
-- The target of an action is the only candidate in the snapshot.
use sams_simlplifynext.Prelude.{
  ◌≡◌, true, false, List, [], ◌∷◌, All, keep, keep-All, any-false, inl, inr, arith,
}
use mathlib.Core.Path.{subst}
use sams_simlplifynext.Errors.{Result-cases, ok, ok-injective}
use sams_simlplifynext.Runtime.{Runtime}
use sams_simlplifynext.Contracts.{Entitlement}
use sams_simlplifynext.Contracts.Provider.{EntitlementProvider}
use sams_simlplifynext.Plan.Builder.{Action}
use sams_simlplifynext.Executor.Snapshots.{
  is_candidate, only, find_target, is_target, verify_revoked,
}

pub only-eq_ok : (l : List Entitlement) {t : Entitlement} → only l ≡ ok t → l ≡ t ∷ []
unfolding only
only-eq_ok [] h = cc
only-eq_ok (e ∷ []) h = rw (ok-injective h)
only-eq_ok (e ∷ f ∷ l) h = cc

-- Nothing in a snapshot of the provider is the target.
abbrev pub IsAbsent : {P : Type 0} → EntitlementProvider P → Entitlement → P → Type 0
IsAbsent provider t p =
    (l : List Entitlement) × ((provider.snapshot p).0 ≡ ok l) × All (λ e. is_target t e ≡ false) l

-- A snapshot of the provider has exactly one candidate of the action.
abbrev pub IsOnlyCandidate :
    {P : Type 0} → EntitlementProvider P → Action → Entitlement → P → Type 0
IsOnlyCandidate provider action t p =
    (l : List Entitlement) × ((provider.snapshot p).0 ≡ ok l)
    × (keep (is_candidate action) l ≡ t ∷ [])

module _ {P : Type 0} (rt : Runtime) (provider : EntitlementProvider P) (action : Action) where
  -- The snapshot that `find_target` reads has one candidate, which it returns.
  pub find_target-only :
      (p : P) {t : Entitlement}
      → (find_target rt provider action p).0 ≡ ok t
      → IsOnlyCandidate provider action t p
  unfolding find_target
  find_target-only p h = elim (Result-cases (provider.snapshot p).0) [
    | inl (l, e) ↦ (l, e, only-eq_ok (keep (is_candidate action) l) (ground arith))
    | inr (x, e) ↦ absurd (ground arith)
  ]

  pub find_target-candidate :
      (p : P) {t : Entitlement}
      → (find_target rt provider action p).0 ≡ ok t
      → is_candidate action t ≡ true
  find_target-candidate p h =
      let (l, _, one) = find_target-only p h in
      (subst (All (λ e. is_candidate action e ≡ true)) one (keep-All (is_candidate action) l)).0

  pub verify_revoked-IsAbsent :
      (t : Entitlement) (p : P)
      → (verify_revoked rt provider t p).0 ≡ ok true
      → IsAbsent provider t p
  unfolding verify_revoked
  verify_revoked-IsAbsent t p h = elim (Result-cases (provider.snapshot p).0) [
    | inl (l, e) ↦ (l, e, any-false (is_target t) l (ground arith))
    | inr (x, e) ↦ absurd (ground arith)
  ]
