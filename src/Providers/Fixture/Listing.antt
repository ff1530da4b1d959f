-- ===== src/Providers/Fixture/Listing.antt =====
-- The records of the provider in memory, and the list that a snapshot of it returns.
use mathlib.Core.Path.{subst}
use mathlib.Core.List.{Perm}
use sams_simlplifynext.Prelude.{
  String, Bool, true, All, Bool-cases, inl, inr, sym, Option-cases, refl, arith, List, [], ◌∷◌, ◌≡◌,
  ◌≢◌,
}
use sams_simlplifynext.Prelude.Order.{
  sorted, IsOrder, AreRanked, IsSorted-AreRanked, lex-by_text, by_text_lem, lex-IsOrder,
  by_text-IsOrder, sorted-perm, sorted-IsSorted,
}
use sams_simlplifynext.Errors.{Result, ok, err, untyped, err-injective, traverse}
use sams_simlplifynext.Runtime.{Runtime}
use sams_simlplifynext.Prelude.Text.{str_eq, text_le}
use sams_simlplifynext.Value.{Fields}
use sams_simlplifynext.Contracts.{Entitlement, scope_value}
use sams_simlplifynext.Providers.Fixture.Cast.{IsTyped, entitlement_of-ne}
use sams_simlplifynext.Providers.Fixture.RoundTrip.{same_key_eq}
use sams_simlplifynext.Providers.Fixture.{
  same_key, fixture_provider, Records, EntitlementKey, key_of, remove, store, stored, revoked,
  revoke_known, restore_known, lookup, revoke, restore, FixtureState, entitlement_of,
  entitlement_le, snapshot,
}

-- The order of a snapshot: by identity; of the same identity by resource, and of the same resource
-- by scope.
abbrev pub IsBefore : Entitlement → Entitlement → Type 0
IsBefore a b =
    (text_le a.identity_id b.identity_id ≡ true)
    × (a.identity_id ≡ b.identity_id
        → (text_le a.resource b.resource ≡ true)
          × (a.resource ≡ b.resource → text_le (scope_value a.scope) (scope_value b.scope) ≡ true))

entitlement_le-IsBefore : (a b : Entitlement) → entitlement_le a b ≡ true → IsBefore a b
unfolding entitlement_le
entitlement_le-IsBefore =
    lex-by_text (λ e. e.identity_id)
      (lex-by_text (λ e. e.resource) (by_text_lem (λ e. scope_value e.scope)))

entitlement_le-IsOrder : IsOrder entitlement_le
unfolding entitlement_le
entitlement_le-IsOrder = search (lex-IsOrder, by_text-IsOrder)

module _ (rt : Runtime) (system : String) where
  -- Each record reads as an entitlement of this system under its key.
  abbrev pub IsListed : EntitlementKey × Fields → Type 0
  IsListed x =
      (e : Entitlement) × (entitlement_of rt x.1 ≡ ok e)
      × (key_of e ≡ x.0)
      × (str_eq e.system system ≡ true)

  abbrev pub IsWellFormed : Records → Type 0
  IsWellFormed l = All IsListed l

  -- Each entitlement is the one that its record reads as.
  abbrev pub AreRead : Records → List Entitlement → Type 0
  AreRead [] [] = Unit
  AreRead ((k, r) ∷ l) (e ∷ es) = (entitlement_of rt r ≡ ok e) × AreRead l es
  AreRead _ _ = ⊥

  traverse-AreRead :
      (l : Records)
      → IsWellFormed l
      → (es : List Entitlement) × (traverse (λ r. entitlement_of rt r.1) l ≡ ok es) × AreRead l es
  unfolding traverse
  traverse-AreRead [] w = ([], refl, tt)
  traverse-AreRead ((k, r) ∷ l) ((e, read, _, _), w) =
      let (es, found, h) = traverse-AreRead l w in (e ∷ es, rw (read, found) refl, (read, h))

  -- If each record of the fixture provider reads as an entitlement of its system whose key is
  -- the record's key, then a snapshot returns, and its list is a permutation of what the records
  -- read as one by one, in which of any two entitlements the earlier one has no later identity,
  -- with the same identity no later resource, and with the same resource too no later scope,
  -- texts in the order of their encoding.
  pub snapshot_lem :
      (s : FixtureState)
      → IsWellFormed s.state
      → (out es : List Entitlement) × ((snapshot rt system s).0 ≡ ok out)
        × AreRead s.state es
        × Perm out es
        × AreRanked IsBefore out
  unfolding snapshot
  snapshot_lem s w =
      let (es, found, h) = traverse-AreRead s.state w in
      (
        sorted entitlement_le es,
        es,
        rw found refl,
        h,
        sorted-perm entitlement_le es,
        IsSorted-AreRanked entitlement_le IsBefore entitlement_le-IsBefore _
            (sorted-IsSorted entitlement_le entitlement_le-IsOrder es),
      )

  remove-IsWellFormed :
      (k : EntitlementKey) (l : Records) → IsWellFormed l → IsWellFormed (remove k l)
  unfolding remove
  remove-IsWellFormed k [] w = w
  remove-IsWellFormed k ((j, r) ∷ l) (h, w) = ground (arith, remove-IsWellFormed k l w)

  store-IsWellFormed :
      (k : EntitlementKey) (r : Fields) (l : Records)
      → IsListed (k, r)
      → IsWellFormed l
      → IsWellFormed (store k r l)
  unfolding store
  store-IsWellFormed k r [] new w = (new, tt)
  store-IsWellFormed k r ((j, q) ∷ l) new (h, w) = elim (Bool-cases (same_key j k)) [
    | inl e ↦ rw e (subst (λ i. IsListed (i, r)) (sym (same_key_eq j k e)) new, w)
    | inr e ↦ rw e (h, store-IsWellFormed k r l new w)
  ]

  revoke-IsWellFormed :
      (e : Entitlement) (dry_run : Bool) (s : FixtureState)
      → IsWellFormed s.state
      → IsWellFormed (revoke rt system e dry_run s).1.state
  unfolding revoke revoke_known revoked
  revoke-IsWellFormed e dry_run s w = elim (Option-cases (lookup (key_of e) s.pre_images)) [
    | inl unknown ↦ ground arith
    | inr (r, known) ↦ ground (arith, remove-IsWellFormed (key_of e) s.state w)
  ]

  restore_known-IsWellFormed :
      (r : Fields) (x : Result Entitlement) (s : FixtureState)
      → entitlement_of rt r ≡ x
      → IsWellFormed s.state
      → IsWellFormed (restore_known rt system r x s).1.state
  unfolding restore_known stored
  restore_known-IsWellFormed r (err e) s h w = w
  restore_known-IsWellFormed r (ok e) s h w = elim (Bool-cases (str_eq e.system system)) [
    | inl b ↦ rw b (store-IsWellFormed (key_of e) r s.state (e, h, refl, b) w)
    | inr b ↦ rw b w
  ]

  restore_known-ne :
      (r : Fields) (x : Result Entitlement) (s : FixtureState)
      → x ≢ err untyped
      → (restore_known rt system r x s).0 ≢ err untyped
  unfolding restore_known
  restore_known-ne r (err e) s h k = h (rw (err-injective k) refl)
  restore_known-ne r (ok e) s h k = ground arith

  -- If each record of the fixture provider reads as an entitlement of its system whose key is
  -- the record's key, and those fields of a given pre-image that the code casts have the types
  -- of the casts where they are there, then this still holds after any revocation and after
  -- restoring the pre-image, whether the call succeeds or raises, and reading the pre-image
  -- needs no field of another type, if `fromisoformat` returns or raises an exception of Python.
  pub fixture_provider-IsWellFormed :
      (s : FixtureState) (e : Entitlement) (dry_run : Bool) (r : Fields)
      → IsWellFormed s.state
      → IsTyped rt r
      → ((t : String) → rt.from_iso t ≢ err untyped)
      → IsWellFormed ((fixture_provider rt system).revoke e dry_run s).1.state
        × (((fixture_provider rt system).restore r s).0 ≢ err untyped)
        × IsWellFormed ((fixture_provider rt system).restore r s).1.state
  unfolding fixture_provider restore
  fixture_provider-IsWellFormed s e dry_run r w typed iso = (
    revoke-IsWellFormed e dry_run s w,
    restore_known-ne r (entitlement_of rt r) s (entitlement_of-ne rt r typed iso),
    restore_known-IsWellFormed r (entitlement_of rt r) s refl w,
  )
