-- ===== src/Executor/Rollback/Verified.antt =====
-- A rollback that reports success has verified every restoration.
use sams_simlplifynext.Prelude.{
  String, Bool, true, Option, none, some, List, [], ◌∷◌, ◌≡◌, ◌≢◌, refl, Bool-cases, inl, inr,
  arith,
}
use sams_simlplifynext.Prelude.Text.{filled}
use sams_simlplifynext.Prelude.Int.{ℤ, pos, negsuc}
use sams_simlplifynext.Errors.{Result, Result-cases, ok, err}
use sams_simlplifynext.Exec.{Returns, Returns-bind, Returns-ok, Returns-map}
use sams_simlplifynext.Runtime.{Runtime}
use sams_simlplifynext.Value.{Fields}
use sams_simlplifynext.Contracts.{ActionResult}
use sams_simlplifynext.Executor.Idempotency.{StoredAction}
use sams_simlplifynext.Executor.State.{Run, Clients, on_provider}
use sams_simlplifynext.Executor.Snapshots.{verify_restored}
use sams_simlplifynext.Executor.Rollback.{
  preimage_of, Selection, all_actions, one_action, Gathered, get_action, get_actions, read_preimage,
  check_restored, conclude, restore_action, rollback_one, gather, rollback_all, summary,
  rollback_selected, rollback_found, rollback,
}

module _ {P D B : Type 0} (rt : Runtime) (c : Clients P D B)
    (readonly : (p : P) → (c.provider.snapshot p).1 ≡ p) where
  -- The provider holds the entitlement of a pre-image, exactly as it was stored.
  abbrev pub IsRestored : Fields → P → Type 0
  IsRestored pre_image p = verify_restored rt c.provider pre_image p ≡ (ok true, p)

  verify_restored-readonly :
      (pre_image : Fields) (p : P) → (verify_restored rt c.provider pre_image p).1 ≡ p
  unfolding verify_restored
  verify_restored-readonly pre_image p = ground (arith, readonly p)

  conclude-IsRestored :
      (a : StoredAction) (pre_image : Fields) (restored : ActionResult) (verified : Bool)
      (s : Run P D B)
      → (verified ≡ true → IsRestored pre_image s.provider)
      → Returns
          (λ x s'. x.0.succeeded ≡ true → IsRestored pre_image s'.provider)
          (conclude rt c a pre_image restored verified s)
  unfolding conclude
  conclude-IsRestored a pre_image restored verified s h = ground arith

  check_restored-IsRestored :
      (restored : ActionResult) (pre_image : Fields) (s : Run P D B)
      → Returns
          (λ verified s'. verified ≡ true → IsRestored pre_image s'.provider)
          (check_restored rt c restored pre_image s)
  unfolding check_restored
  check_restored-IsRestored restored pre_image s =
      ground (arith, verify_restored-readonly pre_image s.provider)

  restore_action-IsRestored :
      (a : StoredAction) (pre_image : Fields) (s : Run P D B)
      → Returns
          (λ x s'. x.0.succeeded ≡ true → IsRestored pre_image s'.provider)
          (restore_action rt c a pre_image s)
  unfolding restore_action
  restore_action-IsRestored a pre_image s =
      Returns-bind _ (on_provider (c.provider.restore pre_image)) _ s λ restored made.
        Returns-bind _ (check_restored rt c restored pre_image) (conclude rt c a pre_image restored)
          _
          λ verified checked. conclude-IsRestored a pre_image restored verified _ (
            Returns-ok (λ verified s'. verified ≡ true → IsRestored pre_image s'.provider)
              (check_restored rt c restored pre_image _)
              (check_restored-IsRestored restored pre_image _) checked)

  -- The body that is stored under the key of an action is read as the pre-image.
  abbrev pub IsStoredFor : StoredAction → B → Fields → Type 0
  IsStoredFor a b pre_image =
      (body : Option String) × ((c.store.get_object c.preimage_bucket a.pre_image_key b).0
        ≡ ok body)
      × (preimage_of rt body ≡ ok pre_image)

  -- The call for an action, and the state it leaves, when it is verified.
  abbrev pub IsVerified : StoredAction → Run P D B → Type 0
  IsVerified a s =
      (x : ActionResult × String) × ((rollback_one rt c a s).0 ≡ ok x)
      × (x.0.succeeded ≡ true)
      × (pre_image : Fields) × IsStoredFor a s.store pre_image
      × IsRestored pre_image (rollback_one rt c a s).1.provider

  read_preimage-IsStoredFor :
      (a : StoredAction) (s : Run P D B) {pre_image : Fields}
      → (read_preimage rt c a.pre_image_key s).0 ≡ ok pre_image
      → IsStoredFor a s.store pre_image
  unfolding read_preimage
  read_preimage-IsStoredFor a s h =
      elim (Result-cases (c.store.get_object c.preimage_bucket a.pre_image_key s.store).0) [
        | inl (body, e) ↦ (body, e, ground arith)
        | inr (x, e) ↦ absurd (ground arith)
      ]

  rollback_one-Returns :
      (a : StoredAction) (s : Run P D B)
      → Returns
          (λ x s'.
            x.0.succeeded ≡ true
            → (pre_image : Fields) × IsStoredFor a s.store pre_image
              × IsRestored pre_image s'.provider)
          (rollback_one rt c a s)
  unfolding rollback_one
  rollback_one-Returns a s = elim (Bool-cases (filled a.pre_image_key)) [
    | inl given ↦ rw given (
        Returns-bind _ (read_preimage rt c a.pre_image_key) (restore_action rt c a) s
          λ pre_image found.
            Returns-map _ _ (restore_action rt c a pre_image _)
              (λ x s' h done. (pre_image, read_preimage-IsStoredFor a s found, h done))
              (restore_action-IsRestored a pre_image _))
    | inr absent ↦ rw absent tt
  ]

  -- Every action is verified, each in the state that the ones before it left.
  abbrev pub AllVerified : List StoredAction → Run P D B → Type 0
  AllVerified [] s = Unit
  AllVerified (a ∷ l) s = IsVerified a s × AllVerified l (rollback_one rt c a s).1

  gather-lem :
      (a : StoredAction) (tried : Result (ActionResult × String)) (g : Gathered)
      → (gather rt c a tried g).failures ≡ []
      → (x : ActionResult × String) × (tried ≡ ok x) × (x.0.succeeded ≡ true) × (g.failures ≡ [])
  unfolding gather
  gather-lem a (err e) g h = cc
  gather-lem a (ok x) g h = (x, refl, ground arith, ground arith)

  rollback_all-AllVerified :
      (l : List StoredAction) (s : Run P D B)
      → (rollback_all rt c l s).0.failures ≡ []
      → AllVerified l s
  unfolding rollback_all
  rollback_all-AllVerified [] s h = tt
  rollback_all-AllVerified (a ∷ l) s h =
      let after = (rollback_one rt c a s).1 in
      let (x, tried, done, rest) =
        gather-lem a (rollback_one rt c a s).0 (rollback_all rt c l after).0 h in
      let (pre_image, stored, restored) =
        Returns-ok _ (rollback_one rt c a s) (rollback_one-Returns a s) tried done in
      ((x, tried, done, pre_image, stored, restored), rollback_all-AllVerified l after rest)

  summary-lem :
      (plan_id : String) (seq : Option ℤ) (actions : List StoredAction) (g : Gathered)
      → (summary rt c plan_id seq actions g).succeeded ≡ true
      → (actions ≢ []) × (g.failures ≡ [])
  unfolding summary
  summary-lem plan_id seq [] g h = cc
  summary-lem plan_id seq (a ∷ l) g h = (λ e. cc, ground arith)

  -- The actions that a selection stands for, and the state after they are read.
  abbrev pub IsSelected : String → Selection → List StoredAction → Run P D B → Run P D B → Type 0
  IsSelected plan_id all_actions actions s s' = get_actions rt c plan_id s ≡ (ok actions, s')
  IsSelected plan_id (one_action n) actions s s' =
      (a : StoredAction) × (actions ≡ a ∷ []) × (get_action rt c plan_id n s ≡ (ok (some a), s'))

  abbrev pub IsRolledBack : String → Selection → Run P D B → Type 0
  IsRolledBack plan_id selection s =
      (actions : List StoredAction) × (s' : Run P D B) × IsSelected plan_id selection actions s s'
      × (actions ≢ [])
      × AllVerified actions s'

  rollback_selected-AllVerified :
      (plan_id : String) (seq : Option ℤ) (actions : List StoredAction) (s : Run P D B)
      → Returns
          (λ r s'. r.succeeded ≡ true → (actions ≢ []) × AllVerified actions s)
          (rollback_selected rt c plan_id seq actions s)
  unfolding rollback_selected
  rollback_selected-AllVerified plan_id seq actions s h =
      let (some_, none_failed) =
        summary-lem plan_id seq actions (rollback_all rt c actions s).0 h in
      (some_, rollback_all-AllVerified actions s none_failed)

  pair-eq : {A : Type 0} (x : Result A × Run P D B) {a : A} → x.0 ≡ ok a → x ≡ (ok a, x.1)
  pair-eq (r, s) e = rw e refl

  rollback_found-IsRolledBack :
      (plan_id : String) (n : ℤ) (s s' : Run P D B) (found : Option StoredAction)
      → get_action rt c plan_id n s ≡ (ok found, s')
      → Returns
          (λ r s''. r.succeeded ≡ true → IsRolledBack plan_id (one_action n) s)
          (rollback_found rt c plan_id n found s')
  rollback_found-IsRolledBack plan_id n s s' none e = tt
  rollback_found-IsRolledBack plan_id n s s' (some a) e =
      Returns-map _ _ (rollback_selected rt c plan_id (some n) (a ∷ []) s')
        (λ r s'' h done.
          let (some_, verified) = h done in (a ∷ [], s', (a, refl, e), some_, verified))
        (rollback_selected-AllVerified plan_id (some n) (a ∷ []) s')

  -- If snapshots of the provider change nothing, then a `rollback` that returns a success has
  -- read at least one recorded action for its selection, and each of them, in its turn and in
  -- the state that the ones before left, was restored from the object stored under its key, with
  -- the provider then holding exactly that pre-image.
  pub rollback-IsRolledBack :
      (plan_id : String) (selection : Selection) (s : Run P D B)
      → Returns
          (λ r s'. r.succeeded ≡ true → IsRolledBack plan_id selection s)
          (rollback rt c plan_id selection s)
  unfolding rollback
  rollback-IsRolledBack plan_id all_actions s =
      Returns-bind _ (get_actions rt c plan_id) (rollback_selected rt c plan_id none) s
        λ actions found.
          Returns-map _ _ (rollback_selected rt c plan_id none actions _)
            (λ r s' h done.
              let (some_, verified) = h done in
              (actions, _, pair-eq (get_actions rt c plan_id s) found, some_, verified))
            (rollback_selected-AllVerified plan_id none actions _)
  rollback-IsRolledBack plan_id (one_action (pos n)) s =
      Returns-bind _ (get_action rt c plan_id (pos n)) (rollback_found rt c plan_id (pos n)) s
        λ found read.
          rollback_found-IsRolledBack plan_id (pos n) s _ found
            (pair-eq (get_action rt c plan_id (pos n) s) read)
  rollback-IsRolledBack plan_id (one_action (negsuc n)) s = tt
