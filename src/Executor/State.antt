-- ===== src/Executor/State.antt =====
-- What a run of the executor acts on: the provider, the lock table, the object store, the log of
-- steps, and the local variables of `Executor.execute` that its exception handler reads.
use sams_simlplifynext.Prelude.{ℕ, String, Bool, false, Option, none, List}
use sams_simlplifynext.Exec.{Exec}
use sams_simlplifynext.Value.{Fields}
use sams_simlplifynext.Contracts.{Entitlement, ActionResult}
use sams_simlplifynext.Contracts.Provider.{EntitlementProvider}
use sams_simlplifynext.Services.{Table, ObjectStore}

pub record Run (P D B : Type 0) : Type 0 where
  pub provider : P
  pub table : D
  pub store : B
  pub steps : List String
  pub target : Option Entitlement
  pub pre_image : Option Fields
  pub applied : Option ActionResult
  pub apply_started : Bool

-- The dependencies of `Executor.__init__`. `audit` is `AuditWriter.write`.
pub record Clients (P D B : Type 0) : Type 0 where
  pub provider : EntitlementProvider P
  pub table : Table D
  pub store : ObjectStore B
  pub audit : Fields → Exec B String
  pub preimage_bucket : String
  pub ttl_seconds : ℕ
  pub wait_micros : ℕ

module _ {P D B A : Type 0} where
  abbrev pub on_provider : Exec P A → Exec (Run P D B) A
  on_provider m s = let (r, p) = m s.provider in (r, record s { provider = p })

  abbrev pub on_table : Exec D A → Exec (Run P D B) A
  on_table m s = let (r, d) = m s.table in (r, record s { table = d })

  abbrev pub on_store : Exec B A → Exec (Run P D B) A
  on_store m s = let (r, b) = m s.store in (r, record s { store = b })

-- The state as `execute` finds it: its local variables are not set.
abbrev pub fresh : {P D B : Type 0} → Run P D B → Run P D B
fresh s = record s { target = none; pre_image = none; applied = none; apply_started = false }
