-- ===== src/Contracts/Provider.antt =====
-- The connector contract (backend/src/deadbolt/contracts/provider.py): three calls on the state of
-- an external system. Each may raise, and may leave the state changed even then.
use sams_simlplifynext.Prelude.{Bool, String, List}
use sams_simlplifynext.Exec.{Exec}
use sams_simlplifynext.Value.{Fields}
use sams_simlplifynext.Contracts.{Entitlement, ActionResult}

pub record EntitlementProvider (P : Type 0) : Type 0 where
  pub system : String
  pub snapshot : Exec P (List Entitlement)
  pub revoke : Entitlement → Bool → Exec P ActionResult
  pub restore : Fields → Exec P ActionResult
