-- ===== src/Contracts.antt =====
-- The data objects shared by every layer (backend/src/deadbolt/contracts/models.py).
pub mod Provider
use sams_simlplifynext.Prelude.{
  ℕ, String, Bool, true, false, not, ◌||◌, Option, none, some, List, if◌then◌else◌,
}
use sams_simlplifynext.Prelude.Int.{ℤ}
use sams_simlplifynext.Errors.{Result, ok, err, value_error, ◌>>=◌, ◌>>◌, require}
use sams_simlplifynext.Value.{Datetime, Fields}

pub data CredentialType : Type 0 where
  federated pat oauth api_key : CredentialType

pub data Scope : Type 0 where
  read write admin billing secrets iam : Scope

pub data Tier : Type 0 where
  T0 T1 T2 T3 : Tier

-- The `value` of a member of a `StrEnum`.
abbrev pub credential_value : CredentialType → String
credential_value federated = "federated"
credential_value pat = "pat"
credential_value oauth = "oauth"
credential_value api_key = "api-key"

abbrev pub scope_value : Scope → String
scope_value read = "read"
scope_value write = "write"
scope_value admin = "admin"
scope_value billing = "billing"
scope_value secrets = "secrets"
scope_value iam = "iam"

abbrev pub tier_value : Tier → String
tier_value T0 = "T0"
tier_value T1 = "T1"
tier_value T2 = "T2"
tier_value T3 = "T3"

pub record Entitlement : Type 0 where
  pub identity_id : String
  pub system : String
  pub resource : String
  pub scope : Scope
  pub granted_at : Option Datetime
  pub last_used_at : Option Datetime
  pub credential_type : CredentialType
  pub revocable : Bool
  pub raw : Fields

pub record ActionResult : Type 0 where
  pub succeeded : Bool  -- `ok`
  pub system : String
  pub resource : String
  pub scope : String
  pub dry_run : Bool
  pub pre_image : Option Fields
  pub message : String
  pub provider_latency_ms : ℤ

-- A missing value passes; a naive datetime raises.
unfoldable pub require_aware : Option Datetime → Result (Unit {0})
require_aware none = ok tt
require_aware (some t) = require t.aware value_error

-- `Entitlement.__post_init__`: the copy of `raw` is the same value.
unfoldable pub make_entitlement : Entitlement → Result Entitlement
unfolding require_aware
make_entitlement e = do require_aware e.granted_at; require_aware e.last_used_at; ok e
