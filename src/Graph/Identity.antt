-- ===== src/Graph/Identity.antt =====
-- The worker behind an account (backend/src/deadbolt/graph/identity.py). A dictionary of workers is
-- a list in the order of insertion.
pub mod Levels
use sams_simlplifynext.Prelude.{
  ℕ, String, Bool, true, false, not, ◌&&◌, leb, ◌==◌, Option, none, some, List, [], ◌∷◌, ◌++◌, any,
  keep, map, or_else, if◌then◌else◌,
}
use sams_simlplifynext.Prelude.Text.{str_eq}
use sams_simlplifynext.Prelude.Order.{sorted}
use sams_simlplifynext.Runtime.{Runtime}
use sams_simlplifynext.Value.{Value, Fields, text, find, get}

pub data Strength : Type 0 where
  scim saml email alias : Strength

-- The dictionary `ordered`
abbrev pub rank : Strength → ℕ
rank scim = 0
rank saml = 1
rank email = 2
rank alias = 3

abbrev pub strength_text : Strength → String
strength_text scim = "scim"
strength_text saml = "saml"
strength_text email = "email"
strength_text alias = "alias"

pub record IdentityLink : Type 0 where
  pub account_id : String
  pub worker_id : Option String
  pub strength : String
  pub quarantined : Bool

abbrev pub Workers : Type 0
Workers = List (String × Fields)

abbrev pub Candidate : Type 0
Candidate = String × Strength

-- `str(value)`
abbrev pub value_text : Runtime → Value → String
value_text rt (text s) = s
value_text rt v = rt.repr v

-- `worker.get(key) == expected`
abbrev pub is_identifier : String → Option Value → Bool
is_identifier expected (some (text s)) = str_eq s expected
is_identifier expected _ = false

-- `isinstance(e, str) and e.strip().lower() == expected`
abbrev pub is_email : Runtime → String → Option Value → Bool
is_email rt expected (some (text s)) = str_eq (rt.lower (rt.strip s)) expected
is_email rt expected _ = false

abbrev pub tagged : Strength → List String → List Candidate
tagged strength ids = map (λ worker_id. (worker_id, strength)) ids

unfoldable pub worker_ids : (Fields → Bool) → Workers → List String
unfolding keep
worker_ids test workers = map (λ w. w.0) (keep (λ w. test w.1) workers)

abbrev pub candidate_le : Candidate → Candidate → Bool
candidate_le a b = leb (rank a.1) (rank b.1)

-- What follows on the sorted candidates.
unfoldable pub select : String → List Candidate → IdentityLink
unfolding any
select account_id [] = record {
  account_id = account_id;
  worker_id = none;
  strength = "quarantine";
  quarantined = true;
}
select account_id (strongest ∷ rest) =
    if any (λ c. not (str_eq c.0 strongest.0) && rank c.1 == rank strongest.1) (strongest ∷ rest)
    then record {
      account_id = account_id;
      worker_id = none;
      strength = "ambiguous";
      quarantined = true;
    }
    else record {
      account_id = account_id;
      worker_id = some strongest.0;
      strength = strength_text strongest.1;
      quarantined = false;
    }

-- The entry of the alias map for the alias of the account
abbrev pub aliased : Option (String → Option String) → Option Value → Option String
aliased (some aliases) (some (text s)) = aliases s
aliased _ _ = none

module _ (rt : Runtime) (workers : Workers) (alias_map : Option (String → Option String)) where
  -- The workers with the identifier `key` of the account.
  abbrev pub by_identifier : String → Option Value → List String
  unfolding worker_ids find
  by_identifier key (some (text s)) = worker_ids (λ m. is_identifier s (get key m)) workers
  by_identifier key _ = []

  abbrev pub by_email : Option Value → List String
  unfolding worker_ids find
  by_email (some (text s)) =
      let normalized = rt.lower (rt.strip s) in
      worker_ids (λ m. is_email rt normalized (get "primary_work_email" m)) workers
  by_email _ = []

  -- The entry of the alias map, if it is a worker.
  abbrev pub known_worker : Option String → List String
  unfolding any
  known_worker none = []
  known_worker (some worker_id) =
      if any (λ w. str_eq w.0 worker_id) workers then worker_id ∷ [] else []

  unfoldable pub candidates : Fields → List Candidate
  unfolding worker_ids find any
  candidates account =
      tagged scim (by_identifier "scim_external_id" (get "scim_external_id" account))
      ++ (tagged saml (by_identifier "saml_name_id" (get "saml_name_id" account))
          ++ (tagged email (by_email (get "verified_email" account))
              ++ tagged alias (known_worker (aliased alias_map (get "alias" account)))))

  abbrev pub account_id_of : Fields → String
  unfolding find
  account_id_of account =
      value_text rt (or_else (get "account_id" account) (or_else (get "login" account) (text "")))

  unfoldable pub resolve_identity : Fields → IdentityLink
  unfolding candidates select sorted find
  resolve_identity account =
      select (account_id_of account) (sorted candidate_le (candidates account))
