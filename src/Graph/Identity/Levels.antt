-- ===== src/Graph/Identity/Levels.antt =====
-- The resolution of an identity, level by level.
use mathlib.Core.List.{append-nil}
use sams_simlplifynext.Prelude.{
  ℕ, String, Bool, true, false, not, ◌&&◌, ◌==◌, leb, Option, none, some, List, [], ◌∷◌, ◌++◌, All,
  all, any, ◌≡◌, refl, sym, ap, ◌∙◌, arith, if◌then◌else◌,
}
use sams_simlplifynext.Prelude.Text.{str_eq, eq_refl}
use sams_simlplifynext.Prelude.Order.{sorted, insert, IsSorted}
use sams_simlplifynext.Runtime.{Runtime}
use sams_simlplifynext.Value.{Fields, find, get}
use sams_simlplifynext.Graph.Identity.{
  Strength, scim, saml, email, alias, rank, strength_text, IdentityLink, Workers, Candidate, tagged,
  worker_ids, by_identifier, by_email, known_worker, aliased, candidates, account_id_of,
  candidate_le, select, resolve_identity,
}

-- A level with matches decides: they are all one worker, or the account is ambiguous.
unfoldable pub decide : String → Strength → String → List String → IdentityLink
unfolding all
decide account_id strength worker_id others =
    if all (λ other. str_eq other worker_id) others
    then record {
      account_id = account_id;
      worker_id = some worker_id;
      strength = strength_text strength;
      quarantined = false;
    }
    else record {
      account_id = account_id;
      worker_id = none;
      strength = "ambiguous";
      quarantined = true;
    }

-- The first level that has matches decides, and an account with none is quarantined.
abbrev pub first_level : String → List (Strength × List String) → IdentityLink
first_level account_id [] = record {
  account_id = account_id;
  worker_id = none;
  strength = "quarantine";
  quarantined = true;
}
first_level account_id ((strength, []) ∷ levels) = first_level account_id levels
first_level account_id ((strength, worker_id ∷ others) ∷ levels) =
    decide account_id strength worker_id others

-- Each item is not above those after it.
insert_first :
    {A : Type 0} (le : A → A → Bool) (x : A) (l : List A)
    → All (λ y. le x y ≡ true) l
    → insert le x l ≡ x ∷ l
unfolding insert
insert_first le x [] h = refl
insert_first le x (y ∷ l) h = rw h.0 refl

sorted_id : {A : Type 0} (le : A → A → Bool) (l : List A) → IsSorted le l → sorted le l ≡ l
unfolding sorted
sorted_id le [] h = refl
sorted_id le (x ∷ l) h = ap (insert le x) (sorted_id le l h.1) ∙ insert_first le x l h.0

abbrev Level : Type 0
Level = Strength × List String

abbrev listed : List Level → List Candidate
listed [] = []
listed ((strength, ids) ∷ levels) = tagged strength ids ++ listed levels

-- Each level is stronger than those after it.
abbrev IsAbove : ℕ → List Level → Type 0
IsAbove r levels = All (λ level. leb (rank level.0) r ≡ false) levels

abbrev IsOrdered : List Level → Type 0
IsOrdered [] = Unit
IsOrdered (level ∷ levels) = IsAbove (rank level.0) levels × IsOrdered levels

-- Another worker of the same strength
abbrev differs : String → Strength → Candidate → Bool
differs worker_id strength c = not (str_eq c.0 worker_id) && rank c.1 == rank strength

any-tagged :
    (w : String) (s : Strength) (ids : List String) (rest : List Candidate)
    → any (differs w s) rest ≡ false
    → any (differs w s) (tagged s ids ++ rest) ≡ not (all (λ other. str_eq other w) ids)
unfolding any all
any-tagged w s [] rest h = h
any-tagged w s (i ∷ ids) rest h = ground (arith, any-tagged w s ids rest h)

any-above-tagged :
    (w : String) (s t : Strength) (ids : List String) (rest : List Candidate)
    → leb (rank t) (rank s) ≡ false
    → any (differs w s) rest ≡ false
    → any (differs w s) (tagged t ids ++ rest) ≡ false
unfolding any
any-above-tagged w s t [] rest h k = k
any-above-tagged w s t (i ∷ ids) rest h k = ground (arith, any-above-tagged w s t ids rest h k)

any-above :
    (w : String) (s : Strength) (levels : List Level)
    → IsAbove (rank s) levels
    → any (differs w s) (listed levels) ≡ false
unfolding any
any-above w s [] h = refl
any-above w s ((t, ids) ∷ levels) h =
    any-above-tagged w s t ids (listed levels) h.0 (any-above w s levels h.1)

select-listed :
    (account_id : String) (levels : List Level)
    → IsOrdered levels
    → select account_id (listed levels) ≡ first_level account_id levels
unfolding select decide
select-listed account_id [] h = refl
select-listed account_id ((s, []) ∷ levels) h = select-listed account_id levels h.1
select-listed account_id ((s, w ∷ ids) ∷ levels) h =
    rw (eq_refl w)
      (rw (any-tagged w s ids (listed levels) (any-above w s levels h.0)) (ground arith))

tagged_not_below :
    (r : ℕ) (t : Strength) (ids : List String) (rest : List Candidate)
    → leb r (rank t) ≡ true
    → All (λ c. leb r (rank c.1) ≡ true) rest
    → All (λ c. leb r (rank c.1) ≡ true) (tagged t ids ++ rest)
tagged_not_below r t [] rest h a = a
tagged_not_below r t (i ∷ ids) rest h a = (h, tagged_not_below r t ids rest h a)

listed_not_below :
    (r : ℕ) (levels : List Level)
    → IsAbove r levels
    → All (λ c. leb r (rank c.1) ≡ true) (listed levels)
listed_not_below r [] h = tt
listed_not_below r ((t, ids) ∷ levels) h =
    tagged_not_below r t ids (listed levels) (ground (arith, h.0)) (listed_not_below r levels h.1)

tagged-IsSorted :
    (t : Strength) (ids : List String) (rest : List Candidate)
    → All (λ c. leb (rank t) (rank c.1) ≡ true) rest
    → IsSorted candidate_le rest
    → IsSorted candidate_le (tagged t ids ++ rest)
tagged-IsSorted t [] rest a h = h
tagged-IsSorted t (i ∷ ids) rest a h =
    (tagged_not_below (rank t) t ids rest (ground arith) a, tagged-IsSorted t ids rest a h)

listed-IsSorted : (levels : List Level) → IsOrdered levels → IsSorted candidate_le (listed levels)
listed-IsSorted [] h = tt
listed-IsSorted ((t, ids) ∷ levels) h =
    tagged-IsSorted t ids (listed levels) (listed_not_below (rank t) levels h.0)
      (listed-IsSorted levels h.1)

module _ (rt : Runtime) (workers : Workers) (alias_map : Option (String → Option String)) where
  -- The matches of an account: by its SCIM identifier, its SAML name, its email and its alias.
  abbrev pub levels_of : Fields → List (Strength × List String)
  unfolding find worker_ids any
  levels_of account =
      (scim, by_identifier rt workers alias_map "scim_external_id" (get "scim_external_id" account))
      ∷ (saml, by_identifier rt workers alias_map "saml_name_id" (get "saml_name_id" account))
      ∷ (email, by_email rt workers alias_map (get "verified_email" account))
      ∷ (alias, known_worker rt workers alias_map (aliased alias_map (get "alias" account)))
      ∷ []

  levels_of-IsOrdered : (account : Fields) → IsOrdered (levels_of account)
  unfolding levels_of
  levels_of-IsOrdered account =
      ((refl, (refl, (refl, tt))), ((refl, (refl, tt)), ((refl, tt), (tt, tt))))

  candidates-listed :
      (account : Fields) → candidates rt workers alias_map account ≡ listed (levels_of account)
  unfolding candidates
  candidates-listed account = λ i.
      tagged scim
        (by_identifier rt workers alias_map "scim_external_id" (get "scim_external_id" account))
      ++ (tagged saml
            (by_identifier rt workers alias_map "saml_name_id" (get "saml_name_id" account))
          ++ (tagged email (by_email rt workers alias_map (get "verified_email" account))
              ++ sym
                  (append-nil (
                    tagged alias (
                      known_worker rt workers alias_map (aliased alias_map (get "alias" account)))))
                  i))

  -- The link of an account is the one that the first of the four kinds of identifier with
  -- matches decides, in the order SCIM, SAML, email, alias: the worker if all matches of this
  -- kind are the same worker, and none as ambiguous otherwise; an account with no match is
  -- quarantined with no worker.
  pub resolve_identity-first_level :
      (account : Fields)
      → resolve_identity rt workers alias_map account
        ≡ first_level (account_id_of rt workers alias_map account) (levels_of account)
  unfolding resolve_identity
  resolve_identity-first_level account =
      ap (select _) (
        ap (sorted candidate_le) (candidates-listed account)
        ∙ sorted_id candidate_le _
            (listed-IsSorted (levels_of account) (levels_of-IsOrdered account)))
      ∙ select-listed _ (levels_of account) (levels_of-IsOrdered account)
