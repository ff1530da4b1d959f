-- ===== src/Engine/Drift/Ranking.antt =====
-- The list that `detect` returns: one finding for each entitlement, in the order of the sort key.
use mathlib.Core.List.{Perm}
use sams_simlplifynext.Prelude.{ℕ, Bool, All, ◌≡◌, refl, true, List, [], ◌∷◌, arith}
use sams_simlplifynext.Prelude.Int.{pos, ◌≤ℤ◌}
use sams_simlplifynext.Prelude.Text.{text_le}
use sams_simlplifynext.Prelude.Order.{
  IsOrder, AreRanked, IsSorted-AreRanked, lex-by_text, by_text_lem, lex, lex-IsOrder,
  by_text-IsOrder, sorted-perm, sorted-IsSorted,
}
use sams_simlplifynext.Errors.{ok, is_ok, ok-of_is_ok, bind-ok, ok-injective}
use sams_simlplifynext.Runtime.{Runtime}
use sams_simlplifynext.Value.{Datetime, Value, Fields}
use sams_simlplifynext.Contracts.{Entitlement, scope_value}
use sams_simlplifynext.Engine.Scoring.{read_weights}
use sams_simlplifynext.Engine.Drift.Findings.{IsAware, make_finding_total}
use sams_simlplifynext.Engine.Drift.{
  Finding, identity_for, make_finding, score_ge, finding_le, find_all, detect,
}

score_ge-IsOrder : IsOrder score_ge
score_ge-IsOrder = record { total = λ a b h. ground arith; trans = λ a b c h k. ground arith }

-- The order of the findings: a higher score first; of the same score by system, of the same system
-- by resource, of the same resource by scope, and of the same scope by identity.
abbrev pub IsBefore : Finding → Finding → Type 0
IsBefore f g =
    (g.score ≤ℤ f.score)
    × (f.score ≡ g.score
        → (text_le f.entitlement.system g.entitlement.system ≡ true)
          × (f.entitlement.system ≡ g.entitlement.system
              → (text_le f.entitlement.resource g.entitlement.resource ≡ true)
                × (f.entitlement.resource ≡ g.entitlement.resource
                    → (text_le (scope_value f.entitlement.scope) (scope_value g.entitlement.scope)
                        ≡ true)
                      × (scope_value f.entitlement.scope ≡ scope_value g.entitlement.scope
                          → text_le f.entitlement.identity_id g.entitlement.identity_id ≡ true))))

lex-score_ge :
    {rest : Finding → Finding → Bool} {R : Finding → Finding → Type 0}
    → ((f g : Finding) → rest f g ≡ true → R f g)
    → (f g : Finding) → lex score_ge rest f g ≡ true
    → (g.score ≤ℤ f.score) × (f.score ≡ g.score → R f g)
unfolding lex
lex-score_ge next f g h = (ground arith, λ same. next f g (ground arith))

finding_le-IsBefore : (f g : Finding) → finding_le f g ≡ true → IsBefore f g
unfolding finding_le
finding_le-IsBefore = lex-score_ge (
    lex-by_text (λ f. f.entitlement.system)
      (lex-by_text (λ f. f.entitlement.resource)
        (lex-by_text (λ f. scope_value f.entitlement.scope)
          (by_text_lem (λ f. f.entitlement.identity_id)))))

finding_le-IsOrder : IsOrder finding_le
unfolding finding_le
finding_le-IsOrder = search (lex-IsOrder, by_text-IsOrder, score_ge-IsOrder)

module _ (rt : Runtime) (identities templates reachability : Value) (now : Datetime)
    (weights : Fields) where
  -- A finding is the one that its entitlement gets by itself.
  abbrev pub IsFindingOf : Entitlement → Finding → Type 0
  IsFindingOf e f =
      make_finding rt e (identity_for rt identities e.identity_id) templates reachability now
        weights
      ≡ ok f

  abbrev pub AreFindings : List Entitlement → List Finding → Type 0
  AreFindings [] [] = Unit
  AreFindings (e ∷ es) (f ∷ fs) = IsFindingOf e f × AreFindings es fs
  AreFindings _ _ = ⊥

  find_all-AreFindings :
      (es : List Entitlement) {fs : List Finding}
      → find_all rt identities templates reachability now weights es ≡ ok fs
      → AreFindings es fs
  unfolding find_all
  find_all-AreFindings [] h = rw (← ok-injective h) tt
  find_all-AreFindings (e ∷ es) h =
      let (f, made, h') = bind-ok (make_finding rt e _ _ _ _ _) _ h in
      let (fs, found, h'') = bind-ok (find_all _ _ _ _ _ _ es) _ h' in
      rw (← ok-injective h'') (made, find_all-AreFindings es found)

  find_all_total :
      (es : List Entitlement) (ws wd wm wb : ℕ)
      → All (λ e. IsAware e.last_used_at) es
      → now.aware ≡ true
      → read_weights rt weights ≡ ok (pos ws, pos wd, pos wm, pos wb)
      → is_ok (find_all rt identities templates reachability now weights es) ≡ true
  unfolding find_all
  find_all_total [] ws wd wm wb a h w = refl
  find_all_total (e ∷ es) ws wd wm wb a h w =
      let identity = identity_for rt identities e.identity_id in
      let made =
        make_finding_total rt e identity templates reachability now weights ws wd wm wb a.0 h w in
      let (f, found) = ok-of_is_ok (make_finding rt e identity _ _ _ _) made in
      let (fs, rest) =
        ok-of_is_ok (find_all _ _ _ _ _ _ es) (find_all_total es ws wd wm wb a.1 h w) in
      rw (found, rest)

  -- The list that `detect` returns is a permutation of the findings that the entitlements get
  -- one by one, and of any two findings in it the earlier one has no lower score, with the same
  -- score no later system, with the same system too no later resource, with the same resource
  -- too no later scope, and with the same scope too no later identity, texts in the order of
  -- their encoding.
  pub detect_lem :
      (es : List Entitlement) {out : List Finding}
      → detect rt identities templates reachability now weights es ≡ ok out
      → (fs : List Finding) × AreFindings es fs × Perm out fs × AreRanked IsBefore out
  unfolding detect
  detect_lem es h =
      let (fs, found, h') = bind-ok (find_all _ _ _ _ _ _ es) _ h in
      rw (← ok-injective h') (
        fs,
        find_all-AreFindings es found,
        sorted-perm finding_le fs,
        IsSorted-AreRanked finding_le IsBefore finding_le-IsBefore _
            (sorted-IsSorted finding_le finding_le-IsOrder fs),
      )

  -- With weights that are natural numbers with the sum 100, an evaluation time with a zone, and
  -- a last use with a zone or none in every entitlement, `detect` returns a list of findings,
  -- whatever the identities, templates and reachability are.
  pub detect_total :
      (es : List Entitlement) (ws wd wm wb : ℕ)
      → All (λ e. IsAware e.last_used_at) es
      → now.aware ≡ true
      → read_weights rt weights ≡ ok (pos ws, pos wd, pos wm, pos wb)
      → is_ok (detect rt identities templates reachability now weights es) ≡ true
  unfolding detect
  detect_total es ws wd wm wb a h w =
      let (fs, found) =
        ok-of_is_ok (find_all _ _ _ _ _ _ es) (find_all_total es ws wd wm wb a h w) in
      rw found
