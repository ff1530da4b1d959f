-- ===== src/Plan/Builder/Reduction.antt =====
-- Plans never widen access: what the constructor of an action lets through, and what `build` makes.
use sams_simlplifynext.Prelude.{
  ℕ, suc, ◌≤◌, ◌<◌, String, ◌≡◌, refl, ap, ◌∙◌, ◌⊎◌, inl, inr, true, false, none, some, List, [],
  ◌∷◌, All, arith,
}
use sams_simlplifynext.Prelude.Text.{eq_iff}
use sams_simlplifynext.Prelude.Int.{ℤ, pos}
use sams_simlplifynext.Prelude.Order.{sorted}
use sams_simlplifynext.Errors.{Result-cases, ok, bind-ok, ok-injective, traverse, traverse-All}
use sams_simlplifynext.Runtime.{Runtime}
use sams_simlplifynext.Value.{Datetime}
use sams_simlplifynext.Contracts.{Scope, Tier, scope_value, tier_value}
use sams_simlplifynext.Engine.Drift.{Finding}
use sams_simlplifynext.Plan.Canonical.{preimage_key, plan_hash, iso_second}
use sams_simlplifynext.Plan.Builder.{
  severity, Action, is_score, make_action, Plan, is_skipped, reduction, proposed_action, action_for,
  propose, action_le, enumerate, with_key, build, plan_body,
}

-- An access reduction: the scope that is left is no more severe than the one held, a revocation
-- leaves none, and a downgrade leaves less.
pub record IsReduction (a : Action) : Type 0 where
  pub seq_natural : (n : ℕ) × (a.seq ≡ pos n)
  pub score_range : (n : ℕ) × (a.score ≡ pos n) × (n ≤ 10000)
  pub known_verb : (a.verb ≡ "revoke") ⊎ (a.verb ≡ "downgrade")
  pub held : a.scope ≡ a.from_scope
  pub narrows :
      (f : ℕ) × (t : ℕ) × (severity a.from_scope ≡ ok f)
      × (severity a.to_scope ≡ ok t)
      × (t ≤ f)
      × (a.verb ≡ "downgrade" → t < f)
  pub revokes : a.verb ≡ "revoke" → a.to_scope ≡ "none"

module _ (a b : Action) (h : make_action a ≡ ok b) where
  severities : (f : ℕ) × (t : ℕ) × (severity a.from_scope ≡ ok f) × (severity a.to_scope ≡ ok t)
  unfolding make_action
  severities = elim (Result-cases (severity a.from_scope)) [
    | inl (f, ef) ↦ elim (Result-cases (severity a.to_scope)) [
      | inl (t, et) ↦ (f, t, ef, et)
      | inr (e, et) ↦ absurd (ground arith)
    ]
    | inr (e, ef) ↦ absurd (ground arith)
  ]

  seq-natural : (n : ℕ) × (a.seq ≡ pos n)
  unfolding make_action
  seq-natural = ground arith

  score-in_range : (n : ℕ) × (a.score ≡ pos n) × (n ≤ 10000)
  unfolding make_action
  score-in_range = ground arith

  make_action_tests :
      (b ≡ a)
      × ((a.verb ≡ "revoke") ⊎ (a.verb ≡ "downgrade"))
      × (a.scope ≡ a.from_scope)
      × (a.verb ≡ "revoke" → a.to_scope ≡ "none")
  unfolding make_action
  make_action_tests =
      let (f, t, ef, et) = severities in
      ground (
        arith,
        eq_iff a.verb "revoke",
        eq_iff a.verb "downgrade",
        eq_iff a.scope a.from_scope,
        eq_iff a.to_scope "none",
      )

  make_action_narrows :
      (f t : ℕ)
      → severity a.from_scope ≡ ok f
      → severity a.to_scope ≡ ok t
      → (t ≤ f) × (a.verb ≡ "downgrade" → t < f)
  unfolding make_action
  make_action_narrows f t ef et = ground (arith, eq_iff a.verb "downgrade", eq_iff a.verb "revoke")

  -- The constructor of an action returns it unchanged, and only if it is an access reduction: a
  -- natural number, a score from 0 to 10000, the verb `revoke` or `downgrade`, the held scope as
  -- its source, a target scope of no higher severity, a lower one for a downgrade, and no scope
  -- left after a revocation.
  pub make_action_lem : (b ≡ a) × IsReduction a
  make_action_lem =
      let (same, verb, held, revokes) = make_action_tests in
      let (f, t, ef, et) = severities in
      let (narrow, less) = make_action_narrows f t ef et in
      (
        same,
        record {
          seq_natural = seq-natural;
          score_range = score-in_range;
          known_verb = verb;
          held = held;
          narrows = (f, t, ef, et, narrow, less);
          revokes = revokes;
        },
      )

abbrev candidate : Scope → Tier → String → String → String → ℤ → Action
candidate scope tier system resource finding_id score = record {
  seq = pos 0;
  system = system;
  resource = resource;
  scope = scope_value scope;
  verb = (reduction tier (scope_value scope)).0;
  from_scope = scope_value scope;
  to_scope = (reduction tier (scope_value scope)).1;
  finding_id = finding_id;
  score = score;
  tier = tier_value tier;
  pre_image_key = none;
}

make_candidate :
    (scope : Scope) (tier : Tier) (system resource finding_id : String) (score : ℤ)
    → is_score score ≡ true
    → make_action (candidate scope tier system resource finding_id score)
      ≡ ok (candidate scope tier system resource finding_id score)
unfolding make_action severity reduction
make_candidate Scope.read Tier.T1 system resource finding_id score h = rw h
make_candidate Scope.write Tier.T1 system resource finding_id score h = rw h
make_candidate Scope.admin Tier.T1 system resource finding_id score h = rw h
make_candidate Scope.billing Tier.T1 system resource finding_id score h = rw h
make_candidate Scope.secrets Tier.T1 system resource finding_id score h = rw h
make_candidate Scope.iam Tier.T1 system resource finding_id score h = rw h
make_candidate _ _ system resource finding_id score h = rw h

reduction_lowers :
    (scope : Scope) (tier : Tier)
    → (s : ℕ) × (t : ℕ) × (severity (scope_value scope) ≡ ok s)
      × (severity (reduction tier (scope_value scope)).1 ≡ ok t)
      × (t < s)
unfolding severity reduction
reduction_lowers Scope.read Tier.T1 = (1000, 0, refl, refl, omega arith)
reduction_lowers Scope.write Tier.T1 = (5000, 1000, refl, refl, omega arith)
reduction_lowers Scope.admin Tier.T1 = (9000, 1000, refl, refl, omega arith)
reduction_lowers _ Tier.T1 = (10000, 1000, refl, refl, omega arith)
reduction_lowers Scope.read _ = (1000, 0, refl, refl, omega arith)
reduction_lowers Scope.write _ = (5000, 0, refl, refl, omega arith)
reduction_lowers Scope.admin _ = (9000, 0, refl, refl, omega arith)
reduction_lowers _ _ = (10000, 0, refl, refl, omega arith)

-- A finding with a score from 0 to 10000 that is not skipped gets the action that is proposed
-- for it, without a policy violation, and the scope that this leaves has a lower severity than
-- the scope of the entitlement.
pub action_for_total :
    (f : Finding) (finding_id : String) (n : ℕ)
    → f.score ≡ pos n
    → n ≤ 10000
    → is_skipped f ≡ false
    → (action_for f finding_id ≡ ok (some (proposed_action f finding_id)))
      × (s : ℕ) × (t : ℕ) × (severity (scope_value f.entitlement.scope) ≡ ok s)
      × (severity (proposed_action f finding_id).to_scope ≡ ok t)
      × (t < s)
unfolding action_for
action_for_total f finding_id n score h used =
    let e = f.entitlement in
    let made =
      make_candidate e.scope f.tier e.system e.resource finding_id f.score
        (rw score (ground arith)) in
    let (s, t, es, et, less) = reduction_lowers e.scope f.tier in
    (rw (used, made), s, t, es, et, less)

-- The actions are numbered from `n` on.
abbrev pub AreNumbered : ℕ → List Action → Type 0
AreNumbered n [] = Unit
AreNumbered n (a ∷ l) = (a.seq ≡ pos n) × AreNumbered (suc n) l

-- An action that carries the key of its own pre-image under the digest of the plan.
abbrev pub HasKey : Runtime → String → Action → Type 0
HasKey rt digest a = a.pre_image_key ≡ some (preimage_key rt digest a.seq a.resource a.scope)

enumerate-AreNumbered :
    (n : ℕ) (l : List Action) {out : List Action} → enumerate n l ≡ ok out → AreNumbered n out
unfolding enumerate
enumerate-AreNumbered n [] h = rw (← ok-injective h) tt
enumerate-AreNumbered n (a ∷ l) h =
    let (b, made, h') = bind-ok (make_action (record a { seq = pos n })) _ h in
    let (rest, numbered, h'') = bind-ok (enumerate (suc n) l) _ h' in
    let (same, _) = make_action_lem (record a { seq = pos n }) b made in
    rw (← ok-injective h'') (ap (λ c. c.seq) same, enumerate-AreNumbered (suc n) l numbered)

pub with_key-lem :
    (rt : Runtime) (digest : String) (a b : Action)
    → with_key rt digest a ≡ ok b
    → HasKey rt digest b × IsReduction b × (b.seq ≡ a.seq)
unfolding with_key
with_key-lem rt digest a b h =
    let (same, valid) = make_action_lem _ b h in rw same (refl, valid, refl)

keyed-AreNumbered :
    (rt : Runtime) (digest : String) (n : ℕ) (l : List Action) {out : List Action}
    → AreNumbered n l
    → traverse (with_key rt digest) l ≡ ok out
    → AreNumbered n out
unfolding traverse
keyed-AreNumbered rt digest n [] numbered h = rw (← ok-injective h) tt
keyed-AreNumbered rt digest n (a ∷ l) numbered h =
    let (b, made, h') = bind-ok (with_key rt digest a) _ h in
    let (rest, keyed, h'') = bind-ok (traverse (with_key rt digest) l) _ h' in
    rw (← ok-injective h'') (
      (with_key-lem rt digest a b made).2 ∙ numbered.0,
      keyed-AreNumbered rt digest (suc n) l numbered.1 keyed,
    )

-- In a plan that `build` returns, every action is an access reduction, the actions are numbered
-- from 0 in their order, and each carries the pre-image key of its own number, resource and
-- scope under the hash of the body of the plan.
pub build_lem :
    (rt : Runtime) (plan_id trace_id : String) (findings : List Finding) (now : Datetime)
    (template_version : String) {p : Plan}
    → build rt plan_id trace_id findings now template_version ≡ ok p
    → (digest : String) × (plan_hash rt p.body ≡ ok digest)
      × All (λ a. HasKey rt digest a × IsReduction a) p.actions
      × AreNumbered 0 p.actions
unfolding build
build_lem rt plan_id trace_id findings now template_version h =
    let (at, _, h1) = bind-ok (iso_second rt now) _ h in
    let (proposed, _, h2) = bind-ok (propose rt findings) _ h1 in
    let (base, numbered, h3) = bind-ok (enumerate 0 (sorted action_le proposed)) _ h2 in
    let (digest, hashed, h4) = bind-ok (plan_hash rt (plan_body at template_version base)) _ h3 in
    let (actions, keyed, h5) = bind-ok (traverse (with_key rt digest) base) _ h4 in
    rw (← ok-injective h5) (
      digest,
      hashed,
      traverse-All (with_key rt digest) (λ a. HasKey rt digest a × IsReduction a)
          (λ a b made. let (key, valid, _) = with_key-lem rt digest a b made in (key, valid)) base
          keyed,
      keyed-AreNumbered rt digest 0 base
          (enumerate-AreNumbered 0 (sorted action_le proposed) numbered) keyed,
    )
