-- ===== src/Engine/Drift/Findings.antt =====
-- One finding: when it is made, and what it says of its entitlement.
use sams_simlplifynext.Prelude.{
  ℕ, ◌*◌, ◌+◌, ◌/◌, ◌≤◌, ◌≡◌, true, false, not, Option, none, some, arith, Option-cases, inl, inr,
}
use mathlib.Core.Path.{subst}
use sams_simlplifynext.Prelude.{Bool, Bool-cases, refl, sym, ◌∙◌}
use sams_simlplifynext.Prelude.Int.{pos}
use sams_simlplifynext.Errors.{ok, is_ok, ok-of_is_ok, bind-ok, ok-injective}
use sams_simlplifynext.Runtime.{Runtime}
use sams_simlplifynext.Value.{Datetime, Value, Fields, number}
use sams_simlplifynext.Contracts.{Tier, T0, Entitlement, scope_value}
use sams_simlplifynext.Engine.Scoring.{
  risk, scope_severity, whole_days_since, dormancy, role_mismatch, blast_radius, read_weights,
}
use sams_simlplifynext.Engine.Scoring.Bounds.{
  scope_severity_total, dormancy_bound, blast_radius_bound, risk_mean,
}
use sams_simlplifynext.Engine.Tiers.{Identity, identity_object, break_glass}
use sams_simlplifynext.Engine.Tiers.Policy.{InTier, select_tier_total}
use sams_simlplifynext.Engine.Drift.{
  Finding, finding_tier, days_unused, reachable_count, template_for, make_finding,
}

-- The use of the entitlement was recorded with a time zone, or never.
abbrev pub IsAware : Option Datetime → Type 0
IsAware none = Unit
IsAware (some t) = t.aware ≡ true

dormancy_total :
    (last : Option Datetime) (now : Datetime)
    → IsAware last
    → now.aware ≡ true
    → is_ok (dormancy last now) ≡ true
unfolding dormancy
dormancy_total none now a h = ground arith
dormancy_total (some t) now a h = ground arith

role_mismatch_bound : (e : Entitlement) (template : Value) → role_mismatch e template ≤ 10000
unfolding role_mismatch
role_mismatch_bound e template = ground arith

blast_radius_total : (rt : Runtime) (n : ℕ) → is_ok (blast_radius rt (number (pos n))) ≡ true
unfolding blast_radius
blast_radius_total rt n = ground arith

days_unused_total :
    (rt : Runtime) (e : Entitlement) (now : Datetime)
    → IsAware e.last_used_at
    → now.aware ≡ true
    → is_ok (days_unused rt e now) ≡ true
unfolding days_unused whole_days_since
days_unused_total rt e now a h = elim (Option-cases e.last_used_at) [
  | inl never ↦ rw (never, days_unused)
  | inr (t, used) ↦
      let aware = subst IsAware used a in rw (used, days_unused, whole_days_since) (ground arith)
]

finding_tier_total :
    (rt : Runtime) (e : Entitlement) (n : ℕ) (identity : Identity)
    → n ≤ 10000
    → is_ok (finding_tier rt e (pos n) identity) ≡ true
unfolding finding_tier
finding_tier_total rt e n identity h =
    let (t, made, _) = select_tier_total rt n (identity_object identity) h in ground arith

-- With valid weights and times that carry a zone, every entitlement gets a finding: neither the
-- identity, nor the template, nor the reachability can make the detection fail.
pub make_finding_total :
    (rt : Runtime) (e : Entitlement) (identity : Identity) (templates reachability : Value)
    (now : Datetime) (weights : Fields) (ws wd wm wb : ℕ)
    → IsAware e.last_used_at
    → now.aware ≡ true
    → read_weights rt weights ≡ ok (pos ws, pos wd, pos wm, pos wb)
    → is_ok (make_finding rt e identity templates reachability now weights) ≡ true
unfolding make_finding
make_finding_total rt e identity templates reachability now weights ws wd wm wb a h w =
    let (s, es, bs) = scope_severity_total e.scope in
    let (d, ed) =
      ok-of_is_ok (dormancy e.last_used_at now) (dormancy_total e.last_used_at now a h) in
    let count = reachable_count reachability e in
    let (b, eb) =
      ok-of_is_ok (blast_radius rt (number (pos count))) (blast_radius_total rt count) in
    let template = template_for templates identity e.identity_id in
    let m = role_mismatch e template in
    let (scored, capped) =
      risk_mean rt s d m b ws wd wm wb weights bs (dormancy_bound e.last_used_at now ed)
        (role_mismatch_bound e template) (blast_radius_bound rt (number (pos count)) eb) w in
    ground (
      arith,
      finding_tier_total rt e ((s * ws + d * wd + m * wm + b * wb) / 100) identity capped,
      days_unused_total rt e now a h,
    )

-- The tier that a score gets: T0 if the finding is only observed, and the tier in whose range the
-- score lies otherwise.
abbrev pub IsTiered : Bool → Bool → ℕ → Tier → Type 0
IsTiered true glass n t = t ≡ T0
IsTiered false glass n t = InTier glass n t

finding_tier-IsTiered :
    (rt : Runtime) (e : Entitlement) (n : ℕ) (identity : Identity) {t : Tier}
    → n ≤ 10000
    → finding_tier rt e (pos n) identity ≡ ok t
    → IsTiered (not e.revocable) (break_glass rt (identity_object identity)) n t
unfolding finding_tier
finding_tier-IsTiered rt e n identity {t} h made =
    let glass = break_glass rt (identity_object identity) in
    let (u, selected, range) = select_tier_total rt n (identity_object identity) h in
    elim (Bool-cases e.revocable) [
      | inl revocable ↦
          let same : u ≡ t = ground arith in rw revocable (subst (InTier glass n) same range)
      | inr fixed ↦ rw fixed (ground arith)
    ]

-- With weights that are read as natural numbers, a finding that is returned holds its
-- entitlement unchanged, four factors of at most 10000, and as its score the sum of the factors
-- weighted by the weights, divided by 100 and rounded down, which is at most 10000; it is only
-- observed exactly if the entitlement is not revocable, and it then has the tier T0 and
-- otherwise the tier whose range of scores holds its score, with the break-glass rule for its
-- identity.
pub make_finding_lem :
    (rt : Runtime) (e : Entitlement) (identity : Identity) (templates reachability : Value)
    (now : Datetime) (weights : Fields) (ws wd wm wb : ℕ) {f : Finding}
    → read_weights rt weights ≡ ok (pos ws, pos wd, pos wm, pos wb)
    → make_finding rt e identity templates reachability now weights ≡ ok f
    → (f.entitlement ≡ e)
      × (f.s ≤ 10000)
      × (f.d ≤ 10000)
      × (f.m ≤ 10000)
      × (f.b ≤ 10000)
      × (f.observe_only ≡ not e.revocable)
      × (n : ℕ) × (f.score ≡ pos n)
      × (n ≤ 10000)
      × (n ≡ (f.s * ws + f.d * wd + f.m * wm + f.b * wb) / 100)
      × IsTiered f.observe_only (break_glass rt (identity_object identity)) n f.tier
unfolding make_finding
make_finding_lem rt e identity templates reachability now weights ws wd wm wb {f} w h =
    let count = pos (reachable_count reachability e) in
    let m = role_mismatch e (template_for templates identity e.identity_id) in
    let (s, es, h1) = bind-ok (scope_severity (scope_value e.scope)) _ h in
    let (d, ed, h2) = bind-ok (dormancy e.last_used_at now) _ h1 in
    let (b, eb, h3) = bind-ok (blast_radius rt (number count)) _ h2 in
    let (score, er, h4) = bind-ok (risk rt _ _ _ _ weights) _ h3 in
    let (tier, et, h5) = bind-ok (finding_tier rt e score identity) _ h4 in
    let (unused, eu, h6) = bind-ok (days_unused rt e now) _ h5 in
    let (s', es', bs') = scope_severity_total e.scope in
    let bs : s ≤ 10000 = ground arith in
    let bd = dormancy_bound e.last_used_at now ed in
    let bm = role_mismatch_bound e (template_for templates identity e.identity_id) in
    let bb = blast_radius_bound rt (number count) eb in
    let (scored, capped) = risk_mean rt s d m b ws wd wm wb weights bs bd bm bb w in
    let n = (s * ws + d * wd + m * wm + b * wb) / 100 in
    let same : score ≡ pos n = ok-injective (sym er ∙ scored) in
    let tiered =
      finding_tier-IsTiered rt e n identity capped
        (subst (λ x. finding_tier rt e x identity ≡ ok tier) same et) in
    rw (← ok-injective h6) (refl, bs, bd, bm, bb, refl, n, same, capped, refl, tiered)
