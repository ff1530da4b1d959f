-- ===== src/Broker/Negotiate/Narrowing.antt =====
-- Negotiation only narrows access, whatever the model answers.
use sams_simlplifynext.Prelude.{
  ℕ, ◌<◌, String, List, [], ◌∷◌, All, All-map, any, keep, map, ◌≡◌, refl, ◌⊎◌, inl, inr, Bool, true,
  not, ◌&&◌, Bool-cases, arith,
}
use mathlib.Core.Path.{subst}
use sams_simlplifynext.Prelude.Text.{str_eq, text_in, eq_refl}
use sams_simlplifynext.Prelude.Order.{sorted, insert}
use sams_simlplifynext.Errors.{Result-cases, ok, bind-ok, ok-injective, traverse, traverse-All}
use sams_simlplifynext.Runtime.{Runtime}
use sams_simlplifynext.Engine.Scoring.{scope_severity}
use sams_simlplifynext.Plan.Canonical.{plan_hash}
use sams_simlplifynext.Plan.Builder.{Action, Plan, make_action, with_key}
use sams_simlplifynext.Plan.Builder.Reduction.{IsReduction, HasKey, with_key-lem}
use sams_simlplifynext.Broker.Negotiate.{
  is_below, scope_le, last_or, next_lowest_scope, narrower, replace_action, replan, accepts,
}

-- A scope that is left: none at all, or one of the closed set with a lower severity than the
-- current one.
abbrev pub IsNarrower : List String → String → String → Type 0
IsNarrower closed current s =
    (s ≡ "none")
    ⊎ ((c : ℕ) × (n : ℕ) × (scope_severity current ≡ ok c)
        × (scope_severity s ≡ ok n)
        × (n < c)
        × (text_in s closed ≡ true))

insert-All :
    (P : String → Type 0) (s : String) (l : List String)
    → P s
    → All P l
    → All P (insert scope_le s l)
unfolding insert
insert-All P s [] h a = (h, tt)
insert-All P s (t ∷ l) h a = elim (Bool-cases (scope_le s t)) [
  | inl e ↦ rw e (h, a)
  | inr e ↦ rw e (a.0, insert-All P s l h a.1)
]

sorted-All : (P : String → Type 0) (l : List String) → All P l → All P (sorted scope_le l)
unfolding sorted
sorted-All P [] a = tt
sorted-All P (s ∷ l) a = insert-All P s (sorted scope_le l) a.0 (sorted-All P l a.1)

last_or-All : (P : String → Type 0) (d : String) (l : List String) → P d → All P l → P (last_or d l)
unfolding last_or
last_or-All P d [] h a = h
last_or-All P d (s ∷ l) h a = last_or-All P s l a.0 a.1

text_in_later : (s x : String) (l : List String) → text_in s l ≡ true → text_in s (x ∷ l) ≡ true
unfolding text_in any
text_in_later s x l h = ground arith

-- The members that a filter keeps are members that pass it.
abbrev Kept : (String → Bool) → List String → String → Type 0
Kept test l s = (test s ≡ true) × (text_in s l ≡ true)

Kept-later :
    (test : String → Bool) (x : String) (l kept : List String)
    → All (Kept test l) kept
    → All (Kept test (x ∷ l)) kept
Kept-later test x l kept h =
    All-map (Kept test l) (Kept test (x ∷ l)) kept (λ s k. (k.0, text_in_later s x l k.1)) h

text_in_first : (x : String) (l : List String) → text_in x (x ∷ l) ≡ true
unfolding text_in any
text_in_first x l = ground (arith, eq_refl x)

keep-Kept : (test : String → Bool) (l : List String) → All (Kept test l) (keep test l)
unfolding keep
keep-Kept test [] = tt
keep-Kept test (x ∷ l) = elim (Bool-cases (test x)) [
  | inl e ↦ rw e ((e, text_in_first x l), Kept-later test x l (keep test l) (keep-Kept test l))
  | inr e ↦ rw e (Kept-later test x l (keep test l) (keep-Kept test l))
]

is_below-lem :
    (c : ℕ) (s : String) → is_below c s ≡ true → (n : ℕ) × (scope_severity s ≡ ok n) × (n < c)
is_below-lem c s h = elim (Result-cases (scope_severity s)) [
  | inl (n, e) ↦ (n, e, ground arith)
  | inr (x, e) ↦ absurd (ground arith)
]

pub next_lowest_scope-IsNarrower :
    (current : String) (closed : List String) {s : String}
    → next_lowest_scope current closed ≡ ok s
    → IsNarrower closed current s
unfolding next_lowest_scope
next_lowest_scope-IsNarrower current closed h =
    let (c, severity, h') = bind-ok (scope_severity current) _ h in
    let test : String → Bool = λ s. not (str_eq s current) && is_below c s in
    subst (IsNarrower closed current) (ok-injective h') (
      last_or-All (IsNarrower closed current) "none" (sorted scope_le (keep test closed)) (inl refl)
        (sorted-All (IsNarrower closed current) (keep test closed) (
          All-map (Kept test closed) (IsNarrower closed current) (keep test closed)
            (λ s k.
              let (n, below, less) = is_below-lem c s (ground arith) in
              inr (c, n, severity, below, less, k.1))
            (keep-Kept test closed))))

pub accepts-IsNarrower :
    (current proposed : String) (closed : List String)
    → accepts current closed proposed ≡ ok true
    → IsNarrower closed current proposed
unfolding accepts
accepts-IsNarrower current proposed closed h = elim (Bool-cases (text_in proposed closed)) [
  | inr out ↦ absurd (ground arith)
  | inl within ↦
      let h' : narrower proposed current ≡ ok true = ground arith in
      let (n, en, h1) = bind-ok (scope_severity proposed) _ h' in
      let (c, ec, h2) = bind-ok (scope_severity current) _ h1 in
      inr (c, n, ec, en, ground arith, within)
]

-- Every action is a reduction with the key of its pre-image under the hash of the plan's body.
abbrev pub IsNarrowing : Runtime → Plan → Type 0
IsNarrowing rt p =
    (digest : String) × (plan_hash rt p.body ≡ ok digest)
    × All (λ a. HasKey rt digest a × IsReduction a) p.actions

pub replan-IsNarrowing :
    (rt : Runtime) (plan : Plan) (action : Action) (to_scope : String) {p : Plan}
    → replan rt plan action to_scope ≡ ok p
    → IsNarrowing rt p
unfolding replan
replan-IsNarrowing rt plan action to_scope h =
    let (updated, _, h1) = bind-ok (make_action _) _ h in
    let base = map (replace_action updated) plan.actions in
    let (digest, hashed, h2) = bind-ok (plan_hash rt _) _ h1 in
    let (actions, keyed, h3) = bind-ok (traverse (with_key rt digest) base) _ h2 in
    rw (← ok-injective h3) (
      digest,
      hashed,
      traverse-All (with_key rt digest) (λ a. HasKey rt digest a × IsReduction a)
          (λ a b made. let (key, valid, _) = with_key-lem rt digest a b made in (key, valid)) base
          keyed,
    )
