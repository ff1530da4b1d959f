-- ===== src/Broker/StateMachine/Timeout.antt =====
-- What happens after a timeout of `NotifyApprover`.
use sams_simlplifynext.Prelude.{
  Option, none, some, Bool, true, false, List, all, all-All, ◌≡◌, ◌≢◌, refl,
}
use mathlib.Core.Path.{subst}
use sams_simlplifynext.Value.{Fields, get, find}
use sams_simlplifynext.Broker.StateMachine.{
  StateName, route_tier, notify_approver, timeout_by_tier, proceed_after_timeout, build_definition,
  transition, Outcome, returned, timed_out, failed, Runs, here, step, entry_choices,
  timeout_choices, pick, string_equals, has_paths,
}
use sams_simlplifynext.Broker.StateMachine.Data.{successors, successors-Leads, Leads, Leads-some}

-- The data has no tier where the timeout is routed, so no branch is taken from there.
abbrev Cut : StateName → Fields → Type 0
unfolding find
Cut timeout_by_tier d = get "tier" d ≡ none
Cut proceed_after_timeout d = ⊥
Cut n d = Unit {0}

abbrev is_plain : StateName → Bool
is_plain timeout_by_tier = false
is_plain proceed_after_timeout = false
is_plain n = true

plain-Cut : (n : StateName) (d : Fields) → is_plain n ≡ true → Cut n d
unfolding Cut
plain-Cut timeout_by_tier d h = cc
plain-Cut proceed_after_timeout d h = cc
plain-Cut n d h = tt

Leads-map :
    (Q Q' : StateName → Fields → Type 0) (x : Option (StateName × Fields))
    → ((n : StateName) (d : Fields) → Q n d → Q' n d)
    → Leads Q x
    → Leads Q' x
Leads-map Q Q' none f h = tt
Leads-map Q Q' (some (n, d)) f h = f n d h

plain-Leads :
    (n : StateName) (o : Outcome) (d : Fields)
    → all is_plain (successors (build_definition n)) ≡ true
    → Leads Cut (transition (build_definition n) o d)
plain-Leads n o d h =
    Leads-map (λ n d. is_plain n ≡ true) Cut (transition (build_definition n) o d) plain-Cut
      (successors-Leads (λ n. is_plain n ≡ true) (build_definition n) o d
        (all-All is_plain (successors (build_definition n)) h))

transition-Cut :
    (n : StateName) (o : Outcome) (d : Fields)
    → Cut n d
    → Leads Cut (transition (build_definition n) o d)
unfolding build_definition transition successors all entry_choices timeout_choices pick
    string_equals has_paths find
transition-Cut notify_approver (returned out) d k = tt
transition-Cut notify_approver (timed_out cause) d k = refl
transition-Cut notify_approver failed d k = tt
transition-Cut timeout_by_tier o d k = rw k tt
transition-Cut proceed_after_timeout o d k = absurd k
transition-Cut n o d k = plain-Leads n o d refl

Runs-Cut :
    {n n' : StateName} {d d' : Fields} {visited : List StateName}
    → Runs n d visited n' d'
    → Cut n d
    → Cut n' d'
Runs-Cut here k = k
Runs-Cut (step {n = n} {d = d} o e runs) k =
    Runs-Cut runs (Leads-some Cut e (transition-Cut n o d k))

-- No execution that starts at `RouteTier` reaches `ProceedAfterTimeout`: the error output of the
-- timeout has replaced the data, which then has no tier to choose by.
pub Runs-ne-proceed :
    {n : StateName} {d d' : Fields} {visited : List StateName}
    → Runs route_tier d visited n d'
    → n ≢ proceed_after_timeout
unfolding Cut
Runs-ne-proceed {d' = d'} runs same = subst (λ n. Cut n d') same (Runs-Cut runs tt)
