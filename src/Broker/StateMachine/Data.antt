-- ===== src/Broker/StateMachine/Data.antt =====
-- Fields that a state writes and a later state reads.
use sams_simlplifynext.Prelude.{
  String, Bool, false, true, Option, none, some, List, [], ◌∷◌, All, all, all-All, map,
  Option-cases, inl, inr, ◌≡◌, ◌≢◌, arith,
}
use sams_simlplifynext.Prelude.Text.{eq_refl, eq_iff}
use sams_simlplifynext.Value.{Value, Fields, text, find, get}
use mathlib.Core.Path.{subst}
use sams_simlplifynext.Broker.StateMachine.{
  StateName, Choice, Function, string_equals, pick, go_to, build_definition, AslState, pass_state,
  succeed_state, transition, choice_state, task_state, Outcome, returned, timed_out, failed,
}

-- Where a choice goes: to the branch of a field that is its text, or, if there is none, to the
-- default; a field that is missing leads nowhere.
string_equals-true :
    (v : Option Value) (s : String) → string_equals v s ≡ some true → v ≡ some (text s)
unfolding string_equals
string_equals-true none s h = cc
string_equals-true (some (text t)) s h = ground (arith, eq_iff t s)
string_equals-true (some v) s h = cc

string_equals-false :
    (v : Option Value) (s : String) → string_equals v s ≡ some false → v ≢ some (text s)
unfolding string_equals
string_equals-false none s h = cc
string_equals-false (some (text t)) s h = ground (arith, eq_iff t s, eq_refl t, eq_refl s)
string_equals-false (some v) s h = λ e. cc

-- A property of the step out of a state, if there is one.
abbrev pub Leads : (StateName → Fields → Type 0) → Option (StateName × Fields) → Type 0
Leads Q none = Unit
Leads Q (some (n, d)) = Q n d

abbrev pub Holds : Fields → Choice → Type 0
unfolding find
Holds d c = get c.variable d ≡ some (text c.value)

pub pick-Leads :
    (Q : StateName → Fields → Type 0) (cs : List Choice) (default : StateName) (d : Fields)
    → All (λ c. Holds d c → Q c.next d) cs
    → (All (λ c. ¬ Holds d c) cs → Q default d)
    → Leads Q (go_to d (pick cs default d))
unfolding pick
pick-Leads Q [] default d branches otherwise = otherwise tt
pick-Leads Q (c ∷ cs) default d branches otherwise =
    elim (Option-cases (string_equals (get c.variable d) c.value)) [
      | inl missing ↦ rw missing tt
      | inr (true, found) ↦ rw found (branches.0 (string_equals-true _ c.value found))
      | inr (false, other) ↦ rw other (
          pick-Leads Q cs default d branches.1
            (λ others. otherwise (string_equals-false _ c.value other, others)))
    ]

-- A choice keeps the data.
pub choice-Leads :
    (Q : StateName → Fields → Type 0) (cs : List Choice) (default : StateName) (o : Outcome)
    (d : Fields)
    → All (λ c. Holds d c → Q c.next d) cs
    → (All (λ c. ¬ Holds d c) cs → Q default d)
    → Leads Q (transition (choice_state cs default) o d)
unfolding transition
choice-Leads Q cs default o d = pick-Leads Q cs default d

-- The other tasks keep the data, and end the execution if they fail.
pub task-Leads :
    (Q : StateName → Fields → Type 0) (f : Function) (paths : List String) (next : StateName)
    (o : Outcome) (d : Fields)
    → Q next d
    → Leads Q (transition (task_state f paths false none next) o d)
unfolding transition
task-Leads Q f paths next (returned out) d h = ground arith
task-Leads Q f paths next (timed_out cause) d h = tt
task-Leads Q f paths next failed d h = tt

pub Leads-some :
    (Q : StateName → Fields → Type 0) {x : Option (StateName × Fields)} {n : StateName} {d : Fields}
    → x ≡ some (n, d)
    → Leads Q x
    → Q n d
Leads-some Q e h = subst (Leads Q) e h

-- The states to which a state may go.
unfoldable pub successors : AslState → List StateName
successors (choice_state cs default) = default ∷ map (λ c. c.next) cs
successors (pass_state v path next) = next ∷ []
successors (task_state f paths replaces none next) = next ∷ []
successors (task_state f paths replaces (some caught) next) = caught ∷ next ∷ []
successors succeed_state = []

choices-All :
    (Q : StateName → Type 0) (cs : List Choice) (d : Fields)
    → All Q (map (λ c. c.next) cs)
    → All (λ c. Holds d c → Q c.next) cs
choices-All Q [] d h = tt
choices-All Q (c ∷ cs) d h = (λ _. h.0, choices-All Q cs d h.1)

pub successors-Leads :
    (Q : StateName → Type 0) (s : AslState) (o : Outcome) (d : Fields)
    → All Q (successors s)
    → Leads (λ n d. Q n) (transition s o d)
unfolding successors transition
successors-Leads Q (choice_state cs default) o d h =
    choice-Leads (λ n d. Q n) cs default o d (choices-All Q cs d h.1) (λ _. h.0)
successors-Leads Q (pass_state v path next) o d h = h.0
successors-Leads Q (task_state f paths replaces none next) (returned out) d h = ground arith
successors-Leads Q (task_state f paths replaces (some caught) next) (returned out) d h =
    ground arith
successors-Leads Q (task_state f paths replaces none next) (timed_out cause) d h = tt
successors-Leads Q (task_state f paths replaces (some caught) next) (timed_out cause) d h =
    ground arith
successors-Leads Q (task_state f paths replaces none next) failed d h = tt
successors-Leads Q (task_state f paths replaces (some caught) next) failed d h = tt
successors-Leads Q succeed_state o d h = tt

-- A test of every step of the definition, by names alone.
pub step-test :
    (test : StateName → StateName → Bool)
    → ((n : StateName) → all (test n) (successors (build_definition n)) ≡ true)
    → {n n' : StateName} {d' : Fields} (o : Outcome) (d : Fields)
    → transition (build_definition n) o d ≡ some (n', d')
    → test n n' ≡ true
step-test test every {n} {n'} o d e =
    Leads-some (λ m d. test n m ≡ true) e
      (successors-Leads (λ m. test n m ≡ true) (build_definition n) o d
        (all-All (test n) (successors (build_definition n)) (every n)))
