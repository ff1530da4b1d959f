-- ===== src/Broker/Negotiate/Decision.antt =====
-- What a negotiated decision may return.
use sams_simlplifynext.Prelude.{
  String, some, List, ◌≡◌, sym, ap, ◌∙◌, ◌⊎◌, inl, inr, Bool-cases, arith, if◌then◌else◌,
}
use mathlib.Core.Path.{subst}
use mathlib.Core.Option.{some-injective}
use sams_simlplifynext.Prelude.Text.{str_eq, eq_iff}
use sams_simlplifynext.Errors.{Result-cases, ok, bind-ok, ok-injective}
use sams_simlplifynext.Exec.{lift, Returns, Returns-bind, Returns-map}
use sams_simlplifynext.Runtime.{Runtime}
use sams_simlplifynext.Value.{Value, Fields}
use sams_simlplifynext.Plan.Canonical.{plan_hash}
use sams_simlplifynext.Plan.Builder.{Action, Plan, envelope_text}
use sams_simlplifynext.Broker.Negotiate.{
  Ports, NegotiationResult, ActionArgument, graph_scopes, next_lowest_scope, replan,
  action_from_plan, accepts, settle_scope, reduce_further, keep_with_reason, plain_decision, decide,
  negotiate_decision, scope_from_response, nova_lite_model, base_record, finding_id_of,
}
use sams_simlplifynext.Broker.Negotiate.Narrowing.{
  IsNarrower, next_lowest_scope-IsNarrower, accepts-IsNarrower, IsNarrowing, replan-IsNarrowing,
}

module _ (rt : Runtime) (graph : Value) (plan : Plan) where
  -- A scope that is returned is narrower than that of the selected action, within the graph. A plan
  -- that is returned is the given one after an approval, or narrows access.
  pub record IsBounded (decision : String) (selected : Action) (r : NegotiationResult)
      : Type 0 where
    pub scope_bound :
        (s : String)
        → r.scope ≡ some s
        → (closed : List String) × (graph_scopes graph ≡ ok closed)
          × IsNarrower closed selected.from_scope s
    pub plan_bound :
        (p : Plan) → r.plan ≡ some p → ((p ≡ plan) × (decision ≡ "Approve")) ⊎ IsNarrowing rt p

  module _ {W : Type 0} (ports : Ports W) (finding : Value) (action : Action) (audit : Fields) where
    settle_scope-IsBounded :
        (decision : String) (closed : List String) (fallback proposed : String)
        {r : NegotiationResult}
        → graph_scopes graph ≡ ok closed
        → IsNarrower closed action.from_scope fallback
        → settle_scope rt ports finding plan action audit closed fallback proposed ≡ ok r
        → IsBounded decision action r
    unfolding settle_scope
    settle_scope-IsBounded decision closed fallback proposed scopes narrow h =
        let (accepted, tested, h1) = bind-ok (accepts action.from_scope closed proposed) _ h in
        let chosen = if accepted then proposed else fallback in
        let (p, replanned, h2) = bind-ok (replan rt plan action chosen) _ h1 in
        let chosen-IsNarrower : IsNarrower closed action.from_scope chosen =
          elim (Bool-cases accepted) [
            | inl yes_ ↦
                rw yes_ (accepts-IsNarrower action.from_scope proposed closed (tested ∙ ap ok yes_))
            | inr no_ ↦ rw no_ narrow
          ] in
        let same = ok-injective h2 in
        record {
          scope_bound = λ s e. (
            closed,
            scopes,
            subst (IsNarrower closed action.from_scope)
                (some-injective _ _ (ap (λ r. r.scope) same ∙ e)) chosen-IsNarrower,
          );
          plan_bound = λ q e. inr (
              subst (IsNarrowing rt) (some-injective _ _ (ap (λ r. r.plan) same ∙ e))
                (replan-IsNarrowing rt plan action chosen replanned));
        }

    reduce_further-IsBounded :
        (decision : String) (w : W)
        → Returns
            (λ r w. IsBounded decision action r)
            (reduce_further rt ports finding plan action audit graph w)
    unfolding reduce_further
    reduce_further-IsBounded decision w =
        Returns-bind _ (lift (graph_scopes graph)) _ w λ closed scopes.
          Returns-bind _ (lift (next_lowest_scope action.from_scope closed)) _ w λ fallback lowest.
            Returns-bind _ (ports.complete nova_lite_model _) _ w λ response answered.
              elim (Result-cases (
                settle_scope rt ports finding plan action audit closed fallback
                  (scope_from_response rt response))) [
                    | inl (r, e) ↦ rw e (
                        settle_scope-IsBounded decision closed fallback
                          (scope_from_response rt response) scopes
                          (next_lowest_scope-IsNarrower action.from_scope closed lowest) e)
                    | inr (x, e) ↦ rw e tt
                  ]

    keep_with_reason-IsBounded :
        (decision finding_id reason digest trace_id : String) (w : W)
        → Returns
            (λ r w. IsBounded decision action r)
            (keep_with_reason rt ports finding plan action audit finding_id reason digest trace_id
              w)
    unfolding keep_with_reason
    keep_with_reason-IsBounded decision finding_id reason digest trace_id w =
        Returns-bind _ (ports.complete _ _) _ w λ draft answered.
          Returns-bind _ (ports.write _) _ _
            λ proposal_id written. record { scope_bound = λ s e. cc; plan_bound = λ p e. cc }

    plain_decision-IsBounded :
        (decision : String) (w : W)
        → Returns
            (λ r w. IsBounded decision action r)
            (lift (plain_decision rt ports finding plan action audit decision) w)
    unfolding plain_decision
    plain_decision-IsBounded decision w = elim (Bool-cases (str_eq decision "Approve")) [
      | inl approved ↦ rw approved (record {
        scope_bound = λ s e. cc;
        plan_bound =
            λ p e. inl (sym (some-injective _ _ e), ground (arith, eq_iff decision "Approve"));
      })
      | inr other ↦ elim (Bool-cases (str_eq decision "Defer 30 days")) [
        | inl deferred ↦
            rw (other, deferred) (record { scope_bound = λ s e. cc; plan_bound = λ p e. cc })
        | inr unknown ↦ rw (other, unknown) tt
      ]
    ]

  decide-IsBounded :
      {W : Type 0} (ports : Ports W) (decision : String) (finding : Value) (reason : String)
      (selected : Action) (audit : Fields) (finding_id digest trace_id : String) (w : W)
      → Returns
          (λ r w. IsBounded decision selected r)
          (decide rt ports decision finding plan graph reason selected audit finding_id digest
            trace_id w)
  unfolding decide
  decide-IsBounded ports decision finding reason selected audit finding_id digest trace_id w =
      elim (Bool-cases (str_eq decision "Reduce further")) [
        | inl reduces ↦
            rw reduces (reduce_further-IsBounded ports finding selected audit decision w)
        | inr other ↦ elim (Bool-cases (str_eq decision "Keep, with reason")) [
          | inl keeps ↦
              rw (other, keeps)
                (keep_with_reason-IsBounded ports finding selected audit decision finding_id reason
                  digest trace_id w)
          | inr plain ↦
              rw (other, plain) (plain_decision-IsBounded ports finding selected audit decision w)
        ]
      ]

  -- What was selected, and the bounds of the result for it.
  abbrev pub IsDecision : String → ActionArgument → NegotiationResult → Type 0
  IsDecision decision action r =
      (selected : Action) × (action_from_plan rt plan action ≡ ok selected)
      × IsBounded decision selected r

  -- Whatever the model answers, a result that `negotiate_decision` returns for a decision is
  -- bounded by the action it selected: a scope in it is `none`, or one of the scopes of the
  -- graph with a lower severity than the scope that the action holds; a plan in it is the given
  -- plan, and then the decision is `Approve`, or has only access reductions with their pre-image
  -- keys under the hash of its body.
  pub negotiate_decision-IsBounded :
      {W : Type 0} (ports : Ports W) (decision : String) (finding : Value) (action : ActionArgument)
      (approver_id reason : String) (w : W)
      → Returns
          (λ r w. IsDecision decision action r)
          (negotiate_decision rt ports decision finding plan graph action approver_id reason w)
  unfolding negotiate_decision
  negotiate_decision-IsBounded ports decision finding action approver_id reason w =
      Returns-bind _ (lift (action_from_plan rt plan action)) _ w λ selected chosen.
        Returns-bind _ (lift (plan_hash rt plan.body)) _ w λ digest hashed.
          Returns-bind _ (lift (envelope_text "trace_id" plan.envelope)) _ w λ trace_id traced.
            let finding_id = finding_id_of rt finding selected in
            let audit = base_record approver_id decision finding_id digest trace_id in
            Returns-map (λ r w. IsBounded decision selected r) (λ r w. IsDecision decision action r)
              (decide rt ports decision finding plan graph reason selected audit finding_id digest
                trace_id w)
              (λ r w h. (selected, chosen, h))
              (decide-IsBounded ports decision finding reason selected audit finding_id digest
                trace_id w)
