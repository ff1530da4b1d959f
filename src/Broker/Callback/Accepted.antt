-- ===== src/Broker/Callback/Accepted.antt =====
-- What a response with the status 200 stands for.
use sams_simlplifynext.Prelude.{
  ℕ, String, Bool, true, false, some, ◌≡◌, ◌≢◌, refl, ap, ◌∙◌, inl, inr, arith,
}
use sams_simlplifynext.Prelude.Int.{ℤ}
use sams_simlplifynext.Errors.{Exn, Result, ok, err, ok-injective}
use sams_simlplifynext.Errors
use sams_simlplifynext.Exec
use sams_simlplifynext.Exec.{Exec, lift, bind-ok, catch-ok}
use sams_simlplifynext.Runtime.{Runtime}
use sams_simlplifynext.Value.{Fields, mapping, end, get, find, name, boolean, text, field}
use sams_simlplifynext.Plan.Canonical.{json_text}
use sams_simlplifynext.Prelude.{or_else}
use sams_simlplifynext.Broker.Callback.{
  SlackRuntime, verify_slack_signature, headers_of, source_text, raw_body, Approval, read_approval,
  decision_record, decision_output, Response, respond, CallbackPorts, write_decision, send_output,
  send_decision, record_with, record_and_send, rejected, handle_verified, lambda_handler,
}
use sams_simlplifynext.Broker.Callback.Guarded.{IsAudited, IsSigned}

respond-status : (n : ℕ) (body : Fields) {r : Response} → respond n body ≡ ok r → r.status_code ≡ n
unfolding respond
respond-status n body h =
    let (s, _, made) = Errors.bind-ok (json_text (mapping body)) _ h in
    rw (← ok-injective made) refl

module _ {W : Type 0} (rt : Runtime) (sl : SlackRuntime) (ports : CallbackPorts W) where
  -- The approval has been audited, and then the workflow has been told its decision.
  pub record IsSent (a : Approval) (w w' : W) : Type 0 where
    pub recorded : W
    pub output : String
    pub audited : IsAudited rt sl ports a w recorded
    pub encoded : json_text (mapping (decision_output a)) ≡ ok output
    pub sent : ports.send_task_success a.task_token output recorded ≡ (ok tt, w')

  record_and_send-IsSent :
      (a : Approval) (w : W) {r : Response} {w' : W}
      → record_and_send rt sl ports a w ≡ (ok r, w')
      → IsSent a w w'
  unfolding record_and_send record_with send_decision respond find
  record_and_send-IsSent a w h =
      let (writer, w1, opened, h1) = bind-ok ports.open_audit (record_with rt sl ports a) w h in
      let (_, w2, written, h2) =
        bind-ok (write_decision rt sl ports writer (decision_record rt a))
          (λ _. send_decision rt sl ports a) w1 h1 in
      let (output, w3, e3, h3) =
        bind-ok (lift (json_text (mapping (decision_output a)))) (send_output rt sl ports a) w2
          h2 in
      let (_, w4, e4, h4) =
        bind-ok (ports.send_task_success a.task_token output)
          (λ _. lift (respond 200 (field (name "ok") (boolean true) end))) w3 h3 in
      record {
        recorded = w2;
        output = output;
        audited = record { writer = writer; opened = w1; open_writer = opened; written = written };
        encoded = ap (λ x. x.0) e3;
        sent =
            ap (ports.send_task_success a.task_token output) (ap (λ x. x.1) e3)
            ∙ e4
            ∙ ap (λ t. (ok tt, t)) (ap (λ x. x.1) h4);
      }

  rejected-status :
      (e : Exn) (w : W) {r : Response} {w' : W}
      → rejected rt sl ports e w ≡ (ok r, w')
      → r.status_code ≢ 200
  unfolding rejected
  rejected-status e w h t = ground arith

  handle_verified-IsSent :
      (body : String) (v : Bool) (w : W) {r : Response} {w' : W}
      → handle_verified rt sl ports body v w ≡ (ok r, w')
      → r.status_code ≡ 200
      → (v ≡ true) × ((a : Approval) × (read_approval rt sl body ≡ ok a) × IsSent a w w')
  unfolding handle_verified
  handle_verified-IsSent body false w h t = absurd (
      ground (
        arith,
        respond-status 401 (field (name "error") (text "invalid Slack signature") end)
            (ap (λ x. x.0) h),
      ))
  handle_verified-IsSent body true w h t =
      elim (catch-ok (Exec.◌>>=◌ (lift (read_approval rt sl body)) (record_and_send rt sl ports))
        (rejected rt sl ports) w h) [
          | inl returned ↦
              let (a, w1, e1, h1) =
                bind-ok (lift (read_approval rt sl body)) (record_and_send rt sl ports) w
                  returned in
              (
                refl,
                (
                  a,
                  ap (λ x. x.0) e1,
                  record_and_send-IsSent a w
                      (ap (record_and_send rt sl ports a) (ap (λ x. x.1) e1) ∙ h1),
                ),
              )
          | inr (e, _, handled) ↦ absurd (rejected-status e _ handled t)
        ]

  -- If the handler answers with the status 200, then the event has a signature that is right and
  -- in time and a body that reads as an approval, the audit record of this approval has been
  -- written if there is a writer, and after it the task success with the decision, the approver
  -- and the reason has been sent under the task token of the approval and returned.
  pub lambda_handler-IsSent :
      (secret : String) (now : ℤ) (event : Fields) (w w' : W) {r : Response}
      → lambda_handler rt sl ports secret now event w ≡ (ok r, w')
      → r.status_code ≡ 200
      → (body : String) × (a : Approval) × IsSigned rt sl ports secret now event body
        × (read_approval rt sl body ≡ ok a)
        × IsSent a w w'
  unfolding lambda_handler
  lambda_handler-IsSent secret now event w w' h t =
      let headers = headers_of rt (some (or_else (get "headers" event) (mapping end))) in
      let verify = λ (body : String).
        verify_slack_signature rt sl secret (source_text rt "x-slack-request-timestamp" headers)
          body (source_text rt "x-slack-signature" headers) now in
      let (body, w1, e1, h1) =
        bind-ok (lift (raw_body rt sl event))
          (λ body. Exec.◌>>=◌ (lift (verify body)) (handle_verified rt sl ports body)) w h in
      let (v, w2, e2, h2) = bind-ok (lift (verify body)) (handle_verified rt sl ports body) w1 h1 in
      let same = ap (λ x. x.1) e1 ∙ ap (λ x. x.1) e2 in
      let (signed, (a, read, sent)) =
        handle_verified-IsSent body v w (ap (handle_verified rt sl ports body v) same ∙ h2) t in
      (body, a, (ap (λ x. x.0) e1, ap (λ x. x.0) e2 ∙ ap ok signed), read, sent)
