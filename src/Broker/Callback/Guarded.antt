-- ===== src/Broker/Callback/Guarded.antt =====
-- What the callback does outside, and what a success stands for.
use mathlib.Core.Path.{subst}
use sams_simlplifynext.Prelude.{
  String, Bool, true, false, Option, some, ◌≡◌, refl, sym, ap, ◌∙◌, ◌⊎◌, inl, inr, arith,
}
use sams_simlplifynext.Prelude.Int.{ℤ}
use sams_simlplifynext.Errors.{Exn, ok}
use sams_simlplifynext.Exec
use sams_simlplifynext.Exec.{Exec, lift, Always, Always-bind, Always-catch, bind-ok}
use sams_simlplifynext.Runtime.{Runtime}
use sams_simlplifynext.Value.{Fields, name, boolean, field, mapping, end, get, find}
use sams_simlplifynext.Plan.Canonical.{json_text}
use sams_simlplifynext.Prelude.{or_else}
use sams_simlplifynext.Broker.Callback.{
  SlackRuntime, verify_slack_signature, headers_of, source_text, raw_body, Approval, read_approval,
  decision_record, decision_output, respond, CallbackPorts, write_decision, send_output,
  send_decision, record_with, record_and_send, rejected, handle_verified, lambda_handler,
}

module _ {W : Type 0} (rt : Runtime) (sl : SlackRuntime) (ports : CallbackPorts W) where
  -- The audit record of the approval has been written, and then the state was `w'`.
  pub record IsAudited (a : Approval) (w w' : W) : Type 0 where
    pub writer : Option (Fields → Exec W String)
    pub opened : W
    pub open_writer : ports.open_audit w ≡ (ok writer, opened)
    pub written : write_decision rt sl ports writer (decision_record rt a) opened ≡ (ok tt, w')

  -- The states in which the handling of an approval can end.
  pub data Reached (a : Approval) (w : W) : W → Type 0 where
    opening : Reached a w (ports.open_audit w).1
    auditing :
        {writer : Option (Fields → Exec W String)} {opened : W}
        → ports.open_audit w ≡ (ok writer, opened)
        → Reached a w (write_decision rt sl ports writer (decision_record rt a) opened).1
    sending :
        {w' : W} {output : String}
        → IsAudited a w w'
        → json_text (mapping (decision_output a)) ≡ ok output
        → Reached a w (ports.send_task_success a.task_token output w').1

  -- The signature over the body of the event is right and in time.
  abbrev pub IsSigned : String → ℤ → Fields → String → Type 0
  IsSigned secret now event body =
      let headers = headers_of rt (some (or_else (get "headers" event) (mapping end))) in
      (raw_body rt sl event ≡ ok body)
      × (verify_slack_signature rt sl secret (source_text rt "x-slack-request-timestamp" headers)
            body (source_text rt "x-slack-signature" headers) now
          ≡ ok true)

  -- Nothing has been done, or the event is signed and an approval has been read from it, which has
  -- been handled so far.
  abbrev pub Progress : String → ℤ → Fields → W → W → Type 0
  Progress secret now event w w' =
      (w' ≡ w)
      ⊎ ((body : String) × (a : Approval) × IsSigned secret now event body
          × (read_approval rt sl body ≡ ok a)
          × Reached a w w')

  send_decision-Reached :
      (a : Approval) (w w' : W)
      → IsAudited a w w'
      → Reached a w w'
      → Reached a w (send_decision rt sl ports a w').1
  unfolding send_decision respond
  send_decision-Reached a w w' audited here =
      Always-bind (Reached a w) (lift (json_text (mapping (decision_output a))))
        (send_output rt sl ports a) w' here
        λ output e.
          Always-bind (Reached a w) (ports.send_task_success a.task_token output)
            (λ _. lift (respond 200 (field (name "ok") (boolean true) end))) w' (sending audited e)
            λ _ _. sending audited e

  record_and_send-Reached : (a : Approval) (w : W) → Reached a w (record_and_send rt sl ports a w).1
  unfolding record_and_send record_with find
  record_and_send-Reached a w =
      let w1 = (ports.open_audit w).1 in
      Always-bind (Reached a w) ports.open_audit (record_with rt sl ports a) w opening λ writer e.
        let opened : ports.open_audit w ≡ (ok writer, w1) = λ i. (e i, w1) in
        let write = write_decision rt sl ports writer (decision_record rt a) in
        Always-bind (Reached a w) write (λ _. send_decision rt sl ports a) w1 (auditing opened)
          λ _ e2.
            send_decision-Reached a w (write w1).1
              (record {
                writer = writer;
                opened = w1;
                open_writer = opened;
                written = λ i. (e2 i, (write w1).1);
              })
              (auditing opened)

  rejected-unchanged : (e : Exn) (w : W) → (rejected rt sl ports e w).1 ≡ w
  unfolding rejected
  rejected-unchanged e w = ground arith

  handle_approval-Reached :
      (secret : String) (now : ℤ) (event : Fields) (body : String) (w : W)
      → IsSigned secret now event body
      → Progress secret now event w (handle_verified rt sl ports body true w).1
  unfolding handle_verified
  handle_approval-Reached secret now event body w signed =
      let Q = Progress secret now event w in
      Always-catch Q (Exec.◌>>=◌ (lift (read_approval rt sl body)) (record_and_send rt sl ports))
        (rejected rt sl ports) w
        (Always-bind Q (lift (read_approval rt sl body)) (record_and_send rt sl ports) w (inl refl)
          λ a e. inr (body, a, signed, e, record_and_send-Reached a w))
        (λ e _. subst Q (sym (rejected-unchanged e _)) (
          Always-bind Q (lift (read_approval rt sl body)) (record_and_send rt sl ports) w (inl refl)
            λ a e. inr (body, a, signed, e, record_and_send-Reached a w)))

  handle_verified-Progress :
      (secret : String) (now : ℤ) (event : Fields) (body : String) (v : Bool) (w : W)
      → (v ≡ true → IsSigned secret now event body)
      → Progress secret now event w (handle_verified rt sl ports body v w).1
  unfolding handle_verified
  handle_verified-Progress secret now event body false w signed = inl refl
  handle_verified-Progress secret now event body true w signed =
      handle_approval-Reached secret now event body w (signed refl)

  -- Whatever the event is and whether the handler returns or raises, it leaves the outside as it
  -- was, or the event has a signature that is right and in time and a body that reads as an
  -- approval, and the outside is as the opening of the audit writer left it, as the write of the
  -- audit record of this approval left it, or as the task success with the decision of this
  -- approval left it, which is sent only after the audit record has been written if there is a
  -- writer.
  pub lambda_handler-Progress :
      (secret : String) (now : ℤ) (event : Fields) (w : W)
      → Progress secret now event w (lambda_handler rt sl ports secret now event w).1
  unfolding lambda_handler
  lambda_handler-Progress secret now event w =
      let Q = Progress secret now event w in
      let headers = headers_of rt (some (or_else (get "headers" event) (mapping end))) in
      let verify = λ (body : String).
        verify_slack_signature rt sl secret (source_text rt "x-slack-request-timestamp" headers)
          body (source_text rt "x-slack-signature" headers) now in
      Always-bind Q (lift (raw_body rt sl event))
        (λ body. Exec.◌>>=◌ (lift (verify body)) (handle_verified rt sl ports body)) w (inl refl)
        λ body e.
          Always-bind Q (lift (verify body)) (handle_verified rt sl ports body) w (inl refl)
            λ v e2. handle_verified-Progress secret now event body v w (λ t. (e, e2 ∙ ap ok t))
