-- ===== src/Daemon/Session/Numbering.antt =====
-- Each message is answered once, under the session's next number and with the number of the message.
use pan.Prelude.{
  subst, ℕ, ◌+◌, ◌%◌, ◌^◌, ◌≡◌, refl, inl, inr, String, List, [], ◌∷◌, some, Bool-cases,
  Option-cases, Result-cases, Result, ok, err, not, ◌==◌, ◌||◌, str_eq, ltb, unwrap_or,
}
use pan.Table.{lookup}
use pan.Registry
use pan.Daemon.Wire.{
  ErrorCode, MessageType, hello, welcome, register_capabilities, instantiate_soul, release_soul,
  perceive, decision, ack, error, shutdown, Body, hello_body, welcome_body, register_body,
  instantiate_body, release_body, perceive_body, decision_body, ack_body, error_body, Envelope,
  outgoing, protocol_version, server_identity,
}
use pan.Daemon.Dispatch.{DispatchOutcome, passed, failed}
use pan.Daemon.Session.{
  Runtime, Session, SessionError, version_unsupported, PerceiveJob, Replies, register_each, reply,
  error_response, on_hello, on_register, on_instantiate, on_release, begin_perceive,
  format_perceive_outcome, advertised_minds, finish_perceive, run_job, rest_of_perceive,
  on_perceive, handle,
}

-- The one reply to the message `re`, and the count of it.
pub record OneReply {W : Type 0} (re : ℕ) (s : Session W) (r : Replies W) : Type 0 where
  pub message : Body
  pub sent : r.0 ≡ outgoing s.next_seq (some re) message ∷ []
  pub counted : r.1.next_seq ≡ (s.next_seq + 1) % 2 ^ 64

module _ {W : Type 0} where
  -- A reply of a session that has given out as many numbers as `s`.
  reply-OneReply :
      (re : ℕ) (b : Body) (s t : Session W) → t.next_seq ≡ s.next_seq → OneReply re s (reply re b t)
  unfolding reply
  reply-OneReply re b s t e = record { message = b; sent = rw e refl; counted = rw e refl }

  error_response-OneReply :
      (re : ℕ) (c : ErrorCode) (m : String) (s t : Session W)
      → t.next_seq ≡ s.next_seq
      → OneReply re s (error_response re c m t)
  unfolding error_response
  error_response-OneReply re c m = reply-OneReply re (error_body (record { code = c; message = m }))

  on_register-OneReply : (re : ℕ) (b : Body) (s : Session W) → OneReply re s (on_register re b s)
  unfolding on_register
  on_register-OneReply re (register_body cs) s =
      elim (Result-cases (register_each cs Registry.new)) [
        | inl (r, e) ↦ rw (e, on_register) (reply-OneReply re ack_body s _ refl)
        | inr (x, e) ↦ rw (e, on_register) (error_response-OneReply re _ _ s s refl)
      ]
  on_register-OneReply re _ s = error_response-OneReply re _ _ s s refl

  on_instantiate-OneReply :
      (rt : Runtime W) (re : ℕ) (b : Body) (s : Session W)
      → OneReply re s (on_instantiate rt re b s)
  unfolding on_instantiate
  on_instantiate-OneReply rt re (instantiate_body b) s = reply-OneReply re ack_body s _ refl
  on_instantiate-OneReply rt re _ s = error_response-OneReply re _ _ s s refl

  on_release-OneReply : (re : ℕ) (b : Body) (s : Session W) → OneReply re s (on_release re b s)
  unfolding on_release
  on_release-OneReply re (release_body id) s = elim (Option-cases (lookup id s.souls)) [
    | inl e ↦ rw (e, on_release) (error_response-OneReply re _ _ s _ refl)
    | inr (x, e) ↦ rw (e, on_release) (reply-OneReply re ack_body s _ refl)
  ]
  on_release-OneReply re _ s = error_response-OneReply re _ _ s s refl

  format-OneReply :
      (job : PerceiveJob W) (o : DispatchOutcome) (s : Session W)
      → OneReply job.re s (format_perceive_outcome job o s)
  unfolding format_perceive_outcome
  format-OneReply job (passed intents) s =
      reply-OneReply job.re
        (decision_body (record {
          soul_id = job.soul_id;
          goal_id = job.goal.id;
          goal_revision = job.goal.revision;
          decision = record { intents = intents };
        }))
        s s refl
  format-OneReply job (failed c m) s = error_response-OneReply job.re c m s s refl

  -- The end of a job answers the message that began it.
  pub finish_perceive-OneReply :
      (rt : Runtime W) (job : PerceiveJob W) (o : DispatchOutcome) (s : Session W)
      → OneReply job.re s (finish_perceive rt job o s)
  unfolding finish_perceive
  finish_perceive-OneReply rt job o s =
      elim (Bool-cases
        (ltb job.goal.revision (unwrap_or (lookup job.goal.id s.latest_revision) 0))) [
          | inl e ↦ rw (e, finish_perceive) (error_response-OneReply job.re _ _ s s refl)
          | inr e ↦ rw (e, finish_perceive) (format-OneReply job o s)
        ]

  -- A perceive is answered at once, or begins a job under its number and without one for a reply.
  pub data Begun (re : ℕ) (s : Session W)
      : Result (List Envelope) (PerceiveJob W) × Session W → Type 0 where
    refused : {r : Replies W} → OneReply re s r → Begun re s (err r.0, r.1)
    started :
        {job : PerceiveJob W} {t : Session W}
        → job.re ≡ re
        → t.next_seq ≡ s.next_seq
        → Begun re s (ok job, t)

  pub begin_perceive-Begun :
      (rt : Runtime W) (re : ℕ) (b : Body) (s : Session W) → Begun re s (begin_perceive rt re b s)
  unfolding begin_perceive
  begin_perceive-Begun rt re (perceive_body b) s = elim (Option-cases (lookup b.soul_id s.souls)) [
    | inl e ↦ rw (e, begin_perceive) (refused (error_response-OneReply re _ _ s s refl))
    | inr (x, e) ↦ rw (e, begin_perceive) (started refl refl)
  ]
  begin_perceive-Begun rt re _ s = refused (error_response-OneReply re _ _ s s refl)

  OneReply-from :
      {re : ℕ} {s t : Session W} {r : Replies W}
      → t.next_seq ≡ s.next_seq
      → OneReply re t r
      → OneReply re s r
  OneReply-from {re} {s} {t} {r} e o = record {
    message = o.message;
    sent = subst (λ n. r.0 ≡ outgoing n (some re) o.message ∷ []) e o.sent;
    counted = subst (λ n. r.1.next_seq ≡ (n + 1) % 2 ^ 64) e o.counted;
  }

  -- `on_perceive`, from what `begin_perceive` came to.
  rest_of_perceive-OneReply :
      (rt : Runtime W) (re : ℕ) (s : Session W) (w : W)
      {b : Result (List Envelope) (PerceiveJob W) × Session W}
      → Begun re s b
      → OneReply re s (rest_of_perceive rt b w).0
  unfolding rest_of_perceive
  rest_of_perceive-OneReply rt re s w (refused o) = o
  rest_of_perceive-OneReply rt re s w (started {job} {t} e n) = OneReply-from n (
      subst (λ x. OneReply x t (finish_perceive rt job (run_job rt job w).0 t)) e
        (finish_perceive-OneReply rt job (run_job rt job w).0 t))

  on_perceive-OneReply :
      (rt : Runtime W) (re : ℕ) (b : Body) (s : Session W) (w : W)
      → OneReply re s (on_perceive rt re b s w).0
  unfolding on_perceive
  on_perceive-OneReply rt re b s w =
      rest_of_perceive-OneReply rt re s w (begin_perceive-Begun rt re b s)

  -- What `handle` comes to: one reply, or an error that leaves the session as it was.
  pub data Handled (re : ℕ) (s : Session W)
      : Result SessionError (List Envelope) × Session W → Type 0 where
    answered : {r : Replies W} → OneReply re s r → Handled re s (ok r.0, r.1)
    closing : (e : SessionError) → Handled re s (err e, s)

  on_hello-Handled :
      (rt : Runtime W) (re : ℕ) (b : Body) (s : Session W) → Handled re s (on_hello rt re b s)
  unfolding on_hello
  on_hello-Handled rt re (hello_body b) s =
      elim (Bool-cases
        (not (b.protocol_version == protocol_version) || not (str_eq b.profile "reachlock/0"))) [
          | inl e ↦
              rw (e, on_hello) (closing (version_unsupported b.protocol_version protocol_version))
          | inr e ↦
              rw (e, on_hello)
                (answered (
                  reply-OneReply re
                    (welcome_body (record {
                      protocol_version = protocol_version;
                      server = server_identity;
                      minds = advertised_minds rt;
                    }))
                    s s refl))
        ]
  on_hello-Handled rt re _ s = answered (error_response-OneReply re _ _ s s refl)

  -- Every message that `handle` does not refuse to go on after is answered by one message, with the
  -- session's next number and the number of the message; the counter moves on by one, and wraps.
  pub handle-Handled :
      (rt : Runtime W) (env : Envelope) (s : Session W) (w : W)
      → Handled env.seq s ((handle rt env s w).0, (handle rt env s w).1)
  unfolding handle
  handle-Handled rt env s w = go env.ty
    where
      go :
          (ty : MessageType)
          → Handled env.seq s (
            (handle rt (record env { ty = ty }) s w).0,
            (handle rt (record env { ty = ty }) s w).1,
          )
      go hello = on_hello-Handled rt env.seq env.body s
      go welcome = answered (error_response-OneReply env.seq _ _ s s refl)
      go register_capabilities = answered (on_register-OneReply env.seq env.body s)
      go instantiate_soul = answered (on_instantiate-OneReply rt env.seq env.body s)
      go release_soul = answered (on_release-OneReply env.seq env.body s)
      go perceive = answered (on_perceive-OneReply rt env.seq env.body s w)
      go decision = answered (error_response-OneReply env.seq _ _ s s refl)
      go ack = answered (error_response-OneReply env.seq _ _ s s refl)
      go error = answered (error_response-OneReply env.seq _ _ s s refl)
      go shutdown = answered (reply-OneReply env.seq ack_body s s refl)
