-- ===== src/Daemon/Drive/Numbers.antt =====
-- The sequence numbers of what a connection sends, and the count of its replies.
use pan.Prelude.{
  subst, sym, ℕ, ◌+◌, ◌≡◌, refl, inl, inr, Bool, false, String, List, [], ◌∷◌, ◌++◌, none, some,
  Result, ok, str_eq, ltb, not, arith, length-append, Bool-cases, Result-cases,
}
use pan.Daemon.Wire.{ErrorCode, error_body, Envelope, outgoing}
use pan.Daemon.Session
use pan.Daemon.Session.{
  Runtime, Session, SessionError, PerceiveJob, Replies, alloc_seq, begin_perceive, finish_perceive,
  run_job, handle,
}
use pan.Daemon.Session.Numbering.{
  OneReply, finish_perceive-OneReply, Begun, refused, started, begin_perceive-Begun, Handled,
  answered, closing, handle-Handled,
}
use pan.Daemon.Drive.{
  Host, pop_if, parse_envelope, max_line_bytes, Connection, accepted, complain, after_begin,
  after_handle, on_envelope, is_perceive, is_shutdown, receive, finish,
}
use pan.Daemon.Drive.Steps.{
  is_blank, asks, Reached, accepts, reads, hangs_up, decides, replies, delivers,
}
use pan.Daemon.Drive.Tally.{
  given, times, times-append, sent, tally, Numbered, Sends-Numbered, Keeps-Numbered, Keeps-refl,
  Queues, Finishes,
}

module _ {W : Type 0} where
  complain-Numbered :
      (n : ℕ) (code : ErrorCode) (m : String) (c : Connection W)
      → c.queue ≡ []
      → Numbered n c
      → Numbered (1 + n) (complain code m c)
  unfolding complain alloc_seq outgoing
  complain-Numbered n code m c q =
      Sends-Numbered n (1 + n) c (complain code m c)
        (Queues c (alloc_seq c.session).1 c.world c.is_open
          (outgoing c.session.next_seq none (error_body (record { code = code; message = m }))) q
          refl refl)
        (omega arith)

  -- The one reply of a session, in the queue.
  OneReply-Numbered :
      (n re : ℕ) (r : Replies W) (c : Connection W) (w : W) (o : Bool)
      → c.queue ≡ []
      → OneReply re c.session r
      → Numbered n c
      → Numbered (1 + n) (record c { session = r.1; world = w; is_open = o; queue = r.0 })
  unfolding outgoing
  OneReply-Numbered n re r c w o q one i =
      subst (λ x. Numbered (1 + n) (record c { session = r.1; world = w; is_open = o; queue = x }))
        (sym one.sent)
        (Sends-Numbered n (1 + n) c
          (record c {
            session = r.1;
            world = w;
            is_open = o;
            queue = outgoing c.session.next_seq (some re) one.message ∷ [];
          })
          (Queues c r.1 w o (outgoing c.session.next_seq (some re) one.message) q refl one.counted)
          (omega arith) i)

  after_begin-Numbered :
      (n re : ℕ) (c : Connection W) {b : Result (List Envelope) (PerceiveJob W) × Session W}
      → c.queue ≡ []
      → Begun re c.session b
      → Numbered n c
      → Numbered (1 + n) (after_begin c b)
  unfolding after_begin sent tally
  after_begin-Numbered n re c q (refused {r} one) i =
      OneReply-Numbered n re r c c.world c.is_open q one i
  after_begin-Numbered n re c q (started {job} {t} e next) i =
      Keeps-Numbered n (1 + n) c (after_begin c (ok job, t))
        (record { next = next; same = refl; among = λ k. refl })
        (omega (arith, length-append c.jobs (job ∷ []))) i

  after_handle-Numbered :
      (rt : Runtime W) (n re : ℕ) (b : Bool) (c : Connection W) (w : W)
      {h : Result SessionError (List Envelope) × Session W}
      → c.queue ≡ []
      → Handled re c.session h
      → Numbered n c
      → Numbered (1 + n) (after_handle rt b c (h.0, h.1, w))
  unfolding after_handle sent tally
  after_handle-Numbered rt n re b c w q (answered {r} one) i =
      OneReply-Numbered n re r c w (not b) q one i
  after_handle-Numbered rt n re b c w q (closing (Session.version_unsupported client ours)) i =
      complain-Numbered n _ _ (record c { world = w; is_open = false }) q
        (record { next = i.next; each = i.each; all = i.all })

  on_envelope-Numbered :
      (rt : Runtime W) (n : ℕ) (env : Envelope) (c : Connection W)
      → c.queue ≡ []
      → Numbered n c
      → Numbered (1 + n) (on_envelope rt env c)
  unfolding on_envelope
  on_envelope-Numbered rt n env c q i = elim (Bool-cases (is_perceive env.ty)) [
    | inl e ↦
        rw (e, on_envelope)
          (after_begin-Numbered n env.seq c q (begin_perceive-Begun rt env.seq env.body c.session)
            i)
    | inr e ↦
        rw (e, on_envelope)
          (after_handle-Numbered rt n env.seq (is_shutdown env.ty) c
            (handle rt env c.session c.world).2 q (handle-Handled rt env c.session c.world) i)
  ]

  receive-Numbered :
      (host : Host) (rt : Runtime W) (n : ℕ) (line_buf : String) (c : Connection W)
      → c.queue ≡ []
      → Numbered n c
      → Numbered (asks line_buf + n) (receive host rt line_buf c)
  unfolding receive asks is_blank
  receive-Numbered host rt n line_buf c q i =
      let line = pop_if "\r" (pop_if "\n" line_buf) in
      elim (Bool-cases (str_eq line "")) [
        | inl e ↦ rw (e, receive, asks) (Keeps-Numbered n (0 + n) c c Keeps-refl (omega arith) i)
        | inr e ↦ elim (Bool-cases (ltb max_line_bytes (host.bytes line))) [
          | inl l ↦ rw (e, l, receive, asks) (complain-Numbered n _ _ c q i)
          | inr l ↦ elim (Result-cases (parse_envelope host line)) [
            | inl (env, p) ↦ rw (e, l, p, receive, asks) (on_envelope-Numbered rt n env c q i)
            | inr (x, p) ↦ rw (e, l, p, receive, asks) (complain-Numbered n x.0 x.1 c q i)
          ]
        ]
      ]

  finish-Numbered :
      (rt : Runtime W) (n : ℕ) (before : List (PerceiveJob W)) (job : PerceiveJob W)
      (behind : List (PerceiveJob W)) (c : Connection W)
      → c.jobs ≡ before ++ job ∷ behind
      → Numbered n c
      → Numbered n (finish rt job (before ++ behind) c)
  unfolding finish
  finish-Numbered rt n before job behind c q =
      let (outcome, w) = run_job rt job c.world in
      Sends-Numbered n n c (finish rt job (before ++ behind) c)
        (Finishes c (finish_perceive rt job outcome c.session) w (before ++ behind) job.re
          (finish_perceive-OneReply rt job outcome c.session))
        (rw (q, length-append before (job ∷ behind), length-append before behind) (omega arith))

  reply-Numbered :
      (n : ℕ) (e : Envelope) (rest : List Envelope) (c : Connection W)
      → c.queue ≡ e ∷ rest
      → Numbered n c
      → Numbered n (record c { queue = rest; written = c.written ++ e ∷ [] })
  unfolding sent tally times
  reply-Numbered n e rest c q =
      Keeps-Numbered n n c (record c { queue = rest; written = c.written ++ e ∷ [] })
        (record {
          next = refl;
          same = rw (q, length-append c.written (e ∷ [])) (omega arith);
          among = λ k. rw (q, times-append k c.written (e ∷ [])) (omega arith);
        })
        refl

  deliver-Numbered :
      (n : ℕ) (before : List Envelope) (e : Envelope) (behind : List Envelope) (c : Connection W)
      → c.finished ≡ before ++ e ∷ behind
      → Numbered n c
      → Numbered n (record c { finished = before ++ behind; written = c.written ++ e ∷ [] })
  unfolding sent tally times
  deliver-Numbered n before e behind c q =
      Keeps-Numbered n n c (record c { finished = before ++ behind; written = c.written ++ e ∷ [] })
        (record {
          next = refl;
          same =
              rw
                (
                  q,
                  length-append c.written (e ∷ []),
                  length-append before (e ∷ behind),
                  length-append before behind,
                )
                (omega arith);
          among = λ k.
              rw
                (
                  q,
                  times-append k c.written (e ∷ []),
                  times-append k before (e ∷ behind),
                  times-append k before behind,
                )
                (omega arith);
        })
        refl

  -- However reading, deciding and writing are interleaved, the messages of a connection, written and
  -- still to be written, have the numbers of the session's counter from 0 on, each once until 64 bits
  -- wrap; and each line that the peer sent has one message, or one task that has yet to make it.
  pub Reached-Numbered :
      (host : Host) (rt : Runtime W) (w : W) (n : ℕ) (c : Connection W)
      → Reached host rt w n c
      → Numbered n c
  unfolding accepted sent tally given times Session.new
  Reached-Numbered host rt w n c accepts = record { next = refl; each = λ k. refl; all = refl }
  Reached-Numbered host rt w n c (reads {n = m} {c = b} line_buf o q r) =
      receive-Numbered host rt m line_buf b q (Reached-Numbered host rt w m b r)
  Reached-Numbered host rt w n c (hangs_up {c = b} o q r) =
      let i = Reached-Numbered host rt w n b r in
      record { next = i.next; each = i.each; all = i.all }
  Reached-Numbered host rt w n c (decides {c = b} before job behind q r) =
      finish-Numbered rt n before job behind b q (Reached-Numbered host rt w n b r)
  Reached-Numbered host rt w n c (replies {c = b} e rest q r) =
      reply-Numbered n e rest b q (Reached-Numbered host rt w n b r)
  Reached-Numbered host rt w n c (delivers {c = b} before e behind q r) =
      deliver-Numbered n before e behind b q (Reached-Numbered host rt w n b r)
