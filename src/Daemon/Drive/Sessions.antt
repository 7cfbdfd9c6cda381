-- ===== src/Daemon/Drive/Sessions.antt =====
-- The driver only changes the session of a connection by the session's own methods.
use pan.Prelude.{
  ℕ, ◌≡◌, refl, inl, inr, Bool, String, List, Result, ok, err, str_eq, ltb, Bool-cases,
  Result-cases,
}
use pan.Daemon.Wire.{Envelope}
use pan.Daemon.Session
use pan.Daemon.Session.{
  Runtime, Session, SessionError, PerceiveJob, begin_perceive, finish_perceive, run_job, handle,
}
use pan.Daemon.Session.Moves.{Moves, still, numbers, handles, begins, finishes}
use pan.Daemon.Session.Consistency.{Consistent, Moves-Consistent}
use pan.Daemon.Drive.{
  Host, pop_if, parse_envelope, max_line_bytes, Connection, accepted, complain, after_begin,
  after_handle, on_envelope, is_perceive, is_shutdown, receive, finish,
}
use pan.Daemon.Drive.Steps.{Reached, accepts, reads, hangs_up, decides, replies, delivers}

module _ {W : Type 0} (rt : Runtime W) where
  after_begin-session :
      (c : Connection W) (b : Result (List Envelope) (PerceiveJob W) × Session W)
      → (after_begin c b).session ≡ b.1
  unfolding after_begin
  after_begin-session c (err out, s) = refl
  after_begin-session c (ok job, s) = refl

  after_handle-Moves :
      (b : Bool) (c : Connection W) (r : Result SessionError (List Envelope)) (t : Session W)
      (w : W)
      → Moves rt Session.new t
      → Moves rt Session.new (after_handle rt b c (r, t, w)).session
  unfolding after_handle complain
  after_handle-Moves b c (ok out) t w m = m
  after_handle-Moves b c (err (Session.version_unsupported client ours)) t w m = numbers m

  on_envelope-Moves :
      (env : Envelope) (c : Connection W)
      → Moves rt Session.new c.session
      → Moves rt Session.new (on_envelope rt env c).session
  unfolding on_envelope
  on_envelope-Moves env c m = elim (Bool-cases (is_perceive env.ty)) [
    | inl e ↦
        rw (e, on_envelope)
          (rw (after_begin-session c (begin_perceive rt env.seq env.body c.session))
            (begins env.seq env.body m))
    | inr e ↦
        let (r, t, w) = handle rt env c.session c.world in
        rw (e, on_envelope)
          (after_handle-Moves (is_shutdown env.ty) c r t w (handles env c.world m))
  ]

  receive-Moves :
      (host : Host) (line_buf : String) (c : Connection W)
      → Moves rt Session.new c.session
      → Moves rt Session.new (receive host rt line_buf c).session
  unfolding receive complain
  receive-Moves host line_buf c m =
      let line = pop_if "\r" (pop_if "\n" line_buf) in
      elim (Bool-cases (str_eq line "")) [
        | inl e ↦ rw (e, receive) m
        | inr e ↦ elim (Bool-cases (ltb max_line_bytes (host.bytes line))) [
          | inl l ↦ rw (e, l, receive) (numbers m)
          | inr l ↦ elim (Result-cases (parse_envelope host line)) [
            | inl (env, p) ↦ rw (e, l, p, receive) (on_envelope-Moves env c m)
            | inr (x, p) ↦ rw (e, l, p, receive) (numbers m)
          ]
        ]
      ]

  -- The session that a connection comes to is one that its methods make from a new one.
  pub Reached-Moves :
      (host : Host) (w : W) (n : ℕ) (c : Connection W)
      → Reached host rt w n c
      → Moves rt Session.new c.session
  unfolding accepted finish
  Reached-Moves host w n c accepts = still
  Reached-Moves host w n c (reads {n = m} {c = b} line_buf o q r) =
      receive-Moves host line_buf b (Reached-Moves host w m b r)
  Reached-Moves host w n c (hangs_up {c = b} o q r) = Reached-Moves host w n b r
  Reached-Moves host w n c (decides {c = b} before job behind q r) =
      finishes job (run_job rt job b.world).0 (Reached-Moves host w n b r)
  Reached-Moves host w n c (replies {c = b} e rest q r) = Reached-Moves host w n b r
  Reached-Moves host w n c (delivers {c = b} before e behind q r) = Reached-Moves host w n b r

  -- On every connection, however its tasks are interleaved, the session governs and executes for the
  -- registry that it holds.
  pub Reached-Consistent :
      (host : Host) (w : W) (n : ℕ) (c : Connection W)
      → Reached host rt w n c
      → Consistent c.session
  unfolding Session.new
  Reached-Consistent host w n c r = Moves-Consistent (Reached-Moves host w n c r) refl
