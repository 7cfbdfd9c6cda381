-- ===== src/Daemon/Session/Moves.antt =====
-- The sessions that a connection goes through, and what they answer to jobs that they have gone past.
use pan.Prelude.{
  subst, ℕ, ◌≤◌, ◌<◌, ◌≡◌, refl, inl, inr, String, List, Option-cases, Result, ok, err, arith,
  lt→ltb,
}
use pan.Table.{lookup}
use pan.Daemon.Wire.{superseded, Body, perceive_body, Envelope}
use pan.Daemon.Dispatch.{DispatchOutcome}
use pan.Daemon.Session.{
  Runtime, Session, PerceiveJob, alloc_seq, error_response, begin_perceive, superseded_text,
  finish_perceive, handle,
}
use pan.Daemon.Session.Ledger.{
  revision_of, note_revision-Noted, handle-Raised, begin_perceive-Raised, finish_perceive-Raised,
}

module _ {W : Type 0} where
  -- The sessions that a connection goes through: the lock is held by one call at a time.
  pub data Moves (rt : Runtime W) : Session W → Session W → Type 0 where
    still : {s : Session W} → Moves rt s s
    numbers : {s t : Session W} → Moves rt s t → Moves rt s (alloc_seq t).1
    handles :
        {s t : Session W} (env : Envelope) (w : W) → Moves rt s t → Moves rt s (handle rt env t w).1
    begins :
        {s t : Session W} (re : ℕ) (b : Body)
        → Moves rt s t
        → Moves rt s (begin_perceive rt re b t).1
    finishes :
        {s t : Session W} (job : PerceiveJob W) (o : DispatchOutcome)
        → Moves rt s t
        → Moves rt s (finish_perceive rt job o t).1

  Moves-Raised :
      {rt : Runtime W} {s t : Session W}
      → Moves rt s t
      → (id : String) → revision_of id s ≤ revision_of id t
  unfolding alloc_seq revision_of
  Moves-Raised still id = omega arith
  Moves-Raised (numbers m) id = Moves-Raised m id
  Moves-Raised {rt} (handles {t} env w m) id =
      let before = Moves-Raised m id in let after = handle-Raised rt env t w id in omega arith
  Moves-Raised {rt} (begins {t} re b m) id =
      let before = Moves-Raised m id in
      let after = begin_perceive-Raised rt re b t id in omega arith
  Moves-Raised {rt} (finishes {t} job o m) id =
      let before = Moves-Raised m id in
      let after = finish_perceive-Raised rt job o t id in omega arith

  Noted : Result (List Envelope) (PerceiveJob W) × Session W → Type 0
  Noted (err out, t) = Unit
  Noted (ok job, t) = job.goal.revision ≤ revision_of job.goal.id t

  begin_perceive-Noted :
      (rt : Runtime W) (re : ℕ) (b : Body) (s : Session W) → Noted (begin_perceive rt re b s)
  unfolding begin_perceive revision_of Noted
  begin_perceive-Noted rt re (perceive_body b) s = elim (Option-cases (lookup b.soul_id s.souls)) [
    | inl e ↦ rw (e, begin_perceive, Noted) tt
    | inr (x, e) ↦ rw (e, begin_perceive, Noted) (note_revision-Noted b.goal s.latest_revision)
  ]
  begin_perceive-Noted rt re _ s = tt

  -- Once a session has begun on a newer revision of a goal, a job of an older one ends in one
  -- `superseded` error, whatever its mind decided and whatever happened to the session since.
  pub finish_perceive-Superseded :
      (rt : Runtime W) (newer older : PerceiveJob W) (re : ℕ) (b : Body) (s t u : Session W)
      → begin_perceive rt re b s ≡ (ok newer, t)
      → older.goal.id ≡ newer.goal.id
      → older.goal.revision < newer.goal.revision
      → Moves rt t u
      → (o : DispatchOutcome)
      → finish_perceive rt older o u
        ≡ error_response older.re superseded
            (superseded_text rt older.goal (revision_of older.goal.id u))
            u
  unfolding finish_perceive Noted revision_of
  finish_perceive-Superseded rt newer older re b s t u h same behind m o =
      let noted : newer.goal.revision ≤ revision_of newer.goal.id t =
        subst (λ r. Noted r) h (begin_perceive-Noted rt re b s) in
      let raised = Moves-Raised m newer.goal.id in
      let gone : older.goal.revision < revision_of older.goal.id u = rw same (omega arith) in
      rw (lt→ltb older.goal.revision (revision_of older.goal.id u) gone, finish_perceive) refl
