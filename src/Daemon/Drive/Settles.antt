-- ===== src/Daemon/Drive/Settles.antt =====
-- A connection whose peer has stopped sending can come to rest with every line answered.
use pan.Prelude.{ℕ, ◌+◌, ◌≡◌, refl, sym, ap, ◌∙◌, List, [], ◌∷◌, ◌++◌, arith, length}
use pan.Daemon.Wire.{Envelope}
use pan.Daemon.Session.{Runtime, PerceiveJob}
use pan.Daemon.Drive.{Host, Connection, finish}
use pan.Daemon.Drive.Steps.{Reached, decides, replies, delivers}
use pan.Daemon.Drive.Tally.{given, times, sent, tally}
use pan.Daemon.Drive.Numbers.{Reached-Numbered}

module _ {W : Type 0} (host : Host) (rt : Runtime W) (w : W) where
  -- The steps that need nothing more from the peer: a task decides, a reply is written, what a task has
  -- decided is written.
  pub data Settling : Connection W → Connection W → Type 0 where
    rests : {c : Connection W} → Settling c c
    then_decides :
        {c d : Connection W} (before : List (PerceiveJob W)) (job : PerceiveJob W)
        (behind : List (PerceiveJob W))
        → c.jobs ≡ before ++ job ∷ behind
        → Settling (finish rt job (before ++ behind) c) d
        → Settling c d
    then_replies :
        {c d : Connection W} (e : Envelope) (rest : List Envelope)
        → c.queue ≡ e ∷ rest
        → Settling (record c { queue = rest; written = c.written ++ e ∷ [] }) d
        → Settling c d
    then_delivers :
        {c d : Connection W} (before : List Envelope) (e : Envelope) (behind : List Envelope)
        → c.finished ≡ before ++ e ∷ behind
        → Settling (record c { finished = before ++ behind; written = c.written ++ e ∷ [] }) d
        → Settling c d

  Settling-append : {b c d : Connection W} → Settling b c → Settling c d → Settling b d
  Settling-append rests t = t
  Settling-append (then_decides before job behind e s) t =
      then_decides before job behind e (Settling-append s t)
  Settling-append (then_replies e rest q s) t = then_replies e rest q (Settling-append s t)
  Settling-append (then_delivers before e behind q s) t =
      then_delivers before e behind q (Settling-append s t)

  Settling-Reached :
      {c d : Connection W} (n : ℕ) → Settling c d → Reached host rt w n c → Reached host rt w n d
  Settling-Reached n rests r = r
  Settling-Reached n (then_decides before job behind e s) r =
      Settling-Reached n s (decides before job behind e r)
  Settling-Reached n (then_replies e rest q s) r = Settling-Reached n s (replies e rest q r)
  Settling-Reached n (then_delivers before e behind q s) r =
      Settling-Reached n s (delivers before e behind q r)

  -- The tasks decide, the first first.
  decided :
      (jobs : List (PerceiveJob W)) (c : Connection W)
      → c.jobs ≡ jobs
      → (d : Connection W) × Settling c d × (d.jobs ≡ [])
  unfolding finish
  decided [] c e = (c, rests, e)
  decided (job ∷ jobs) c e =
      let (d, s, j) = decided jobs (finish rt job jobs c) refl in
      (d, then_decides [] job jobs e s, j)

  replied :
      (es : List Envelope) (c : Connection W)
      → c.queue ≡ es
      → c.jobs ≡ []
      → (d : Connection W) × Settling c d × (d.jobs ≡ []) × (d.queue ≡ [])
  replied [] c e j = (c, rests, j, e)
  replied (x ∷ es) c e j =
      let (d, s, j2, rest) =
        replied es (record c { queue = es; written = c.written ++ x ∷ [] }) refl j in
      (d, then_replies x es e s, j2, rest)

  delivered :
      (es : List Envelope) (c : Connection W)
      → c.finished ≡ es
      → c.jobs ≡ []
      → c.queue ≡ []
      → (d : Connection W) × Settling c d × (d.jobs ≡ []) × (d.queue ≡ []) × (d.finished ≡ [])
  delivered [] c e j q = (c, rests, j, q, e)
  delivered (x ∷ es) c e j q =
      let (d, s, j2, q2, f2) =
        delivered es (record c { finished = es; written = c.written ++ x ∷ [] }) refl j q in
      (d, then_delivers [] x es e s, j2, q2, f2)

  -- A connection at rest: nothing is left to decide or to write, `n` messages have been written, one
  -- for each line, and their numbers are the first `n` of the counter.
  pub record AtRest (n : ℕ) (c : Connection W) : Type 0 where
    pub reached : Reached host rt w n c
    pub no_jobs : c.jobs ≡ []
    pub no_queue : c.queue ≡ []
    pub none_finished : c.finished ≡ []
    pub all_written : length c.written ≡ n
    pub numbered : (k : ℕ) → times k c.written ≡ given k n

  at_rest :
      (n : ℕ) (c : Connection W)
      → Reached host rt w n c
      → c.jobs ≡ []
      → c.queue ≡ []
      → c.finished ≡ []
      → AtRest n c
  unfolding sent tally times
  at_rest n c r j q f =
      let i = Reached-Numbered host rt w n c r in
      let total : sent c ≡ length c.written = rw (q, f) (omega arith) in
      let all : sent c + length c.jobs ≡ n = i.all in
      let whole : sent c + 0 ≡ n = rw j at all in
      let written : length c.written ≡ n = omega arith in
      record {
        reached = r;
        no_jobs = j;
        no_queue = q;
        none_finished = f;
        all_written = written;
        numbered = λ k.
            let each : tally k c ≡ given k (sent c) = i.each k in
            let counted : tally k c ≡ times k c.written = rw (q, f) (omega arith) in
            sym counted ∙ each ∙ ap (given k) (total ∙ written);
      }

  -- From whatever a connection has come to, some run of its tasks and writes alone, without another
  -- line, brings it to rest, and then each line has been answered once.
  pub Reached-AtRest :
      (n : ℕ) (c : Connection W)
      → Reached host rt w n c
      → (d : Connection W) × Settling c d × AtRest n d
  Reached-AtRest n c r =
      let (c1, s1, j1) = decided c.jobs c refl in
      let (c2, s2, j2, q2) = replied c1.queue c1 refl j1 in
      let (d, s3, j, q, f) = delivered c2.finished c2 refl j2 q2 in
      let s = Settling-append s1 (Settling-append s2 s3) in
      (d, s, at_rest n d (Settling-Reached n s r) j q f)
