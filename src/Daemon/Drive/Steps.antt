-- ===== src/Daemon/Drive/Steps.antt =====
-- The interleavings of a connection: the reader, the tasks that decide, and the tasks that write.
use pan.Prelude.{ℕ, ◌+◌, ◌≡◌, Bool, true, false, String, List, [], ◌∷◌, ◌++◌, str_eq, if◌then◌else◌}
use pan.Daemon.Wire.{Envelope}
use pan.Daemon.Session.{Runtime, PerceiveJob}
use pan.Daemon.Drive.{Host, pop_if, Connection, accepted, receive, finish}

-- Whether the driver answers a line: the empty line is skipped.
unfoldable pub is_blank : String → Bool
unfolding pop_if
is_blank line_buf = str_eq (pop_if "\r" (pop_if "\n" line_buf)) ""

unfoldable pub asks : String → ℕ
unfolding is_blank
asks line_buf = if is_blank line_buf then 0 else 1

module _ {W : Type 0} (host : Host) (rt : Runtime W) where
  -- `Reached n c`: the peer has sent `n` lines that are not empty, and the connection has come to `c`,
  -- the tasks having run in any order and the writes having been taken from them in any order.
  pub data Reached (w : W) : ℕ → Connection W → Type 0 where
    accepts : Reached w 0 (accepted w)
    reads :
        {n : ℕ} {c : Connection W} (line_buf : String)
        → c.is_open ≡ true
        → c.queue ≡ []
        → Reached w n c
        → Reached w (asks line_buf + n) (receive host rt line_buf c)
    hangs_up :
        {n : ℕ} {c : Connection W}
        → c.is_open ≡ true
        → c.queue ≡ []
        → Reached w n c
        → Reached w n (record c { is_open = false })
    decides :
        {n : ℕ} {c : Connection W} (before : List (PerceiveJob W)) (job : PerceiveJob W)
        (behind : List (PerceiveJob W))
        → c.jobs ≡ before ++ job ∷ behind
        → Reached w n c
        → Reached w n (finish rt job (before ++ behind) c)
    replies :
        {n : ℕ} {c : Connection W} (e : Envelope) (rest : List Envelope)
        → c.queue ≡ e ∷ rest
        → Reached w n c
        → Reached w n (record c { queue = rest; written = c.written ++ e ∷ [] })
    delivers :
        {n : ℕ} {c : Connection W} (before : List Envelope) (e : Envelope) (behind : List Envelope)
        → c.finished ≡ before ++ e ∷ behind
        → Reached w n c
        → Reached w n (record c { finished = before ++ behind; written = c.written ++ e ∷ [] })
