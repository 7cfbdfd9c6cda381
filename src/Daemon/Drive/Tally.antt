-- ===== src/Daemon/Drive/Tally.antt =====
-- Messages of a connection counted, by their numbers and in all.
use pan.Prelude.{
  ap, sym, ◌∙◌, ℕ, zero, suc, ◌+◌, ◌%◌, ◌^◌, ◌≡◌, refl, Bool, ◌==◌, List, [], ◌∷◌, ◌++◌,
  if◌then◌else◌, arith, length, length-append,
}
use pan.Daemon.Wire.{Envelope, outgoing}
use pan.Daemon.Session.{Session, PerceiveJob, Replies}
use pan.Daemon.Session.Numbering.{OneReply}
use pan.Daemon.Drive.{Connection}

-- How often `k` is among the first `n` numbers of a counter of 64 bits.
unfoldable pub given : ℕ → ℕ → ℕ
given k zero = 0
given k (suc n) = (if (n % 2 ^ 64) == k then 1 else 0) + given k n

-- How often `k` is the number of one of the messages.
unfoldable pub times : ℕ → List Envelope → ℕ
times k [] = 0
times k (e ∷ es) = (if e.seq == k then 1 else 0) + times k es

pub times-append : (k : ℕ) (es fs : List Envelope) → times k (es ++ fs) ≡ times k es + times k fs
unfolding times
times-append k [] fs = omega arith
times-append k (e ∷ es) fs = let behind = times-append k es fs in omega arith

module _ {W : Type 0} where
  -- How many messages there are on a connection, those written and those that are to be.
  unfoldable pub sent : Connection W → ℕ
  sent c = length c.written + length c.queue + length c.finished

  -- How many of them have the number `k`.
  unfoldable pub tally : ℕ → Connection W → ℕ
  unfolding times
  tally k c = times k c.written + times k c.queue + times k c.finished

  -- The next number is the count of the messages, each number is on as many of them as the counter
  -- has given it out, and each of the `n` lines has its message, or a task that will make it.
  pub record Numbered (n : ℕ) (c : Connection W) : Type 0 where
    pub next : c.session.next_seq ≡ sent c % 2 ^ 64
    pub each : (k : ℕ) → tally k c ≡ given k (sent c)
    pub all : sent c + length c.jobs ≡ n

  -- One message more, under the session's next number.
  pub record Sends (c d : Connection W) : Type 0 where
    pub next : d.session.next_seq ≡ (c.session.next_seq + 1) % 2 ^ 64
    pub more : sent d ≡ suc (sent c)
    pub among : (k : ℕ) → tally k d ≡ (if c.session.next_seq == k then 1 else 0) + tally k c

  pub Sends-Numbered :
      (m n : ℕ) (c d : Connection W)
      → Sends c d
      → length c.jobs + n ≡ length d.jobs + m + 1
      → Numbered m c
      → Numbered n d
  unfolding given
  Sends-Numbered m n c d s jobs i = record {
    next = let a = s.next in let b = i.next in let e = s.more in omega arith;
    each = λ k.
        s.among k
        ∙ ap (λ x. (if x == k then 1 else 0) + tally k c) i.next
        ∙ ap (λ x. (if (sent c % 2 ^ 64) == k then 1 else 0) + x) (i.each k)
        ∙ ap (given k) (sym s.more);
    all = let more = s.more in let all = i.all in omega arith;
  }

  -- Nothing sent: the messages have changed places at most.
  pub record Keeps (c d : Connection W) : Type 0 where
    pub next : d.session.next_seq ≡ c.session.next_seq
    pub same : sent d ≡ sent c
    pub among : (k : ℕ) → tally k d ≡ tally k c

  pub Keeps-Numbered :
      (m n : ℕ) (c d : Connection W)
      → Keeps c d
      → length c.jobs + n ≡ length d.jobs + m
      → Numbered m c
      → Numbered n d
  Keeps-Numbered m n c d s jobs i = record {
    next = s.next ∙ i.next ∙ ap (λ x. x % 2 ^ 64) (sym s.same);
    each = λ k. s.among k ∙ i.each k ∙ ap (given k) (sym s.same);
    all = let same = s.same in let all = i.all in omega arith;
  }

  pub Keeps-refl : {c : Connection W} → Keeps c c
  Keeps-refl = record { next = refl; same = refl; among = λ k. refl }

  -- The reader has one message to write, with the next number.
  pub Queues :
      (c : Connection W) (s : Session W) (w : W) (o : Bool) (e : Envelope)
      → c.queue ≡ []
      → e.seq ≡ c.session.next_seq
      → s.next_seq ≡ (c.session.next_seq + 1) % 2 ^ 64
      → Sends c (record c { session = s; world = w; is_open = o; queue = e ∷ [] })
  unfolding sent tally
  Queues c s w o e q seq next = record {
    next = next;
    more = rw q (omega arith);
    among = λ k. rw (q, seq) (omega arith);
  }

  -- A task has one message to write, with the next number.
  pub Finishes :
      (c : Connection W) (r : Replies W) (w : W) (jobs : List (PerceiveJob W)) (re : ℕ)
      → OneReply re c.session r
      → Sends c (record c { session = r.1; world = w; jobs = jobs; finished = c.finished ++ r.0 })
  unfolding sent tally times outgoing
  Finishes c r w jobs re one = record {
    next = one.counted;
    more = rw (length-append c.finished r.0, one.sent) (omega arith);
    among = λ k. rw (times-append k c.finished r.0, one.sent) (omega arith);
  }
