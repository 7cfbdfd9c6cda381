-- ===== src/Events.antt =====
-- pan-core/src/events.rs: the event stream. The channel delivers in the order of sending, so the
-- stream holds the events sent, newest first, and the consumer thread takes them from the other end.
-- The atomic counter wraps at 2^64. Threads, joins and the shutdown deadline are not modelled.
pub mod Order
use mathlib.Core.List.{reverse}
use pan.Prelude.{
  ℕ, ◌+◌, ◌%◌, ◌^◌, Bool, true, false, String, List, [], ◌∷◌, ◌++◌, Option, if◌then◌else◌,
}
use pan.Json.{Value}
use pan.Schema.{Outcome}

pub data StageStatus : Type 0 where
  passed denied failed : StageStatus

pub data EventKind : Type 0 where
  run_started : String → ℕ → EventKind
  decided : String → ℕ → EventKind
  dispatch_started : String → Option String → EventKind
  stage_completed : String → String → StageStatus → EventKind
  effected : String → Value → EventKind
  expressed : String → EventKind
  abandoned : String → ℕ → EventKind
  run_concluded : String → Outcome → EventKind
  plugin_error : String → String → EventKind

pub record Event : Type 0 where
  pub seq : ℕ
  pub kind : EventKind

pub record EventStream : Type 0 where
  pub is_open : Bool  -- `tx` is `Some`
  pub seq : ℕ  -- the next number
  pub sent : List Event

unfoldable pub spawn : EventStream
spawn = record { is_open = true; seq = 0; sent = [] }

-- The number is taken also if the channel is closed.
unfoldable pub emit : EventKind → EventStream → EventStream
emit kind s =
    let next = (s.seq + 1) % 2 ^ 64 in
    if s.is_open
    then record s { seq = next; sent = record { seq = s.seq; kind = kind } ∷ s.sent }
    else record s { seq = next }

unfoldable pub shutdown : EventStream → EventStream
shutdown s = record s { is_open = false }

-- `trait EventSink`
pub record EventSink (S : Type 0) : Type 0 where
  pub consume : S → Event → S
  pub flush : S → S

-- The loop of the consumer thread, up to the close of the channel.
unfoldable pub consume_all : {S : Type 0} → EventSink S → S → List Event → S
consume_all k s [] = s
consume_all k s (e ∷ es) = consume_all k (k.consume s e) es

-- What the sink holds when the consumer thread has ended.
unfoldable pub drained : {S : Type 0} → EventSink S → S → EventStream → S
unfolding consume_all
drained k s stream = k.flush (consume_all k s (reverse stream.sent))

unfoldable pub discard_sink : EventSink (Unit {0})
discard_sink = record { consume = λ s e. s; flush = λ s. s }

unfoldable pub memory_sink : EventSink (List Event)
memory_sink = record { consume = λ es e. es ++ e ∷ []; flush = λ es. es }
