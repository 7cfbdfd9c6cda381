-- ===== src/Events/Order.antt =====
-- What a sink sees: every event, once, in the order of emission, with consecutive numbers.
use mathlib.Core.List.{reverse, reverse-cons, append_assoc, append-nil}
use pan.Prelude.{
  ℕ, ◌+◌, ◌^◌, ◌<◌, ◌≡◌, refl, sym, ap, ◌∙◌, true, false, List, [], ◌∷◌, ◌++◌, arith, length,
}
use pan.Events.{
  EventKind, Event, EventStream, spawn, emit, shutdown, consume_all, drained, memory_sink,
}

unfoldable pub emit_all : List EventKind → EventStream → EventStream
emit_all [] s = s
emit_all (k ∷ ks) s = emit_all ks (emit k s)

-- The kinds numbered from `n`.
abbrev pub number_from : ℕ → List EventKind → List Event
number_from n [] = []
number_from n (k ∷ ks) = record { seq = n; kind = k } ∷ number_from (n + 1) ks

consume_all-memory : (es fs : List Event) → consume_all memory_sink fs es ≡ fs ++ es
unfolding consume_all memory_sink
consume_all-memory [] fs = sym (append-nil fs)
consume_all-memory (e ∷ es) fs = consume_all-memory es (fs ++ e ∷ []) ∙ append_assoc fs (e ∷ []) es

emit_open :
    (k : EventKind) (s : EventStream)
    → s.is_open ≡ true
    → s.seq + 1 < 2 ^ 64
    → emit k s
      ≡ record { is_open = true; seq = s.seq + 1; sent = record { seq = s.seq; kind = k } ∷ s.sent }
unfolding emit
emit_open k s o h = ground arith

emit_all-sent :
    (ks : List EventKind) (s : EventStream)
    → s.is_open ≡ true
    → s.seq + length ks < 2 ^ 64
    → reverse (emit_all ks s).sent ≡ reverse s.sent ++ number_from s.seq ks
unfolding emit_all
emit_all-sent [] s o h = sym (append-nil (reverse s.sent))
emit_all-sent (k ∷ ks) s o h =
    ap (λ t. reverse (emit_all ks t).sent) (emit_open k s o (omega arith))
    ∙ emit_all-sent ks _ refl (omega arith)
    ∙ ap (λ r. r ++ number_from (s.seq + 1) ks) (reverse-cons _ s.sent)
    ∙ append_assoc (reverse s.sent) (record { seq = s.seq; kind = k } ∷ []) _

emit_all-closed :
    (ks : List EventKind) (s : EventStream) → s.is_open ≡ false → (emit_all ks s).sent ≡ s.sent
unfolding emit_all emit
emit_all-closed [] s c = refl
emit_all-closed (k ∷ ks) s c = emit_all-closed ks (emit k s) (ground arith) ∙ ground arith

-- A memory sink on a new stream holds, after the stream is shut down, exactly the emitted events, in
-- the order of emission and numbered from 0; events emitted after the shutdown do not reach it.
pub memory_sink_sees_all :
    (ks late : List EventKind)
    → length ks < 2 ^ 64
    → drained memory_sink [] (emit_all late (shutdown (emit_all ks spawn))) ≡ number_from 0 ks
unfolding drained memory_sink shutdown spawn
memory_sink_sees_all ks late h =
    consume_all-memory _ []
    ∙ ap reverse (emit_all-closed late (shutdown (emit_all ks spawn)) refl)
    ∙ emit_all-sent ks spawn refl (omega arith)
