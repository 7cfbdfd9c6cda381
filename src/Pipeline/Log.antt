-- ===== src/Pipeline/Log.antt =====
-- The event log of a pipeline accounts for its effects: each has a pass of the `govern` stage of its
-- own, also where executors invoke further capabilities.
pub mod Stages
pub mod Confined
pub mod Withheld
use pan.Prelude.{
  ℕ, ◌+◌, ◌≤◌, ◌≡◌, refl, sym, ◌∙◌, Bool, true, false, ◌&&◌, String, List, [], ◌∷◌, none, some,
  arith, Result, ok, err, str_eq, eq_iff, eq_refl, Bool-cases, inl, inr, if◌then◌else◌,
  Result-cases, Option-cases,
}
use pan.Json.{Value}
use pan.Events.{
  EventKind, run_started, decided, dispatch_started, stage_completed, effected, expressed,
  abandoned, run_concluded, plugin_error, passed, denied, failed, Event, EventStream, emit,
}

-- A pass of `govern` for `cap`; an effect of `cap`.
abbrev pub is_pass : String → EventKind → Bool
is_pass cap (stage_completed stage c passed) = str_eq stage "govern" && str_eq c cap
is_pass cap _ = false

abbrev pub is_effect_of : String → EventKind → Bool
is_effect_of cap (effected c v) = str_eq c cap
is_effect_of cap _ = false

abbrev pub count_if : (EventKind → Bool) → List Event → ℕ
count_if p [] = 0
count_if p (e ∷ es) = (if p e.kind then 1 else 0) + count_if p es

unfoldable pub passes : String → EventStream → ℕ
passes cap s = count_if (is_pass cap) s.sent

unfoldable pub effects : String → EventStream → ℕ
effects cap s = count_if (is_effect_of cap) s.sent

unfoldable pub unit : String → String → ℕ
unit cap c = if str_eq c cap then 1 else 0

-- From `s` to `t` the passes have grown by at least the effects, and by `n` more if events are sent.
pub record Gains (cap : String) (n : ℕ) (s t : EventStream) : Type 0 where
  pub same_channel : t.is_open ≡ s.is_open
  pub margin :
      effects cap t + passes cap s + (if s.is_open then n else 0) ≤ passes cap t + effects cap s

module _ {cap : String} where
  pub Gains-refl : (s : EventStream) → Gains cap 0 s s
  Gains-refl s = record { same_channel = refl; margin = ground arith }

  pub Gains-trans :
      {n : ℕ} {s t u : EventStream} → Gains cap 0 s t → Gains cap n t u → Gains cap n s u
  Gains-trans g h = record { same_channel = h.same_channel ∙ g.same_channel; margin = ground arith }

  -- An event that is no effect of `cap` costs nothing.
  pub Gains-emit :
      (kind : EventKind) (s : EventStream)
      → is_effect_of cap kind ≡ false
      → Gains cap 0 s (emit kind s)
  unfolding emit passes effects
  Gains-emit kind s h = record { same_channel = ground arith; margin = ground arith }

  -- A pass of `govern` for `c` gains one if `c` is `cap`.
  pub Gains-pass :
      (c : String) (s : EventStream)
      → Gains cap (unit cap c) s (emit (stage_completed "govern" c passed) s)
  unfolding emit passes effects unit
  Gains-pass c s = record { same_channel = ground arith; margin = ground (arith, eq_refl "govern") }

  -- An effect of `c` spends it.
  pub Gains-effect :
      (c : String) (v : Value) {s t : EventStream}
      → Gains cap (unit cap c) s t
      → Gains cap 0 s (emit (effected c v) t)
  unfolding emit passes effects unit
  Gains-effect c v g = record { same_channel = ground arith; margin = ground arith }

  -- What is not spent may be left.
  pub Gains-less : {n : ℕ} {s t : EventStream} → Gains cap n s t → Gains cap 0 s t
  Gains-less g = record { same_channel = g.same_channel; margin = ground arith }

  -- Stages that gain nothing lose nothing.
  pub Gains-then :
      {n : ℕ} {s t u : EventStream} → Gains cap n s t → Gains cap 0 t u → Gains cap n s u
  Gains-then g h = record { same_channel = h.same_channel ∙ g.same_channel; margin = ground arith }
