-- ===== src/Loop/Span/Fuel.antt =====
-- A span ends, within eight turns for each goal that its source still has.
use pan.Prelude.{
  ℕ, zero, suc, ◌+◌, ◌*◌, ◌≤◌, ◌<◌, ◌≡◌, refl, List, [], ◌∷◌, Option, none, some, arith, inl, inr,
  Option-cases, Bool-cases, leb, leb→gt, is_some, true,
}
use pan.Schema.{Goal, Context, Fragment, Outcome}
use pan.Loop.Defs.{RunReport, Observations, Loop, Machine}
use pan.Loop.Span.{
  max_tool_steps, Span, Turn, over, again, ended, next, conclude_with, feed_back, settle,
  decide_and_enact, superseded_by_goal, stopped, pursue, turn, run_turns, run_span,
}

-- `remaining` bounds the goals that the source still yields.
pub record Finite {O : Type 0} (obs : Observations O) (remaining : O → ℕ) : Type 0 where
  pub taken :
      (o : O) (g : Goal)
      → (obs.next_goal o).0 ≡ some g
      → remaining (obs.next_goal o).1 < remaining o
  pub newer :
      (c g : Goal) (o : O)
      → (obs.superseded c o).0 ≡ some g
      → remaining (obs.superseded c o).1 < remaining o
  pub waited :
      (c : Goal) (o : O)
      → (obs.superseded c o).0 ≡ none
      → remaining (obs.superseded c o).1 ≤ remaining o

-- The report says how the span ended.
abbrev pub Ended : {W O : Type 0} → Option (RunReport × O × Machine W) → Type 0
Ended none = ⊥
Ended (some (r, o, m)) = is_some r.end ≡ true

module _ {W O : Type 0} (l : Loop W) (obs : Observations O) {remaining : O → ℕ}
    (finite : Finite obs remaining) (ctx : Context) where
  -- The turns left are at most `n`; a turn that is over has its reason.
  abbrev Left : ℕ → Turn W O → Type 0
  Left n (over r o m) = is_some r.end ≡ true
  Left n (again s) =
      (s.tool_steps < max_tool_steps) × (8 * remaining s.source + 8 ≤ n + s.tool_steps)

  next-Left :
      (n : ℕ) (r : RunReport) (o : O) (m : Machine W)
      → 8 * remaining o ≤ n
      → Left n (next l obs ctx r o m)
  unfolding next pursue ended
  next-Left n r o m h = elim (Option-cases (obs.next_goal o).0) [
    | inl e ↦ rw (e, Left) refl
    | inr (g, e) ↦ let d = finite.taken o g e in rw (e, Left) (omega arith, omega arith)
  ]

  feed_back-Left :
      (n : ℕ) (s : Span W O) (fs : List Fragment) (r : RunReport) (m : Machine W)
      → s.tool_steps < max_tool_steps
      → 8 * remaining s.source + 8 ≤ suc n + s.tool_steps
      → Left n (feed_back l s fs r m)
  unfolding feed_back ended
  feed_back-Left n s fs r m lt h = elim (Bool-cases (leb max_tool_steps (s.tool_steps + 1))) [
    | inl e ↦ rw (e, Left) refl
    | inr e ↦ rw (e, Left) (omega (arith, leb→gt max_tool_steps (s.tool_steps + 1) e), omega arith)
  ]

  settle-Left :
      (n : ℕ) (s : Span W O) (o : Option Outcome) (fs : List Fragment) (r : RunReport)
      (m : Machine W)
      → s.tool_steps < max_tool_steps
      → 8 * remaining s.source + 8 ≤ suc n + s.tool_steps
      → Left n
          (settle l obs ctx s (record { outcome = o; tool_results = fs; report = r; machine = m }))
  unfolding settle conclude_with ended
  settle-Left n s (some o) fs r m lt h = refl
  settle-Left n s none [] r m lt h = next-Left n r s.source m (omega arith)
  settle-Left n s none (f ∷ fs) r m lt h = feed_back-Left n s (f ∷ fs) r m lt h

  decide-Left :
      (n : ℕ) (s : Span W O) (m : Machine W)
      → s.tool_steps < max_tool_steps
      → 8 * remaining s.source + 8 ≤ suc n + s.tool_steps
      → Left n (decide_and_enact l obs ctx s m)
  unfolding decide_and_enact
  decide-Left n s m lt h = settle-Left n s _ _ _ _ lt h

  turn-Left :
      (n : ℕ) (s : Span W O)
      → s.tool_steps < max_tool_steps
      → 8 * remaining s.source + 8 ≤ suc n + s.tool_steps
      → Left n (turn l obs ctx s)
  unfolding turn stopped superseded_by_goal pursue ended
  turn-Left n s lt h =
      let o = (obs.superseded s.current s.source).1 in
      elim (Option-cases (obs.superseded s.current s.source).0) [
        | inr (g, e) ↦
            let d = finite.newer s.current g s.source e in rw (e, Left) (omega arith, omega arith)
        | inl e ↦
            let d = finite.waited s.current s.source e in
            rw (e, Left)
              (elim (Option-cases (l.veto s.machine.world).0) [
                | inr (reason, f) ↦ rw (f, Left) refl
                | inl f ↦ rw (f, Left) (decide-Left n (record s { source = o }) _ lt (omega arith))
              ])
      ]

  run_turns-Ended : (n : ℕ) (t : Turn W O) → Left n t → Ended (run_turns n l obs ctx t)
  unfolding run_turns
  run_turns-Ended n (over r o m) h = h
  run_turns-Ended zero (again s) h = let (lt, left) = h in absurd (omega arith)
  run_turns-Ended (suc n) (again s) h = run_turns-Ended n (turn l obs ctx s) (turn-Left n s h.0 h.1)

  pub run_span-Ended :
      (fuel : ℕ) (o : O) (m : Machine W)
      → 8 * remaining o ≤ fuel
      → Ended (run_span fuel l obs ctx o m)
  unfolding run_span
  run_span-Ended fuel o m h = run_turns-Ended fuel _ (next-Left fuel _ o m h)
