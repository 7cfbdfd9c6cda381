-- ===== src/Skill/Laws.antt =====
-- A skill changes the world through what it asks for and what its process does by itself.
use pan.Prelude.{
  ◌≡◌, ◌∙◌, String, Option, none, some, Result, Bool-cases, Result-cases, inl, inr, is_blank,
}
use pan.Json.{Value}
use pan.Pipeline.{State, Task}
use pan.Pipeline.Invoker.{PipelineInvoker, run_task}
use pan.Pipeline.Invoker as Invoker
use pan.Skill.{
  Process, eof, broken, line, acts, invoke, returns, Protocol, SkillError, converse, result_line,
}

-- Nothing that the process does by itself changes what is looked at.
abbrev pub Leaves : {W A : Type 0} → (W → A) → Process W → Type 0
Leaves look (eof stderr code) = Unit
Leaves look (broken e) = Unit
Leaves look (line said next) = (answer : Option String) → Leaves look (next answer)
Leaves {W} look (acts change next) =
    ((w : W) → look (change w) ≡ look w) × ((w : W) → Leaves look (next w))

module _ {W : Type 0} {A : Type 0} (look : W → A) (inv : PipelineInvoker W) (wire : Protocol)
    (blind : (capability : String) (args : Value) (s : State W)
      → look (Invoker.invoke inv capability args s).1.world ≡ look s.world)
    (done : Result SkillError Value → W → Task W)
    (ends : (r : Result SkillError Value) (w : W) (s : State W)
      → look (run_task inv (done r w) s).1.world ≡ look w) where
  -- What no invocation under the scope changes, and the process does not change by itself, its run
  -- does not change.
  pub converse-blind :
      (p : Process W) (w : W) (s : State W)
      → Leaves look p
      → look (run_task inv (converse wire done p w) s).1.world ≡ look w
  unfolding converse run_task
  converse-blind (eof stderr code) w s own = ends _ w s
  converse-blind (broken e) w s own = ends _ w s
  converse-blind (acts change next) w s own =
      converse-blind (next w) (change w) s (own.1 w) ∙ own.0 w
  converse-blind (line said next) w s own = elim (Bool-cases (is_blank said)) [
    | inl quiet ↦ rw (converse, quiet) (converse-blind (next none) w s (own none))
    | inr full ↦ elim (Result-cases (wire.from_str said)) [
      | inr (e, r) ↦ rw (converse, full, r) (ends _ w s)
      | inl (returns v, r) ↦ rw (converse, full, r) (ends _ w s)
      | inl (invoke id capability args, r) ↦
          let asked = Invoker.invoke inv capability args (record s { world = w }) in
          rw (converse, full, r, run_task)
            (converse-blind (next (some (result_line wire id asked.0))) asked.1.world asked.1
                (own _)
              ∙ blind capability args (record s { world = w }))
    ]
  ]
