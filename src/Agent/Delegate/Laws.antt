-- ===== src/Agent/Delegate/Laws.antt =====
-- What a delegation may do: what the child's manifest grants, and only where that manifest is of the
-- chain of delegations itself.
use pan.Prelude.{
  ◌≡◌, refl, ap, ◌∙◌, subst, String, List, [], ◌∷◌, Option, none, some, Result, ok, err, map_err,
  ensure, ok_or, bind, leb, ◌⧺◌, All, arith, inl, inr, Result-cases, and_then-ok, map_err-ok,
  map_ok-ok, ok_or-ok,
}
use pan.Json.{Value, array, get, as_str}
use pan.Schema.{Scope, Goal}
use pan.Loop.{RunReport, Machine}
use pan.Loop.Sources.{once}
use pan.Loop.Span.{run_span}
use pan.Loop.Span.Laws.{run_span-once_ends, effected-run_span}
use pan.Loop.Span.Fuel.{Ended}
use pan.Loop.Enact.Laws.{names}
use pan.Agent.Manifest.{AgentManifest, load, origin}
use pan.Agent.Assemble.{AssembledAgent, assemble}
use pan.Agent.Assemble.Authority.{Grants, run_span-granted}
use pan.Agent.Delegate.{
  no_context, fresh, Surroundings, load_child, child_scope, child_goal, child_loop, result_items,
  report_value, run_child, admit_child, delegate, depth_of, max_delegation_depth,
}

All-names :
    (P : String → Type 0) (rs : List (String × Value))
    → All P (names rs)
    → All (λ (r : String × Value). P r.0) rs
All-names P [] h = tt
All-names P ((c, v) ∷ rs) (h, hs) = (h, All-names P rs hs)

module _ {W C T : Type 0} (env : Surroundings W C T) (agents_dir : String) where
  -- What the answer of a delegation holds: results of granted capabilities, if the child's origin is
  -- that of the chain.
  abbrev pub IsConfined : AgentManifest T → Scope → Value → Type 0
  IsConfined m scope v =
      (results : List (String × Value)) × (get v "results" ≡ some (array (result_items results)))
      × All (λ (r : String × Value). (origin m ≡ scope.origin) × Grants m r.0) results

  run_child-IsConfined :
      (m : AgentManifest T) (child : AssembledAgent W C) (scope : Scope) (goal : Goal) (w w' : W)
      (v : Value)
      → assemble env.components env.values m ≡ ok child
      → run_child env agents_dir child scope goal w ≡ some (ok v, w')
      → IsConfined m scope v
  unfolding run_child child_loop report_value
  run_child-IsConfined m child scope goal w w' v a h =
      of_run
        (run_span 8 (child_loop env.printing child scope) once no_context (some goal) (fresh w))
        (λ r o t e. (
          (run_span-granted env.components env.values m child []
              (child_loop env.printing child scope) once no_context 8 (some goal) o (fresh w) t r a
              refl e).0,
          effected-run_span (child_loop env.printing child scope) no_context once 8 (some goal) o
              (fresh w) t r e,
        ))
        h
    where
      of_run :
          (x : Option (RunReport × Option Goal × Machine W))
          → ((r : RunReport) (o : Option Goal) (t : Machine W)
              → x ≡ some (r, o, t)
              → All (λ c. (origin m ≡ scope.origin) × Grants m c) r.effected
                × (r.effected ≡ names r.results))
          → ◌≡◌ {A = Option (Result String Value × W)}
              (elim x [
                | none ↦ none
                | some (r, o, t) ↦ some (ok (report_value env.debug_end r), t.world)
              ])
              (some (ok v, w'))
          → IsConfined m scope v
      of_run none k q = absurd (ground arith)
      of_run (some (r, o, t)) k q =
          let (all, same) = k r o t refl in
          let answer : report_value env.debug_end r ≡ v = ground arith in
          (
            r.results,
            subst (λ x. get x "results" ≡ some (array (result_items r.results))) answer refl,
            All-names (λ c. (origin m ≡ scope.origin) × Grants m c) r.results
                (subst (All (λ c. (origin m ≡ scope.origin) × Grants m c)) same all),
          )

  run_child-answers :
      (child : AssembledAgent W C) (scope : Scope) (goal : Goal) (w : W)
      → (answer : Result String Value × W) × (run_child env agents_dir child scope goal w
          ≡ some answer)
  unfolding run_child
  run_child-answers child scope goal w =
      answers
        (run_span 8 (child_loop env.printing child scope) once no_context (some goal) (fresh w))
        (run_span-once_ends (child_loop env.printing child scope) no_context (some goal) (fresh w))
    where
      answers :
          (x : Option (RunReport × Option Goal × Machine W))
          → Ended x
          → (answer : Result String Value × W) × (◌≡◌ {A = Option (Result String Value × W)}
              (elim x [
                | none ↦ none
                | some (r, o, t) ↦ some (ok (report_value env.debug_end r), t.world)
              ])
              (some answer))
      answers none e = absurd e
      answers (some (r, o, t)) e = (_, refl)

  load_child-ok :
      (name : String) (w : W) (child : AssembledAgent W C)
      → load_child env agents_dir name w ≡ ok child
      → (m : AgentManifest T) × (load env.from_str
            (env.read_to_string w)
            (env.join agents_dir (name ⧺ ".toml"))
          ≡ ok m)
        × (assemble env.components env.values m ≡ ok child)
  unfolding load_child
  load_child-ok name w child h =
      let (m, p, q) =
        and_then-ok
          (map_err _
            (load env.from_str (env.read_to_string w) (env.join agents_dir (name ⧺ ".toml"))))
          _ h in
      (m, map_err-ok _ _ p, map_err-ok _ _ q)

  pub admit_child-ok :
      (at : String) (args : Value) (w : W) (name objective : String) (child : AssembledAgent W C)
      → admit_child env agents_dir at args w ≡ ok (name, objective, child)
      → (bind (get args "agent") as_str ≡ some name) × (load_child env agents_dir name w ≡ ok child)
  unfolding admit_child
  admit_child-ok at args w name objective child h =
      let (n, p, h1) =
        and_then-ok (ok_or "`agent` must be a string" (bind (get args "agent") as_str)) _ h in
      let (o, q, h2) =
        and_then-ok (ok_or "`objective` must be a string" (bind (get args "objective") as_str)) _
          h1 in
      let (u, r, h3) = and_then-ok (ensure (leb (depth_of at) max_delegation_depth) _) _ h2 in
      let (c, s, e) = map_ok-ok _ (load_child env agents_dir n w) h3 in
      let first = ap (λ (t : String × String × AssembledAgent W C). t.0) e in
      let third = ap (λ (t : String × String × AssembledAgent W C). t.2) e in
      (
        ok_or-ok _ (bind (get args "agent") as_str) p ∙ ap some first,
        subst (λ x. load_child env agents_dir x w ≡ ok child) first (s ∙ ap ok third),
      )

  -- A delegation that answers with a report has loaded the agent that it names, and the report holds
  -- results of capabilities that the agent's manifest grants; it holds any only if the agent's own
  -- origin is that of the invoker with `.delegated.` and the agent's name behind it.
  pub delegate-IsConfined :
      (at : String) (args : Value) (w w' : W) (v : Value)
      → delegate env agents_dir at args w ≡ some (ok v, w')
      → (name : String) × (m : AgentManifest T) × (bind (get args "agent") as_str ≡ some name)
        × (load env.from_str (env.read_to_string w) (env.join agents_dir (name ⧺ ".toml")) ≡ ok m)
        × IsConfined m (child_scope at name) v
  unfolding delegate
  delegate-IsConfined at args w w' v h =
      elim (Result-cases (admit_child env agents_dir at args w)) [
        | inl ((name, objective, child), e) ↦
            let (p, q) = admit_child-ok at args w name objective child e in
            let (m, loaded, built) = load_child-ok name w child q in
            (
              name,
              m,
              p,
              loaded,
              run_child-IsConfined m child (child_scope at name) _ w w' v built
                  (rw (e, delegate) at h),
            )
        | inr (reason, e) ↦ absurd (ground arith)
      ]

  -- Every delegation answers.
  pub delegate-answers :
      (at : String) (args : Value) (w : W)
      → (answer : Result String Value × W) × (delegate env agents_dir at args w ≡ some answer)
  unfolding delegate
  delegate-answers at args w = elim (Result-cases (admit_child env agents_dir at args w)) [
    | inl ((name, objective, child), e) ↦
        rw (e, delegate)
          (run_child-answers child (child_scope at name) (child_goal (env.nanos w) objective) w)
    | inr (reason, e) ↦ rw (e, delegate) ((err reason, w), refl)
  ]
