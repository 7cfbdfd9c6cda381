-- ===== src/Agent/Assemble/Authority.antt =====
-- What an assembled agent may do: what its manifest grants.
use pan.Prelude.{
  ◌≡◌, refl, ap, sym, subst, ◌↔◌, inl, inr, Bool, true, String, List, some, Any, ok, and_then-ok,
  ok-injective, map_err, Option, ℕ, All, ◌⧺◌, arith,
}
use pan.Schema.{Scope, Context}
use pan.Loop.{Loop, Observations, Machine, RunReport}
use pan.Loop.Span.{run_span}
use pan.Loop.Enact.Allowed.{run_span-Listed}
use pan.Loop.Enact.Withheld.{run_span-withheld}
use pan.Pipeline.Log.{effects}
use pan.Json.{Value}
use pan.Governor.{Verdict, allow}
use pan.Governor.Scoped.{ScopedGovernor, grant, judge, scoped}
use pan.Governor.Scoped as Scoped
use pan.Governor.Scoped.Laws.{Covers, IsGranted, grant_allows_iff}
use pan.Pipeline.{EffectRequest, Effected, EffectHook, Pipeline, State}
use pan.Pipeline.Stages.{dispatch}
use pan.Pipeline.Governance.{dispatch-Performed}
use pan.Table.{lookup}
use pan.Components.{ComponentConfig, build_provider, ComponentRegistry}
use pan.Config.{Config}
use pan.Agent.Manifest.{AgentManifest, origin, granted_prefixes}
use pan.Agent.Manifest.Laws.{prefixes_of_iff}
use pan.Agent.Merge.{TomlValues}
use pan.Toolbox
use pan.Agent.Assemble.{
  provider, add_each, build_optional, context_id, AssembledAgent, assemble, assemble_from,
  assemble_with_config, pipeline_of,
}

-- A family that the manifest switches on covers the capability.
abbrev pub Grants : {T : Type 0} → AgentManifest T → String → Type 0
Grants m capability =
    Any (λ (e : String × Bool). (e.1 ≡ true) × Covers capability ("cap." ⧺ e.0)) m.caps.grant

-- The governor and the scope are those of the manifest.
pub record IsOf {W C T : Type 0} (m : AgentManifest T) (agent : AssembledAgent W C) : Type 0 where
  pub governed : agent.governor ≡ grant Scoped.new (origin m) (granted_prefixes m)
  pub stamped : agent.scope.origin ≡ origin m

nothing-IsGranted : (origin capability : String) → ¬ IsGranted Scoped.new origin capability
unfolding Scoped.new lookup
nothing-IsGranted origin capability (ps, e, a) = absurd (ground arith)

module _ {W C T : Type 0} (components : ComponentRegistry W C) (values : TomlValues T) where
  assemble_from-IsOf :
      (m : AgentManifest T) (p : Value) (c : String → Value) (agent : AssembledAgent W C)
      → assemble_from components values m p c ≡ ok agent
      → IsOf m agent
  unfolding assemble_from
  assemble_from-IsOf m p c agent h =
      let cfg : ComponentConfig = record { id = m.persona.provider; settings = p } in
      let (built, _, h1) = and_then-ok (map_err provider (build_provider components cfg)) _ h in
      let (toolbox, _, h2) = and_then-ok (add_each components c m.caps.enable Toolbox.new) _ h1 in
      let (context, _, h3) = and_then-ok (build_optional components (context_id values m)) _ h2 in
      subst (IsOf m) (ok-injective h3) (record { governed = refl; stamped = refl })

  allowed_iff :
      (m : AgentManifest T) (p : Value) (c : String → Value) (agent : AssembledAgent W C)
      (scope : Scope) (capability : String)
      → assemble_from components values m p c ≡ ok agent
      → (judge agent.governor scope capability ≡ allow)
        ↔ ((origin m ≡ scope.origin) × Grants m capability)
  unfolding granted_prefixes
  allowed_iff m p c agent scope capability h =
      let is_of = assemble_from-IsOf m p c agent h in
      let allows = grant_allows_iff Scoped.new (origin m) (granted_prefixes m) scope capability in
      let listed = prefixes_of_iff (Covers capability) m.caps.grant in
      rw (is_of.governed) (
        (λ j. elim (allows.0 j) [
          | inl (q, a) ↦ (q, listed.0 a)
          | inr (n, g) ↦ absurd (nothing-IsGranted scope.origin capability g)
        ]),
        (λ (q, a). allows.1 (inl (q, listed.1 a))),
      )

  -- An assembled governor allows a capability to an origin exactly if the origin is the persona's and a
  -- family that the manifest switches on covers the capability; so do the settings of a configuration
  -- not change what an agent may do.
  pub assembled_allows_iff :
      (m : AgentManifest T) (global : Option (Config T)) (agent : AssembledAgent W C)
      (scope : Scope) (capability : String)
      → assemble_with_config components values m global ≡ ok agent
      → (judge agent.governor scope capability ≡ allow)
        ↔ ((origin m ≡ scope.origin) × Grants m capability)
  unfolding assemble_with_config
  assembled_allows_iff m global agent scope capability h =
      allowed_iff m _ _ agent scope capability h

  -- Whatever a pipeline of an assembled agent performs, under whatever scope and hooks, is requested
  -- under the persona's origin and of a family that the manifest switches on.
  pub dispatch-granted :
      (m : AgentManifest T) (agent : AssembledAgent W C) (hooks : List (EffectHook W))
      (req : EffectRequest) (s u : State W) (eff : Effected)
      → assemble components values m ≡ ok agent
      → dispatch (pipeline_of agent hooks) req s ≡ (ok eff, u)
      → (origin m ≡ req.scope.origin) × Grants m eff.capability
  unfolding assemble pipeline_of scoped
  dispatch-granted m agent hooks req s u eff h d =
      let performed = dispatch-Performed (pipeline_of agent hooks) req s u eff d in
      let allowed : judge agent.governor req.scope req.capability ≡ allow =
        ap (λ (r : Verdict × W). r.0) performed.admits.allowed in
      let granted = (allowed_iff m _ _ agent req.scope req.capability h).0 allowed in
      (granted.0, subst (Grants m) (sym performed.same_capability) granted.1)

  -- Whatever an assembled agent's loop decides, under its own or any other scope: every capability that
  -- the report of a span lists as effected is of a family that the manifest switches on, and there is
  -- one only if the loop runs under the persona's origin; and the span adds to the log no effect of any
  -- capability without such a family or origin, executors' own requests for capabilities included.
  pub run_span-granted :
      (m : AgentManifest T) (agent : AssembledAgent W C) (hooks : List (EffectHook W)) (l : Loop W)
      {O : Type 0} (obs : Observations O) (ctx : Context) (fuel : ℕ) (o o' : O)
      (machine machine' : Machine W) (r : RunReport)
      → assemble components values m ≡ ok agent
      → l.pipeline ≡ pipeline_of agent hooks
      → run_span fuel l obs ctx o machine ≡ some (r, o', machine')
      → All (λ c. (origin m ≡ l.scope.origin) × Grants m c) r.effected
        × ((c : String)
            → ¬ ((origin m ≡ l.scope.origin) × Grants m c)
            → effects c machine'.events ≡ effects c machine.events)
  unfolding assemble pipeline_of scoped
  run_span-granted m agent hooks l obs ctx fuel o o' machine machine' r h p e =
      let only : (c : String) (a : Value) (w : W)
          → (l.pipeline.governor.govern l.scope c a w).0 ≡ allow
          → (origin m ≡ l.scope.origin) × Grants m c =
        λ c a w allowed.
          (allowed_iff m _ _ agent l.scope c h).0
            (subst (λ (q : Pipeline W). (q.governor.govern l.scope c a w).0 ≡ allow) p allowed) in
      (
        run_span-Listed l (λ c. (origin m ≡ l.scope.origin) × Grants m c) only obs ctx fuel o o'
            machine machine' r e,
        λ c n.
            run_span-withheld l c (λ a w allowed. n (only c a w allowed)) obs ctx fuel o o' machine
              machine' r e,
      )
