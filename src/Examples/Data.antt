-- ===== src/Examples/Data.antt =====
-- The values that the examples share: one capability, one origin, a small pipeline and a loop.
use pan.Prelude.{ℕ, ◌+◌, true, [], ◌∷◌, none, ok}
use pan.Json.{Value, text, object, field, end}
use pan.Schema.{Capability, Scope, Goal, tick, Context, invoke, conclude, achieved}
use pan.Registry.{CapabilityRegistry}
use pan.Governor.{Governor, allow, deny}
use pan.Governor.Scoped.{ScopedGovernor}
use pan.Events.{EventStream}
use pan.Pipeline.{EffectRequest, finish, Pipeline, State}
use pan.Loop.{Loop, Machine}

abbrev pub ci : Scope
ci = record { origin = "ci" }

abbrev pub guest : Scope
guest = record { origin = "guest" }

abbrev pub echo : Capability
echo = record {
  id = "cap.echo";
  summary = "echo";
  args_schema = object (field "type" (text "object") end);
}

abbrev pub echo_registry : CapabilityRegistry
echo_registry = record { by_id = ("cap.echo", echo) ∷ [] }

abbrev pub grants : ScopedGovernor
grants = record { grants = ("ci", "cap.echo" ∷ []) ∷ [] }

-- An origin "ci" is allowed, any other is not; the world counts the questions.
abbrev pub counting : Governor ℕ
counting = record { govern = λ scope capability args w. (allow, w + 1) }

abbrev pub strict : Governor ℕ
strict = record { govern = λ scope capability args w. (deny "no", w) }

-- The world counts the executions.
abbrev pub echo_pipeline : Governor ℕ → Pipeline ℕ
echo_pipeline g = record {
  registry = echo_registry;
  governor = g;
  executor = record {
    execute = λ c a w. (ok a, w + 1);
    execute_with_invoker = λ c a w. finish (ok a) (w + 1);
  };
  hooks = [];
}

abbrev pub no_args : Value
no_args = object end

abbrev pub echo_request : EffectRequest
echo_request = record { capability = "cap.echo"; args = no_args; correlation = none; scope = ci }

abbrev pub quiet_stream : EventStream
quiet_stream = record { is_open = true; seq = 0; sent = [] }

abbrev pub at_rest : State ℕ
at_rest = record { world = 0; events = quiet_stream }

abbrev pub goal : Goal
goal = record { id = "g"; revision = 1; objective = "say hello"; trigger = tick 0 }

abbrev pub other_goal : Goal
other_goal = record { id = "h"; revision = 1; objective = "wait"; trigger = tick 1 }

abbrev pub third_goal : Goal
third_goal = record { id = "k"; revision = 1; objective = "leave"; trigger = tick 2 }

abbrev pub no_context : Context
no_context = record { fragments = [] }

-- Invokes first, and concludes once it sees a result.
abbrev pub echo_loop : Loop ℕ
echo_loop = record {
  provider = record {
    id = "echo";
    decide = λ g ctx caps w. (
      record {
        intents = elim ctx.fragments [
          | [] ↦ invoke "cap.echo" no_args none ∷ []
          | _ ↦ conclude achieved ∷ []
        ];
      },
      w,
    );
    cancelled = λ g ctx caps w. w;
  };
  pipeline = echo_pipeline counting;
  scope = ci;
  veto = λ w. (none, w);
  compactor = none;
  context_budget = none;
  evaluator = none;
  printing = record { to_string = λ v. "{}"; debug = λ v. "Deny" };
}

abbrev pub idle_machine : Machine ℕ
idle_machine = record { world = 0; events = quiet_stream; stall_detector = none; token_tx = none }
