-- ===== src/Examples/Daemon.antt =====
-- The daemon at one soul that follows one rule.
use pan.Prelude.{ℕ, ◌+◌, ◌≡◌, refl, [], ◌∷◌, none, some, ok, ltb, arith}
use pan.Json.{Value, text, array, nil, cons, object, end, field}
use pan.Schema.{Goal, event, invoke, Decision}
use pan.Table.{lookup, insert, contains}
use pan.Registry
use pan.Providers.{Rule}
use pan.Daemon.Wire.{
  superseded, rules, register_capabilities, instantiate_soul, register_body, instantiate_body,
  perceive_body, Body, Envelope,
}
use pan.Daemon.Wire.Codec.{serialize}
use pan.Daemon.Dispatch.{
  session_pipeline, passed, failed, with_conclusion, dispatch_decision, pipeline_err_to_wire,
  pipeline_err_message,
}
use pan.Daemon.Dispatch.Laws.{first_misfit, dispatch_decision-Vetted}
use pan.Daemon.Session.{
  Runtime, Session, PerceiveJob, new, from_body, provider, note_revision, error_response,
  superseded_text, begin_perceive, finish_perceive, run_job, handle, on_register, on_instantiate,
  register_each, reply,
}
use pan.Daemon.Session.Numbering.{Handled, handle-Handled}
use pan.Daemon.Session.Ledger.{revision_of}
use pan.Daemon.Session.Moves.{Moves, still, handles, finish_perceive-Superseded}
use pan.Daemon.Session.Consistency.{vetted, run_job-Vetted}
use pan.Daemon.Drive.{Host, Connection, accepted, receive}
use pan.Daemon.Drive.Steps.{asks, Reached, accepts, reads}
use pan.Daemon.Drive.Tally.{Numbered}
use pan.Daemon.Drive.Numbers.{Reached-Numbered}
use pan.Daemon.Drive.Settles.{Settling, AtRest, Reached-AtRest}
use pan.Examples.Data.{no_args, no_context, echo, echo_registry, guest}
use pan.Examples.Wire.{souls_only, release}

abbrev runtime : Runtime ℕ
runtime = record {
  llm_mind = none;
  as_f64 = λ n. 0;
  above = λ a b. ltb b a;
  debug = λ v. "Deny";
  decimal = λ n. "n";
}

-- `{"rules": [{"when_event_topic": "bell", "then_invoke": {"capability": "cap.echo"}}]}`
abbrev rule_book : Value
rule_book = object (
    field "rules"
      (array (
        cons
          (object (
            field "when_event_topic" (text "bell")
              (field "then_invoke" (object (field "capability" (text "cap.echo") end)) end)))
          nil))
      end)

abbrev bell : ℕ → Goal
bell revision = record {
  id = "bell";
  revision = revision;
  objective = "answer";
  trigger = event "bell" no_args;
}

abbrev echo_rule : Rule
echo_rule = record {
  when_signal_over = none;
  when_event_topic = some "bell";
  then_invoke = ("cap.echo", no_args);
}

abbrev two_calls : Decision
two_calls = record {
  intents = invoke "cap.echo" no_args none ∷ invoke "cap.none" no_args none ∷ [];
}

dispatch_decision-Vetted_example :
    dispatch_decision {W = ℕ} runtime.debug two_calls echo_registry guest
      (session_pipeline echo_registry)
      5
    ≡ (
      elim (first_misfit echo_registry two_calls.intents) [
        | none ↦ passed (with_conclusion two_calls.intents)
        | some e ↦ failed (pipeline_err_to_wire e) (pipeline_err_message runtime.debug e)
      ],
      5,
    )
dispatch_decision-Vetted_example =
    dispatch_decision-Vetted echo_registry runtime.debug two_calls guest 5

-- A session with one capability and one soul.
abbrev registering : Envelope
registering = record {
  v = 0;
  seq = 1;
  re = none;
  ty = register_capabilities;
  body = register_body (echo ∷ []);
}

abbrev instantiating : Envelope
instantiating = record {
  v = 0;
  seq = 2;
  re = none;
  ty = instantiate_soul;
  body = instantiate_body (record { soul_id = "ann"; mind = rules; soul = rule_book });
}

abbrev registered : Session ℕ
registered = (handle runtime registering new 0).1

abbrev served : Session ℕ
served = (handle runtime instantiating registered 0).1

served-Moves : Moves runtime new served
served-Moves = handles instantiating 0 (handles registering 0 still)

handle-Handled_example :
    Handled instantiating.seq registered
      ((handle runtime instantiating registered 0).0, (handle runtime instantiating registered 0).1)
handle-Handled_example = handle-Handled runtime instantiating registered 0

abbrev perceive_bell : ℕ → Body
perceive_bell revision =
    perceive_body (record { soul_id = "ann"; goal = bell revision; context = no_context })

abbrev bell_job : ℕ → ℕ → PerceiveJob ℕ
bell_job re revision = record {
  re = re;
  soul_id = "ann";
  goal = bell revision;
  context = no_context;
  provider =
      provider runtime
        (from_body runtime (record { soul_id = "ann"; mind = rules; soul = rule_book }));
  caps = Registry.all served.registry;
  registry = served.registry;
  pipeline = served.pipeline;
}

abbrev after_bell : ℕ → Session ℕ
after_bell revision = record served {
  latest_revision = note_revision (bell revision) served.latest_revision;
}

begun :
    (re revision : ℕ)
    → begin_perceive runtime re (perceive_bell revision) served
      ≡ (ok (bell_job re revision), after_bell revision)
unfolding begin_perceive handle on_register on_instantiate register_each reply new lookup insert
    contains
begun re revision = refl

run_job-Vetted_example : run_job runtime (bell_job 3 1) 0 ≡ (
  vetted runtime served.registry
      ((bell_job 3 1).provider.decide (bell 1) no_context (bell_job 3 1).caps 0).0.intents,
  ((bell_job 3 1).provider.decide (bell 1) no_context (bell_job 3 1).caps 0).1,
)
run_job-Vetted_example =
    run_job-Vetted runtime served (after_bell 1) 3 (perceive_bell 1) (bell_job 3 1) 0 served-Moves
      (begun 3 1)

finish_perceive-Superseded_example :
    finish_perceive runtime (bell_job 3 1) (passed []) (after_bell 2)
    ≡ error_response 3 superseded
        (superseded_text runtime (bell 1) (revision_of "bell" (after_bell 2)))
        (after_bell 2)
finish_perceive-Superseded_example =
    finish_perceive-Superseded runtime (bell_job 4 2) (bell_job 3 1) 4 (perceive_bell 2) served
      (after_bell 2) (after_bell 2) (begun 4 2) refl (omega arith) still (passed [])

-- A peer whose every line releases a soul.
abbrev releasing : Host
releasing = record {
  bytes = λ line. 2;
  fields_of_line = λ line. some (serialize souls_only release);
  serde = souls_only;
}

abbrev released : Connection ℕ
released = receive releasing runtime "{}" (accepted 0)

released-Reached : Reached releasing runtime 0 (asks "{}" + 0) released
unfolding accepted
released-Reached = reads "{}" refl refl accepts

Reached-Numbered_example : Numbered (asks "{}" + 0) released
Reached-Numbered_example =
    Reached-Numbered releasing runtime 0 (asks "{}" + 0) released released-Reached

Reached-AtRest_example :
    (d : Connection ℕ) × Settling releasing runtime 0 released d
    × AtRest releasing runtime 0 (asks "{}" + 0) d
Reached-AtRest_example =
    Reached-AtRest releasing runtime 0 (asks "{}" + 0) released released-Reached
