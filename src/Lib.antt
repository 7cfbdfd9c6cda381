-- ===== src/Lib.antt =====
-- Pan, an agent harness: a provider decides, the loop enacts its decisions, and every effect goes
-- through one pipeline that resolves, validates, governs and executes it. A daemon serves the same
-- pipeline to hosts over a line protocol. This library models that path and the daemon.
--
-- The parts, the files that model them, and the code they follow (pan-core/src, where no other
-- directory is named):
--   Prelude, Json, Table: shared helpers; JSON values with their accessors; `BTreeMap` as an
--     association list.
--   Schema: schema.rs, the vocabulary (goals, contexts, decisions, budgets).
--   Registry: registry.rs, `CapabilityRegistry`; a method that changes it returns the registry.
--   Lifecycle: registry.rs, `Plugin` and `Lifecycle`, one function for each phase.
--   Governor: pipeline.rs. Scoped, Path, Chain and Host are `ScopedGovernor`, `PathGovernor`,
--     `PolicyChain` and `HostAllowlistGovernor`; Glob is `glob_match_rec`.
--   Events: events.rs, the event stream and its sinks.
--   Pipeline: pipeline.rs and invoker.rs. Stages has one function for each method of `Pipeline`, with
--     `dispatch` for the sequence; Check is `minimal_schema_check`; Invoker is `PipelineInvoker` with
--     the stages that pass it on; Governance and Log hold the proofs.
--   Toolbox: toolbox.rs, the executor that hands a capability to its owner.
--   Loop: loop_engine.rs. Stall is `StallDetector`, Sources are `Once` and `StreamingObservations`,
--     Enact is `enact`, Span is `run_span`, one turn of its inner loop at a time.
--   Providers: providers.rs, the rules engine and the behavior tree.
--   Components: components.rs, the factories of the five families.
--   Plugind: plugind.rs, `PluginSet` and `PluginManager` with `reload`.
--   Calendar: pan-cap/src/time.rs, `civil_from_days`, for the days that its callers ask for.
--   Daemon: pan-daemon/src. Wire is wire.rs, with Wire/Codec for the envelope's serialisation;
--     Dispatch is governor.rs and `dispatch_decision_async` of session.rs; Session is session.rs, one
--     function for each handler, with Session/Souls for the souls and their rules; Drive is `drive` of
--     server.rs, `receive` being a turn of its loop and `finish` the rest of a spawned task; Mind is
--     llm.rs.
--   Config: config.rs, with Config/Expand for `expand_env_vars`, read character by character.
--   Agent: pan-agent/src. Manifest, Merge and Assemble are manifest.rs, merge.rs and assembler.rs;
--     Delegate is agent.rs, Session is session.rs, History is context.rs, Command is command.rs.
--   Llm: pan-llm/src. Compactor and Evaluator are compactor.rs and evaluator.rs; OpenAi and Anthropic
--     are the tools, transcripts and replies of openai.rs and anthropic.rs, with two helpers of lib.rs,
--     and Decide has `decide` of both; Http and Download are the posts and the gets of http.rs.
--   Caps: pan-cap/src. Http and State are http.rs and state.rs; Fs is fs.rs, with Jail and Glob for
--     `jail` and `glob_match`; Snapshot is snapshot.rs, Skill is skill.rs, and Process has the two
--     capabilities of shell.rs and format.rs.
--   Skill: pan-skill/src, the conversation with a skill of runner.rs and protocol.rs.
--   Gateway: pan-gateway/src/pool.rs, the agents of a directory.
--   Examples: the theorems at concrete inputs.
--
-- A plugin (governor, executor, hook, provider, compactor, evaluator) is an argument, a function that
-- reads and writes a world `W` of any type. An executor with an invoker is a tree of requests
-- (`Task`), each answered by a dispatch under the invoker's scope. A future that the loop races is a
-- poll that may be pending, and what a dropped `decide` has left in the world is an argument.
-- The printing of values and verdicts is an argument too.
--
-- A connection is a record of the session, the world, the replies that the reader has to write, the
-- tasks that are deciding and those that have a reply to write. `Drive.Steps.Reached` lets the reader
-- take a line whenever it has nothing to write, and any task take its next step at any time: the mind
-- with the dispatch and the session's lock is one step, a write another. Tasks outlive the reader. What
-- serde derives for the bodies, the text of a line, and the inference endpoint are arguments; doubles
-- are bit patterns that an argument compares.
--
-- Bounds: the event counter wraps at 2^64 and the stall counter at 2^32. `run_span` runs on fuel, one
-- unit for each turn of the inner loop: a goal takes at most eight turns (`MAX_TOOL_STEPS`), since a
-- turn that ends neither the span nor the goal is a tool step, so eight for each goal of the source
-- are enough.
--
-- The message counter of a session wraps at 2^64, as it does in a release build.
--
-- A file system is a record of operations that read and write the world, and what a law needs of it
-- is a record too (`Caps.Snapshot.Laws.IsLawful`); paths are texts, and two of them two places, so that
-- links and `.` inside of a path are not seen. A skill is the tree of the lines that it writes, each
-- followed by what it does with the answer, and of what its process, started without a sandbox, does to the
-- world by itself before a line; a theorem on `cap.skill` takes it as a hypothesis that the process leaves
-- a place alone. `Llm.Decide` and `Caps.State` cut a call where it waits for a reply or frees the lock;
-- `Reached` of `Llm.Decide.Laws`, for the OpenAI provider, and of `Caps.State.Laws` let other calls come
-- between. The loop over the retries of a post and that over redirects count the rounds that the source counts;
-- `walk` runs on fuel, one unit for each directory that it opens, and `drop_blocks` on a unit for each
-- character and one more.
--
-- Not modelled: threads, sockets, TLS and processes, of which a read, a write or an exchange is an
-- argument, and in the daemon a write never fails and a mind always answers; the manifests and Wasm
-- modules of plugins and the scan of their directories; the handlers of the gateway, `cap.lsp`, the
-- sandbox of skills, the factories of the providers and capabilities, and the user interfaces. The crates
-- toml and serde_json, paths, files and Unicode's tables are arguments where the configuration, the
-- agents and the capabilities use them.
pub mod Prelude
pub mod Gateway
pub mod Skill
pub mod Json
pub mod Schema
pub mod Table
pub mod Registry
pub mod Governor
pub mod Events
pub mod Pipeline
pub mod Loop
pub mod Lifecycle
pub mod Toolbox
pub mod Examples
pub mod Components
pub mod Plugind
pub mod Agent
pub mod Config
pub mod Llm
pub mod Caps
pub mod Calendar
pub mod Providers
pub mod Daemon
