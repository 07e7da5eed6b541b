-- ===== src/Lib.antt =====
-- sth_boring: models of the packages src/sdk_test_agent, src/AgentCrawler/src/agent_crawler and
-- src/SchedulingModuleWroteBefore, with theorems about them.
--
-- The package sdk_test_agent is an agent that installs and tries out SDKs. A loop (agent_loop) decides on a request,
-- resolves the capabilities that are enabled (capability), has a plan made and validates it against
-- them (plan), runs the plan step by step (execution), and checks what came out. Steps reach a sandbox
-- through a command controller with policies (cmd_ctrl).
--
-- The package agent_crawler reads one web page: a runner fetches it, extracts a document and judges
-- it, and after a failure goes on with a plan that escalates, until its attempts are used up. Results
-- are cached, and browser pages stay open in a registry. The scheduler chooses between interfaces of
-- language models, each with a circuit breaker.
--
-- The files, with the code that they model; a method `_name` is `name` here, and a class's fields are
-- the fields of a record of its name:
--   Plan/Models, Plan/Enums           src/sdk_test_agent/plan/plan_models.py, plan_enums.py
--   Plan/Issues, Plan/Validator, Plan/StepChecks, Plan/SnapshotChecks, Plan/Validation
--                                     src/sdk_test_agent/plan/plan_validation.py
--   Capability/Schema, Capability/SchemaValidation
--                                     src/sdk_test_agent/capability/schema_validation.py
--   Capability/Models                 capability_models.py, capability_enums.py, trace_models.py there
--   Capability/Registry, Panel and Validator
--                                     capability_registry.py, capability_panel.py and
--                                     capability_validator.py there
--   Capability/Resolution             the records of resolutions in capability_panel.py, and their
--                                     check in capability_validator.py there
--   Capability/Builtin                builtin_capabilities.py there
--   Execution/*                       src/sdk_test_agent/execution, without the step executors
--   CmdCtrl/Paths, CmdCtrl/Policies   src/sdk_test_agent/cmd_ctrl/policies.py
--   CmdCtrl/Errors, Operators, Controller
--                                     cmd_ctrl_errors.py, operator.py, dispatcher.py and controller.py
--                                     there
--   AgentLoop/Graph, Nodes, Preflight, TaskCheck, Bindings
--                                     src/sdk_test_agent/agent_loop/graph_builder.py, nodes.py,
--                                     preflight.py, task_check.py and runtime_bindings.py
--   AgentLoop/Interaction             src/sdk_test_agent/agent_loop/interaction_decision.py and
--                                     src/sdk_test_agent/llm/response_parser.py
--   Plan/Finalizer                    src/sdk_test_agent/plan/plan_finalizer.py
--   Crawler/Enums, Crawler/Models     src/AgentCrawler/src/agent_crawler/models
--   Crawler/DomainPolicy, Policy      policy/domain_policy.py and policy/policy.py there
--   Crawler/ResultCache, BrowserPages fetch/result_cache.py and fetch/browser_registry.py there
--   Crawler/SessionStore, Adapters    session/session_store.py and extract/adapter.py there
--   Crawler/Runner                    loop/runner.py there: Stages and Loop hold the methods, cut into
--                                     the parts of `run`; Invariant says what the operations must
--                                     keep, so that an attempt keeps it
--   Scheduling                        src/SchedulingModuleWroteBefore/abc_cls.py and scheduler.py
--   Base, Json                        what the parts share: Python's texts, lists, dicts, ints,
--                                     exceptions and JSON values
-- A module below one of these states what it is named for, as Execution/Engine/Order does, and a
-- module Examples holds tests and theorems at concrete inputs.
--
-- Code that changes things outside is a function of a world of any type, and returns or raises with
-- the world that it leaves. Executors, the clock, the source of ids, the artifact manager, the
-- sandbox, digests, `model_dump`, the UTF-8 encoder, the JSON writer, `urlparse` and the nodes of the
-- loop that call components are arguments. Loops over a list are
-- recursion on the list. The check of a payload against a schema follows references and can go on for
-- ever; it runs on fuel, the depth of the stack (900 calls), and running out of it is the
-- RecursionError that the code then raises. Times are whole seconds in the agent, and whole
-- microseconds in the crawler and the scheduler. The loop of the crawler is recursion on the number of
-- attempts that are left. An exception is told from others by the name of its class, so that a class
-- derived from one that is caught by name counts as another.
--
-- Not modelled: the planners, the step executors, the control plane of runtimes, the artifact
-- manager, the inspectors and the clients of language models, which the plan leaves for later; the
-- Docker driver and HTTP, which are calls of libraries; in src/AgentCrawler the fetchers, extractors
-- and the renderer, which the runner takes as arguments, and the older package webkit; the
-- redistribution of weights in the scheduler, which rounds floats; and the package
-- src/mcped_function_tools.
mod Base
pub mod Json
pub mod Plan
pub mod Capability
pub mod Execution
pub mod CmdCtrl
pub mod AgentLoop
pub mod Crawler
pub mod Scheduling
