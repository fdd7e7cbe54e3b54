-- ===== src/Lib.antt =====
-- Verification of the task engine of OmniForge: how the workflow plans tasks, hands them to tools,
-- and stops. An agent adds tasks to a queue, the graph of agentflow/graph/workflow.py routes each
-- task to a node that executes it, a failed call is repaired once, and a reflector sends the run
-- back to the planner or on to the answer.
--
-- Files and the code they are about:
--   Values       Python's dynamic values, as inputs, payloads and results of tasks hold them
--   Tasks        agentflow/graph/task.py (Task, TaskStatus); Tasks/Serial its dict form
--   Queue        agentflow/agents/planner/task_queue.py (TaskQueue)
--   Termination  agentflow/config/termination.py (TerminationPolicy)
--   Results      agentflow/tools/result.py (ToolResult)
--   Registry     agentflow/tools/registry.py and tools/base.py (ToolRegistry, BaseTool)
--   Events       agentflow/graph/event.py and graph/context.py (EventBus, WorkflowContext)
--   Executor     agentflow/graph/executor.py: execute; Executor/Actions the translation of action
--                names, Executor/Dicts tasks as dicts and batches, Executor/Batch parallel batches
--   Workflow     agentflow/graph/workflow.py, graph/plan.py and graph/state_utils.py: State, Select
--                (_find_highest_priority_todo), Routes, Parallel (_select_parallel_tasks), Repair
--                (_repair_tool_task), Nodes, ToolNode, Graph (build_workflow and a step of a run)
--   Blueprints   agentflow/blueprints/models.py and loader.py: matching and rendering blueprints
--   Planner      agentflow/agents/planner: Templates (templates.py), Capability (capability.py and
--                schemas.py), and of agent.py: Arguments (texts of the LLM, also broken ones), Files,
--                Build (plans out of tool calls, Build/Calls, and JSON, Build/Json), Fill (the code
--                generator), Design, Asking (which answer is used), Starting (blueprints and
--                templates as plans), Run (run, its flows and the nodes of a plan)
--   Reflection   agentflow/agents/reflection/agent.py and schemas.py: the decision of the reflector,
--                how it is applied to the queue, and its verdict; Reflection/Rules the evaluation
--                without the LLM, Fallback the tasks for a stuck queue, Run the method run
--   Conversation agentflow/conversation/session_state.py and state.py (Session), and compression.py
--                (Compression), rewrite.py (Rewrite), and manager.py: Turns (what it reads out of texts),
--                Manager (how a turn begins and ends) and Context
--   Services     agentflow/services/llm_service.py: Breaker (CircuitBreaker), Llm (its retries) and
--                Completions (complete, complete_with_tools), Errors (the labels of errors)
--   Tools        agentflow/tools/filesystem_tool.py and path_safety.py: Disk (what they call of Python),
--                Paths, Markdown (code in fences), FileSystem (the actions of the file tool), and
--                FileSystem/Outside the facts that it is to leave alone
--   Base         helpers on lists, options, keyed lists, numbers and texts
--   Scenarios    the theorems at concrete inputs
--
-- A method that mutates an object returns the new object. A call that may raise returns `Call`: a
-- value or the text of the exception, with or without its class as the code writes it. The outside
-- world is a type `W`, which tools and agents read and change; the clock, `uuid4` and Python's texts
-- of values come with the record `Runtime`. A parallel batch runs its tasks in the order of a
-- schedule, each as one step. In a queue of dicts, the position of a task stands for the identity
-- of the object.
--
-- LangGraph is not modelled: a step merges the keys that a node returns into the state and follows
-- the edge; what a router writes into the state is lost, but for the routes in the entries of the
-- trace, which it shares. The agents are arguments of a step. A tool, the LLM that repairs arguments
-- and the thread pool's schedule are arguments too. Nothing runs on fuel.
--
-- The answer of the reflector's LLM is an argument of its run, as are the directory that it reads
-- and Python's classes of characters. The client of the LLM service, the clock, sleeping and random
-- numbers come with the record `Provider`; the sections of a breaker under its lock are its steps, and
-- threads are a list of them. The file tool's paths and files come with the record `Disk`.
--
-- What the planner calls of Python (json.loads, int, str, pathlib, ast.parse) comes with its records
-- Runtime and Reader, the LLM with the record Llm, and the files of a project, Jinja2 and the
-- configurator of blueprints with Projects. A sum of floats that scores a blueprint is an integer
-- in the order of these sums.
--
-- A regular expression is a function to the texts that its matches leave, in Base/Patterns; what
-- Unicode counts as a digit or as part of a word comes with the record Unicode.
--
-- Not modelled: the other agents, the knowledge package, the
-- other concrete tools, the other services, API and database, since they call models, files and networks;
-- streams of the LLM; and what only makes texts for prompts or logs.
pub mod Base
pub mod Values
pub mod Tasks
pub mod Queue
pub mod Termination
pub mod Results
pub mod Registry
pub mod Events
pub mod Executor
pub mod Workflow
pub mod Reflection
pub mod Blueprints
pub mod Planner
pub mod Tools
pub mod Conversation
pub mod Services
pub mod Scenarios
