-- ===== src/Reflection/Run.antt =====
-- `ReflectionAgent.run`: the evaluation, its application to the queue, the fallback for a stuck
-- queue, and the verdict. `ask` is the LLM's decision about a queue, if its answer is valid. The
-- messages of a failure for the session are left out, and so is the exception of a queue that does
-- not load, which `safe_run` turns into the state with an "error".
pub mod Moves
use omni_forge.Base.{
  Bool, true, false, Option, none, some, String, str_eq, if◌then◌else◌, List, [], ◌∷◌, ◌++◌, ℕ, suc,
  get_or, is_empty, is_some, length, not, ◌&&◌, ◌||◌,
}
use omni_forge.Values.{Value}
use omni_forge.Tasks.{Task}
use omni_forge.Results.{ToolResultDict}
use omni_forge.Queue.{TaskQueue, get_task, add_one, has_todo, all_tasks, to_dict_list}
use omni_forge.Planner.Templates.Tables.{Template}
use omni_forge.Planner.Templates.{match_template, extract_project_name, is_goal_completed}
use omni_forge.Workflow.State.{WorkflowState, get_goal, get_goal_type, empty_state}
use omni_forge.Reflection.{
  NewTask, ReflectionOutput, Decision, new_task, apply_reflection, evaluate, conclude,
}
use omni_forge.Reflection.Rules.{rule_evaluation, has_file_creation}
use omni_forge.Reflection.Fallback.{generate_stuck_tasks}
use Prim.Native.String.{◌++◌ as text_append}

-- What the agent calls of Python, of the file system and of the LLM.
pub record Surroundings : Type 0 where
  pub now : String
  pub fresh : ℕ → String
  pub number : ℕ → String
  pub files : String → Option (List String)
  pub file_names : String → List String
  pub path_name : String → String
  pub is_word : ℕ → Bool
  pub text_of : Value → String
  pub ask : TaskQueue → Option ReflectionOutput

-- A decision with its queue, and whether no file could be generated.
pub record Outcome : Type 0 where
  pub output : ReflectionOutput
  pub queue : TaskQueue
  pub generation_failed : Bool

module _ (around : Surroundings) where
  open around use {now, fresh, number, files, file_names, path_name, is_word, text_of, ask}

  abbrev pub generated : String → List ToolResultDict → List NewTask
  generated goal results =
      generate_stuck_tasks is_word file_names path_name text_of goal (extract_project_name goal)
        results

  abbrev pub by_rules : String → String → List ToolResultDict → TaskQueue → Decision
  by_rules goal goal_type results q =
      rule_evaluation now fresh number files goal goal_type q results

  abbrev or_rules : Decision → TaskQueue → Option ReflectionOutput → Decision
  or_rules rules q none = rules
  or_rules rules q (some r) = (r, q)

  -- `_llm_evaluate`: the rules once more when the LLM fails.
  unfoldable pub llm_evaluate : String → String → List ToolResultDict → TaskQueue → Decision
  unfolding rule_evaluation
  llm_evaluate goal goal_type results q = or_rules (by_rules goal goal_type results q) q (ask q)

  -- A task is added unless one of its id is in the queue; the test for an empty id is left out, since
  -- every fallback task has an id.
  unfoldable pub add_generated : ℕ → List NewTask → TaskQueue → TaskQueue
  unfolding add_one get_task new_task
  add_generated n [] q = q
  add_generated n (cfg ∷ cfgs) q =
      let added = add_one (new_task now fresh n cfg) q in
      add_generated (suc n) cfgs (if is_some (get_task cfg.task_id q) then q else added)

  -- The tasks that it adds, which the decision lists from then on.
  unfoldable pub added_tasks : ℕ → List NewTask → TaskQueue → List NewTask
  unfolding add_one get_task new_task
  added_tasks n [] q = []
  added_tasks n (cfg ∷ cfgs) q =
      let present = is_some (get_task cfg.task_id q) in
      let added = add_one (new_task now fresh n cfg) q in
      let later = added_tasks (suc n) cfgs (if present then q else added) in
      if present then later else cfg ∷ later

  -- `current_queue.add` of each task
  unfoldable pub add_each : ℕ → List NewTask → TaskQueue → TaskQueue
  unfolding add_one new_task
  add_each n [] q = q
  add_each n (cfg ∷ cfgs) q = add_each (suc n) cfgs (add_one (new_task now fresh n cfg) q)

  abbrev pub is_stuck : ReflectionOutput → TaskQueue → Bool
  is_stuck r q =
      not r.goal_completed && not (has_todo q) || r.goal_completed && not (has_file_creation q)

  abbrev pub unstick : ReflectionOutput → TaskQueue → List NewTask → Outcome
  unstick r q [] = record {
    output = record r { goal_completed = true; reason = "无法自动生成文件内容" };
    queue = q;
    generation_failed = true;
  }
  unstick r q (cfg ∷ cfgs) = record {
    output = record r {
      goal_completed = false;
      new_tasks = r.new_tasks ++ added_tasks (length r.new_tasks) (cfg ∷ cfgs) q;
    };
    queue = add_generated (length r.new_tasks) (cfg ∷ cfgs) q;
    generation_failed = false;
  }

  unfoldable pub settle_stuck : ReflectionOutput → TaskQueue → List NewTask → Outcome
  unfolding has_todo has_file_creation add_generated added_tasks
  settle_stuck r q cfgs =
      if is_stuck r q
      then unstick r q cfgs
      else record { output = r; queue = q; generation_failed = false }

  abbrev template_done : TaskQueue → Option Template → Bool
  template_done q none = false
  template_done q (some template) = is_goal_completed template (all_tasks q)

  -- The completion that the template decides.
  unfoldable pub confirm_template : String → String → Outcome → Outcome
  unfolding match_template is_goal_completed all_tasks
  confirm_template goal goal_type out =
      let r = out.output in
      if template_done out.queue (match_template goal goal_type)
      then record out {
        output = record r { goal_completed = true; reason = text_append r.reason "（所有必需任务已完成）" };
      }
      else out

  -- The part of `run` from the queue that is loaded to the one that is stored.
  unfoldable pub reflect_on : Bool → String → String → List ToolResultDict → TaskQueue → Outcome
  unfolding evaluate llm_evaluate apply_reflection settle_stuck confirm_template
      generate_stuck_tasks extract_project_name rule_evaluation
  reflect_on degraded goal goal_type results q =
      let (r, q1) =
        evaluate degraded (llm_evaluate goal goal_type results)
          (by_rules goal goal_type results q) in
      confirm_template goal goal_type
        (settle_stuck r (apply_reflection now fresh r q1) (generated goal results))

  abbrev failed_if : Bool → WorkflowState → WorkflowState
  failed_if true s = record s { generation_failed = some true }
  failed_if false s = s

  abbrev refill : String → TaskQueue → List NewTask → WorkflowState → WorkflowState
  refill goal_type q [] s = record empty_state {
    reflection_result = some "done";
    reflection_message = some "任务队列为空，无需继续";
  }
  refill goal_type q (cfg ∷ cfgs) s = record s {
    task_queue = some (to_dict_list (add_each 0 (cfg ∷ cfgs) q));
    reflection_result = some "next";
    reflection_message = some "已生成文件创建兜底任务";
  }

  -- `run`, on the queue that the state holds.
  unfoldable pub run : Bool → TaskQueue → WorkflowState → WorkflowState
  unfolding reflect_on conclude get_goal get_goal_type to_dict_list add_each generate_stuck_tasks
      extract_project_name
  run degraded q s =
      let goal = get_goal s in
      let goal_type = get_goal_type s in
      let results = get_or s.tool_results [] in
      let out = reflect_on degraded goal goal_type results q in
      if is_empty q
      then refill goal_type q (if str_eq goal_type "project" then generated goal results else []) s
      else failed_if out.generation_failed (conclude out.output out.queue s)
