-- ===== src/Planner/Fill.antt =====
-- agentflow/agents/planner/agent.py: the code generator, which fills the content of the code files
-- that a plan writes. The LLM is threaded through `W`.
pub mod Valid
use omni_forge.Base.{
  Bool, true, false, Option, none, some, String, str_eq, if◌then◌else◌, List, [], ◌∷◌, ◌++◌, not,
  ◌&&◌, ◌||◌, ltb, get_or,
}
use omni_forge.Base.Text.{strip}
use omni_forge.Base.Words.{text_length}
use omni_forge.Values.{Value, str, Fields, get, put, without, truthy}
use omni_forge.Tasks.{Task}
use omni_forge.Executor.Actions.{contains}
use omni_forge.Planner.Files.{
  is_code_file, is_fillable_text_file, looks_substantial, infer_file_role, guess_language,
  validate_generated_code,
}
use omni_forge.Planner.Build.{Runtime, as_text, text_field}
use Prim.Native.String.{◌++◌ as text_append}

-- A prompt for the code generator, with the language of the file and the project's brief.
pub record CodeRequest : Type 0 where
  pub code_prompt : String
  pub language : String
  pub project_brief : String

-- `_ACTION_NAMES`
abbrev bare_action_names : List String
bare_action_names = "write_file" ∷ "create_file" ∷ "mkdir" ∷ "append_file" ∷ "edit_file" ∷ []

-- A text with nothing but space counts as none.
abbrev stripped_or_empty : Option String → String
stripped_or_empty none = ""
stripped_or_empty (some raw) = strip raw

-- Errors, the task, and the LLM after it.
pub record Filled (W : Type 0) : Type 0 where
  pub task : Task
  pub errors : List String
  pub world : W

-- `inp["content"] = code`, and `inp.pop("code_prompt", None)`
unfoldable pub with_code : String → Task → Task
unfolding put without
with_code code t = record t { input = without "code_prompt" (put "content" (str code) t.input) }

-- The LLM completes a request, or an exception is raised (`none`).
module _ {W : Type 0} (runtime : Runtime) (complete : CodeRequest → W → Option String × W) where
  unfoldable pub call_codegen : CodeRequest → W → String × W
  unfolding strip
  call_codegen request w =
      let (raw, w') = complete request w in
      if str_eq (strip request.code_prompt) "" then ("", w) else (stripped_or_empty raw, w')

  abbrev write_action : Task → String
  write_action t =
      let action = get_or (get "action" t.input) (str "") in
      if truthy action then as_text runtime action else t.goal

  abbrev writes_code : Task → Bool
  writes_code t =
      let path = text_field runtime "path" "" t.input in
      (str_eq (write_action t) "write_file" || str_eq (write_action t) "create_file")
      && (is_code_file path || is_fillable_text_file runtime.reader path)

  abbrev has_code : Task → Bool
  has_code t =
      let existing = text_field runtime "content" "" t.input in
      not (str_eq existing "")
      && looks_substantial runtime.reader existing (text_field runtime "path" "" t.input)

  abbrev or_goal : Task → String → String
  or_goal t prompt = if str_eq prompt "" then t.goal else prompt

  -- A prompt that is empty or an action's name is made from the file's role.
  unfoldable pub code_prompt_of : Task → String
  unfolding get strip infer_file_role
  code_prompt_of t =
      let path = text_field runtime "path" "" t.input in
      let prompt = or_goal t (strip (text_field runtime "code_prompt" "" t.input)) in
      if str_eq prompt "" || contains bare_action_names prompt
      then text_append "编写 " (
          text_append path
            (text_append "。它在项目中的职责：" (text_append (infer_file_role runtime.reader path) "。")))
      else prompt

  abbrev pub needs_code : Task → Bool
  needs_code t = writes_code t && not (has_code t) && not (ltb (text_length (code_prompt_of t)) 3)

  abbrev retry_prompt : String → String → String
  retry_prompt prompt detail =
      text_append prompt (text_append "\n\n上次生成的代码存在语法错误：" (text_append detail "\n请修复后输出完整代码。"))

  -- The second answer: it is used only if it is valid.
  abbrev pub second_answer : Task → String → String → String → Option String → W → Filled W
  second_answer t path code code2 detail2 w =
      if str_eq code2 ""
      then record {
        task = with_code code t;
        errors = text_append path ": retry produced no code" ∷ [];
        world = w;
      }
      else elim detail2 [
        | none ↦ record { task = with_code code2 t; errors = []; world = w }
        | some detail ↦ record {
          task = with_code code t;
          errors = text_append path (text_append ": " detail) ∷ [];
          world = w;
        }
      ]

  abbrev pub retried : Task → CodeRequest → String → String → String × W → Filled W
  retried t request path code (code2, w) =
      second_answer t path code code2 (validate_generated_code runtime.reader path code2) w

  -- The first answer: a file that is not valid is asked for once more.
  abbrev pub first_answer : Task → CodeRequest → String → String → Option String → W → Filled W
  first_answer t request path code none w = record {
    task = with_code code t;
    errors = [];
    world = w;
  }
  first_answer t request path code (some detail) w =
      let again = record request { code_prompt = retry_prompt request.code_prompt detail } in
      retried t again path code (call_codegen again w)

  abbrev pub answered : Task → CodeRequest → String → String × W → Filled W
  answered t request path (code, w) =
      if str_eq code ""
      then record { task = t; errors = text_append path ": no code generated" ∷ []; world = w }
      else first_answer t request path code (validate_generated_code runtime.reader path code) w

  abbrev pub code_request : String → Task → CodeRequest
  code_request project_brief t = record {
    code_prompt = code_prompt_of t;
    language = guess_language (text_field runtime "path" "" t.input);
    project_brief = project_brief;
  }

  -- One round of the loop.
  unfoldable pub fill_task : String → Task → W → Filled W
  unfolding get call_codegen code_prompt_of with_code is_code_file is_fillable_text_file
      looks_substantial guess_language validate_generated_code
  fill_task project_brief t w =
      let path = text_field runtime "path" "" t.input in
      let request = code_request project_brief t in
      if needs_code t
      then answered t request path (call_codegen request w)
      else record { task = t; errors = []; world = w }

  -- `_fill_code_content`: the tasks, which the code changes in place, and the errors.
  unfoldable pub fill_code_content : String → List Task → W → List Task × List String × W
  unfolding fill_task
  fill_code_content project_brief [] w = ([], [], w)
  fill_code_content project_brief (t ∷ ts) w =
      let first = fill_task project_brief t w in
      let (tasks, errors, w') = fill_code_content project_brief ts first.world in
      (first.task ∷ tasks, first.errors ++ errors, w')
