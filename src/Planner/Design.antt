-- ===== src/Planner/Design.antt =====
-- agentflow/agents/planner/agent.py: the brief that every call of the code generator shares, from
-- the LLM's design of the project or from the plan's files alone.
use omni_forge.Base.{
  Option, none, some, String, str_eq, if◌then◌else◌, List, [], ◌∷◌, ◌++◌, map, is_empty, get_or,
  not, filter,
}
use omni_forge.Base.Names.{sorted_set}
use omni_forge.Base.Text.{strip}
use omni_forge.Base.Words.{text_take}
use omni_forge.Values.{
  Value, null, str, list, dict, Items, nil, cons, Fields, end, field, get, truthy,
}
use omni_forge.Tasks.{Task}
use omni_forge.Tools.Markdown.{join_lines}
use omni_forge.Planner.Files.{infer_file_role}
use omni_forge.Planner.Arguments.{parse_json}
use omni_forge.Planner.Build.{Runtime, as_text, text_field}
use Prim.Native.String.{◌++◌ as text_append}

abbrev elements : Items → List Value
elements nil = []
elements (cons v items) = v ∷ elements items

abbrev keys : Fields → List Value
keys end = []
keys (field k v d) = str k ∷ keys d

abbrev characters : String → List Value
characters String.[] = []
characters (String.◌∷◌ c s) = str (String.◌∷◌ c String.[]) ∷ characters s

-- What a loop over a value goes through; `none` is the TypeError.
abbrev iterate : Value → Option (List Value)
iterate (list items) = some (elements items)
iterate (dict d) = some (keys d)
iterate (str s) = some (characters s)
iterate _ = none

-- `parsed.get(key) or []`
abbrev iterate_field : String → Fields → Option (List Value)
iterate_field key d = let v = get_or (get key d) null in if truthy v then iterate v else some []

abbrev join_with : String → List String → String
join_with separator [] = ""
join_with separator (s ∷ []) = s
join_with separator (s ∷ t ∷ more) =
    text_append s (text_append separator (join_with separator (t ∷ more)))

-- Lines after the ones there are, unless an exception is raised in either.
abbrev then_lines : Option (List String) → Option (List String) → Option (List String)
then_lines none more = none
then_lines (some lines) none = none
then_lines (some lines) (some more) = some (lines ++ more)

abbrev under_title : String → Option (List String) → Option (List String)
under_title title none = none
under_title title (some lines) = some (title ∷ lines)

module _ (runtime : Runtime) where
  -- `str(t.input.get("path", ""))`
  abbrev path_of : Task → String
  path_of t = text_field runtime "path" "" t.input

  -- The set of the paths, in order, without the empty one.
  unfoldable pub plan_files : List Task → List String
  unfolding sorted_set get
  plan_files tasks = sorted_set (filter (λ path. not (str_eq path "")) (map path_of tasks))

  abbrev role_line : String → String
  role_line file =
      text_append "  - " (text_append file (text_append "：" (infer_file_role runtime.reader file)))

  unfoldable pub build_project_brief : List Task → String → String
  unfolding plan_files infer_file_role join_lines
  build_project_brief tasks goal =
      let files = plan_files tasks in
      let roles = "计划创建的文件及职责：" ∷ map role_line files in
      join_lines (text_append "用户目标：" goal ∷ (if is_empty files then [] else roles))

  -- The lines of one section: each element that is a dict, or each element, gives its line.
  abbrev lines_of : (Value → Option (List String)) → List Value → Option (List String)
  lines_of line [] = some []
  lines_of line (v ∷ vs) = then_lines (line v) (lines_of line vs)

  abbrev titled :
      String → Option (List Value) → (Value → Option (List String)) → Option (List String)
  titled title none line = none
  titled title (some []) line = some []
  titled title (some (v ∷ vs)) line = under_title title (lines_of line (v ∷ vs))

  abbrev requirement_line : Value → Option (List String)
  requirement_line req =
      if truthy req then some (text_append "核心需求：" (as_text runtime req) ∷ []) else some []

  abbrev table_text : Fields → Option (List Value) → Option (List String)
  table_text t none = none
  table_text t (some fields) = some (
      text_append "  - " (
        text_append (text_field runtime "table" "" t)
          (text_append ": " (join_with "；" (map (as_text runtime) fields))))
      ∷ [])

  abbrev table_line : Value → Option (List String)
  table_line (dict t) = table_text t (iterate_field "fields" t)
  table_line _ = some []

  abbrev endpoint_line : Value → Option (List String)
  endpoint_line e = some (text_append "  - " (as_text runtime e) ∷ [])

  abbrev module_line : Value → Option (List String)
  module_line (dict m) = some (
      text_append "  - " (
        text_append (text_field runtime "file" "" m)
          (text_append ": " (text_field runtime "responsibility" "" m)))
      ∷ [])
  module_line _ = some []

  abbrev stack_lines : Value → Option (List String)
  stack_lines ts =
      if truthy ts then some (text_append "技术栈：" (as_text runtime ts) ∷ []) else some []

  abbrev requirement_lines : Option (List Value) → Option (List String)
  requirement_lines none = none
  requirement_lines (some reqs) = lines_of requirement_line reqs

  unfoldable pub design_lines : Fields → Option (List String)
  unfolding get
  design_lines parsed = then_lines (stack_lines (get_or (get "tech_stack" parsed) null)) (
      then_lines (requirement_lines (iterate_field "key_requirements" parsed)) (
        then_lines (titled "数据模型：" (iterate_field "data_model" parsed) table_line) (
          then_lines (titled "接口列表：" (iterate_field "api_endpoints" parsed) endpoint_line)
            (titled "模块职责：" (iterate_field "modules" parsed) module_line))))

  -- An exception, a design that is no dict and one without a line give the empty text.
  abbrev brief_of : Option (List String) → String
  brief_of none = ""
  brief_of (some lines) =
      let brief = text_take 1500 (join_lines lines) in if str_eq (strip brief) "" then "" else brief

  abbrev design_text : Option Value → String
  design_text (some (dict parsed)) = brief_of (design_lines parsed)
  design_text _ = ""

  module _ {W : Type 0} (complete : String → List String → W → Option String × W) where
    unfoldable pub generate_project_design : String → List Task → W → String × W
    unfolding plan_files parse_json design_lines join_lines strip
    generate_project_design goal tasks w =
        let (raw, w') = complete goal (plan_files tasks) w in
        elim raw [ none ↦ ("", w') | some text ↦ (design_text (parse_json runtime.loads text), w') ]

    -- The LLM's design, or the brief of the plan's files.
    unfoldable pub shared_brief : String → List Task → W → String × W
    unfolding generate_project_design build_project_brief
    shared_brief goal tasks w =
        let (design, w') = generate_project_design goal tasks w in
        if str_eq design "" then (build_project_brief tasks goal, w') else (design, w')
