-- ===== src/Reflection/Fallback.antt =====
-- `_generate_stuck_tasks`: the file tasks that are made when the queue is stuck. `is_word` is
-- Python's `\w`, `file_names` lists the files of a directory, `path_name` is `Path(p).name` and
-- `text_of` the text that Python makes of a value.
use omni_forge.Base.{
  Bool, true, false, Option, none, some, String, str_eq, if◌then◌else◌, List, [], ◌∷◌, ◌++◌, ℕ,
  get_or, any, leb, ◌==◌, not, ◌&&◌, ◌||◌,
}
use omni_forge.Base.Int.{pos}
use omni_forge.Base.Text.{lower}
use omni_forge.Base.Words.{contains_text, drop_prefix, replace_text, text_length}
use omni_forge.Values.{Value, str, dict, end, field, get, truthy}
use omni_forge.Results.{ToolResultDict}
use omni_forge.Executor.Actions.{contains}
use omni_forge.Reflection.{NewTask}
use Prim.Native.Char.{Char, code}
use Prim.Native.String.{◌++◌ as text_append}

abbrev pub file_wishes : List String
file_wishes =
    "文件" ∷ "创建" ∷ "新建" ∷ "生成" ∷ "写" ∷ "完成" ∷ "编写" ∷ "实现" ∷ "做" ∷ "开发" ∷ "帮忙" ∷ "帮我" ∷ "请" ∷ "游戏"
    ∷ []

abbrev main_py : String
main_py =
    "\"\"\"\n{project_name} - 主程序入口\n\"\"\"\n\ndef main():\n    print(\"Hello from {project_name}!\")\n\n\nif __name__ == \"__main__\":\n    main()\n"

abbrev main_java : String
main_java =
    "public class Main {\n    public static void main(String[] args) {\n        System.out.println(\"Hello from generated Java project!\");\n    }\n}\n"

abbrev main_go : String
main_go =
    "package main\n\nimport \"fmt\"\n\nfunc main() {\n    fmt.Println(\"Hello from {project_name}!\")\n}\n"

abbrev or_text_of : (Value → String) → Option Value → Option String
or_text_of text_of none = none
or_text_of text_of (some (str s)) = if str_eq s "" then none else some s
or_text_of text_of (some v) = if truthy v then some (text_of v) else none

abbrev first_text : Option String → Option String → String
first_text (some a) other = a
first_text none other = get_or other ""

module _ (is_word : ℕ → Bool) (file_names : String → List String) (path_name : String → String)
    (text_of : Value → String) where
  -- `re.search(r"\bpy\b", text)`; `after` says that a word character stands in front.
  abbrev not_word_first : String → Bool
  not_word_first String.[] = true
  not_word_first (String.◌∷◌ c s) = not (is_word (code c))

  abbrev rest_is_apart : Option String → Bool
  rest_is_apart none = false
  rest_is_apart (some rest) = not_word_first rest

  abbrev has_word_py : Bool → String → Bool
  has_word_py after String.[] = false
  has_word_py after (String.◌∷◌ c s) =
      not after && rest_is_apart (drop_prefix "py" (String.◌∷◌ c s))
      || has_word_py (is_word (code c)) s

  -- A character that the name of a directory keeps: `[\w\u4e00-\u9fff.-]`.
  abbrev is_kept : ℕ → Bool
  is_kept c = is_word c || leb 19968 c && leb c 40959 || c == 46 || c == 45

  -- `re.sub(r"[^…]+", "_", name)`; `run` says that the run of other characters goes on.
  abbrev cleaned_from : Bool → String → String
  cleaned_from run String.[] = String.[]
  cleaned_from run (String.◌∷◌ c s) =
      let kept = String.◌∷◌ c (cleaned_from false s) in
      let later = cleaned_from true s in
      if is_kept (code c) then kept else if run then later else text_append "_" later

  -- `.strip("._")`
  abbrev is_edge : ℕ → Bool
  is_edge c = c == 46 || c == 95

  abbrev strip_left : String → String
  strip_left String.[] = String.[]
  strip_left (String.◌∷◌ c s) =
      let rest = strip_left s in if is_edge (code c) then rest else String.◌∷◌ c s

  abbrev cons_edge : Char → String → String
  cons_edge c String.[] = if is_edge (code c) then String.[] else String.◌∷◌ c String.[]
  cons_edge c (String.◌∷◌ d s) = String.◌∷◌ c (String.◌∷◌ d s)

  abbrev strip_right : String → String
  strip_right String.[] = String.[]
  strip_right (String.◌∷◌ c s) = cons_edge c (strip_right s)

  unfoldable pub fallback_project_dir : String → String
  fallback_project_dir project_name =
      let cleaned = strip_right (strip_left (cleaned_from false project_name)) in
      if not (str_eq project_name "") && not (str_eq cleaned "") && leb (text_length cleaned) 48
      then text_append "generated_files/" cleaned
      else "generated_files"

  -- The path in a payload: `str(res.get("path", "") or res.get("file", "") or "")`, or a text.
  abbrev payload_path : Option Value → String
  payload_path (some (dict d)) =
      first_text (or_text_of text_of (get "path" d)) (or_text_of text_of (get "file" d))
  payload_path (some (str s)) = s
  payload_path _ = ""

  abbrev result_names : List ToolResultDict → List String
  result_names [] = []
  result_names (r ∷ rs) =
      let path = payload_path r.result in
      let later = result_names rs in if str_eq path "" then later else path_name path ∷ later

  unfoldable pub existing_file_names : List ToolResultDict → String → List String
  unfolding get
  existing_file_names results dir_name = file_names dir_name ++ result_names results

  abbrev file_task : String → String → String → NewTask
  file_task dir_name filename content = record {
    task_id = text_append "create_" (replace_text "-" "_" (replace_text "." "_" filename));
    title = text_append "创建 " filename;
    priority = pos 95;
    tool = "filesystem";
    input = field "action" (str "write_file") (
        field "path" (str (text_append dir_name (text_append "/" filename)))
          (field "content" (str content) end));
  }

  abbrev missing_files : String → List String → List (String × String) → List NewTask
  missing_files dir_name existing [] = []
  missing_files dir_name existing ((filename, content) ∷ specs) =
      let later = missing_files dir_name existing specs in
      if contains existing filename then later else file_task dir_name filename content ∷ later

  abbrev spec_if : Bool → String → String → List (String × String)
  spec_if true filename content = (filename, content) ∷ []
  spec_if false filename content = []

  -- `_generate_stuck_tasks`, which is `_deterministic_file_fallback_tasks`
  unfoldable pub generate_stuck_tasks : String → String → List ToolResultDict → List NewTask
  unfolding lower replace_text fallback_project_dir existing_file_names
  generate_stuck_tasks goal project_name results =
      let text = lower goal in
      let wants_python = contains_text "python" text || has_word_py false text in
      let wants_java = contains_text "java" text in
      let wants_go =
        contains_text "go" text || contains_text "golang" text || contains_text "go语言" goal in
      let named = if str_eq project_name "" then "project" else project_name in
      let dir_name = fallback_project_dir project_name in
      let specs =
        spec_if wants_python "main.py" (replace_text "{project_name}" named main_py)
        ++ spec_if wants_java "Main.java" main_java
        ++ spec_if wants_go "main.go" (replace_text "{project_name}" named main_go) in
      if any (λ wish. contains_text wish goal) file_wishes
      then missing_files dir_name (existing_file_names results dir_name) specs
      else []
