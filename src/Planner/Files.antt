-- ===== src/Planner/Files.antt =====
-- agentflow/agents/planner/agent.py: which files the code generator fills, the role and the
-- language of a file, and when a text counts as code. `pathlib` and `ast.parse` are parameters.
use omni_forge.Base.{
  Bool, true, false, Option, none, some, String, str_eq, if◌then◌else◌, List, [], ◌∷◌, any, not,
  ◌&&◌, ◌||◌, leb, get_or, length, filter,
}
use omni_forge.Base.Text.{lower, strip}
use omni_forge.Base.Words.{starts_with, ends_with, contains_text, text_length, split_last}
use omni_forge.Executor.Actions.{contains, entry}
use omni_forge.Tools.Markdown.{extract_code_from_markdown}
use Prim.Native.String.{◌++◌ as text_append}

-- `_CODE_EXTENSIONS`
abbrev pub code_extensions : List String
code_extensions =
    ".py" ∷ ".java" ∷ ".js" ∷ ".ts" ∷ ".jsx" ∷ ".tsx" ∷ ".go" ∷ ".rs" ∷ ".cpp" ∷ ".c" ∷ ".h"
    ∷ ".hpp" ∷ ".cs" ∷ ".swift" ∷ ".kt" ∷ ".scala" ∷ ".rb" ∷ ".php" ∷ ".vue" ∷ ".svelte" ∷ ".html"
    ∷ ".css" ∷ ".scss" ∷ ".less" ∷ ".sql" ∷ ".sh" ∷ ".bash" ∷ ".ps1" ∷ ".yaml" ∷ ".yml" ∷ ".toml"
    ∷ ".xml" ∷ []

-- `_EXT_TO_LANG`
abbrev pub ext_to_lang : List (String × String)
ext_to_lang =
    (".py", "Python")
    ∷ (".java", "Java")
    ∷ (".js", "JavaScript")
    ∷ (".ts", "TypeScript")
    ∷ (".go", "Go")
    ∷ (".rs", "Rust")
    ∷ (".cpp", "C++")
    ∷ (".c", "C")
    ∷ (".html", "HTML")
    ∷ (".css", "CSS")
    ∷ (".vue", "Vue")
    ∷ (".jsx", "React JSX")
    ∷ (".tsx", "React TSX")
    ∷ (".sql", "SQL")
    ∷ (".sh", "Bash")
    ∷ (".yaml", "YAML")
    ∷ (".yml", "YAML")
    ∷ []

-- `path[path.rfind("."):]`, unless there is no dot
abbrev dot_suffix : Option (String × String) → Option String
dot_suffix none = none
dot_suffix (some (front, rest)) = some (text_append "." rest)

abbrev extension : String → Option String
extension path = dot_suffix (split_last "." path)

abbrev is_code_ext : Option String → Bool
is_code_ext none = false
is_code_ext (some ext) = contains code_extensions (lower ext)

unfoldable pub is_code_file : String → Bool
unfolding lower
is_code_file path = is_code_ext (extension path)

abbrev language_of : Option String → String
language_of none = ""
language_of (some ext) = get_or (entry ext_to_lang (lower ext)) ""

unfoldable pub guess_language : String → String
unfolding lower
guess_language path = language_of (extension path)

-- `str.splitlines` is a parameter, as are the name and the stem of a path.
pub record Reader : Type 0 where
  pub name : String → String
  pub stem : String → String
  pub splitlines : String → List String
  -- `ast.parse`, `none` without a SyntaxError and else its text and line
  pub parse : String → Option String

module _ (reader : Reader) where
  open reader use {name, stem, splitlines, parse}

  unfoldable pub infer_file_role : String → String
  unfolding lower
  infer_file_role path =
      let file = lower (name path) in
      let word = lower (stem path) in
      if str_eq file "app.py" || str_eq file "main.py"
      then "应用入口（启动、注册路由）"
      else if contains_text "route" word || str_eq file "urls.py"
      then "API 路由/控制器"
      else if contains_text "model" word
      then "数据模型定义"
      else if ends_with file ".sql"
      then "数据库表结构（schema）"
      else if contains_text "schema" word
      then "数据库结构"
      else if contains_text "test" word
      then "单元测试"
      else if contains_text "config" word || str_eq file "settings.py"
      then "配置"
      else if ends_with file ".html"
      then "前端页面"
      else if any (ends_with file) (".css" ∷ ".js" ∷ ".ts" ∷ ".vue" ∷ [])
      then "前端资源/交互"
      else if str_eq file "dockerfile"
          || contains_text "docker" word
          || any (ends_with file) (".yml" ∷ ".yaml" ∷ [])
      then "部署/容器配置"
      else if str_eq file "readme.md"
      then "项目说明文档"
      else if str_eq file "requirements.txt" || str_eq file "pyproject.toml"
      then "依赖声明"
      else "项目组件"

  abbrev is_code_line : String → Bool
  is_code_line line = not (str_eq (strip line) "") && not (starts_with (strip line) "#")

  abbrev is_import : String → Bool
  is_import line = starts_with line "import " || starts_with line "from "

  unfoldable pub looks_substantial : String → String → Bool
  unfolding lower strip
  looks_substantial content path =
      let code_lines = filter is_code_line (splitlines content) in
      if leb 500 (text_length content)
      then true
      else if ends_with (lower path) ".py"
      then any is_import code_lines && leb 4 (length code_lines)
      else leb 200 (text_length content)

  unfoldable pub is_fillable_text_file : String → Bool
  unfolding lower
  is_fillable_text_file path =
      contains ("requirements.txt" ∷ "pyproject.toml" ∷ []) (lower (name path))

  -- `none` is `(True, "")`; a detail is that of a SyntaxError.
  unfoldable pub validate_generated_code : String → String → Option String
  unfolding lower extract_code_from_markdown
  validate_generated_code path code =
      if not (ends_with (lower path) ".py") then none else parse (extract_code_from_markdown code)
