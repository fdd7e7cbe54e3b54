-- ===== src/Executor/Actions.antt =====
-- `_translate_action`: Chinese action names become the canonical English ones.
pub mod Canonical
use omni_forge.Base.{
  ◌≡◌, refl, Bool, true, false, Option, none, some, String, str_eq, if◌then◌else◌, List, [], ◌∷◌,
  any, ◌||◌,
}

abbrev pub known_actions : List String
known_actions =
    "mkdir" ∷ "write_file" ∷ "create_file" ∷ "edit_file" ∷ "append_file" ∷ "read_file"
    ∷ "delete_file" ∷ "list_directory" ∷ "execute" ∷ "search" ∷ "status" ∷ "diff" ∷ "add" ∷ "commit"
    ∷ "checkout" ∷ "branch" ∷ "log" ∷ "show" ∷ []

abbrev pub chinese_action_map : List (String × String)
chinese_action_map =
    ("创建项目根目录", "mkdir")
    ∷ ("创建目录", "mkdir")
    ∷ ("新建文件夹", "mkdir")
    ∷ ("创建文件夹", "mkdir")
    ∷ ("建立目录", "mkdir")
    ∷ ("创建文件", "write_file")
    ∷ ("新建文件", "write_file")
    ∷ ("写入文件", "write_file")
    ∷ ("生成文件", "write_file")
    ∷ ("创建", "write_file")
    ∷ ("编辑文件", "edit_file")
    ∷ ("修改文件", "edit_file")
    ∷ ("追加内容", "append_file")
    ∷ ("添加内容", "append_file")
    ∷ ("读取文件", "read_file")
    ∷ ("列出文件", "list_directory")
    ∷ ("查看目录", "list_directory")
    ∷ ("删除文件", "delete_file")
    ∷ ("运行代码", "execute")
    ∷ ("执行脚本", "execute")
    ∷ ("执行代码", "execute")
    ∷ ("搜索", "search")
    ∷ ("查看文件", "read_file")
    ∷ ("列出目录", "list_directory")
    ∷ ("移动文件", "move_file")
    ∷ ("复制文件", "copy_file")
    ∷ ("重命名文件", "rename_file")
    ∷ ("删除目录", "delete_directory")
    ∷ ("查看配置", "show")
    ∷ []

-- `name in names`, for a frozenset of texts
abbrev pub contains : List String → String → Bool
contains names name = any (λ s. str_eq s name) names

abbrev pub entry : List (String × String) → String → Option String
entry [] name = none
entry ((key, value) ∷ more) name = if str_eq key name then some value else entry more name

abbrev pub or_same : Option String → String → String
or_same none name = name
or_same (some text) name = text

unfoldable pub translate_action : String → String
translate_action action =
    if str_eq action "" || contains known_actions action
    then action
    else or_same (entry chinese_action_map action) action
