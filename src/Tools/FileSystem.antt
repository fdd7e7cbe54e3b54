-- ===== src/Tools/FileSystem.antt =====
-- The `FileSystemTool` of agentflow/tools/filesystem_tool.py: the handlers of its
-- actions that write files or read one; Relocation, Listing and Dispatch have the others. The arguments of an action are texts
-- here, and the number and the flag of `tree`; another kind of value is a TypeError in Python.
pub mod Relocation
pub mod Listing
pub mod Dispatch
pub mod Outside
pub mod Inside
use omni_forge.Base.{
  Bool, true, false, Option, none, some, String, str_eq, if◌then◌else◌, List, [], ◌∷◌, ℕ, any, not,
  ◌&&◌, ◌||◌, ◌==◌,
}
use omni_forge.Base.Int.{pos}
use omni_forge.Base.Words.{contains_text, drop_prefix, text_length}
use omni_forge.Values.{Value, dict, str, int, Fields, end, field}
use omni_forge.Results.{Call, returned, raised, ToolResult, ok, fail_result}
use omni_forge.Executor.Actions.{contains}
use omni_forge.Tools.Disk.{
  Disk, Fault, os_error, other, Reading, got, fault, Substitution, substituted, regex_error,
}
use omni_forge.Tools.Paths.{resolve_in_workspace}
use omni_forge.Tools.Markdown.{extract_code_from_markdown}
use Prim.Native.String.{◌++◌ as text_append}

-- The keyword arguments of the actions.
pub record FileArgs : Type 0 where
  pub path : String
  pub content : String
  pub old_string : String
  pub new_string : String
  pub pattern : String
  pub replacement : String
  pub src : String
  pub dst : String
  pub name : String
  pub max_depth : ℕ
  pub show_hidden : Bool

-- `_AGENT_SRC_NAMES`
abbrev pub agent_src_names : List String
agent_src_names = "agentflow" ∷ "omniforge" ∷ []

abbrev pub succeeded : String → Value → String → ToolResult
succeeded action payload message = ok "filesystem" action payload message

abbrev pub refused : String → String → ToolResult
refused action error = fail_result "filesystem" action error

abbrev pub path_payload : String → Value
path_payload target = dict (field "path" (str target) end)

-- `content.replace(old, new, 1)`, where `old` is not empty.
abbrev replace_first : String → String → String → String
replace_first old new String.[] = String.[]
replace_first old new (String.◌∷◌ c s) =
    let later = String.◌∷◌ c (replace_first old new s) in
    elim (drop_prefix old (String.◌∷◌ c s)) [ none ↦ later | some rest ↦ text_append new rest ]

module _ {W : Type 0} (disk : Disk W) (workspace : String) where
  open disk use {
    number, parts, parent, exists, is_file, is_dir, read_text, make_dir, write_text, append_text,
    unlink, remove_tree, move, copy, rename, substitute, join,
  }

  abbrev pub Command : Type 0
  Command = W → Call ToolResult × W

  -- The try block around changes of the files.
  unfoldable pub concluded : String → ToolResult → Option Fault × W → Call ToolResult × W
  unfolding fail_result
  concluded action result (none, w) = (returned result, w)
  concluded action result (some (os_error text), w) = (returned (refused action text), w)
  concluded action result (some (other text), w) = (raised text, w)

  unfoldable pub proceed : (W → Option Fault × W) → Option Fault × W → Option Fault × W
  proceed next (none, w) = next w
  proceed next (some e, w) = (some e, w)

  -- `parent.mkdir(parents=True, exist_ok=True)` in front of a change.
  unfoldable pub with_parent : String → (W → Option Fault × W) → W → Option Fault × W
  unfolding proceed
  with_parent target next w = proceed next (make_dir (parent target) w)

  unfoldable pub at_target : String → String → (String → Command) → Option String → Command
  unfolding fail_result
  at_target action raw body none w = (
    returned (refused action (text_append "Invalid or prohibited path: '" (text_append raw "'"))),
    w,
  )
  at_target action raw body (some target) w = body target w

  -- `_resolve`, and the refusal of a path that escapes the workspace.
  unfoldable pub with_path : String → String → (String → Command) → Command
  unfolding at_target resolve_in_workspace
  with_path action raw body w =
      at_target action raw body (resolve_in_workspace disk workspace w raw) w

  -- A guard of a handler: the refusal when the test holds.
  unfoldable pub guarded : Bool → ToolResult → Command → Command
  guarded test refusal body w = if test then (returned refusal, w) else body w

  abbrev pub about : String → String → String
  about text target = text_append text (disk.name target)

  unfoldable pub is_agent_src : String → Bool
  is_agent_src path = any (contains agent_src_names) (parts path)

  abbrev pub not_found : String → String → ToolResult
  not_found action target = refused action (about "File not found: " target)

  unfoldable pub cmd_mkdir : FileArgs → Command
  cmd_mkdir args = with_path "mkdir" args.path (λ target w.
      concluded "mkdir"
        (succeeded "mkdir" (path_payload target) (about "Directory created: " target))
        (make_dir target w))

  unfoldable pub cmd_create_file : FileArgs → Command
  cmd_create_file args = with_path "create_file" args.path (λ target w.
      guarded (exists w target) (refused "create_file" (about "File already exists: " target))
        (λ w.
          concluded "create_file"
            (succeeded "create_file" (path_payload target) (about "File created: " target))
            (with_parent target (write_text target (extract_code_from_markdown args.content)) w))
        w)

  abbrev chars : String → String
  chars content = text_append (number (text_length content)) " chars"

  abbrev sized : String → String → String → String
  sized text target content =
      text_append (about text target) (text_append " (" (text_append (chars content) ")"))

  unfoldable pub cmd_write_file : FileArgs → Command
  cmd_write_file args = with_path "write_file" args.path (λ target w.
      let content = extract_code_from_markdown args.content in
      concluded "write_file"
        (succeeded "write_file" (path_payload target) (sized "File written: " target content))
        (with_parent target (write_text target content) w))

  unfoldable pub cmd_append_file : FileArgs → Command
  cmd_append_file args = with_path "append_file" args.path (λ target w.
      let content = extract_code_from_markdown args.content in
      guarded (not (exists w target)) (not_found "append_file" target)
        (λ w.
          concluded "append_file"
            (succeeded "append_file" (path_payload target)
              (text_append "Appended " (text_append (chars content) (about " to " target))))
            (append_text target content w))
        w)

  abbrev pub unread : String → Fault → Call ToolResult
  unread action (os_error text) = returned (refused action text)
  unread action (other text) = raised text

  -- `read_text` in the try block, and what is done with the content.
  unfoldable pub reading : String → (String → Command) → Reading String → Command
  unfolding fail_result
  reading action body (got content) w = body content w
  reading action body (fault e) w = (unread action e, w)

  unfoldable pub cmd_read_file : FileArgs → Command
  cmd_read_file args = with_path "read_file" args.path (λ target w.
      guarded (not (exists w target)) (not_found "read_file" target)
        (λ w.
          reading "read_file"
            (λ content w. (
              returned (
                  succeeded "read_file"
                    (dict (
                      field "path" (str target) (
                        field "content" (str content)
                          (field "size" (int (pos (text_length content))) end))))
                    (sized "File read: " target content)),
              w,
            ))
            (read_text w target) w)
        w)

  unfoldable pub cmd_edit_file : FileArgs → Command
  cmd_edit_file args = with_path "edit_file" args.path (λ target w.
      guarded (not (exists w target)) (not_found "edit_file" target)
        (guarded (str_eq args.old_string "") (refused "edit_file" "old_string is required") (λ w.
          reading "edit_file"
            (λ content.
              guarded (not (contains_text args.old_string content))
                (refused "edit_file" (about "String not found in " target))
                (λ w.
                  concluded "edit_file"
                    (succeeded "edit_file" (path_payload target)
                      (about "Replaced 1 occurrence in " target))
                    (write_text target (replace_first args.old_string args.new_string content) w)))
            (read_text w target) w))
        w)

  unfoldable pub substituting : String → Substitution → Command
  substituting target (regex_error text) w =
      (returned (refused "replace_text" (text_append "Regex error: " text)), w)
  substituting target (substituted content count) w =
      guarded (count == 0) (refused "replace_text" (about "Pattern not found in " target))
        (λ w.
          concluded "replace_text"
            (succeeded "replace_text"
              (dict (field "path" (str target) (field "count" (int (pos count)) end)))
              (text_append "Replaced "
                (text_append (number count) (about " occurrence(s) in " target))))
            (write_text target content w))
        w

  unfoldable pub cmd_replace_text : FileArgs → Command
  cmd_replace_text args = with_path "replace_text" args.path (λ target w.
      guarded (not (exists w target)) (not_found "replace_text" target)
        (guarded (str_eq args.pattern "") (refused "replace_text" "pattern is required") (λ w.
          reading "replace_text"
            (λ content. substituting target (substitute args.pattern args.replacement content))
            (read_text w target) w))
        w)
