-- ===== src/Tools/FileSystem/Dispatch.antt =====
-- `validate` and `execute` of the `FileSystemTool`, and its map of actions.
use omni_forge.Base.{Option, none, some, String, str_eq, if◌then◌else◌, List, [], ◌∷◌}
use omni_forge.Values.{Value, str, Fields, get}
use omni_forge.Results.{returned}
use omni_forge.Tools.Disk.{Disk}
use omni_forge.Tools.Paths.{looks_like_traversal, resolve_in_workspace, is_in_dangerous_dir}
use omni_forge.Tools.FileSystem.{
  FileArgs, Command, refused, cmd_mkdir, cmd_create_file, cmd_write_file, cmd_append_file,
  cmd_read_file, cmd_edit_file, cmd_replace_text,
}
use omni_forge.Tools.FileSystem.Relocation.{
  cmd_delete_file, cmd_delete_directory, cmd_move_file, cmd_copy_file, cmd_rename_file,
}
use omni_forge.Tools.FileSystem.Listing.{cmd_exists, cmd_list_directory, cmd_tree}
use Prim.Native.String.{◌++◌ as text_append}

abbrev available : String
available =
    "append_file, copy_file, create_file, delete_directory, delete_file, edit_file, exists, list_directory, mkdir, move_file, read_file, rename_file, replace_text, tree, write_file"

abbrev path_keys : List String
path_keys = "path" ∷ "src" ∷ "source" ∷ "dst" ∷ "destination" ∷ []

module _ {W : Type 0} (disk : Disk W) (workspace : String) where
  -- `_ACTION_MAP`
  abbrev pub action_map : List (String × (FileArgs → Command disk workspace))
  action_map =
      ("mkdir", cmd_mkdir disk workspace)
      ∷ ("create_file", cmd_create_file disk workspace)
      ∷ ("write_file", cmd_write_file disk workspace)
      ∷ ("append_file", cmd_append_file disk workspace)
      ∷ ("read_file", cmd_read_file disk workspace)
      ∷ ("edit_file", cmd_edit_file disk workspace)
      ∷ ("replace_text", cmd_replace_text disk workspace)
      ∷ ("delete_file", cmd_delete_file disk workspace)
      ∷ ("delete_directory", cmd_delete_directory disk workspace)
      ∷ ("move_file", cmd_move_file disk workspace)
      ∷ ("copy_file", cmd_copy_file disk workspace)
      ∷ ("rename_file", cmd_rename_file disk workspace)
      ∷ ("exists", cmd_exists disk workspace)
      ∷ ("list_directory", cmd_list_directory disk workspace)
      ∷ ("tree", cmd_tree disk workspace)
      ∷ []

  -- The handler of an action, or the refusal of an action that has none.
  abbrev pub dispatched :
      List (String × (FileArgs → Command disk workspace))
      → String
      → FileArgs
      → Command disk workspace
  dispatched [] action args w = (
    returned (
        refused action (
          text_append "Unknown action '"
            (text_append action (text_append "'. Available: " available)))),
    w,
  )
  dispatched ((key, handler) ∷ more) action args w =
      let later = dispatched more action args w in
      if str_eq key action then handler args w else later

  unfoldable pub execute_action : String → FileArgs → Command disk workspace
  execute_action action args = dispatched action_map action args

  abbrev forbidden : Option String → Option String
  forbidden none = none
  forbidden (some directory) =
      some (text_append "Access to system directory '" (text_append directory "' is forbidden"))

  abbrev checked : String → Option String → Option String
  checked path none =
      some (text_append "Path '" (text_append path "' resolves outside the workspace"))
  checked path (some target) = forbidden (is_in_dangerous_dir target)

  abbrev check_path : W → String → Option String
  check_path w path =
      if looks_like_traversal path
      then some (text_append "Path traversal detected: '" (text_append path "' is not allowed"))
      else checked path (resolve_in_workspace disk workspace w path)

  -- An argument that is missing, empty or no text is passed over.
  abbrev check_value : W → Option Value → Option String
  check_value w (some (str path)) = if str_eq path "" then none else check_path w path
  check_value w _ = none

  abbrev first_error : Option String → Option String → Option String
  first_error none later = later
  first_error (some e) later = some e

  abbrev check_keys : W → Fields → List String → Option String
  check_keys w kwargs [] = none
  check_keys w kwargs (key ∷ keys) =
      first_error (check_value w (get key kwargs)) (check_keys w kwargs keys)

  -- The error, if there is one.
  unfoldable pub validate_paths : Fields → W → Option String
  unfolding get looks_like_traversal is_in_dangerous_dir resolve_in_workspace
  validate_paths kwargs w = check_keys w kwargs path_keys
