-- ===== src/Tools/FileSystem/Relocation.antt =====
-- The handlers that delete, move, copy and rename.
use omni_forge.Base.{Bool, String, not, ◌||◌}
use omni_forge.Values.{Value, dict, str, end, field}
use omni_forge.Tools.Disk.{Disk}
use omni_forge.Tools.Paths.{resolve_in_workspace}
use omni_forge.Tools.FileSystem.{
  FileArgs, succeeded, refused, path_payload, Command, concluded, with_parent, at_target, with_path,
  guarded, about, is_agent_src,
}
use Prim.Native.String.{◌++◌ as text_append}

module _ {W : Type 0} (disk : Disk W) (workspace : String) where
  open disk use {
    name, parent, exists, is_file, is_dir, unlink, remove_tree, move, copy, rename, join,
  }

  -- The guards of a delete: whether the path is there and of the kind that is named, and whether it
  -- holds the source of the agent.
  unfoldable pub deletable :
      String
      → String
      → String
      → String
      → Bool
      → String
      → Command disk workspace
      → Command disk workspace
  deletable action missing other_kind what right_kind target body w =
      guarded disk workspace (not (exists w target))
        (refused action (about disk workspace missing target))
        (guarded disk workspace (not right_kind)
          (refused action (about disk workspace other_kind target))
          (guarded disk workspace (is_agent_src disk workspace target)
            (refused action (text_append "Cannot delete agent source " what)) body))
        w

  unfoldable pub cmd_delete_file : FileArgs → Command disk workspace
  cmd_delete_file args = with_path disk workspace "delete_file" args.path (λ target w.
      deletable "delete_file" "File not found: " "Not a file: " "files" (is_file w target) target
        (λ w.
          concluded disk workspace "delete_file"
            (succeeded "delete_file" (path_payload target)
              (about disk workspace "File deleted: " target))
            (unlink target w))
        w)

  unfoldable pub cmd_delete_directory : FileArgs → Command disk workspace
  cmd_delete_directory args = with_path disk workspace "delete_directory" args.path (λ target w.
      deletable "delete_directory" "Directory not found: " "Not a directory: " "directories"
        (is_dir w target) target
        (λ w.
          concluded disk workspace "delete_directory"
            (succeeded "delete_directory" (path_payload target)
              (about disk workspace "Directory deleted: " target))
            (remove_tree target w))
        w)

  abbrev pair_payload : String → String → String → String → Value
  pair_payload key source other_key dest =
      dict (field key (str source) (field other_key (str dest) end))

  abbrev arrow : String → String → String → String
  arrow text source dest =
      text_append (about disk workspace text source) (text_append " → " (name dest))

  -- Both paths are resolved before the first of them is refused.
  unfoldable pub with_paths :
      String → FileArgs → (String → String → Command disk workspace) → Command disk workspace
  with_paths action args body w =
      let dest = resolve_in_workspace disk workspace w args.dst in
      with_path disk workspace action args.src
        (λ source. at_target disk workspace action args.dst (body source) dest) w

  unfoldable pub cmd_move_file : FileArgs → Command disk workspace
  cmd_move_file args = with_paths "move_file" args (λ source dest w.
      guarded disk workspace (not (exists w source))
        (refused "move_file" (about disk workspace "Source not found: " source))
        (guarded disk workspace (is_agent_src disk workspace source)
          (refused "move_file" "Cannot move agent source files")
          (λ w.
            concluded disk workspace "move_file"
              (succeeded "move_file" (pair_payload "src" source "dst" dest)
                (arrow "Moved: " source dest))
              (with_parent disk workspace dest (move source dest) w)))
        w)

  unfoldable pub cmd_copy_file : FileArgs → Command disk workspace
  cmd_copy_file args = with_paths "copy_file" args (λ source dest w.
      guarded disk workspace (not (exists w source) || not (is_file w source))
        (refused "copy_file" (about disk workspace "Source not found: " source))
        (λ w.
          concluded disk workspace "copy_file"
            (succeeded "copy_file" (pair_payload "src" source "dst" dest)
              (arrow "Copied: " source dest))
            (with_parent disk workspace dest (copy source dest) w))
        w)

  -- The path of that name next to the target.
  abbrev pub sibling : String → String → String
  sibling target new_name = join (parent target) (name new_name)

  unfoldable pub cmd_rename_file : FileArgs → Command disk workspace
  cmd_rename_file args = with_path disk workspace "rename_file" args.path (λ target w.
      let new_path = sibling target args.name in
      guarded disk workspace (not (exists w target))
        (refused "rename_file" (about disk workspace "Not found: " target))
        (guarded disk workspace (is_agent_src disk workspace target)
          (refused "rename_file" "Cannot rename agent source files")
          (guarded disk workspace (exists w new_path)
            (refused "rename_file" (text_append "Target already exists: " (name args.name)))
            (λ w.
              concluded disk workspace "rename_file"
                (succeeded "rename_file" (pair_payload "old" target "new" new_path) (
                  text_append (about disk workspace "Renamed: " target)
                    (text_append " → " (name args.name))))
                (rename target new_path w))))
        w)
