-- ===== src/Tools/FileSystem/Inside.antt =====
-- What the actions of the `FileSystemTool` leave alone: the files outside the workspace, and what
-- only a path outside the agent's source may delete, move or rename.
use omni_forge.Base.{
  ◌≡◌, ◌≢◌, refl, sym, ◌∙◌, ap, subst, Bool, true, false, some, String, str_eq, eq_iff, List, [],
  ◌∷◌, All, if◌then◌else◌, inl,
}
use omni_forge.Results.{Call, ToolResult}
use omni_forge.Tools.Disk.{Disk, Substitution, substituted, regex_error}
use omni_forge.Tools.Paths.{resolve_in_workspace}
use omni_forge.Tools.FileSystem.Outside.{
  IsInside, IsForeign, IsOutside, SiblingsBelow, Allowed, Holds, concluded-Holds, with_parent-Holds,
  guarded-Holds, at_target-Holds, with_path-Holds, reading-Holds, resolve_in_workspace-IsInside,
}
use omni_forge.Tools.FileSystem.{
  FileArgs, Command, with_path, substituting, cmd_mkdir, cmd_create_file, cmd_write_file,
  cmd_append_file, cmd_read_file, cmd_edit_file, cmd_replace_text,
}
use omni_forge.Tools.FileSystem.Relocation.{
  with_paths, deletable, cmd_delete_file, cmd_delete_directory, cmd_move_file, cmd_copy_file,
  cmd_rename_file,
}
use omni_forge.Tools.FileSystem.Listing.{cmd_exists, cmd_list_directory, cmd_tree}
use omni_forge.Tools.FileSystem.Dispatch.{action_map, dispatched, execute_action}

module _ {W : Type 0} (disk : Disk W) (workspace : String) (P : W → Type 0) (w : W)
    (outside : IsOutside disk workspace w P) (siblings : SiblingsBelow disk workspace w) where
  -- The handler of an action keeps the fact.
  abbrev Keeps : String → (FileArgs → Command disk workspace) → Type 0
  Keeps action handler =
      (args : FileArgs)
      → Allowed disk workspace w action args
      → P w
      → Holds outside (handler args w)

  cmd_mkdir-Keeps : Keeps "mkdir" (cmd_mkdir disk workspace)
  unfolding cmd_mkdir
  cmd_mkdir-Keeps args allowed h =
      with_path-Holds outside _ _ _ h (λ target inside.
        concluded-Holds outside _ _ _ (outside.by_make_dir target w (inl inside) h))

  cmd_write_file-Keeps : Keeps "write_file" (cmd_write_file disk workspace)
  unfolding cmd_write_file
  cmd_write_file-Keeps args allowed h = with_path-Holds outside _ _ _ h (λ target inside.
      concluded-Holds outside _ _ _ (
        with_parent-Holds outside target _ (λ w h. outside.by_write target _ w inside h) inside w
          h))

  cmd_create_file-Keeps : Keeps "create_file" (cmd_create_file disk workspace)
  unfolding cmd_create_file
  cmd_create_file-Keeps args allowed h = with_path-Holds outside _ _ _ h (λ target inside.
      guarded-Holds outside _ _ _ w h (λ new. concluded-Holds outside _ _ _ (
        with_parent-Holds outside target _ (λ w h. outside.by_write target _ w inside h) inside w
          h)))

  cmd_append_file-Keeps : Keeps "append_file" (cmd_append_file disk workspace)
  unfolding cmd_append_file
  cmd_append_file-Keeps args allowed h = with_path-Holds outside _ _ _ h (λ target inside.
      guarded-Holds outside _ _ _ w h
        (λ there. concluded-Holds outside _ _ _ (outside.by_append target _ w inside h)))

  cmd_read_file-Keeps : Keeps "read_file" (cmd_read_file disk workspace)
  unfolding cmd_read_file
  cmd_read_file-Keeps args allowed h = with_path-Holds outside _ _ _ h (λ target inside.
      guarded-Holds outside _ _ _ w h (λ there. reading-Holds outside _ _ _ w h (λ content. h)))

  cmd_edit_file-Keeps : Keeps "edit_file" (cmd_edit_file disk workspace)
  unfolding cmd_edit_file
  cmd_edit_file-Keeps args allowed h = with_path-Holds outside _ _ _ h (λ target inside.
      guarded-Holds outside _ _ _ w h (λ there. guarded-Holds outside _ _ _ w h (λ given.
        reading-Holds outside _ _ _ w h (λ content.
          guarded-Holds outside _ _ _ w h
            (λ found. concluded-Holds outside _ _ _ (outside.by_write target _ w inside h))))))

  substituting-Holds :
      (target : String) (r : Substitution)
      → IsInside disk workspace w target
      → P w
      → Holds outside (substituting disk workspace target r w)
  unfolding substituting
  substituting-Holds target (regex_error text) inside h = h
  substituting-Holds target (substituted content count) inside h =
      guarded-Holds outside _ _ _ w h
        (λ found. concluded-Holds outside _ _ _ (outside.by_write target content w inside h))

  cmd_replace_text-Keeps : Keeps "replace_text" (cmd_replace_text disk workspace)
  unfolding cmd_replace_text
  cmd_replace_text-Keeps args allowed h = with_path-Holds outside _ _ _ h (λ target inside.
      guarded-Holds outside _ _ _ w h (λ there. guarded-Holds outside _ _ _ w h (λ given.
        reading-Holds outside _ _ _ w h (λ content. substituting-Holds target _ inside h))))

  deletable-Holds :
      (action missing other_kind what : String) (right_kind : Bool) (target : String)
      (body : Command disk workspace)
      → P w
      → (IsForeign disk workspace w target → Holds outside (body w))
      → Holds outside
          (deletable disk workspace action missing other_kind what right_kind target body w)
  unfolding deletable
  deletable-Holds action missing other_kind what right_kind target body h step =
      guarded-Holds outside _ _ _ w h
        (λ there. guarded-Holds outside _ _ _ w h (λ right. guarded-Holds outside _ _ _ w h step))

  cmd_delete_file-Keeps : Keeps "delete_file" (cmd_delete_file disk workspace)
  unfolding cmd_delete_file
  cmd_delete_file-Keeps args allowed h = with_path-Holds outside _ _ _ h (λ target inside.
      deletable-Holds _ _ _ _ _ target _ h
        (λ foreign. concluded-Holds outside _ _ _ (outside.by_unlink target w inside foreign h)))

  cmd_delete_directory-Keeps : Keeps "delete_directory" (cmd_delete_directory disk workspace)
  unfolding cmd_delete_directory
  cmd_delete_directory-Keeps args allowed h = with_path-Holds outside _ _ _ h (λ target inside.
      deletable-Holds _ _ _ _ _ target _ h (λ foreign.
        concluded-Holds outside _ _ _ (outside.by_remove_tree target w inside foreign h)))

  with_paths-Holds :
      (action : String) (args : FileArgs) (body : String → String → Command disk workspace)
      → P w
      → ((source dest : String)
          → IsInside disk workspace w source
          → IsInside disk workspace w dest
          → Holds outside (body source dest w))
      → Holds outside (with_paths disk workspace action args body w)
  unfolding with_paths
  with_paths-Holds action args body h step = with_path-Holds outside _ _ _ h (λ source inside.
      at_target-Holds outside _ _ _ (resolve_in_workspace disk workspace w args.dst) w h (λ dest e.
        step source dest inside (resolve_in_workspace-IsInside disk workspace w args.dst dest e)))

  cmd_move_file-Keeps : Keeps "move_file" (cmd_move_file disk workspace)
  unfolding cmd_move_file
  cmd_move_file-Keeps args allowed h = with_paths-Holds _ _ _ h (λ source dest from to.
      guarded-Holds outside _ _ _ w h (λ there. guarded-Holds outside _ _ _ w h (λ foreign.
        concluded-Holds outside _ _ _ (
          with_parent-Holds outside dest _ (λ w h. outside.by_move source dest w from foreign to h)
            to w h))))

  cmd_copy_file-Keeps : Keeps "copy_file" (cmd_copy_file disk workspace)
  unfolding cmd_copy_file
  cmd_copy_file-Keeps args allowed h = with_paths-Holds _ _ _ h (λ source dest from to.
      guarded-Holds outside _ _ _ w h (λ there.
        concluded-Holds outside _ _ _
          (with_parent-Holds outside dest _ (λ w h. outside.by_copy source dest w to h) to w h)))

  cmd_rename_file-Keeps : Keeps "rename_file" (cmd_rename_file disk workspace)
  unfolding cmd_rename_file with_path
  cmd_rename_file-Keeps args allowed h =
      at_target-Holds outside _ _ _ (resolve_in_workspace disk workspace w args.path) w h
        (λ target e.
          let inside = resolve_in_workspace-IsInside disk workspace w args.path target e in
          let below : target ≢ workspace = λ root. allowed refl (e ∙ ap some root) in
          guarded-Holds outside _ _ _ w h (λ there. guarded-Holds outside _ _ _ w h (λ foreign.
            guarded-Holds outside _ _ _ w h (λ free. concluded-Holds outside _ _ _ (
              outside.by_rename target args.name w inside foreign
                (siblings target args.name inside below) free h)))))

  cmd_list_directory-Keeps : Keeps "list_directory" (cmd_list_directory disk workspace)
  unfolding cmd_list_directory
  cmd_list_directory-Keeps args allowed h = at_target-Holds outside _ _ _ _ w h (λ target e.
      guarded-Holds outside _ _ _ w h (λ there. guarded-Holds outside _ _ _ w h (λ right. h)))

  cmd_tree-Keeps : Keeps "tree" (cmd_tree disk workspace)
  unfolding cmd_tree
  cmd_tree-Keeps args allowed h =
      at_target-Holds outside _ _ _ _ w h (λ target e. guarded-Holds outside _ _ _ w h (λ there. h))

  cmd_exists-Keeps : Keeps "exists" (cmd_exists disk workspace)
  unfolding cmd_exists
  cmd_exists-Keeps args allowed h = h

  chosen-Holds :
      (test : Bool) (first later : Call ToolResult × W)
      → (test ≡ true → Holds outside first)
      → Holds outside later
      → Holds outside (if test then first else later)
  chosen-Holds true first later h k = h refl
  chosen-Holds false first later h k = k

  dispatched-Holds :
      (actions : List (String × (FileArgs → Command disk workspace)))
      → All (λ e. Keeps e.0 e.1) actions
      → (action : String) (args : FileArgs) → Allowed disk workspace w action args
      → P w
      → Holds outside (dispatched disk workspace actions action args w)
  dispatched-Holds [] keeps action args allowed h = h
  dispatched-Holds ((key, handler) ∷ more) keeps action args allowed h =
      chosen-Holds (str_eq key action) (handler args w)
        (dispatched disk workspace more action args w)
        (λ e.
          keeps.0 args
            (subst (λ a. Allowed disk workspace w a args) (sym ((eq_iff _ _).0 e)) allowed) h)
        (dispatched-Holds more keeps.1 action args allowed h)

  action_map-Keeps : All (λ e. Keeps e.0 e.1) (action_map disk workspace)
  action_map-Keeps = (
    cmd_mkdir-Keeps,
    (
      cmd_create_file-Keeps,
      (
        cmd_write_file-Keeps,
        (
          cmd_append_file-Keeps,
          (
            cmd_read_file-Keeps,
            (
              cmd_edit_file-Keeps,
              (
                cmd_replace_text-Keeps,
                (
                  cmd_delete_file-Keeps,
                  (
                    cmd_delete_directory-Keeps,
                    (
                      cmd_move_file-Keeps,
                      (
                        cmd_copy_file-Keeps,
                        (
                          cmd_rename_file-Keeps,
                          (cmd_exists-Keeps, (cmd_list_directory-Keeps, (cmd_tree-Keeps, tt))),
                        ),
                      ),
                    ),
                  ),
                ),
              ),
            ),
          ),
        ),
      ),
    ),
  )

  -- For the workspace of the tool and paths as in pathlib, where a name next to a path inside the
  -- workspace stands below it: every action, known or not and whether it succeeds, fails or raises,
  -- keeps each fact about the world that is broken neither by making directories inside the workspace
  -- or above a path inside, nor by writing or replacing a path inside, nor by deleting, moving or
  -- renaming such a path that is none of the agent's source; unless the action renames the workspace
  -- itself. A path is inside when `resolve` made it, with the symbolic links of the world in which the
  -- action starts, and the workspace is above it; the new name of a rename is not resolved, but free.
  pub execute_action-Holds :
      (action : String) (args : FileArgs)
      → Allowed disk workspace w action args
      → P w
      → P (execute_action disk workspace action args w).1
  unfolding execute_action
  execute_action-Holds action args allowed h =
      dispatched-Holds (action_map disk workspace) action_map-Keeps action args allowed h
