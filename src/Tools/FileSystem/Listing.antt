-- ===== src/Tools/FileSystem/Listing.antt =====
-- The handlers that look at directories.
use omni_forge.Base.{
  Bool, false, Option, none, some, String, str_eq, if◌then◌else◌, List, [], ◌∷◌, ◌++◌, ℕ, zero, suc,
  not, ◌&&◌, ◌||◌, is_empty, filter, length,
}
use omni_forge.Base.Int.{pos}
use omni_forge.Base.Text.{lower}
use omni_forge.Base.Words.{starts_with}
use omni_forge.Values.{Value, null, bool, dict, str, int, list, Items, nil, cons, end, field}
use omni_forge.Results.{Call, returned, ToolResult}
use omni_forge.Tools.Disk.{Disk, Reading, got, fault}
use omni_forge.Tools.Paths.{resolve_in_workspace}
use omni_forge.Tools.Markdown.{join_lines}
use omni_forge.Tools.FileSystem.{
  FileArgs, succeeded, refused, Command, at_target, guarded, about, unread,
}
use Prim.Native.String.{◌++◌ as text_append}

-- `path or "."`
abbrev or_here : String → String
or_here path = if str_eq path "" then "." else path

module _ {ℓ} {A : Type ℓ} (before : A → A → Bool) where
  -- Insertion behind every element that the new one is not before.
  abbrev insert_entry : A → List A → List A
  insert_entry x [] = x ∷ []
  insert_entry x (y ∷ ys) =
      let later = insert_entry x ys in if before x y then x ∷ y ∷ ys else y ∷ later

  abbrev sorted_from : List A → List A → List A
  sorted_from seen [] = seen
  sorted_from seen (x ∷ xs) = sorted_from (insert_entry x seen) xs

module _ {W : Type 0} (disk : Disk W) (workspace : String) where
  open disk use {name, number, exists, is_file, is_dir, size, entries, text_before, path_before}

  abbrev kind_of : W → String → Value
  kind_of w target =
      if is_file w target
      then str "file"
      else if is_dir w target
      then str "directory"
      else str "other"

  abbrev exists_at : W → String → Option String → Call ToolResult
  exists_at w path none = returned (
      succeeded "exists" (dict (field "exists" (bool false) (field "path" (str path) end)))
        (text_append "Path does not exist (outside workspace): " path))
  exists_at w path (some target) = returned (
      succeeded "exists"
        (dict (
          field "exists" (bool (exists w target)) (
            field "path" (str target)
              (field "kind" (if exists w target then kind_of w target else null) end))))
        (about disk workspace (if exists w target then "Path exists: " else "Path not found: ")
          target))

  unfoldable pub cmd_exists : FileArgs → Command disk workspace
  cmd_exists args w = (exists_at w args.path (resolve_in_workspace disk workspace w args.path), w)

  abbrev entry_value : W → String → Value
  entry_value w path = dict (
      field "name" (str (name path)) (
        field "path" (str path) (
          field "is_dir" (bool (is_dir w path))
            (field "size" (int (pos (if is_file w path then size w path else 0))) end))))

  abbrev entry_values : W → List String → Items
  entry_values w [] = nil
  entry_values w (path ∷ paths) = cons (entry_value w path) (entry_values w paths)

  abbrev listed : W → String → Reading (List String) → Call ToolResult
  listed w target (fault e) = unread disk workspace "list_directory" e
  listed w target (got paths) = returned (
      succeeded "list_directory"
        (dict (
          field "path" (str target) (
            field "entries" (list (entry_values w (sorted_from path_before [] paths)))
              (field "count" (int (pos (length paths))) end))))
        (text_append "Listed "
          (text_append (number (length paths)) (about disk workspace " entries in " target))))

  unfoldable pub cmd_list_directory : FileArgs → Command disk workspace
  cmd_list_directory args w =
      at_target disk workspace "list_directory" args.path
        (λ target.
          guarded disk workspace (not (exists w target))
            (refused "list_directory" (about disk workspace "Directory not found: " target))
            (guarded disk workspace (not (is_dir w target))
              (refused "list_directory" (about disk workspace "Not a directory: " target))
              (λ w. (listed w target (entries w target), w))))
        (resolve_in_workspace disk workspace w (or_here args.path)) w

  -- Directories first, then by name.
  abbrev tree_before : W → String → String → Bool
  tree_before w a b =
      let first = is_dir w a in
      let second = is_dir w b in
      first && not second
      || (first && second || not first && not second)
        && text_before (lower (name a)) (lower (name b))

  abbrev joined : List String → Reading (List String) → Reading (List String)
  joined rows (fault e) = fault e
  joined rows (got more) = got (rows ++ more)

  abbrev then_rows : Reading (List String) → Reading (List String) → Reading (List String)
  then_rows (fault e) later = fault e
  then_rows (got rows) later = joined rows later

  -- The rows of the entries, where `below` gives those of a directory behind a prefix.
  abbrev tree_rows :
      W → (String → String → Reading (List String)) → String → List String → Reading (List String)
  tree_rows w below prefix [] = got []
  tree_rows w below prefix (entry ∷ more) =
      let connector = if is_empty more then "└── " else "├── " in
      let extension = if is_empty more then "    " else "│   " in
      let mark = if is_dir w entry then "/" else "" in
      let row = text_append prefix (text_append connector (text_append (name entry) mark)) in
      let under = if is_dir w entry then below entry (text_append prefix extension) else got [] in
      let later = tree_rows w below prefix more in joined (row ∷ []) (then_rows under later)

  abbrev shown_entries : W → Bool → List String → List String
  shown_entries w show_hidden paths =
      let sorted = sorted_from (tree_before w) [] paths in
      if show_hidden then sorted else filter (λ path. not (starts_with (name path) ".")) sorted

  abbrev over_entries :
      W
      → Bool
      → (String → String → Reading (List String))
      → String
      → Reading (List String)
      → Reading (List String)
  over_entries w show_hidden below prefix (fault e) = fault e
  over_entries w show_hidden below prefix (got paths) =
      tree_rows w below prefix (shown_entries w show_hidden paths)

  -- `_build_tree`
  unfoldable pub build_tree : W → Bool → ℕ → String → String → Reading (List String)
  unfolding lower
  build_tree w show_hidden zero path prefix = got []
  build_tree w show_hidden (suc depth) path prefix =
      over_entries w show_hidden (build_tree w show_hidden depth) prefix (entries w path)

  abbrev tree_result : String → ℕ → Reading (List String) → Call ToolResult
  tree_result target depth (fault e) = unread disk workspace "tree" e
  tree_result target depth (got rows) =
      let lines = text_append (name target) "/" ∷ rows in
      returned (
        succeeded "tree"
          (dict (
            field "path" (str target)
              (field "tree" (str (join_lines lines)) (field "depth" (int (pos depth)) end))))
          (text_append (about disk workspace "Tree generated for " target)
            (text_append " (" (text_append (number (length lines)) " lines)"))))

  unfoldable pub cmd_tree : FileArgs → Command disk workspace
  cmd_tree args w =
      at_target disk workspace "tree" args.path
        (λ target.
          guarded disk workspace (not (exists w target) || not (is_dir w target))
            (refused "tree" (about disk workspace "Invalid directory: " target))
            (λ w. (
              tree_result target args.max_depth
                  (build_tree w args.show_hidden args.max_depth target ""),
              w,
            )))
        (resolve_in_workspace disk workspace w (or_here args.path)) w
