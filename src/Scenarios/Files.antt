-- ===== src/Scenarios/Files.antt =====
-- The theorem on the file tool at a concrete input: a world that notes the paths that are changed.
use omni_forge.Base.{
  ap, true, false, Option, none, String, str_eq, if◌then◌else◌, List, [], ◌∷◌, All, is_some, eq_iff,
  false_true, ◌≢◌,
}
use omni_forge.Base.Words.{starts_with, drop_prefix-append}
use omni_forge.Tools.Disk.{Disk, Fault, got, substituted}
use omni_forge.Tools.FileSystem.{FileArgs}
use omni_forge.Tools.FileSystem.Outside.{IsBelow, IsOutside, SiblingsBelow}
use omni_forge.Tools.FileSystem.Dispatch.{execute_action}
use omni_forge.Tools.FileSystem.Inside.{execute_action-Holds}
use Prim.Native.String.{◌++◌ as text_append}

abbrev note_path : String → List String → Option Fault × List String
note_path path w = (none, path ∷ w)

abbrev disk : Disk (List String)
disk = record {
  is_alpha = λ c. true;
  number = λ n. "0";
  text_before = λ a b. false;
  path_before = λ a b. false;
  is_absolute = λ path. starts_with path "/";
  join = λ a b. text_append a (text_append "/" b);
  resolved = λ w path. if str_eq path "/work/link" then "/etc/passwd" else path;
  is_relative_to = starts_with;
  name = λ path. path;
  parts = λ path. [];
  parent = λ path. "/work";
  exists = λ w path. true;
  is_file = λ w path. true;
  is_dir = λ w path. false;
  size = λ w path. 0;
  entries = λ w path. got [];
  read_text = λ w path. got "";
  make_dir = λ path w. (none, w);
  write_text = λ path text. note_path path;
  append_text = λ path text. note_path path;
  unlink = note_path;
  remove_tree = note_path;
  move = λ source dest w. (none, source ∷ dest ∷ w);
  copy = λ source dest. note_path dest;
  rename = λ path new_path w. (none, path ∷ new_path ∷ w);
  substitute = λ pattern replacement content. substituted content 1;
}

abbrev Kept : List String → Type 0
Kept = All (IsBelow disk "/work" [])

Kept-IsOutside : IsOutside disk "/work" [] Kept
Kept-IsOutside = record {
  by_make_dir = λ path w may h. h;
  by_write = λ path text w inside h. (inside.1, h);
  by_append = λ path text w inside h. (inside.1, h);
  by_unlink = λ path w inside foreign h. (inside.1, h);
  by_remove_tree = λ path w inside foreign h. (inside.1, h);
  by_move = λ source dest w inside foreign to h. (inside.1, (to.1, h));
  by_copy = λ source dest w to h. (to.1, h);
  by_rename = λ path name w inside foreign to free h. (inside.1, (to, h));
}

siblings : SiblingsBelow disk "/work" []
siblings path name inside below = ap is_some (drop_prefix-append "/work" (text_append "/" name))

abbrev args : FileArgs
args = record {
  path = "notes.txt";
  content = "text";
  old_string = "";
  new_string = "";
  pattern = "";
  replacement = "";
  src = "";
  dst = "";
  name = "";
  max_depth = 3;
  show_hidden = false;
}

-- Another action than a rename.
write_is_not_rename : ◌≢◌ {A = String} "write_file" "rename_file"
write_is_not_rename e = false_true ((eq_iff "write_file" "rename_file").1 e)

execute_action-Holds_example : Kept (execute_action disk "/work" "write_file" args []).1
execute_action-Holds_example =
    execute_action-Holds disk "/work" Kept [] Kept-IsOutside siblings "write_file" args
      (λ e. absurd (write_is_not_rename e)) tt
