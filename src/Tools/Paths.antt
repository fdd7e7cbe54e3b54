-- ===== src/Tools/Paths.antt =====
-- agentflow/tools/path_safety.py: which paths a tool may touch.
use omni_forge.Base.{
  Bool, true, false, Option, none, some, String, str_eq, if◌then◌else◌, List, [], ◌∷◌, ℕ, suc,
  find_if, ltb, ◌==◌, not, ◌&&◌, ◌||◌,
}
use omni_forge.Base.Words.{starts_with, contains_text}
use omni_forge.Tools.Disk.{Disk}
use Prim.Native.Char.{code}

-- `DANGEROUS_DIRS`
abbrev pub dangerous_dirs : List String
dangerous_dirs =
    "/etc" ∷ "/var" ∷ "/sys" ∷ "/proc" ∷ "/dev" ∷ "/boot" ∷ "/bin" ∷ "/sbin" ∷ "/lib" ∷ "/lib64"
    ∷ "/usr" ∷ "/opt" ∷ "/root" ∷ "C:\\Windows" ∷ "C:\\Program Files" ∷ "C:\\Program Files (x86)"
    ∷ "C:\\System32" ∷ "C:\\Windows\\System32" ∷ []

-- `TRAVERSAL_PATTERNS`, a search for `../` or `..\`
unfoldable pub looks_like_traversal : String → Bool
looks_like_traversal raw = contains_text "../" raw || contains_text "..\\" raw

abbrev pub count_code : ℕ → String → ℕ
count_code n String.[] = 0
count_code n (String.◌∷◌ c s) =
    let later = count_code n s in if code c == n then suc later else later

-- A colon at the second place, behind a letter.
abbrev drive_colon : (ℕ → Bool) → String → Bool
drive_colon is_alpha String.[] = false
drive_colon is_alpha (String.◌∷◌ c String.[]) = false
drive_colon is_alpha (String.◌∷◌ c (String.◌∷◌ d s)) =
    is_alpha (code c) && code d == 58 && not (code c == 58)

unfoldable pub has_unsafe_path_syntax : (ℕ → Bool) → String → Bool
has_unsafe_path_syntax is_alpha raw =
    if ltb 0 (count_code 0 raw)
    then true
    else if count_code 58 raw == 0
    then false
    else ltb 1 (count_code 58 raw) || not (drive_colon is_alpha raw)

module _ {W : Type 0} (disk : Disk W) (workspace : String) where
  open disk use {is_alpha, is_absolute, join, resolved, is_relative_to}

  abbrev resolve_path : W → String → String
  resolve_path w raw = if is_absolute raw then resolved w raw else resolved w (join workspace raw)

  unfoldable pub resolve_in_workspace : W → String → Option String
  unfolding has_unsafe_path_syntax
  resolve_in_workspace w raw =
      let path = resolve_path w raw in
      if str_eq raw "" || has_unsafe_path_syntax is_alpha raw
      then none
      else if is_relative_to path workspace
      then some path
      else none

-- The set is searched in some order, here that of the list.
unfoldable pub is_in_dangerous_dir : String → Option String
is_in_dangerous_dir path = find_if (starts_with path) dangerous_dirs
