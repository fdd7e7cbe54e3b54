-- ===== src/Tools/FileSystem/Outside.antt =====
-- Facts about what is outside the workspace, and what keeps them in a handler of the tool.
use omni_forge.Base.{
  ◌≡◌, ◌≢◌, refl, sym, subst, Bool, true, false, Option, none, some, String, if◌then◌else◌,
  some_injective, none_some, ◌⊎◌, inr,
}
use omni_forge.Results.{Call, ToolResult}
use omni_forge.Tools.Disk.{Disk, Fault, os_error, other, Reading, got, fault}
use omni_forge.Tools.Paths.{resolve_in_workspace}
use omni_forge.Tools.FileSystem.{
  FileArgs, Command, concluded, proceed, with_parent, at_target, with_path, guarded, reading,
  is_agent_src,
}
use omni_forge.Tools.FileSystem.Relocation.{sibling}

module _ {W : Type 0} (disk : Disk W) (workspace : String) (start : W) where
  open disk use {
    is_relative_to, resolved, parent, exists, make_dir, write_text, append_text, unlink,
    remove_tree, move, copy, rename,
  }

  -- The path stands below the workspace by its components, which says nothing yet of `..` and of
  -- symbolic links.
  abbrev pub IsBelow : String → Type 0
  IsBelow path = is_relative_to path workspace ≡ true

  -- The path is what `resolve` made of some path, with the links as they are at the start, and it
  -- stands below the workspace.
  abbrev pub IsInside : String → Type 0
  IsInside path = ((raw : String) × (path ≡ resolved start raw)) × IsBelow path

  -- The path of a directory that may be made: one inside, or the parent of one.
  abbrev pub MayMake : String → Type 0
  MayMake path = IsInside path ⊎ (below : String) × IsInside below × (path ≡ parent below)

  abbrev pub IsForeign : String → Type 0
  IsForeign path = is_agent_src disk workspace path ≡ false

  IsInside-if :
      (refuse inside : Bool) (raw : String) {target : String}
      → inside ≡ is_relative_to (resolved start raw) workspace
      → (if refuse then none else if inside then some (resolved start raw) else none) ≡ some target
      → IsInside target
  IsInside-if true inside raw e h = none_some h
  IsInside-if false true raw e h = subst IsInside (some_injective h) ((raw, refl), sym e)
  IsInside-if false false raw e h = none_some h

  resolve_path-IsInside :
      (absolute refuse : Bool) (raw joined target : String)
      → (let path = if absolute then resolved start raw else resolved start joined in
          if refuse then none else if is_relative_to path workspace then some path else none)
        ≡ some target
      → IsInside target
  resolve_path-IsInside true refuse raw joined target h = IsInside-if refuse _ raw refl h
  resolve_path-IsInside false refuse raw joined target h = IsInside-if refuse _ joined refl h

  pub resolve_in_workspace-IsInside :
      (raw target : String)
      → resolve_in_workspace disk workspace start raw ≡ some target
      → IsInside target
  unfolding resolve_in_workspace
  resolve_in_workspace-IsInside raw target h = resolve_path-IsInside _ _ raw _ target h

  -- A fact about the world that only changes outside the workspace, or of the agent's own source,
  -- can break: no directory that is made inside or above a path inside, and no other change of a path
  -- inside; a renamed path may get a name beside it that stands below the workspace and is free.
  pub record IsOutside (P : W → Type 0) : Type 0 where
    pub by_make_dir : (path : String) (w : W) → MayMake path → P w → P (make_dir path w).1
    pub by_write : (path text : String) (w : W) → IsInside path → P w → P (write_text path text w).1
    pub by_append :
        (path text : String) (w : W) → IsInside path → P w → P (append_text path text w).1
    pub by_unlink :
        (path : String) (w : W) → IsInside path → IsForeign path → P w → P (unlink path w).1
    pub by_remove_tree :
        (path : String) (w : W) → IsInside path → IsForeign path → P w → P (remove_tree path w).1
    pub by_move :
        (source dest : String) (w : W)
        → IsInside source
        → IsForeign source
        → IsInside dest
        → P w
        → P (move source dest w).1
    pub by_copy : (source dest : String) (w : W) → IsInside dest → P w → P (copy source dest w).1
    pub by_rename :
        (path name : String) (w : W)
        → IsInside path
        → IsForeign path
        → IsBelow (sibling disk workspace path name)
        → exists w (sibling disk workspace path name) ≡ false
        → P w
        → P (rename path (sibling disk workspace path name) w).1

  -- A name next to a path inside the workspace, and not the workspace itself, stands below it.
  abbrev pub SiblingsBelow : Type 0
  SiblingsBelow =
      (path name : String)
      → IsInside path
      → path ≢ workspace
      → IsBelow (sibling disk workspace path name)

  -- A file is renamed, and not the workspace itself.
  abbrev pub Allowed : String → FileArgs → Type 0
  Allowed action args =
      action ≡ "rename_file" → resolve_in_workspace disk workspace start args.path ≢ some workspace

module _ {W : Type 0} {disk : Disk W} {workspace : String} {P : W → Type 0} {start : W}
    (outside : IsOutside disk workspace start P) where
  open disk use {make_dir}

  abbrev pub Holds : Call ToolResult × W → Type 0
  Holds r = P r.1

  pub concluded-Holds :
      (action : String) (result : ToolResult) (r : Option Fault × W)
      → P r.1
      → Holds (concluded disk workspace action result r)
  unfolding concluded
  concluded-Holds action result (none, w) h = h
  concluded-Holds action result (some (os_error text), w) h = h
  concluded-Holds action result (some (other text), w) h = h

  pub proceed-Holds :
      (next : W → Option Fault × W)
      → ((w : W) → P w → P (next w).1)
      → (r : Option Fault × W) → P r.1
      → P (proceed disk workspace next r).1
  unfolding proceed
  proceed-Holds next step (none, w) h = step w h
  proceed-Holds next step (some e, w) h = h

  pub with_parent-Holds :
      (target : String) (next : W → Option Fault × W)
      → ((w : W) → P w → P (next w).1)
      → IsInside disk workspace start target
      → (w : W) → P w
      → P (with_parent disk workspace target next w).1
  unfolding with_parent
  with_parent-Holds target next step inside w h =
      proceed-Holds next step (make_dir (disk.parent target) w)
        (outside.by_make_dir _ w (inr (target, inside, refl)) h)

  pub guarded-Holds :
      (test : Bool) (result : ToolResult) (body : Command disk workspace) (w : W)
      → P w
      → (test ≡ false → Holds (body w))
      → Holds (guarded disk workspace test result body w)
  unfolding guarded
  guarded-Holds true result body w h step = h
  guarded-Holds false result body w h step = step refl

  pub at_target-Holds :
      (action raw : String) (body : String → Command disk workspace) (o : Option String) (w : W)
      → P w
      → ((target : String) → o ≡ some target → Holds (body target w))
      → Holds (at_target disk workspace action raw body o w)
  unfolding at_target
  at_target-Holds action raw body none w h step = h
  at_target-Holds action raw body (some target) w h step = step target refl

  pub with_path-Holds :
      (action raw : String) (body : String → Command disk workspace)
      → P start
      → ((target : String) → IsInside disk workspace start target → Holds (body target start))
      → Holds (with_path disk workspace action raw body start)
  unfolding with_path
  with_path-Holds action raw body h step =
      at_target-Holds action raw body (resolve_in_workspace disk workspace start raw) start h
        (λ target e. step target (resolve_in_workspace-IsInside disk workspace start raw target e))

  pub reading-Holds :
      (action : String) (body : String → Command disk workspace) (r : Reading String) (w : W)
      → P w
      → ((content : String) → Holds (body content w))
      → Holds (reading disk workspace action body r w)
  unfolding reading
  reading-Holds action body (got content) w h step = step content
  reading-Holds action body (fault e) w h step = h
