-- ===== src/Registry/Dispatch.antt =====
-- What a registry forgets, and what stands behind an answer of `execute_task`.
use omni_forge.Base.{
  ◌≡◌, ◌≢◌, refl, sym, ◌∙◌, Bool, true, false, Option, none, some, String, str_eq, if◌then◌else◌,
  List, ℕ, ◌⊎◌, inl, inr, ap, Bool-cases,
}
use omni_forge.Base.Keyed.{IsDistinct, lookup-delete}
use omni_forge.Values.{Fields}
use omni_forge.Results.{Call, returned, raised, ToolResult, fail_result, or_text}
use omni_forge.Registry.{
  Tool, ToolRegistry, entry_name, tool_of, unregister, get_tool, execute_task, execute_kwargs,
  unknown_tool, finish, takes_parameter, dispatch, execute_on,
}

module _ {W : Type 0} where
  -- Every name is registered once.
  abbrev pub IsUnique : ToolRegistry W → Type 0
  IsUnique = IsDistinct entry_name

  tool_of_unless :
      (b : Bool) (o : Option (String × Tool W))
      → tool_of (if b then none else o) ≡ (if b then none else tool_of o)
  tool_of_unless true o = refl
  tool_of_unless false o = refl

  -- In a registry with one tool to a name, an unregistered name is unknown and every other name
  -- yields what it did.
  get_tool-unregister :
      (name other : String) (registry : ToolRegistry W)
      → IsUnique registry
      → get_tool other (unregister name registry)
        ≡ (if str_eq name other then none else get_tool other registry)
  unfolding unregister get_tool
  get_tool-unregister name other registry h =
      ap tool_of (lookup-delete entry_name name other registry h)
      ∙ tool_of_unless (str_eq name other) _

-- What stands behind a result of `execute_task` that is a success: the tool of that name, which
-- accepted the arguments and returned a success of its own, and the world that it left. The tool and
-- the duration of that result are written over, and the action where the call names one.
pub record Succeeded {W : Type 0} (elapsed : W → W → ℕ) (registry : ToolRegistry W)
    (name action : String) (kwargs : Fields) (w : W) (r : ToolResult) (w' : W) : Type 0 where
  pub tool : Tool W
  pub own : ToolResult
  pub is_registered : get_tool name registry ≡ some tool
  pub accepted : tool.validate kwargs ≡ returned none
  pub ran : tool.execute (execute_kwargs action kwargs) w ≡ (returned own, w')
  pub own_success : own.success ≡ true
  pub is_result :
      r ≡ record own { tool = name; action = or_text action own.action; duration = elapsed w w' }

-- The tool of that name accepted the arguments, and the world is the one that it left.
abbrev pub Ran : {W : Type 0} → ToolRegistry W → String → String → Fields → W → W → Type 0
Ran {W} registry name action kwargs w w' =
    (tool : Tool W) × (get_tool name registry ≡ some tool)
    × (tool.validate kwargs ≡ returned none)
    × (w' ≡ (tool.execute (execute_kwargs action kwargs) w).1)

-- An answer names the tool that was asked for, changes the world only by a run of that tool, and is
-- a success only if the tool's own result was.
pub record IsAnswer {W : Type 0} (elapsed : W → W → ℕ) (registry : ToolRegistry W)
    (name action : String) (kwargs : Fields) (w : W) (r : ToolResult) (w' : W) : Type 0 where
  pub names_tool : r.tool ≡ name
  pub untouched : (w' ≡ w) ⊎ Ran registry name action kwargs w w'
  pub behind : (r.success ≡ false) ⊎ Succeeded elapsed registry name action kwargs w r w'

module _ {W : Type 0} (elapsed : W → W → ℕ) (shown : List String → String)
    (registry : ToolRegistry W) (name action : String) (kwargs : Fields) (w : W) where
  abbrev Answers : Call ToolResult × W → Type 0
  Answers out =
      (r : ToolResult) × (w' : W) × (out ≡ (returned r, w'))
      × IsAnswer elapsed registry name action kwargs w r w'

  failing :
      (error : String)
      → IsAnswer elapsed registry name action kwargs w (fail_result name action error) w
  unfolding fail_result
  failing error = record { names_tool = refl; untouched = inl refl; behind = inl refl }

  finish-IsAnswer :
      (tool : Tool W)
      → get_tool name registry ≡ some tool
      → tool.validate kwargs ≡ returned none
      → (answer : Call ToolResult × W) → tool.execute (execute_kwargs action kwargs) w ≡ answer
      → IsAnswer elapsed registry name action kwargs w
          (finish elapsed shown name action w answer)
          answer.1
  unfolding fail_result
  finish-IsAnswer tool found valid (raised text, w') e = record {
    names_tool = refl;
    untouched = inr (tool, found, valid, ap (λ (x : Call ToolResult × W). x.1) (sym e));
    behind = inl refl;
  }
  finish-IsAnswer tool found valid (returned own, w') e = record {
    names_tool = refl;
    untouched = inr (tool, found, valid, ap (λ (x : Call ToolResult × W). x.1) (sym e));
    behind = elim (Bool-cases own.success) [
      | inl h ↦ inr (record {
        tool = tool;
        own = own;
        is_registered = found;
        accepted = valid;
        ran = e;
        own_success = h;
        is_result = refl;
      })
      | inr h ↦ inl h
    ];
  }

  dispatch-Answers :
      (tool : Tool W)
      → get_tool name registry ≡ some tool
      → (v : Call (Option String)) → tool.validate kwargs ≡ v
      → ((text : String) → tool.validate kwargs ≢ raised text)
      → Answers (dispatch elapsed shown name action kwargs tool v w)
  dispatch-Answers tool found (raised text) e calm = absurd (calm text e)
  dispatch-Answers tool found (returned (some error)) e calm = (_, w, refl, failing error)
  dispatch-Answers tool found (returned none) e calm = (
    _,
    _,
    refl,
    finish-IsAnswer tool found e (tool.execute (execute_kwargs action kwargs) w) refl,
  )

  execute_on-Answers :
      (o : Option (Tool W))
      → get_tool name registry ≡ o
      → ((tool : Tool W)
          → get_tool name registry ≡ some tool
          → (text : String) → tool.validate kwargs ≢ raised text)
      → Answers (execute_on elapsed shown name action kwargs registry o w)
  execute_on-Answers none e calm = (_, w, refl, failing (unknown_tool elapsed shown name registry))
  execute_on-Answers (some tool) e calm =
      dispatch-Answers tool e (tool.validate kwargs) refl (calm tool e)

  -- With no keyword that is a parameter of the method, and a registered tool's `validate` that does
  -- not raise, `execute_task` returns, whatever the tool does: the result names the tool, the world
  -- changes only by a run of the tool of that name after its `validate` accepted the arguments, and
  -- the result is a success only if that tool returned one, of which only the name of the tool, the
  -- action that was asked for and the duration are written over.
  pub execute_task-Answers :
      takes_parameter kwargs ≡ false
      → ((tool : Tool W)
          → get_tool name registry ≡ some tool
          → (text : String) → tool.validate kwargs ≢ raised text)
      → (r : ToolResult) × (w' : W) × (execute_task elapsed shown registry name action kwargs w
          ≡ (returned r, w'))
        × IsAnswer elapsed registry name action kwargs w r w'
  unfolding execute_task
  execute_task-Answers h calm =
      let rest = execute_on-Answers (get_tool name registry) refl calm in rw h rest
