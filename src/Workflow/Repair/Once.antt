-- ===== src/Workflow/Repair/Once.antt =====
-- A task is repaired at most once, and a repair changes only its arguments.
use omni_forge.Base.{
  none_some, ◌≡◌, refl, Bool, true, false, Option, none, some, Bool-cases, inl, inr, not, ◌||◌, ℕ,
  leb, arith, get_or, false_true, some_injective, subst,
}
use omni_forge.Values.{Fields, dict}
use omni_forge.Tasks.Serial.{TaskDict}
use omni_forge.Results.{Call, returned, raised, ToolResult, or_text?}
use omni_forge.Executor.Actions.{contains}
use omni_forge.Workflow.Repair.{
  repairable_tools, Repairer, may_repair, repaired_task, repair_tool_task, answered,
}

-- A repair `d'` of the failed call `d` with the result `r`, where `answer` is what the LLM answers: the
-- setting, the tool, the counter and the result allowed it; the LLM gave the new input; the counter is
-- 1; with the old input and counter it would be the old task; and a second repair is refused, whatever
-- the next result is.
pub record RepairedOnce (enabled : Bool) (answer : Call (Option Fields)) (d : TaskDict)
    (r : ToolResult) (d' : TaskDict) : Type 0 where
  pub is_enabled : enabled ≡ true
  pub repairable : contains repairable_tools (get_or d.tool "") ≡ true
  pub not_yet : get_or d.repair_count 0 ≡ 0
  pub has_failed : r.success ≡ false
  pub input : Fields
  pub is_answer : answer ≡ returned (some input)
  pub new_input : d'.input ≡ some (dict input)
  pub is_counted : d'.repair_count ≡ some 1
  pub same_else : record d' { input = d.input; repair_count = d.repair_count } ≡ d
  pub never_again : (r : ToolResult) → may_repair enabled d' r ≡ false

any_true : (a b c e : Bool) → not (a || b || true || c || e) ≡ false
any_true true b c e = refl
any_true false true c e = refl
any_true false false c e = refl

never_again :
    (enabled : Bool) (d : TaskDict) (input : Fields) (r : ToolResult)
    → may_repair enabled (repaired_task d input) r ≡ false
unfolding may_repair repaired_task
never_again enabled d input r = any_true (not enabled) _ r.success _

not_counted : (n : ℕ) → leb 1 n ≡ false → n ≡ 0
not_counted n h = ground (arith, h)

-- What the guards of a repair come to.
guards :
    (on tool counted succeeded silent : Bool)
    → not (not on || not tool || counted || succeeded || silent) ≡ true
    → (on ≡ true) × (tool ≡ true) × (counted ≡ false) × (succeeded ≡ false)
guards true true false false silent h = (refl, refl, refl, refl)
guards true true false true silent h = false_true h
guards true true true succeeded silent h = false_true h
guards true false counted succeeded silent h = false_true h
guards false tool counted succeeded silent h = false_true h

module _ {W : Type 0} (repairer : Repairer W) where
  answered-once :
      (d : TaskDict) (r : ToolResult) (d' : TaskDict) (answer : Call (Option Fields) × W)
      → may_repair repairer.enabled d r ≡ true
      → (answered repairer d answer).0 ≡ some d'
      → RepairedOnce repairer.enabled answer.0 d r d'
  unfolding may_repair repaired_task
  answered-once d r d' (raised text, w) may h = none_some h
  answered-once d r d' (returned none, w) may h = none_some h
  answered-once d r d' (returned (some input), w) may h =
      let (on, tool, counted, failed) = guards _ _ _ _ _ may in
      subst (λ e. RepairedOnce repairer.enabled (returned (some input)) d r e) (some_injective h)
        (record {
          is_enabled = on;
          repairable = tool;
          not_yet = not_counted _ counted;
          has_failed = failed;
          input = input;
          is_answer = refl;
          new_input = refl;
          is_counted = refl;
          same_else = refl;
          never_again = λ r. never_again repairer.enabled d input r;
        })

  -- A repair happens only where the setting is on, to a call that failed, of a repairable tool and
  -- not repaired before, and only if the LLM answered with an input; the repaired task has that input
  -- and the counter 1, is otherwise the old task, and is never repaired again.
  pub repair_tool_task-once :
      (d d' : TaskDict) (r : ToolResult) (w : W)
      → (repair_tool_task repairer d r w).0 ≡ some d'
      → RepairedOnce repairer.enabled (repairer.ask d (or_text? r.error r.message) w).0 d r d'
  unfolding repair_tool_task
  repair_tool_task-once d d' r w h = elim (Bool-cases (may_repair repairer.enabled d r)) [
    | inl e ↦ answered-once d r d' _ e (rw e at h)
    | inr e ↦ none_some (rw e at h)
  ]
