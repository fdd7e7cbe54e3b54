-- ===== src/Executor/Dicts/Stops.antt =====
-- A batch that stops on failure has at most one failed result, the last one.
use omni_forge.Base.{◌≡◌, refl, Bool, true, false, List, [], ◌∷◌, not, ◌&&◌, if◌then◌else◌}
use omni_forge.Tasks.Serial.{TaskDict}
use omni_forge.Results.{Call, returned, raised, ToolResult}
use omni_forge.Events.{Context}
use omni_forge.Registry.{ToolRegistry}
use omni_forge.Executor.{Runtime}
use omni_forge.Executor.Dicts.{cons_result, batch_round, execute_batch, execute_task_dict}

-- Every result but the last one is a success.
abbrev pub AllButLast : List ToolResult → Type 0
AllButLast [] = Unit
AllButLast (r ∷ []) = Unit
AllButLast (r ∷ r' ∷ rs) = (r.success ≡ true) × AllButLast (r' ∷ rs)

-- What holds of a batch that returned.
abbrev pub Stopped : Call (List ToolResult) → Type 0
Stopped (raised text) = Unit
Stopped (returned rs) = AllButLast rs

AllButLast-cons :
    (r : ToolResult) (rs : List ToolResult) → r.success ≡ true → AllButLast rs → AllButLast (r ∷ rs)
AllButLast-cons r [] s h = tt
AllButLast-cons r (r' ∷ rs) s h = (s, h)

module _ {W : Type 0} (runtime : Runtime W) (registry : ToolRegistry W) where
  cons_result-Stopped :
      (r : ToolResult) (out : Call (List ToolResult) × Context × W)
      → r.success ≡ true
      → Stopped out.0
      → Stopped (cons_result runtime registry r out).0
  cons_result-Stopped r (raised text, ctx, w) s h = tt
  cons_result-Stopped r (returned rs, ctx, w) s h = AllButLast-cons r rs s h

  branch-Stopped :
      (b : Bool) (rs : List ToolResult) (ctx : Context) (w : W)
      (out : Call (List ToolResult) × Context × W)
      → (b ≡ true → Stopped out.0)
      → AllButLast rs
      → Stopped (if not b && true then (returned rs, ctx, w) else out).0
  branch-Stopped true rs ctx w out go_on stop = go_on refl
  branch-Stopped false rs ctx w out go_on stop = stop

  batch_round-Stopped :
      (rest : Context → W → Call (List ToolResult) × Context × W)
      → ((ctx : Context) (w : W) → Stopped (rest ctx w).0)
      → (answer : Call ToolResult × Context × W)
      → Stopped (batch_round runtime registry true rest answer).0
  batch_round-Stopped rest h (raised text, ctx, w) = tt
  batch_round-Stopped rest h (returned r, ctx, w) =
      branch-Stopped r.success (r ∷ []) ctx w _
        (λ s. cons_result-Stopped r (rest ctx w) s (h ctx w)) tt

  -- In a batch that stops on failure and returns, every result but the last one is a success.
  pub execute_batch-Stopped :
      (ds : List TaskDict) (ctx : Context) (w : W)
      → Stopped (execute_batch runtime registry true ds ctx w).0
  unfolding execute_batch
  execute_batch-Stopped [] ctx w = tt
  execute_batch-Stopped (d ∷ ds) ctx w =
      batch_round-Stopped (execute_batch runtime registry true ds) (execute_batch-Stopped ds)
        (execute_task_dict runtime registry ctx d w)
