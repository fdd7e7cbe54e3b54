-- ===== src/Scenarios/Batches.antt =====
-- The theorems on batches at concrete inputs.
use omni_forge.Base.{◌≡◌, refl, true, List, [], ◌∷◌, zero, suc, arith, length, Memᴰ}
use omni_forge.Tasks.Serial.{TaskDict}
use omni_forge.Executor.Batch.{execute_batch_parallel}
use omni_forge.Executor.Batch.Answers.{Covers, length-execute_batch_parallel}
use omni_forge.Executor.Dicts.{execute_batch}
use omni_forge.Executor.Dicts.Stops.{Stopped, execute_batch-Stopped}
use omni_forge.Scenarios.{runtime, registry, empty_context, task_dict}

abbrev batch : List TaskDict
batch = task_dict "git" "running" ∷ task_dict "git" "running" ∷ []

backwards-Covers : Covers (1 ∷ 0 ∷ []) batch
backwards-Covers zero h = Memᴰ.tail (Memᴰ.head refl)
backwards-Covers (suc zero) h = Memᴰ.head refl
backwards-Covers (suc (suc i)) h = absurd (omega arith)

length-execute_batch_parallel_example :
    length (execute_batch_parallel runtime registry (1 ∷ 0 ∷ []) batch empty_context 0).0 ≡ 2
length-execute_batch_parallel_example =
    length-execute_batch_parallel runtime registry (1 ∷ 0 ∷ []) batch empty_context 0
      backwards-Covers

execute_batch-Stopped_example :
    Stopped (execute_batch runtime registry true batch empty_context 0).0
execute_batch-Stopped_example = execute_batch-Stopped runtime registry batch empty_context 0
