-- ===== src/Queue/Saved.antt =====
-- `to_dict_list` and `from_dict_list`: saving the queue in the state and reading it back.
use omni_forge.Base.{◌≡◌, refl, ℕ, suc, String, [], ◌∷◌, map}
use omni_forge.Values.{safe_value}
use omni_forge.Tasks.{Task}
use omni_forge.Tasks.Serial.{Loaded, from_dict-to_dict}
use omni_forge.Queue.{TaskQueue, load_from, from_dict_list, to_dict_list}

-- A task whose result went through JSON.
abbrev pub saved : Task → Task
saved t = record t { result = safe_value t.result }

load_from-map :
    (fresh : ℕ → String) (n : ℕ) (q : TaskQueue)
    → load_from fresh n (to_dict_list q) ≡ Loaded.ok (map saved q)
unfolding load_from to_dict_list
load_from-map fresh n [] = refl
load_from-map fresh n (t ∷ q) = rw (from_dict-to_dict (fresh n) t, load_from-map fresh (suc n) q)

-- A queue that is saved and read back holds the same tasks in the same order, with results that
-- JSON cannot hold turned into their texts.
pub from_dict_list-to_dict_list :
    (fresh : ℕ → String) (q : TaskQueue)
    → from_dict_list fresh (to_dict_list q) ≡ Loaded.ok (map saved q)
unfolding from_dict_list
from_dict_list-to_dict_list fresh q = load_from-map fresh 0 q
