-- ===== src/Planner/Build/Bounds.antt =====
-- The tasks that a plan of more than eight keeps.
use mathlib.Core.List.{append-nil}
use omni_forge.Base.{
  ◌≡◌, refl, ap, ◌∙◌, Bool-cases, inl, inr, List, [], ◌∷◌, ◌++◌, ℕ, zero, suc, ◌≤◌, All, length,
  take, length-take, ltb, arith,
}
use omni_forge.Base.Int.{ℤ}
use omni_forge.Base.Sort.{
  sort_into, IsDescending, AtMost, with_key, sort_into-IsDescending, with_key-sort_into,
}
use omni_forge.Tasks.{Task}
use omni_forge.Planner.Build.{max_tasks, trim_tasks}

abbrev pub priority : Task → ℤ
priority t = t.priority

-- What `take` leaves.
abbrev pub skip_first : ℕ → List Task → List Task
skip_first zero ts = ts
skip_first (suc n) [] = []
skip_first (suc n) (t ∷ ts) = skip_first n ts

take-skip_first : (n : ℕ) (ts : List Task) → take n ts ++ skip_first n ts ≡ ts
take-skip_first zero ts = refl
take-skip_first (suc n) [] = refl
take-skip_first (suc n) (t ∷ ts) = ap (λ l. t ∷ l) (take-skip_first n ts)

skip_first-AtMost :
    (p : ℤ) (n : ℕ) (ts : List Task) → AtMost priority p ts → AtMost priority p (skip_first n ts)
skip_first-AtMost p zero ts h = h
skip_first-AtMost p (suc n) [] h = h
skip_first-AtMost p (suc n) (t ∷ ts) h = skip_first-AtMost p n ts h.1

outrank :
    (n : ℕ) (ts : List Task)
    → IsDescending priority ts
    → All (λ kept. AtMost priority kept.priority (skip_first n ts)) (take n ts)
outrank zero ts d = tt
outrank (suc n) [] d = tt
outrank (suc n) (t ∷ ts) d = (skip_first-AtMost t.priority n ts d.0, outrank n ts d.1)

-- `kept` and `dropped` share out the tasks, those of one priority in their order; at most eight are
-- kept, and no dropped task has a greater priority than a kept one.
abbrev pub IsTop : List Task → List Task → List Task → Type 0
IsTop tasks kept dropped =
    (length kept ≤ max_tasks)
    × ((p : ℤ) → with_key priority p (kept ++ dropped) ≡ with_key priority p tasks)
    × All (λ k. AtMost priority k.priority dropped) kept

none_dropped : (ts : List Task) → All (λ k. AtMost priority k.priority []) ts
none_dropped [] = tt
none_dropped (t ∷ ts) = (tt, none_dropped ts)

taken-IsTop :
    (ts : List Task)
    → IsTop ts
        (take max_tasks (sort_into priority [] ts))
        (skip_first max_tasks (sort_into priority [] ts))
taken-IsTop ts =
    let sorted = sort_into priority [] ts in
    (
      omega (arith, length-take max_tasks sorted),
      (λ p.
          ap (with_key priority p) (take-skip_first max_tasks sorted)
          ∙ with_key-sort_into priority p [] ts tt),
      outrank max_tasks sorted (sort_into-IsDescending priority [] ts tt),
    )

-- A plan keeps at most eight tasks, and none that it drops outranks one that it keeps.
pub trim_tasks-IsTop :
    (tasks : List Task) → (dropped : List Task) × IsTop tasks (trim_tasks tasks) dropped
unfolding trim_tasks
trim_tasks-IsTop tasks = elim (Bool-cases (ltb max_tasks (length tasks))) [
  | inl more ↦ rw more (skip_first max_tasks (sort_into priority [] tasks), taken-IsTop tasks)
  | inr few ↦ rw few (
    [],
    (ground (arith, few), (λ p. ap (with_key priority p) (append-nil tasks)), none_dropped tasks),
  )
]
