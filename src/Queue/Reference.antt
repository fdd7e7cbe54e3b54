-- ===== src/Queue/Reference.antt =====
-- The index-based methods of the queue against definitions by recursion on the list, by which the
-- other proofs reason.
use omni_forge.Base.{
  ◌≡◌, refl, Option, none, some, String, str_eq, List, [], ◌∷◌, ℕ, suc, arith, ap, ◌∙◌, Bool-cases,
  inl, inr,
}
use omni_forge.Base.Keyed.{lookup, insert, delete, modify}
use omni_forge.Tasks.{Task}
use omni_forge.Queue.{
  TaskQueue, Update, find_from, get_task, add_one, remove, update, is_done, apply_updates, task_at,
  add_at, remove_at, update_at,
}

abbrev pub ident : Task → String
ident t = t.task_id

-- One more element in front, which the search passes.
abbrev up : Option ℕ → Option ℕ
up none = none
up (some i) = some (suc i)

find_from-suc :
    (i : ℕ) (id : String) (q : TaskQueue) → find_from (suc i) id q ≡ up (find_from i id q)
find_from-suc i id [] = refl
find_from-suc i id (t ∷ rest) = elim (Bool-cases (str_eq t.task_id id)) [
  | inl e ↦ rw e
  | inr e ↦ rw e (find_from-suc (suc i) id rest)
]

module _ (t : Task) (q : TaskQueue) where
  task_at-up : (o : Option ℕ) → task_at (t ∷ q) (up o) ≡ task_at q o
  task_at-up none = refl
  task_at-up (some i) = refl

pub get_task_lem : (id : String) (q : TaskQueue) → get_task id q ≡ lookup ident id q
unfolding get_task
get_task_lem id [] = refl
get_task_lem id (t ∷ rest) = elim (Bool-cases (str_eq t.task_id id)) [
  | inl e ↦ rw e
  | inr e ↦ rw e (
      rw (find_from-suc 0 id rest) (task_at-up t rest (find_from 0 id rest) ∙ get_task_lem id rest))
]

-- The cases of the three mutating methods, one element further in.
module _ (u : Task) (q : TaskQueue) where
  add_at-up :
      (t : Task) (o : Option ℕ)
      → add_at t (u ∷ q) (up o) (task_at (u ∷ q) (up o)) ≡ u ∷ add_at t q o (task_at q o)
  add_at-up t none = refl
  add_at-up t (some i) = ground (arith)

  remove_at-up :
      (o : Option ℕ) → remove_at (u ∷ q) (up o) ≡ (u ∷ (remove_at q o).0, (remove_at q o).1)
  remove_at-up none = refl
  remove_at-up (some i) = refl

  update_at-up :
      (us : List Update) (o : Option ℕ)
      → update_at (u ∷ q) us (up o) (task_at (u ∷ q) (up o))
        ≡ (u ∷ (update_at q us o (task_at q o)).0, (update_at q us o (task_at q o)).1)
  update_at-up us none = refl
  update_at-up us (some i) = ground (arith)

pub add_one_lem : (t : Task) (q : TaskQueue) → add_one t q ≡ insert ident is_done t q
unfolding add_one
add_one_lem t [] = refl
add_one_lem t (u ∷ rest) = elim (Bool-cases (str_eq u.task_id t.task_id)) [
  | inl e ↦ rw e
  | inr e ↦ rw e (
      rw (find_from-suc 0 t.task_id rest)
        (add_at-up u rest t (find_from 0 t.task_id rest) ∙ ap (λ r. u ∷ r) (add_one_lem t rest)))
]

pub remove_lem : (id : String) (q : TaskQueue) → (remove id q).0 ≡ delete ident id q
unfolding remove
remove_lem id [] = refl
remove_lem id (u ∷ rest) = elim (Bool-cases (str_eq u.task_id id)) [
  | inl e ↦ rw e
  | inr e ↦ rw e (
      rw (find_from-suc 0 id rest) (
        ap (λ r. r.0) (remove_at-up u rest (find_from 0 id rest))
        ∙ ap (λ r. u ∷ r) (remove_lem id rest)))
]

pub update_lem :
    (id : String) (us : List Update) (q : TaskQueue)
    → (update id us q).0 ≡ modify ident id (apply_updates us) q
unfolding update
update_lem id us [] = refl
update_lem id us (u ∷ rest) = elim (Bool-cases (str_eq u.task_id id)) [
  | inl e ↦ rw e
  | inr e ↦ rw e (
      rw (find_from-suc 0 id rest) (
        ap (λ r. r.0) (update_at-up u rest us (find_from 0 id rest))
        ∙ ap (λ r. u ∷ r) (update_lem id us rest)))
]
