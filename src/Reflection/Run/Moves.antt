-- ===== src/Reflection/Run/Moves.antt =====
-- A reflection does not leave a queue that is stuck.
use omni_forge.Base.{
  ◌≡◌, refl, sym, ◌∙◌, Bool, true, false, Option, some, String, str_eq, List, [], ◌∷◌, ℕ, suc,
  Bool-cases, ◌⊎◌, inl, inr, All, is_some, any, ap, arith, none, none_some, ◌||◌, ◌&&◌, not,
  true_false, length,
}
use omni_forge.Base.Keyed.{lookup, insert}
use omni_forge.Tasks.{Task}
use omni_forge.Queue.{TaskQueue, get_task, add_one, has_todo, is_todo, is_done}
use omni_forge.Queue.Reference.{ident, get_task_lem, add_one_lem}
use omni_forge.Reflection.{NewTask, ReflectionOutput, new_task}
use omni_forge.Reflection.Run.{
  Surroundings, Outcome, add_generated, is_stuck, unstick, settle_stuck,
}

module _ {A : Type 0} (key : A → String) (final p : A → Bool) where
  -- An object whose key is not there comes last.
  any-insert :
      (x : A) (xs : List A)
      → lookup key (key x) xs ≡ none
      → any p (insert key final x xs) ≡ (any p xs || p x)
  any-insert x [] h = ground arith
  any-insert x (y ∷ ys) h = elim (Bool-cases (str_eq (key y) (key x))) [
    | inl e ↦
        let found : lookup key (key x) (y ∷ ys) ≡ some y = rw e refl in none_some (sym h ∙ found)
    | inr e ↦
        let same : lookup key (key x) (y ∷ ys) ≡ lookup key (key x) ys = rw e refl in
        rw e (ground (arith, any-insert x ys (sym same ∙ h)))
  ]

not_some : {A : Type 0} (o : Option A) → is_some o ≡ false → o ≡ none
not_some none h = refl
not_some (some a) h = true_false h

has_todo-add_one :
    (t : Task) (q : TaskQueue)
    → is_some (get_task t.task_id q) ≡ false
    → has_todo (add_one t q) ≡ (has_todo q || is_todo t)
unfolding has_todo
has_todo-add_one t q h =
    ap (any is_todo) (add_one_lem t q)
    ∙ any-insert ident is_done is_todo t q
        (sym (get_task_lem t.task_id q) ∙ not_some (get_task t.task_id q) h)

or_true : (a b : Bool) → b ≡ true → (a || b) ≡ true
or_true a b h = ground arith

or_left : (a b : Bool) → a ≡ true → (a || b) ≡ true
or_left a b h = rw h refl

module _ (around : Surroundings) where
  open around use {now, fresh}

  add_generated-keeps :
      (n : ℕ) (cfgs : List NewTask) (q : TaskQueue)
      → has_todo q ≡ true
      → has_todo (add_generated around n cfgs q) ≡ true
  unfolding add_generated new_task
  add_generated-keeps n [] q h = h
  add_generated-keeps n (cfg ∷ cfgs) q h = elim (Bool-cases (is_some (get_task cfg.task_id q))) [
    | inl e ↦ rw e (add_generated-keeps (suc n) cfgs q h)
    | inr e ↦ rw e (
        add_generated-keeps (suc n) cfgs (add_one (new_task now fresh n cfg) q)
          (has_todo-add_one (new_task now fresh n cfg) q e ∙ or_left (has_todo q) _ h))
  ]

  -- A task of each of these ids is in the queue.
  abbrev pub Present : List NewTask → TaskQueue → Type 0
  Present cfgs q = All (λ cfg. is_some (get_task cfg.task_id q) ≡ true) cfgs

  add_generated-Present :
      (n : ℕ) (cfgs : List NewTask) (q : TaskQueue)
      → (has_todo (add_generated around n cfgs q) ≡ true) ⊎ Present cfgs q
  unfolding add_generated new_task
  add_generated-Present n [] q = inr tt
  add_generated-Present n (cfg ∷ cfgs) q = elim (Bool-cases (is_some (get_task cfg.task_id q))) [
    | inl e ↦ rw e (elim (add_generated-Present (suc n) cfgs q) [
      | inl todo ↦ inl todo
      | inr present ↦ inr (refl, present)
    ])
    | inr e ↦ rw e (
        inl (
          add_generated-keeps (suc n) cfgs (add_one (new_task now fresh n cfg) q)
            (has_todo-add_one (new_task now fresh n cfg) q e ∙ or_true (has_todo q) _ refl)))
  ]

  -- The goal is completed, or a task is TODO, or every task that was generated had its id in the
  -- queue already.
  abbrev pub Moves : TaskQueue → List NewTask → Outcome → Type 0
  Moves q cfgs out =
      (out.output.goal_completed ≡ true) ⊎ (has_todo out.queue ≡ true) ⊎ Present cfgs q

  unstick-Moves :
      (r : ReflectionOutput) (q : TaskQueue) (cfgs : List NewTask)
      → Moves q cfgs (unstick around r q cfgs)
  unstick-Moves r q [] = inl refl
  unstick-Moves r q (cfg ∷ cfgs) = inr (add_generated-Present (length r.new_tasks) (cfg ∷ cfgs) q)

  not_stuck :
      (completed todo files : Bool)
      → (not completed && not todo || completed && not files) ≡ false
      → (completed ≡ true) ⊎ (todo ≡ true)
  not_stuck true todo files h = inl refl
  not_stuck false true files h = inr refl
  not_stuck false false files h = true_false h

  -- Behind the fallback the queue is not stuck: the goal is completed, or a task is TODO, unless
  -- every fallback task has its id in the queue already.
  pub settle_stuck-Moves :
      (r : ReflectionOutput) (q : TaskQueue) (cfgs : List NewTask)
      → Moves q cfgs (settle_stuck around r q cfgs)
  unfolding settle_stuck
  settle_stuck-Moves r q cfgs = elim (Bool-cases (is_stuck around r q)) [
    | inl e ↦ rw e (unstick-Moves r q cfgs)
    | inr e ↦
        rw e (elim (not_stuck r.goal_completed (has_todo q) _ e) [
          | inl c ↦ inl c
          | inr t ↦ inr (inl t)
        ])
  ]
