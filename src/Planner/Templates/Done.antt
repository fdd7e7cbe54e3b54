-- ===== src/Planner/Templates/Done.antt =====
-- When a template counts as completed, in terms of the queue.
use omni_forge.Base.{
  ◌≡◌, refl, sym, ◌∙◌, Bool, true, false, Option, none, some, String, str_eq, eq_iff, List, [], ◌∷◌,
  All, Bool-cases, inl, inr, ap, ◌&&◌, ◌↔◌, is_empty, subst, some_injective, true_false, false_true,
  none_some, if◌then◌else◌,
}
use omni_forge.Base.Keyed.{lookup, IsFresh}
use omni_forge.Tasks.{Task, is_finished}
use omni_forge.Queue.{TaskQueue, get_task}
use omni_forge.Queue.Reference.{ident, get_task_lem}
use omni_forge.Queue.Laws.{IsUnique}
use omni_forge.Planner.Templates.Tables.{Template}
use omni_forge.Planner.Templates.{task_map, is_done_task, all_done, is_goal_completed}

task_map-IsFresh :
    (found : Option Task) (id : String) (q : TaskQueue)
    → IsFresh ident id q
    → task_map found id q ≡ found
unfolding task_map
task_map-IsFresh found id [] h = refl
task_map-IsFresh found id (t ∷ q) h = rw h.0 (task_map-IsFresh found id q h.1)

-- With one task to an id, the last task of an id is the first.
task_map-get_task :
    (id : String) (q : TaskQueue) → IsUnique q → task_map none id q ≡ lookup ident id q
unfolding task_map
task_map-get_task id [] h = refl
task_map-get_task id (t ∷ q) h = elim (Bool-cases (str_eq t.task_id id)) [
  | inl e ↦
      rw e (task_map-IsFresh (some t) id q (subst (λ i. IsFresh ident i q) ((eq_iff _ _).0 e) h.0))
  | inr e ↦ rw e (task_map-get_task id q h.1)
]

-- The task of that id is in the queue, and it is DONE or COMPLETED.
abbrev pub IsDone : TaskQueue → String → Type 0
IsDone q id = (t : Task) × (get_task id q ≡ some t) × (is_finished t ≡ true)

both_true : (a b : Bool) → (a && b) ≡ true → (a ≡ true) × (b ≡ true)
both_true true b h = (refl, h)
both_true false b h = false_true h

and_true : (a b : Bool) → a ≡ true → b ≡ true → (a && b) ≡ true
and_true a b ha hb = rw (ha, hb) refl

done_iff :
    (o : Option Task)
    → (is_done_task o ≡ true) ↔ ((t : Task) × (o ≡ some t) × (is_finished t ≡ true))
done_iff none = ((λ h. false_true h), (λ h. none_some h.1))
done_iff (some t) =
    ((λ h. (t, refl, h)), (λ h. subst (λ u. is_finished u ≡ true) (sym (some_injective h.1)) h.2))

gate :
    (b c : Bool) {P : Type 0}
    → (c ≡ true) ↔ P
    → ((if b then false else c) ≡ true) ↔ ((b ≡ false) × P)
gate true c h = ((λ k. false_true k), (λ k. true_false k.0))
gate false c h = ((λ k. (refl, h.0 k)), (λ k. h.1 k.1))

module _ (q : TaskQueue) (unique : IsUnique q) where
  found_lem : (id : String) → task_map none id q ≡ get_task id q
  found_lem id = task_map-get_task id q unique ∙ sym (get_task_lem id q)

  all_done_iff : (ids : List String) → (all_done ids q ≡ true) ↔ All (IsDone q) ids
  all_done_iff [] = ((λ _. tt), (λ _. refl))
  all_done_iff (id ∷ ids) =
      let same = ap is_done_task (found_lem id) in
      let later = all_done_iff ids in
      (
        (λ h.
            let (first, rest) = both_true (is_done_task (task_map none id q)) (all_done ids q) h in
            ((done_iff (get_task id q)).0 (sym same ∙ first), later.0 rest)),
        (λ h.
            and_true (is_done_task (task_map none id q)) (all_done ids q)
              (same ∙ (done_iff (get_task id q)).1 h.0) (later.1 h.1)),
      )

  -- In a queue with one task to an id, a template is completed exactly when it requires some task
  -- and each required task is in the queue and DONE or COMPLETED.
  pub is_goal_completed_iff :
      (template : Template)
      → (is_goal_completed template q ≡ true)
        ↔ ((is_empty template.required_ids ≡ false) × All (IsDone q) template.required_ids)
  unfolding is_goal_completed
  is_goal_completed_iff template =
      gate (is_empty template.required_ids) (all_done template.required_ids q)
        (all_done_iff template.required_ids)
