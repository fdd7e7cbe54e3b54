-- ===== src/Termination.antt =====
-- agentflow/config/termination.py: the limits that stop the planner and reflector loop.
use omni_forge.Base.{ℕ, Bool, ◌&&◌, ◌||◌, not, leb}

pub record TerminationPolicy : Type 0 where
  pub max_planner_cycles : ℕ
  pub max_replan_count : ℕ
  pub max_stuck_rounds : ℕ
  pub reflector_planner_cycle_cap : ℕ

-- The defaults of the dataclass.
abbrev pub default_policy : TerminationPolicy
default_policy = record {
  max_planner_cycles = 5;
  max_replan_count = 3;
  max_stuck_rounds = 3;
  reflector_planner_cycle_cap = 4;
}

module _ (policy : TerminationPolicy) where
  unfoldable pub planner_should_force_complete : ℕ → Bool → Bool → Bool
  planner_should_force_complete cycle_count has_todo plan_completed =
      not plan_completed && not has_todo && leb policy.max_planner_cycles cycle_count

  unfoldable pub reflector_should_force_answer_on_replan : ℕ → Bool
  reflector_should_force_answer_on_replan replan_count = leb policy.max_replan_count replan_count

  unfoldable pub reflector_should_force_answer_when_stuck : ℕ → ℕ → Bool
  reflector_should_force_answer_when_stuck stuck_rounds planner_cycles =
      leb policy.max_stuck_rounds stuck_rounds
      || leb policy.reflector_planner_cycle_cap planner_cycles
