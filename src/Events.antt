-- ===== src/Events.antt =====
-- agentflow/graph/event.py, and the event log of agentflow/graph/context.py: what happened to a
-- task, in the order in which it happened.
use omni_forge.Base.{Option, none, some, String, List, [], ◌∷◌, ◌++◌, str_eq, if◌then◌else◌}
use omni_forge.Values.{Value, str, dict, Fields, end, field}
use omni_forge.Results.{text_or_null}
use omni_forge.Tasks.{Task}

pub data EventType : Type 0 where
  task_created task_started task_finished task_failed : EventType
  tool_started tool_finished : EventType

-- `type.value`
unfoldable pub event_value : EventType → String
event_value task_created = "task.created"
event_value task_started = "task.started"
event_value task_finished = "task.finished"
event_value task_failed = "task.failed"
event_value tool_started = "tool.started"
event_value tool_finished = "tool.finished"

pub record Event : Type 0 where
  pub type : EventType
  pub timestamp : String
  pub task_id : String
  pub agent : String
  pub tool : String
  pub payload : Fields

-- `Event.to_dict`
unfoldable pub event_to_dict : Event → Fields
unfolding event_value
event_to_dict e = field "type" (str (event_value e.type)) (
    field "timestamp" (str e.timestamp) (
      field "task_id" (str e.task_id) (
        field "agent" (str e.agent)
          (field "tool" (str e.tool) (field "data" (dict e.payload) end)))))

-- The keys "tasks" and "events" of the context.
pub record Context : Type 0 where
  pub tasks : List Task
  pub events : List Event

unfoldable pub add_task : Task → Context → Context
add_task t ctx = record ctx { tasks = ctx.tasks ++ t ∷ [] }

find_by_id : String → List Task → Option Task
find_by_id task_id [] = none
find_by_id task_id (t ∷ ts) = if str_eq t.id task_id then some t else find_by_id task_id ts

-- `WorkflowContext.get_task`
unfoldable pub context_task : String → Context → Option Task
unfolding find_by_id
context_task task_id ctx = find_by_id task_id ctx.tasks

unfoldable pub add_event : Event → Context → Context
add_event e ctx = record ctx { events = ctx.events ++ e ∷ [] }

unfoldable pub clear_events : Context → Context
clear_events ctx = record ctx { events = [] }

-- What all the factories of `EventBus` fill in.
unfoldable pub event_of : EventType → String → Task → Fields → Event
event_of type now t payload = record {
  type = type;
  timestamp = now;
  task_id = t.id;
  agent = t.agent;
  tool = t.tool;
  payload = payload;
}

module _ (now : String) (t : Task) where
  unfoldable pub emit_created : Context → Context
  unfolding add_event
  emit_created = add_event (
      event_of task_created now t
        (field "goal" (str t.goal) (field "parent_id" (text_or_null t.parent_id) end)))

  unfoldable pub emit_started : Context → Context
  unfolding add_event
  emit_started = add_event (event_of task_started now t (field "goal" (str t.goal) end))

  unfoldable pub emit_finished : Context → Context
  unfolding add_event
  emit_finished = add_event (event_of task_finished now t (field "goal" (str t.goal) end))

  unfoldable pub emit_failed : Context → Context
  unfolding add_event
  emit_failed = add_event (
      event_of task_failed now t
        (field "goal" (str t.goal) (field "error" (text_or_null t.error) end)))

  unfoldable pub emit_tool_started : Fields → Context → Context
  unfolding add_event
  emit_tool_started tool_input = add_event (
      event_of tool_started now t (field "goal" (str t.goal) (field "input" (dict tool_input) end)))

  unfoldable pub emit_tool_finished : Value → Context → Context
  unfolding add_event
  emit_tool_finished result =
      add_event
        (event_of tool_finished now t (field "goal" (str t.goal) (field "result" result end)))
