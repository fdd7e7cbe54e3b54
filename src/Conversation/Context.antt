-- ===== src/Conversation/Context.antt =====
-- `ConversationContext` of agentflow/conversation/context.py, and how
-- `ConversationManager.build_conversation_context` fills it.
use omni_forge.Base.{
  Bool, Option, none, some, String, str_eq, if◌then◌else◌, List, [], ◌∷◌, ◌++◌, not, ◌&&◌, is_empty,
  take,
}
use omni_forge.Base.Text.{strip}
use omni_forge.Base.Words.{contains_text}
use omni_forge.Executor.Actions.{contains}
use omni_forge.Conversation.Session.{SessionState, ConversationState, is_waiting}
use omni_forge.Conversation.Rewrite.{Memory, memory_topic, or_else, focus_of}
use omni_forge.Conversation.Turns.{Unicode, extract_entities, is_ordinal_input}
use omni_forge.Conversation.Manager.{should_continue}
use Prim.Native.String.{◌++◌ as text_append}

pub record ConversationContext : Type 0 where
  pub type : String
  pub original_question : String
  pub rewritten_question : String
  pub current_goal : String
  pub last_topic : String
  pub waiting_for : String
  pub entities : List String
  pub summary : String

-- `_is_option_selection`
unfoldable pub is_option_selection : Unicode → String → SessionState → Bool
unfolding strip
is_option_selection unicode question s =
    not (str_eq question "")
    && not (str_eq s.current_goal "")
    && is_ordinal_input unicode (strip question)

abbrev turn_type : Unicode → String → String → SessionState → String
turn_type unicode original rewritten s =
    if is_option_selection unicode original s
    then "OPTION_SELECTION"
    else if is_waiting s
    then "WAITING_REPLY"
    else if not (str_eq rewritten original)
    then "QUESTION_REWRITE"
    else if should_continue s && not (str_eq s.current_goal "")
    then "FOLLOW_UP"
    else "NEW_TASK"

-- The entities that are not there yet, behind the ones that are.
abbrev merge_entities : List String → List String → List String
merge_entities merged [] = merged
merge_entities merged (e ∷ es) =
    merge_entities (if contains merged e then merged else merged ++ e ∷ []) es

abbrev context_entities : List String → Option ConversationState → List String
context_entities current none = current
context_entities current (some c) =
    if is_empty c.entities then current else take 10 (merge_entities current c.entities)

abbrev memory_summary : Option Memory → String
memory_summary none = ""
memory_summary (some m) = m.summary

abbrev tracked_summary : Option ConversationState → String
tracked_summary none = ""
tracked_summary (some c) = c.summary

abbrev focused_goal : String → String → String
focused_goal goal focus =
    if not (str_eq focus "") && not (str_eq goal "") && not (contains_text focus goal)
    then text_append goal (text_append "（焦点：" (text_append focus "）"))
    else goal

-- Without a session, a new one.
unfoldable pub build_conversation_context :
    Unicode → String → String → SessionState → Option Memory → ConversationContext
unfolding is_option_selection should_continue extract_entities
build_conversation_context unicode original rewritten s memory = record {
  type = turn_type unicode original rewritten s;
  original_question = original;
  rewritten_question = rewritten;
  current_goal = focused_goal s.current_goal (focus_of s.tracking);
  last_topic = memory_topic memory;
  waiting_for = s.waiting_for;
  entities = context_entities (extract_entities original) s.tracking;
  summary = or_else (memory_summary memory) (tracked_summary s.tracking);
}
