-- ===== src/Conversation/Manager.antt =====
-- agentflow/conversation/manager.py: how a turn begins and ends. `str` of a session is a parameter.
pub mod Status
use omni_forge.Base.{
  Bool, true, false, Option, none, some, String, str_eq, if◌then◌else◌, List, [], ◌∷◌, ◌++◌, ℕ, not,
  ◌&&◌, ◌||◌, any, is_empty, leb, ltb, get_or, take,
}
use omni_forge.Base.Text.{strip}
use omni_forge.Base.Words.{contains_text, text_length, text_take}
use omni_forge.Base.Patterns.{any_match}
use omni_forge.Executor.Actions.{contains}
use omni_forge.Tools.Markdown.{join_lines}
use omni_forge.Values.{Value, str, Fields, end, field, truthy}
use omni_forge.Conversation.Session.{
  SessionState, ConversationState, empty_tracking, add_entity, set_focus, is_waiting,
  has_pending_options, has_unfilled_slots, resolve_option, fill_slot, start_waiting, resume, reset,
  is_empty_text,
}
use omni_forge.Conversation.Patterns.{is_new_task_request}
use omni_forge.Conversation.Rewrite.{Memory, memory_topic, or_else, focus_of, topic_of}
use omni_forge.Conversation.Turns.{
  Unicode, extract_entities, extract_topic, is_continue, is_self_contained, is_ordinal_input,
  without_count, extract_options, is_asking_for_input,
}
use Prim.Native.String.{◌++◌ as text_append}

-- `should_continue`
unfoldable pub should_continue : SessionState → Bool
should_continue s = (is_waiting s || not (str_eq s.current_goal "")) && not (str_eq s.status "idle")

abbrev add_entities : List String → ConversationState → ConversationState
add_entities [] c = c
add_entities (e ∷ es) c = add_entities es (add_entity e c)

abbrev with_topic : String → ConversationState → ConversationState
with_topic topic c = if str_eq topic "" then c else record c { topic = topic }

abbrev join_names : List String → String
join_names [] = ""
join_names (s ∷ []) = s
join_names (s ∷ t ∷ more) = text_append s (text_append "、" (join_names (t ∷ more)))

-- The slots with a value, and the names of the empty ones.
abbrev filled_slots : Fields → Fields
filled_slots end = end
filled_slots (field k v d) = let rest = filled_slots d in if truthy v then field k v rest else rest

abbrev unfilled : Fields → List String
unfilled end = []
unfilled (field k v d) = let rest = unfilled d in if is_empty_text v then k ∷ rest else rest

abbrev is_end : Fields → Bool
is_end end = true
is_end (field k v d) = false

abbrev line_if : Bool → String → List String
line_if b line = if b then line ∷ [] else []

module _ (unicode : Unicode) (show : SessionState → String) where
  open unicode use {is_word, text_of}

  -- The new focus: the option that the question names, or the focus with the question for its
  -- count.
  abbrev counted_focus : String → ConversationState → ConversationState
  counted_focus q c =
      let base = without_count unicode c.current_focus in
      if str_eq c.current_focus "" || str_eq base "" then c else set_focus (text_append base q) c

  abbrev focus_on : String → Option String → ConversationState → ConversationState
  focus_on q none c = counted_focus q c
  focus_on q (some option) c = if str_eq option "" then counted_focus q c else set_focus option c

  -- `_update_focus`
  unfoldable pub update_focus : String → SessionState → ConversationState → ConversationState
  unfolding strip resolve_option set_focus
  update_focus question s c =
      if str_eq question "" || not (is_ordinal_input unicode (strip question))
      then c
      else focus_on (strip question)
          (if has_pending_options s then resolve_option question s else none) c

  -- `_update_tracking_from_question`
  unfoldable pub tracked_question : String → SessionState → ConversationState → ConversationState
  unfolding extract_entities extract_topic add_entity update_focus
  tracked_question question s c =
      let known = add_entities (extract_entities question) c in
      if str_eq question ""
      then c
      else update_focus question s (with_topic (extract_topic question known.entities) known)

  -- If the session tracks the conversation.
  abbrev if_tracking :
      (ConversationState → ConversationState) → Option ConversationState → Option ConversationState
  if_tracking update none = none
  if_tracking update (some c) = some (update c)

  abbrev pub tracked : String → SessionState → SessionState
  tracked question s = record s { tracking = if_tracking (tracked_question question s) s.tracking }

  -- `_build_slot_context`
  unfoldable pub build_slot_context : SessionState → String
  unfolding has_unfilled_slots join_lines
  build_slot_context s =
      let filled = filled_slots s.slots in
      join_lines (
        text_append "任务：" s.current_goal
          ∷ line_if (not (str_eq s.current_task "")) (text_append "当前操作：" s.current_task)
        ++ line_if (not (is_end filled)) (text_append "已获取参数：" (text_of filled))
        ++ line_if (has_unfilled_slots s) (text_append "仍需提供：" (join_names (unfilled s.slots))))

  abbrev in_context : String → String → String
  in_context question context = text_append question (text_append "\n\n[会话上下文]\n" context)

  -- `_enrich_with_context`
  unfoldable pub enrich_with_context : String → SessionState → String
  enrich_with_context question s =
      let topic = topic_of s.tracking in
      let focus = focus_of s.tracking in
      let parts =
        line_if (not (str_eq s.current_goal "")) (text_append "当前目标：" s.current_goal)
        ++ text_append "话题：" topic ∷ line_if (not (str_eq focus "")) (text_append "当前焦点：" focus) in
      if not (str_eq topic "")
      then in_context question (join_names parts)
      else if str_eq (show s) "" || str_eq (show s) "(无活跃任务)"
      then question
      else in_context question (show s)

  -- The first empty slot is filled.
  abbrev first_empty : List String → Option String
  first_empty [] = none
  first_empty (k ∷ ks) = some k

  abbrev fill_first : Option String → String → SessionState → SessionState
  fill_first none question s = s
  fill_first (some slot) question s = fill_slot slot question s

  abbrev pub idle : SessionState → SessionState
  idle s = record (resume s) { status = "idle" }

  abbrev Resolved : Type 0
  Resolved = String × SessionState

  -- An option that was chosen.
  abbrev choose_option : String → String → SessionState → Resolved
  choose_option original option s =
      (option, resume (record (tracked original s) { pending_options = [] }))

  abbrev filled_turn : String → String → SessionState → Resolved
  filled_turn original question s =
      let after = fill_first (first_empty (unfilled s.slots)) question s in
      let going = if has_unfilled_slots after then after else resume after in
      (or_else (build_slot_context going) question, tracked original going)

  abbrev fresh_task : String → String → SessionState → Resolved
  fresh_task original question s =
      (question, tracked original (record (reset s) { tracking = some empty_tracking }))

  -- The last steps: a question on its own ends the waiting.
  abbrev last_steps : String → String → SessionState → Resolved
  last_steps original question s =
      let after = if is_waiting s && is_self_contained unicode question then idle s else s in
      (question, tracked original after)

  abbrev enriched : String → String → SessionState → Resolved
  enriched original text s =
      let after = tracked original s in (text, if is_waiting after then idle after else after)

  -- Steps 4 to 6.
  abbrev resolve_topic : String → String → SessionState → Resolved
  resolve_topic original question s =
      let text = enrich_with_context question s in
      if not (str_eq s.current_goal "")
        && not (is_waiting s)
        && is_new_task_request is_word question
      then fresh_task original question s
      else if not (str_eq s.current_goal "")
          && not (is_self_contained unicode question)
          && not (str_eq text question)
      then enriched original text s
      else last_steps original question s

  -- Steps 2 and 3.
  abbrev resolve_waiting : String → String → SessionState → Resolved
  resolve_waiting original question s =
      if is_waiting s && is_continue question
      then (s.waiting_for, tracked original (resume s))
      else if is_waiting s && has_unfilled_slots s
      then filled_turn original question s
      else resolve_topic original question s

  abbrev by_option : String → String → Option String → SessionState → Resolved
  by_option original question none s = resolve_waiting original question s
  by_option original question (some option) s =
      if str_eq option ""
      then resolve_waiting original question s
      else choose_option original option s

  abbrev tracking_on : String → Option ConversationState → Option ConversationState
  tracking_on question none = if str_eq question "" then none else some empty_tracking
  tracking_on question (some c) = some c

  -- `resolve_question`
  unfoldable pub resolve_question : String → SessionState → String × SessionState
  unfolding strip resolve_option tracked_question resume reset has_unfilled_slots fill_slot
      build_slot_context enrich_with_context is_self_contained is_new_task_request is_continue
  resolve_question original s =
      let question = strip original in
      let begun = record s { tracking = tracking_on question s.tracking } in
      let option = if has_pending_options begun then resolve_option question begun else none in
      by_option original question option begun

  abbrev add_options : List (String × String) → ConversationState → ConversationState
  add_options [] c = c
  add_options ((key, value) ∷ options) c = add_options options (add_entity value c)

  abbrev shortened : String → String
  shortened answer =
      if ltb 80 (text_length answer) then text_append (text_take 80 answer) "…" else answer

  -- `_update_tracking`
  unfoldable pub tracked_answer : String → SessionState → ConversationState → ConversationState
  unfolding extract_entities add_entity
  tracked_answer answer s c =
      let heard = record c { last_answer = answer } in
      let known = add_options s.pending_options (add_entities (extract_entities answer) heard) in
      if str_eq answer "" then known else record known { summary = shortened answer }

  abbrev answer_tracked : String → SessionState → SessionState
  answer_tracked answer s = record s { tracking = if_tracking (tracked_answer answer s) s.tracking }

  abbrev with_goal : String → SessionState → SessionState
  with_goal question s =
      if str_eq s.current_goal "" && ltb 4 (text_length question)
      then record s { current_goal = text_take 200 question }
      else s

  abbrev end_turn : List (String × String) → String → SessionState → SessionState
  end_turn [] answer s =
      if is_asking_for_input answer
      then start_waiting "提供更多信息" s
      else if str_eq s.status "processing"
      then idle s
      else s
  end_turn (option ∷ options) answer s =
      start_waiting "选择一个选项" (record s { pending_options = option ∷ options })

  -- `finalize_turn`, on the question of the workflow's state
  unfoldable pub finalize_turn : String → String → SessionState → SessionState
  unfolding tracked_answer extract_options is_asking_for_input start_waiting resume
  finalize_turn question answer s =
      end_turn (extract_options unicode answer) answer
        (with_goal question (answer_tracked answer s))
