-- ===== src/Conversation/Rewrite.antt =====
-- agentflow/conversation/rewrite.py: how a question is rewritten with the context of the conversation.
use omni_forge.Base.{
  Bool, Option, none, some, String, str_eq, if◌then◌else◌, ℕ, not, ◌&&◌, ◌||◌, ltb,
}
use omni_forge.Base.Text.{strip}
use omni_forge.Base.Words.{text_length}
use omni_forge.Base.Patterns.{any_match, any_search}
use omni_forge.Conversation.Session.{
  SessionState, ConversationState, resolve_option, has_pending_options,
}
use Prim.Native.String.{◌++◌ as text_append}
use omni_forge.Conversation.Patterns.{
  deictic_patterns, follow_up_patterns, looks_like_standalone_short_topic, modifier_patterns,
  needs_rewrite, ordinal_patterns,
}

-- What the memory agent remembers; a missing key is the empty text.
pub record Memory : Type 0 where
  pub current_goal : String
  pub last_topic : String
  pub summary : String

-- `a or b`
abbrev pub or_else : String → String → String
or_else a b = if str_eq a "" then b else a

abbrev pub memory_goal : Option Memory → String
memory_goal none = ""
memory_goal (some m) = m.current_goal

abbrev pub memory_topic : Option Memory → String
memory_topic none = ""
memory_topic (some m) = m.last_topic

abbrev pub focus_of : Option ConversationState → String
focus_of none = ""
focus_of (some c) = c.current_focus

abbrev pub topic_of : Option ConversationState → String
topic_of none = ""
topic_of (some c) = c.topic

-- The goal of the session, or else of the memory, or else the last topic.
abbrev context_goal : SessionState → Option Memory → String
context_goal s memory = or_else s.current_goal (or_else (memory_goal memory) (memory_topic memory))

abbrev context_of : SessionState → Option Memory → String
context_of s memory = or_else (focus_of s.tracking) (
    or_else (topic_of s.tracking)
      (or_else (context_goal s memory) (or_else s.waiting_for (memory_topic memory))))

abbrev quoted : String → String → String → String
quoted front inside back = text_append front (text_append inside back)

abbrev by_focus : SessionState → (String → String) → String → String
by_focus s with_focus otherwise =
    if str_eq (focus_of s.tracking) "" then otherwise else with_focus (focus_of s.tracking)

-- With a focus, with a context, or as it is.
abbrev by_context : SessionState → String → (String → String) → (String → String) → String → String
by_context s context with_focus with_context question =
    by_focus s with_focus (if str_eq context "" then question else with_context context)

-- The option that an ordinal names; an option that is the empty text counts as none.
abbrev chosen : SessionState → String → Option String
chosen s q = if has_pending_options s then resolve_option q s else none

abbrev selection_without : String → String → String → String
selection_without question q context =
    if str_eq context "" then question else quoted "关于" context (quoted "，请介绍" q "相关内容")

abbrev selection : SessionState → String → String → String → String → Option String → String
selection s question q goal context none = selection_without question q context
selection s question q goal context (some value) =
    if str_eq value ""
    then selection_without question q context
    else if str_eq goal ""
    then text_append "请详细介绍之前提到的：" value
    else quoted "请从当前任务「" goal (text_append "」中选择：" value)

-- `rewrite`; without a session, a new one.
unfoldable pub rewrite_with : String → SessionState → Option Memory → String
unfolding strip resolve_option looks_like_standalone_short_topic
rewrite_with question s memory =
    let q = strip question in
    let goal = context_goal s memory in
    let context = context_of s memory in
    if str_eq q ""
    then question
    else if any_match ordinal_patterns q
    then by_focus s (λ focus. quoted "关于「" focus (text_append "」的选择：" q))
        (selection s question q goal context (chosen s q))
    else if any_search modifier_patterns q
    then by_context s context (λ focus. quoted q " 当前焦点：" focus) (λ c. quoted q "当前任务：" c) question
    else if any_match follow_up_patterns q
    then by_context s context (λ focus. quoted "关于「" focus (text_append "」，" q))
        (λ c. quoted "关于" c (text_append "，" q)) question
    else if any_match deictic_patterns q
    then by_context s context (λ focus. quoted "关于「" focus (text_append "」，用户说：" q))
        (λ c. quoted "关于" c (text_append "，用户说：" q)) question
    else if ltb (text_length q) 15
        && not (str_eq context "")
        && not (looks_like_standalone_short_topic q)
    then quoted "关于" context (text_append "，用户问：" q)
    else question

-- `rewrite_question` of the manager
unfoldable pub rewrite_question : (ℕ → Bool) → String → SessionState → Option Memory → String
unfolding needs_rewrite rewrite_with
rewrite_question is_word question s memory =
    if str_eq question "" || not (needs_rewrite is_word question)
    then question
    else rewrite_with question s memory
