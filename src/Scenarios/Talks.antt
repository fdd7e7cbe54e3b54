-- ===== src/Scenarios/Talks.antt =====
-- The theorems on the conversation manager at concrete inputs.
use omni_forge.Base.{Bool, String, str_eq, [], ◌∷◌, ℕ, leb, ◌&&◌, if◌then◌else◌}
use omni_forge.Base.Text.{strip}
use omni_forge.Conversation.Session.{SessionState, new_session}
use omni_forge.Conversation.Turns.{Unicode, extract_options}
use omni_forge.Conversation.Manager.{resolve_question, finalize_turn}
use omni_forge.Conversation.Manager.Status.{
  Follows, IfChosen, named_option, Settled, resolve_question-Follows, finalize_turn-settles,
}

abbrev is_digit : ℕ → Bool
is_digit c = leb b'0' c && leb c b'9'

-- ASCII digits, and numbers of one digit up to 2.
abbrev unicode : Unicode
unicode = record {
  is_word = λ c. leb b'0' c;
  is_digit = is_digit;
  to_int = λ s. if str_eq s "1" then 1 else if str_eq s "2" then 2 else 0;
  number = λ n. if leb n 1 then "1" else "2";
  text_of = λ d. "slots";
}

abbrev show : SessionState → String
show s = "session"

-- Two options, between which the user is to choose.
abbrev choosing : SessionState
choosing = record new_session {
  current_goal = "写一份教案";
  status = "waiting_user";
  waiting_for = "选择一个选项";
  pending_options = ("1", "儿童教育") ∷ ("2", "公共卫生") ∷ [];
  token_usage = 7;
}

resolve_question-Follows_example :
    Follows unicode show choosing (resolve_question unicode show "选项一" choosing).1
    × IfChosen unicode show
        (named_option unicode show (strip "选项一") choosing)
        (resolve_question unicode show "选项一" choosing)
resolve_question-Follows_example = resolve_question-Follows unicode show "选项一" choosing

abbrev processing : SessionState
processing = record new_session { status = "processing" }

finalize_turn-settles_example :
    Settled unicode show
      (extract_options unicode "1. 儿童教育\n2. 公共卫生")
      "1. 儿童教育\n2. 公共卫生"
      processing
      (finalize_turn unicode show "写一份教案" "1. 儿童教育\n2. 公共卫生" processing)
finalize_turn-settles_example =
    finalize_turn-settles unicode show "写一份教案" "1. 儿童教育\n2. 公共卫生" processing
