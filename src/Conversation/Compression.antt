-- ===== src/Conversation/Compression.antt =====
-- agentflow/conversation/compression.py: what stays of a history that is over its budget. A message
-- has texts or lacks a key; the budget and the number of messages to keep are those of the settings
-- or of the call. `ask` is the LLM for a transcript, if there is one.
pub mod Window
use omni_forge.Base.{
  Bool, true, false, Option, none, some, String, str_eq, if◌then◌else◌, List, [], ◌∷◌, ◌++◌, ℕ,
  zero, suc, ◌-◌, length, take, get_or, is_empty, ltb, leb, not, ◌||◌,
}
use omni_forge.Base.Text.{strip}
use omni_forge.Base.Words.{text_length, text_take, replace_text}
use omni_forge.Results.{Call, returned, raised}
use omni_forge.Services.Llm.{estimate_tokens}
use Prim.Native.String.{◌++◌ as text_append}

pub record HistoryMessage : Type 0 where
  pub role : Option String
  pub content : Option String

abbrev pub message_text : HistoryMessage → String
message_text m = get_or m.content ""

abbrev pub contents : List HistoryMessage → List String
contents [] = []
contents (m ∷ ms) =
    let later = contents ms in if str_eq (message_text m) "" then later else message_text m ∷ later

-- `separator.join(texts)`
abbrev pub joined_by : String → List String → String
joined_by separator [] = ""
joined_by separator (text ∷ []) = text
joined_by separator (text ∷ next ∷ more) =
    text_append text (text_append separator (joined_by separator (next ∷ more)))

unfoldable pub count_tokens : List HistoryMessage → ℕ
unfolding estimate_tokens
count_tokens messages = estimate_tokens (joined_by "\n" (contents messages))

abbrev speaker : HistoryMessage → String
speaker m = if str_eq (get_or m.role "") "user" then "用户" else "助手"

-- A content of more than so many characters is cut, with a mark.
abbrev cut_at : ℕ → String → String
cut_at n text = if ltb n (text_length text) then text_append (text_take n text) "…" else text

abbrev line_of : HistoryMessage → String → String
line_of m content = text_append (speaker m) (text_append ": " content)

abbrev text_drop : ℕ → String → String
text_drop zero s = s
text_drop (suc n) String.[] = String.[]
text_drop (suc n) (String.◌∷◌ c s) = text_drop n s

abbrev transcript_lines : List HistoryMessage → List String
transcript_lines [] = []
transcript_lines (m ∷ ms) =
    let content = strip (message_text m) in
    let later = transcript_lines ms in
    if str_eq content "" then later else line_of m (cut_at 300 content) ∷ later

-- The last 12000 characters.
unfoldable pub transcript_text : List HistoryMessage → String
unfolding strip
transcript_text messages =
    let text = joined_by "\n" (transcript_lines messages) in
    text_drop (text_length text - 12000) text

abbrev long_enough : String → Option String
long_enough summary = if ltb (text_length summary) 5 then none else some (text_take 500 summary)

abbrev summary_of : Call String → Option String
summary_of (raised text) = none
summary_of (returned raw) = long_enough (strip raw)

abbrev asked : String → Option (String → Call String) → Option String
asked transcript none = none
asked transcript (some ask) = if str_eq transcript "" then none else summary_of (ask transcript)

unfoldable pub llm_summarize : List HistoryMessage → Option (String → Call String) → Option String
unfolding transcript_text strip
llm_summarize dropped ask = asked (transcript_text dropped) ask

-- The lines of the first messages that have a content, at most so many.
abbrev summary_lines : ℕ → List HistoryMessage → List String
summary_lines left [] = []
summary_lines zero (m ∷ ms) = []
summary_lines (suc left) (m ∷ ms) =
    let content = replace_text "\n" " " (strip (message_text m)) in
    let later = summary_lines (if str_eq content "" then suc left else left) ms in
    if str_eq content "" then later else line_of m (cut_at 60 content) ∷ later

abbrev suffix_of : (ℕ → String) → ℕ → String
suffix_of number remainder =
    if ltb 0 remainder then text_append "（另有 " (text_append (number remainder) " 条更早消息已省略）") else ""

unfoldable pub deterministic_summary : (ℕ → String) → List HistoryMessage → String
unfolding strip replace_text
deterministic_summary number dropped =
    let lines = summary_lines 12 dropped in
    let suffix = suffix_of number (length dropped - length lines) in
    if is_empty lines then "" else text_append "早期对话摘要：" (text_append (joined_by "；" lines) suffix)

abbrev pub drop {ℓ} : {A : Type ℓ} → ℕ → List A → List A
drop zero xs = xs
drop (suc n) [] = []
drop (suc n) (x ∷ xs) = drop n xs

-- The place at which `history[-n:]` starts; `-0` is 0.
abbrev pub window_start : ℕ → ℕ → ℕ
window_start zero len = 0
window_start (suc n) len = len - suc n

-- The loop over the recent messages: the oldest moves to the older ones while the window is over the
-- budget and has more than two messages.
unfoldable pub trim :
    ℕ → List HistoryMessage → List HistoryMessage → List HistoryMessage × List HistoryMessage
unfolding count_tokens
trim budget older [] = (older, [])
trim budget older (m ∷ ms) =
    let later = trim budget (older ++ m ∷ []) ms in
    if leb (length (m ∷ ms)) 2 || leb (count_tokens (m ∷ ms)) budget then (older, m ∷ ms) else later

abbrev or_summary : Option String → String → String
or_summary none other = other
or_summary (some summary) other = summary

abbrev summarized :
    (ℕ → String)
    → Option (String → Call String)
    → List HistoryMessage × List HistoryMessage
    → List HistoryMessage × String
summarized number ask (older, recent) =
    (recent, or_summary (llm_summarize older ask) (deterministic_summary number older))

unfoldable pub compress_history :
    (ℕ → String)
    → Option (String → Call String)
    → ℕ
    → ℕ
    → List HistoryMessage
    → List HistoryMessage × String
unfolding count_tokens trim llm_summarize deterministic_summary
compress_history number ask budget min_keep history =
    let start = window_start min_keep (length history) in
    let trimmed = trim budget (take start history) (drop start history) in
    if leb (count_tokens history) budget || is_empty (take start history)
    then (history, "")
    else summarized number ask trimmed
