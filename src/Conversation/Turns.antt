-- ===== src/Conversation/Turns.antt =====
-- agentflow/conversation/manager.py: what the manager reads out of questions and answers. `int`,
-- `str` and the classes of Unicode are parameters.
use omni_forge.Base.{
  Bool, true, false, Option, none, some, String, str_eq, if◌then◌else◌, List, [], ◌∷◌, ◌++◌, ℕ,
  zero, suc, ◌-◌, ◌==◌, not, ◌&&◌, ◌||◌, any, leb, ltb, filter, find_if, length, max_by,
}
use omni_forge.Base.Int.{ℤ, pos}
use omni_forge.Base.Sort.{sort_into}
use omni_forge.Base.Text.{strip, lstrip, lower, is_space}
use omni_forge.Base.Words.{starts_with, contains_text, text_length, text_take}
use omni_forge.Base.Patterns.{
  Pattern, text, one, many, in_order, texts, at_end, any_char, among, matches, searches, any_match,
  any_search,
}
use omni_forge.Executor.Actions.{contains}
use omni_forge.Tools.Markdown.{split_lines}
use omni_forge.Values.{Fields}
use omni_forge.Conversation.Patterns.{
  is_cjk, is_ordinal, alone, ordinal_option_patterns, follow_starts, follow_words, starts_with_word,
  is_new_task_request, looks_like_standalone_short_topic,
}
use Prim.Native.Char.{code}
use Prim.Native.String.{◌++◌ as text_append}

pub record Unicode : Type 0 where
  pub is_word : ℕ → Bool
  pub is_digit : ℕ → Bool
  pub to_int : String → ℕ
  pub number : ℕ → String
  pub text_of : Fields → String

abbrev cons_if : Bool → String → List String → List String
cons_if b s ss = if b then s ∷ ss else ss

-- `re.findall(r"[一-鿿]{3,6}", text)`, with the run of characters in front.
abbrev runs_from : String → ℕ → String → List String
runs_from run n String.[] = cons_if (leb 3 n) run []
runs_from run n (String.◌∷◌ c s) =
    let longer = text_append run (String.◌∷◌ c String.[]) in
    let full = is_cjk (code c) && n == 5 in
    let goes_on = is_cjk (code c) && not full in
    let rest = runs_from (if goes_on then longer else "") (if goes_on then suc n else 0) s in
    if full then longer ∷ rest else cons_if (not goes_on && leb 3 n) run rest

abbrev stop_words : List String
stop_words =
    "什么" ∷ "怎么" ∷ "为什么" ∷ "如何" ∷ "哪个" ∷ "这个" ∷ "那个" ∷ "一下" ∷ "一个" ∷ "可以" ∷ "能够" ∷ "需要" ∷ "是否" ∷ "怎样"
    ∷ []

unfoldable pub extract_entities : String → List String
extract_entities s = filter (λ t. not (contains stop_words t)) (runs_from "" 0 s)

abbrev by_length : String → ℤ
by_length s = pos (text_length s)

abbrev first_topic : Option String → Option String → String → String
first_topic (some e) fresh question = e
first_topic none (some e) question = e
first_topic none none question =
    if ltb 4 (text_length question) then strip (text_take 12 question) else ""

-- `_extract_topic`; entities of one length come in the order of the list, for the set's.
unfoldable pub extract_topic : String → List String → String
unfolding extract_entities strip
extract_topic question entities =
    let known = sort_into by_length [] entities in
    if str_eq question ""
    then ""
    else first_topic (find_if (λ e. not (str_eq e "") && contains_text e question) known)
        (max_by by_length (extract_entities question)) question

-- `_is_context_dependent_request`
abbrev change_words : List String
change_words =
    "优化" ∷ "修改" ∷ "改一下" ∷ "换成" ∷ "调整" ∷ "完善" ∷ "补充" ∷ "扩展" ∷ "重写" ∷ "润色" ∷ "删掉" ∷ "加上" ∷ "增加" ∷ []

-- `self_contained_patterns`
abbrev self_contained_patterns : List Pattern
self_contained_patterns =
    texts ("介绍" ∷ "什么是" ∷ "解释" ∷ "说明" ∷ "帮我" ∷ "写一个" ∷ "生成" ∷ [])
    ∷ texts ("搜索" ∷ "查找" ∷ "查询" ∷ "找一下" ∷ [])
    ∷ texts ("翻译" ∷ "润色" ∷ "改写" ∷ "总结" ∷ [])
    ∷ texts ("你好" ∷ "你是谁" ∷ "你能" ∷ [])
    ∷ in_order (text "今天" ∷ many any_char ∷ texts ("天气" ∷ "新闻" ∷ []) ∷ [])
    ∷ []

-- `_CONTINUE_PATTERNS`
unfoldable pub is_continue : String → Bool
unfolding lower
is_continue question =
    matches (alone ("继续" ∷ "好的" ∷ "好" ∷ "嗯" ∷ "是的" ∷ "对" ∷ "ok" ∷ [])) (lower question)

abbrev question_mark : ℕ → Bool
question_mark = among "？?"

-- `….*[？?]`
abbrev asked : List Pattern → Pattern
asked front = in_order (front ++ many any_char ∷ one question_mark ∷ [])

-- `_is_asking_for_input`
unfoldable pub is_asking_for_input : String → Bool
is_asking_for_input answer =
    any_search
      (texts ("请选择" ∷ "请告诉我" ∷ "请输入" ∷ "请提供" ∷ [])
        ∷ asked (text "请问" ∷ [])
        ∷ asked (text "选择" ∷ [])
        ∷ asked (text "你" ∷ many any_char ∷ text "想" ∷ [])
        ∷ asked (text "哪" ∷ one (among "个一") ∷ [])
        ∷ in_order (one question_mark ∷ many is_space ∷ at_end ∷ [])
        ∷ [])
      answer

module _ (unicode : Unicode) where
  open unicode use {is_word, is_digit, to_int, number}

  unfoldable pub is_context_dependent_request : String → Bool
  unfolding strip lower
  is_context_dependent_request question =
      let q = strip question in
      if str_eq q ""
      then false
      else any (starts_with q) follow_starts
        || starts_with_word is_word follow_words (lower q)
        || searches (texts change_words) q

  unfoldable pub is_self_contained : String → Bool
  unfolding is_new_task_request is_context_dependent_request looks_like_standalone_short_topic
  is_self_contained question =
      if is_new_task_request is_word question
      then true
      else if is_context_dependent_request question
      then false
      else ltb 15 (text_length question)
        || looks_like_standalone_short_topic question
        || any_match self_contained_patterns question

  -- An ordinal, or a number.
  abbrev pub is_ordinal_input : String → Bool
  is_ordinal_input q =
      any_match
        (ordinal_option_patterns ++ in_order (one is_digit ∷ many is_digit ∷ at_end ∷ []) ∷ []) q

  -- `re.sub(r"[\d一二三四五六七八九十]+$", "", s)`
  abbrev is_count : ℕ → Bool
  is_count c = is_digit c || is_ordinal c

  abbrev first_or : String → List String → String
  first_or s [] = s
  first_or s (rest ∷ more) = rest

  abbrev pub without_count : String → String
  without_count String.[] = String.[]
  without_count (String.◌∷◌ c s) =
      first_or (String.◌∷◌ c (without_count s))
        (in_order (one is_count ∷ many is_count ∷ at_end ∷ []) (String.◌∷◌ c s))

  -- The digits in front of a line, and what follows them.
  abbrev digits_of : String → String × String
  digits_of String.[] = (String.[], String.[])
  digits_of (String.◌∷◌ c s) =
      let (front, rest) = digits_of s in
      if is_digit (code c) then (String.◌∷◌ c front, rest) else (String.[], String.◌∷◌ c s)

  -- `^(\d+)[.、\)]\s*(.+)` on a line without space at its ends
  abbrev option_value : String → String → Option (String × String)
  option_value key String.[] = none
  option_value key (String.◌∷◌ c rest) =
      let value = lstrip rest in
      if among ".、)" (code c)
        && not (str_eq key "")
        && leb 1 (text_length value)
        && leb (text_length value) 60
        && not (starts_with value "```")
        && not (starts_with value "http")
      then some (key, value)
      else none

  abbrev option_of : String → Option (String × String)
  option_of line = let (key, rest) = digits_of line in option_value key rest

  -- `options[key] = value`
  abbrev put_option : String → String → List (String × String) → List (String × String)
  put_option key value [] = (key, value) ∷ []
  put_option key value ((k, v) ∷ options) =
      if str_eq k key then (k, value) ∷ options else (k, v) ∷ put_option key value options

  abbrev with_option : Option (String × String) → List (String × String) → List (String × String)
  with_option none options = options
  with_option (some (key, value)) options = put_option key value options

  unfoldable pub read_options : List (String × String) → List String → List (String × String)
  unfolding strip
  read_options options [] = options
  read_options options (line ∷ lines) =
      read_options (with_option (option_of (strip line)) options) lines

  abbrev smaller : ℕ → List (String × String) → ℕ
  smaller n [] = n
  smaller n ((key, value) ∷ options) =
      smaller (if ltb (to_int key) n then to_int key else n) options

  abbrev greater : ℕ → List (String × String) → ℕ
  greater n [] = n
  greater n ((key, value) ∷ options) =
      greater (if ltb n (to_int key) then to_int key else n) options

  -- `str(i)` for `count` numbers from `i` on
  abbrev pub numbers_from : ℕ → ℕ → List String
  numbers_from i zero = []
  numbers_from i (suc count) = number i ∷ numbers_from (suc i) count

  abbrev pub expected_keys : List (String × String) → List String
  expected_keys options =
      let top = greater 0 options in
      let low = smaller top options in numbers_from low (suc top - low)

  abbrev pub all_in : List String → List String → Bool
  all_in [] names = true
  all_in (s ∷ ss) names = contains names s && all_in ss names

  abbrev pub keys_of : List (String × String) → List String
  keys_of [] = []
  keys_of ((key, value) ∷ options) = key ∷ keys_of options

  -- At least two options, of which the keys are the numbers of one range.
  abbrev pub is_block : List (String × String) → Bool
  is_block options =
      leb 2 (length options)
      && all_in (keys_of options) (expected_keys options)
      && all_in (expected_keys options) (keys_of options)

  unfoldable pub extract_options : String → List (String × String)
  unfolding read_options split_lines strip
  extract_options answer =
      let options = read_options [] (split_lines (strip answer)) in
      if is_block options then options else []
