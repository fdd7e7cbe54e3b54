-- ===== src/Conversation/Patterns.antt =====
-- The patterns of agentflow/conversation/rewrite.py and context.py, and what a question is by them.
-- What `\w` matches of Unicode is a parameter.
use omni_forge.Base.{
  Bool, true, false, String, str_eq, if◌then◌else◌, List, [], ◌∷◌, ◌++◌, ℕ, not, ◌&&◌, ◌||◌, any,
  leb, ltb,
}
use omni_forge.Base.Text.{strip, lower, is_space}
use omni_forge.Base.Words.{starts_with, text_length}
use omni_forge.Base.Patterns.{
  Pattern, text, one, many, in_order, texts, maybe, times, at_end, word_end, any_char, among,
  matches, searches, full_match, any_match, any_search,
}

-- `[一-鿿]`, and the classes of ASCII
abbrev pub is_cjk : ℕ → Bool
is_cjk c = leb 0x4e00 c && leb c 0x9fff

abbrev is_ascii_letter : ℕ → Bool
is_ascii_letter c = leb b'a' c && leb c b'z' || leb b'A' c && leb c b'Z'

abbrev is_ascii_digit : ℕ → Bool
is_ascii_digit c = leb b'0' c && leb c b'9'

abbrev is_ascii_alnum : ℕ → Bool
is_ascii_alnum c = is_ascii_letter c || is_ascii_digit c

-- `ORDINAL_CHARS`
abbrev pub is_ordinal : ℕ → Bool
is_ordinal = among "一二三四五六七八九十"

-- `^\s*(…)\s*$`, and `^\s*(…)`
abbrev pub alone : List String → Pattern
alone words = in_order (many is_space ∷ texts words ∷ many is_space ∷ at_end ∷ [])

abbrev pub leading : List String → Pattern
leading words = in_order (many is_space ∷ texts words ∷ [])

-- A word with one of the endings.
abbrev pub ending : String → List String → Pattern
ending word endings = in_order (text word ∷ texts endings ∷ [])

-- Two texts in one line.
abbrev pub apart : String → String → Pattern
apart first second = in_order (text first ∷ many any_char ∷ text second ∷ [])

abbrev pub ordinal_option_patterns : List Pattern
ordinal_option_patterns =
    in_order (text "选项" ∷ one is_ordinal ∷ [])
    ∷ in_order (text "第" ∷ one is_ordinal ∷ text "个" ∷ [])
    ∷ in_order (text "方案" ∷ one is_ordinal ∷ [])
    ∷ in_order (text "步骤" ∷ one is_ordinal ∷ [])
    ∷ in_order (one is_ordinal ∷ at_end ∷ [])
    ∷ []

abbrev is_first_digit : ℕ → Bool
is_first_digit c = leb b'1' c && leb c b'9'

abbrev pub ordinal_patterns : List Pattern
ordinal_patterns =
    ordinal_option_patterns
    ++ in_order (one is_first_digit ∷ at_end ∷ [])
      ∷ in_order (one is_first_digit ∷ maybe (one is_ascii_digit) ∷ at_end ∷ [])
      ∷ []

-- `一?下`
abbrev a_bit : List String
a_bit = "一下" ∷ "下" ∷ []

abbrev pub modifier_patterns : List Pattern
modifier_patterns =
    ending "改" (a_bit ++ "成" ∷ "为" ∷ "进" ∷ "善" ∷ "良" ∷ [])
    ∷ ending "换" (a_bit ++ "成" ∷ "为" ∷ [])
    ∷ ending "优化" a_bit
    ∷ ending "完善" a_bit
    ∷ ending "更新" a_bit
    ∷ ending "重构" a_bit
    ∷ texts ("重写" ∷ "润色" ∷ "精简" ∷ "扩展" ∷ "补充" ∷ [])
    ∷ []

abbrev pub follow_up_patterns : List Pattern
follow_up_patterns =
    alone (
      "继续" ∷ "然后" ∷ "然后呢" ∷ "还有呢" ∷ "接着说" ∷ "继续说" ∷ "展开" ∷ "详细" ∷ "详细一点" ∷ "详细说说" ∷ "具体一点" ∷ "具体说说"
      ∷ [])
    ∷ leading ("为什么" ∷ "为何" ∷ "原因" ∷ "理由" ∷ "原理" ∷ "怎么做到的" ∷ [])
    ∷ alone ("解释一下" ∷ "说明一下" ∷ [])
    ∷ leading ("后面" ∷ "接下来" ∷ "下一步" ∷ "然后" ∷ [])
    ∷ []

abbrev pub deictic_patterns : List Pattern
deictic_patterns =
    alone ("这个" ∷ "那个" ∷ "这" ∷ "那" ∷ "它" ∷ "他" ∷ "她" ∷ [])
    ∷ in_order (
        many is_space
        ∷ texts ("这个" ∷ "那个" ∷ "这" ∷ [])
        ∷ alone ("方案" ∷ "方法" ∷ "方式" ∷ "代码" ∷ "数据" ∷ "结果" ∷ "问题" ∷ "功能" ∷ "步骤" ∷ "流程" ∷ [])
        ∷ [])
    ∷ alone ("数据" ∷ "代码" ∷ "结果" ∷ [])
    ∷ in_order (many is_space ∷ apart "那" "呢" ∷ many is_space ∷ at_end ∷ [])
    ∷ leading ("所以" ∷ "那" ∷ "那么" ∷ [])
    ∷ []

-- `re.IGNORECASE` on the ASCII letters
abbrev confirms : String → Bool
confirms q =
    matches (alone ("好的" ∷ "好" ∷ "嗯" ∷ "是的" ∷ "对" ∷ "ok" ∷ "可以" ∷ "行" ∷ "确认" ∷ [])) (lower q)

-- CJK and ASCII in one line, in either order
abbrev mixed : List Pattern
mixed =
    in_order (one is_cjk ∷ many any_char ∷ one is_ascii_alnum ∷ [])
    ∷ in_order (one is_ascii_alnum ∷ many any_char ∷ one is_cjk ∷ [])
    ∷ []

abbrev asks : String → Bool
asks q = searches (one (among "哪吗何怎")) q

abbrev is_name_char : ℕ → Bool
is_name_char c = is_ascii_alnum c || among "_.-" c

-- `p{n,m}` for one class: n characters, and then up to m - n more
abbrev up_to : ℕ → Pattern → List Pattern
up_to ℕ.zero p = []
up_to (ℕ.suc n) p = maybe p ∷ up_to n p

-- `[？?！!，,。；;：:\s]`
abbrev is_break : ℕ → Bool
is_break c = among "？?！!，,。；;：:" c || is_space c

unfoldable pub looks_like_standalone_short_topic : String → Bool
unfolding strip
looks_like_standalone_short_topic question =
    let q = strip question in
    if str_eq q "" || searches (one is_break) q || asks q
    then false
    else any_search mixed q
      || full_match
          (in_order (one is_ascii_letter ∷ one is_name_char ∷ up_to 13 (one is_name_char))) q
      || full_match (in_order (times 3 (one is_cjk) ∷ up_to 5 (one is_cjk))) q

-- `_TASK_INQUIRY_PATTERNS`
abbrev pub task_inquiry_patterns : List Pattern
task_inquiry_patterns =
    texts ("在哪里" ∷ "在哪" ∷ "了吗" ∷ "好了吗" ∷ "完了吗" ∷ "有没有" ∷ [])
    ∷ apart "怎么" "没有"
    ∷ apart "没" "看到"
    ∷ text "找不到"
    ∷ []

abbrev task_starts : List String
task_starts =
    "创建" ∷ "新建" ∷ "生成" ∷ "写一个" ∷ "写个" ∷ "写一份" ∷ "做一个" ∷ "做个" ∷ "开发" ∷ "实现" ∷ "制作" ∷ "搭建" ∷ "帮我创建"
    ∷ "帮我生成" ∷ "帮我写" ∷ "请创建" ∷ "请生成" ∷ "请写" ∷ "搜索" ∷ "查询" ∷ "介绍" ∷ "解释" ∷ []

abbrev pub follow_starts : List String
follow_starts = "继续" ∷ "接着" ∷ "然后" ∷ "再" ∷ "把它" ∷ "将它" ∷ "这个" ∷ "那个" ∷ "上面" ∷ "刚才" ∷ "之前" ∷ []

abbrev pub follow_words : List String
follow_words = "continue" ∷ "then" ∷ "also" ∷ "again" ∷ "modify" ∷ "change" ∷ "update" ∷ []

abbrev task_words : List String
task_words =
    "create" ∷ "build" ∷ "generate" ∷ "write" ∷ "make" ∷ "implement" ∷ "develop" ∷ "search"
    ∷ "explain" ∷ []

module _ (is_word : ℕ → Bool) where
  -- `^(…)\b`
  abbrev pub starts_with_word : List String → String → Bool
  starts_with_word words q = matches (in_order (texts words ∷ word_end is_word ∷ [])) q

  -- `_is_new_task_request` and `_looks_like_new_task_request`, which are the same code.
  unfoldable pub is_new_task_request : String → Bool
  unfolding strip lower
  is_new_task_request question =
      let q = strip question in
      if str_eq q "" || any (starts_with q) follow_starts || starts_with_word follow_words (lower q)
      then false
      else if any (starts_with q) task_starts
      then not (any_search task_inquiry_patterns q)
      else starts_with_word task_words (lower q)

  abbrev complete_starts : List String
  complete_starts =
      "你好" ∷ "你是谁" ∷ "你能" ∷ "今天" ∷ "帮我" ∷ "搜索" ∷ "查找" ∷ "查询" ∷ "翻译" ∷ "润色" ∷ "总结" ∷ "写一个" ∷ "生成"
      ∷ "介绍" ∷ "什么是" ∷ "解释" ∷ "说明" ∷ []

  -- Of a short question: it needs the context unless it mixes scripts, names a topic or is one of
  -- the complete ones.
  abbrev short_needs : String → Bool
  short_needs q =
      if any_search mixed q
        || full_match (in_order (times 4 (one is_cjk) ∷ many is_cjk ∷ [])) q && not (asks q)
      then false
      else not (any_search modifier_patterns q) && not (any (starts_with q) complete_starts)

  unfoldable pub needs_rewrite : String → Bool
  unfolding strip lower is_new_task_request looks_like_standalone_short_topic
  needs_rewrite question =
      let q = strip question in
      if confirms q || is_new_task_request q
      then false
      else if any_match ordinal_patterns q
          || any_search modifier_patterns q
          || any_match follow_up_patterns q
          || any_match deictic_patterns q
      then true
      else if looks_like_standalone_short_topic q
      then false
      else ltb (text_length q) 4 || ltb (text_length q) 15 && short_needs q
