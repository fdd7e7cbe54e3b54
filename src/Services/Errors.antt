-- ===== src/Services/Errors.antt =====
-- `classify_error_message` and `get_fallback_message` of agentflow/services/llm_service.py: what the
-- user is told of an error of the LLM.
use omni_forge.Base.{
  ◌≡◌, refl, true, String, str_eq, if◌then◌else◌, List, [], ◌∷◌, any, get_or, is_some, if_both, All,
}
use omni_forge.Base.Text.{lower}
use omni_forge.Base.Words.{contains_text}
use omni_forge.Executor.Actions.{entry}

-- `_ERROR_MESSAGE_PATTERNS`
abbrev pub error_message_patterns : List (String × List String)
error_message_patterns =
    ("budget_exceeded", "budget" ∷ "token budget" ∷ "max_tokens" ∷ [])
    ∷ (
      "auth_error",
      "401" ∷ "unauthorized" ∷ "authentication" ∷ "invalid api key" ∷ "api key" ∷ "认证" ∷ [],
    )
    ∷ ("rate_limit", "429" ∷ "rate limit" ∷ "too many requests" ∷ "限流" ∷ [])
    ∷ ("timeout", "timeout" ∷ "timed out" ∷ "超时" ∷ [])
    ∷ (
      "model_unavailable",
      "model_not_found" ∷ "no such model" ∷ "does not exist" ∷ "503" ∷ "502" ∷ "unavailable" ∷ "不可用"
          ∷ [],
    )
    ∷ ("network", "connection" ∷ "network" ∷ "unreachable" ∷ "dns" ∷ "ssl" ∷ "网络" ∷ "连接" ∷ [])
    ∷ []

abbrev pub first_label : List (String × List String) → String → String
first_label [] text = "unknown"
first_label ((label, needles) ∷ more) text =
    let later = first_label more text in
    if any (λ needle. contains_text needle text) needles then label else later

unfoldable pub classify_error_message : String → String
unfolding lower
classify_error_message message =
    let text = lower message in
    if str_eq text "" then "unknown" else first_label error_message_patterns text

-- `_FALLBACK_MESSAGES`, each with its message for the goal type "default", the only one there.
abbrev pub fallback_messages : List (String × String)
fallback_messages =
    ("auth_error", "LLM 服务认证失败，请检查 API 密钥配置是否正确。")
    ∷ ("rate_limit", "LLM 服务暂时繁忙，请稍后再试。")
    ∷ ("timeout", "请求超时，请检查网络连接后重试。")
    ∷ ("network", "无法连接到 LLM 服务，请检查网络和后端服务状态。")
    ∷ ("model_unavailable", "所选的模型不可用，请检查模型名称或切换到其他模型。")
    ∷ ("budget_exceeded", "本次会话的 Token 预算已用尽，请开启新会话继续提问。")
    ∷ ("unknown", "服务暂时不可用，请稍后再试。")
    ∷ []

abbrev unknown_message : String
unknown_message = "服务暂时不可用，请稍后再试。"

-- The goal type changes nothing, since every type of error has a default only.
unfoldable pub get_fallback_message : String → String → String
get_fallback_message error_type goal_type =
    get_or (entry fallback_messages error_type) unknown_message

abbrev HasMessage : String → Type 0
HasMessage label = is_some (entry fallback_messages label) ≡ true

first_label-HasMessage :
    (patterns : List (String × List String))
    → All (λ p. HasMessage p.0) patterns
    → (text : String) → HasMessage (first_label patterns text)
first_label-HasMessage [] h text = refl
first_label-HasMessage ((label, needles) ∷ more) h text =
    if_both HasMessage (any (λ needle. contains_text needle text) needles) h.0
      (first_label-HasMessage more h.1 text)

-- Every error message is classified with a label that has a message of its own for the user.
classify_error_message-HasMessage : (message : String) → HasMessage (classify_error_message message)
unfolding classify_error_message
classify_error_message-HasMessage message = if_both HasMessage (str_eq (lower message) "") refl (
    first_label-HasMessage error_message_patterns (refl, (refl, (refl, (refl, (refl, (refl, tt))))))
      (lower message))
