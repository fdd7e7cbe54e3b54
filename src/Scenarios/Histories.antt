-- ===== src/Scenarios/Histories.antt =====
-- The theorem on the compression of a history at a concrete input: three long messages and a budget
-- that two of them fit.
use omni_forge.Base.{none, some, String, List, [], ◌∷◌}
use omni_forge.Conversation.Compression.{HistoryMessage, compress_history}
use omni_forge.Conversation.Compression.Window.{KeepsLast, compress_history-KeepsLast}

abbrev said : String → String → HistoryMessage
said role content = record { role = some role; content = some content }

abbrev history : List HistoryMessage
history =
    said "user" "please write a tool that counts the words of a text"
    ∷ said "assistant" "which format shall the tool read, and where is the text"
    ∷ said "user" "plain text, and it stands in the workspace"
    ∷ []

compress_history-KeepsLast_example :
    KeepsLast (λ n. "1") none 26 2 history (compress_history (λ n. "1") none 26 2 history).0
compress_history-KeepsLast_example = compress_history-KeepsLast (λ n. "1") none 26 2 history
