-- ===== src/Conversation/Session.antt =====
-- agentflow/conversation/session_state.py and state.py: `SessionState` and the `ConversationState`
-- that it tracks. A set of entities is a list with no text twice; token counts are not negative.
use omni_forge.Base.{
  Bool, true, false, Option, none, some, String, str_eq, if◌then◌else◌, List, [], ◌∷◌, ◌++◌, ℕ, ◌+◌,
  ◌-◌, leb, is_empty, not, ◌&&◌,
}
use omni_forge.Base.Words.{text_length}
use omni_forge.Values.{Value, str, Fields, end, field, put, has_key}
use omni_forge.Executor.Actions.{contains, entry}
use Prim.Native.String.{◌++◌ as text_append}

pub record ConversationState : Type 0 where
  pub topic : String
  pub entities : List String
  pub current_focus : String
  pub last_answer : String
  pub summary : String

abbrev pub empty_tracking : ConversationState
empty_tracking = record {
  topic = "";
  entities = [];
  current_focus = "";
  last_answer = "";
  summary = "";
}

unfoldable pub add_entity : String → ConversationState → ConversationState
add_entity entity c =
    if leb 2 (text_length entity) && not (contains c.entities entity)
    then record c { entities = c.entities ++ entity ∷ [] }
    else c

unfoldable pub set_focus : String → ConversationState → ConversationState
set_focus focus c = if str_eq focus "" then c else record c { current_focus = focus }

pub record SessionState : Type 0 where
  pub current_goal : String
  pub current_task : String
  pub current_step : String
  pub status : String
  pub waiting_for : String
  pub pending_options : List (String × String)
  pub slots : Fields
  pub metadata : Fields
  pub token_usage : ℕ
  pub tracking : Option ConversationState

abbrev pub new_session : SessionState
new_session = record {
  current_goal = "";
  current_task = "";
  current_step = "";
  status = "idle";
  waiting_for = "";
  pending_options = [];
  slots = end;
  metadata = end;
  token_usage = 0;
  tracking = none;
}

abbrev pub is_waiting : SessionState → Bool
is_waiting s = str_eq s.status "waiting_user"

abbrev pub has_pending_options : SessionState → Bool
has_pending_options s = not (is_empty s.pending_options)

abbrev pub is_empty_text : Value → Bool
is_empty_text (str text) = str_eq text ""
is_empty_text _ = false

abbrev any_unfilled : Fields → Bool
any_unfilled end = false
any_unfilled (field k v fs) = let later = any_unfilled fs in if is_empty_text v then true else later

unfoldable pub has_unfilled_slots : SessionState → Bool
has_unfilled_slots s = any_unfilled s.slots

-- `ORDINAL_MAP`
abbrev pub ordinal_map : List (String × String)
ordinal_map =
    ("一", "1")
    ∷ ("二", "2")
    ∷ ("三", "3")
    ∷ ("四", "4")
    ∷ ("五", "5")
    ∷ ("六", "6")
    ∷ ("七", "7")
    ∷ ("八", "8")
    ∷ ("九", "9")
    ∷ ("十", "10")
    ∷ []

abbrev names_ordinal : String → String → String → Bool
names_ordinal user_input ch digit =
    contains (text_append "选项" ch ∷ text_append "第" (text_append ch "个") ∷ ch ∷ digit ∷ [])
      user_input

abbrev or_later : Option String → Option String → Option String
or_later (some value) later = some value
or_later none later = later

-- The options at the ordinals that the input names.
abbrev by_ordinal : String → List (String × String) → List (String × String) → Option String
by_ordinal user_input options [] = none
by_ordinal user_input options ((ch, digit) ∷ more) =
    let later = by_ordinal user_input options more in
    if names_ordinal user_input ch digit then or_later (entry options digit) later else later

abbrev by_value : String → List (String × String) → Option String
by_value user_input [] = none
by_value user_input ((_, value) ∷ more) =
    let later = by_value user_input more in if str_eq user_input value then some value else later

unfoldable pub resolve_option : String → SessionState → Option String
resolve_option user_input s = or_later (entry s.pending_options user_input) (
    or_later (by_ordinal user_input s.pending_options ordinal_map)
      (by_value user_input s.pending_options))

unfoldable pub add_token_usage : ℕ → SessionState → SessionState
add_token_usage count s = record s { token_usage = s.token_usage + count }

-- `max(0, max_budget - token_usage)`
unfoldable pub budget_remaining : ℕ → SessionState → ℕ
budget_remaining max_budget s = max_budget - s.token_usage

unfoldable pub fill_slot : String → String → SessionState → SessionState
unfolding put has_key
fill_slot slot_name value s =
    if has_key slot_name s.slots then record s { slots = put slot_name (str value) s.slots } else s

unfoldable pub start_waiting : String → SessionState → SessionState
start_waiting for_what s = record s { status = "waiting_user"; waiting_for = for_what }

unfoldable pub resume : SessionState → SessionState
resume s = record s { status = "processing"; waiting_for = "" }

-- All but the token usage.
unfoldable pub reset : SessionState → SessionState
reset s = record new_session { token_usage = s.token_usage }
