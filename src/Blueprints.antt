-- ===== src/Blueprints.antt =====
-- agentflow/blueprints/models.py and loader.py: which blueprint fits a goal, and the files that it
-- renders to. Jinja2 and YAML are parameters, as is the LLM's answer.
pub mod Matched
pub mod Rendered
use omni_forge.Base.{
  Bool, true, false, Option, none, some, String, str_eq, if◌then◌else◌, List, [], ◌∷◌, ℕ, count_if,
  filter, find_if, get_or, not, ◌&&◌, map,
}
use omni_forge.Base.Int.{ℤ, pos, ltb_ℤ}
use omni_forge.Base.Sort.{sort_into}
use omni_forge.Base.Text.{lower, strip}
use omni_forge.Base.Words.{contains_text, split_first, split_last}
use omni_forge.Values.{Value, bool, str, dict, Fields, get, truthy}
use omni_forge.Executor.Actions.{contains}

pub record FileSpec : Type 0 where
  pub path : String
  pub content_template : String
  pub template_ref : Option String
  pub type : String
  pub description : String
  pub condition : Option String
  pub encoding : String

pub record Blueprint : Type 0 where
  pub id : String
  pub name : String
  pub description : String
  pub keywords : List String
  pub frameworks : List String
  pub exclude_keywords : List String
  pub files : List FileSpec

-- `get`, and `list`
unfoldable pub get_blueprint : String → List Blueprint → Option Blueprint
get_blueprint blueprint_id blueprints = find_if (λ bp. str_eq bp.id blueprint_id) blueprints

unfoldable pub list_ids : List Blueprint → List String
list_ids blueprints = map (λ bp. bp.id) blueprints

abbrev hits : String → List String → ℕ
hits goal_lower words = count_if (λ word. contains_text word goal_lower) words

-- `weigh k f e` stands for the float that the loops add up from so many keywords, frameworks and
-- exclusions: an integer, in the order of these floats, and 0 for 0.0.
module _ (weigh : ℕ → ℕ → ℕ → ℤ) where
  unfoldable pub score_of : String → Blueprint → ℤ
  unfolding lower
  score_of goal bp =
      let goal_lower = lower goal in
      weigh (hits goal_lower bp.keywords) (hits goal_lower bp.frameworks)
        (hits goal_lower bp.exclude_keywords)

  -- `score > 0`
  abbrev pub is_positive : ℤ → Bool
  is_positive score = ltb_ℤ (pos 0) score

  -- `_score`
  unfoldable pub score_blueprints : String → List Blueprint → List Blueprint
  unfolding score_of
  score_blueprints goal blueprints =
      sort_into (score_of goal) [] (filter (λ bp. is_positive (score_of goal bp)) blueprints)

  abbrev behind : Option (String × String) → String → String
  behind none raw = raw
  behind (some (front, rest)) raw = rest

  abbrev before_last : Option (String × String) → String → String
  before_last none raw = raw
  before_last (some (front, rest)) raw = front

  -- One marker of a fence, if it is in the text.
  abbrev unfence : String → String → String
  unfence marker raw =
      let rest = behind (split_first marker raw) raw in
      if contains_text marker raw then strip (before_last (split_last "```" rest) rest) else raw

  -- The candidate that the answer names, which only a text can.
  abbrev pub named : List Blueprint → Option Value → Option Blueprint
  named candidates (some (str id)) = if str_eq id "" then none else get_blueprint id candidates
  named candidates _ = none

  abbrev pub chosen_of : List Blueprint → Option Value → Option Blueprint
  chosen_of candidates (some (dict parsed)) = named candidates (get "blueprint_id" parsed)
  chosen_of candidates _ = none

  abbrev pub parsed_answer : (String → Option Value) → String → Option Value
  parsed_answer loads raw =
      loads (unfence "```" (unfence "```JSON" (unfence "```json" (strip raw))))

  -- `_llm_confirm` on the LLM's text; `loads` gives none for a JSONDecodeError. An exception and a
  -- rejection both give none here, since the caller treats them alike.
  unfoldable pub llm_confirm : (String → Option Value) → List Blueprint → String → Option Blueprint
  unfolding strip get get_blueprint
  llm_confirm loads candidates raw = chosen_of candidates (parsed_answer loads raw)

  abbrev llm_choice : (String → Option Value) → List Blueprint → Option String → Option Blueprint
  llm_choice loads candidates none = none
  llm_choice loads candidates (some raw) = llm_confirm loads candidates raw

  -- One candidate is taken as it is; of several, the one that the LLM names, or the first.
  abbrev pub pick : (String → Option Value) → List Blueprint → Option String → Option Blueprint
  pick loads [] answer = none
  pick loads (bp ∷ []) answer = some bp
  pick loads (bp ∷ other ∷ more) answer =
      some (get_or (llm_choice loads (bp ∷ other ∷ more) answer) bp)

  -- `match`; `answer` is the LLM's text, or none for an exception.
  unfoldable pub match_blueprint :
      (String → Option Value) → List Blueprint → String → String → Option String → Option Blueprint
  unfolding score_blueprints llm_confirm
  match_blueprint loads blueprints goal goal_type answer =
      if not (str_eq goal_type "project")
      then none
      else pick loads (score_blueprints goal blueprints) answer

-- The calls of Jinja2: a text with the variables filled in, or an external template of that name;
-- `none` is an exception.
pub record Jinja : Type 0 where
  pub from_string : String → Fields → Option String
  pub get_template : String → Fields → Option String

module _ (jinja : Jinja) where
  open jinja use {from_string, get_template}

  unfoldable pub render_path : String → Fields → String
  render_path path_template variables = get_or (from_string path_template variables) path_template

  abbrev inline_content : FileSpec → Fields → String
  inline_content spec variables =
      if str_eq spec.content_template ""
      then ""
      else get_or (from_string spec.content_template variables) spec.content_template

  abbrev external : Option String → Fields → Option String
  external none variables = none
  external (some name) variables = if str_eq name "" then none else get_template name variables

  unfoldable pub resolve_content : FileSpec → Fields → String
  resolve_content spec variables =
      get_or (external spec.template_ref variables) (inline_content spec variables)

  -- A file with a condition is rendered only if that variable is true.
  abbrev pub is_wanted : Option String → Fields → Bool
  is_wanted none variables = true
  is_wanted (some condition) variables =
      if str_eq condition "" then true else truthy (get_or (get condition variables) (bool false))

  unfoldable pub render_spec : List String → Fields → FileSpec → FileSpec
  unfolding render_path resolve_content
  render_spec existing variables spec =
      let path = render_path spec.path variables in
      record {
        path = path;
        content_template = resolve_content spec variables;
        template_ref = none;
        type = if contains existing path then "skip" else spec.type;
        description = spec.description;
        condition = none;
        encoding = spec.encoding;
      }

  -- `render`, on the files of the blueprint
  unfoldable pub render : List String → Fields → List FileSpec → List FileSpec
  unfolding render_spec get
  render existing variables [] = []
  render existing variables (spec ∷ specs) =
      let rest = render existing variables specs in
      if is_wanted spec.condition variables
      then render_spec existing variables spec ∷ rest
      else rest
