-- ===== src/Blueprints/Matched.antt =====
-- Which goals get a blueprint.
use omni_forge.Base.{
  ◌≡◌, refl, Bool, true, false, Option, none, some, String, str_eq, List, [], ◌∷◌, ℕ, All, Memᴰ,
  ◌⊎◌, inl, inr, filter, filter-Mem, any, any_of_filter_nil, Bool-cases, if_both, get_or,
}
use omni_forge.Base.Int.{ℤ}
use omni_forge.Base.Sort.{All-sort_into, sort_into-nil}
use omni_forge.Values.{Value, str, dict, get}
use omni_forge.Blueprints.{
  Blueprint, score_of, is_positive, score_blueprints, named, chosen_of, parsed_answer, llm_confirm,
  llm_choice, pick, match_blueprint, get_blueprint,
}

module _ (weigh : ℕ → ℕ → ℕ → ℤ) (goal goal_type : String) (blueprints : List Blueprint) where
  -- The blueprint's score for the goal is greater than 0.
  abbrev pub scores : Blueprint → Bool
  scores bp = is_positive weigh (score_of weigh goal bp)

  -- A blueprint that is found is for a project, is one of them and has a positive score; none is
  -- found only for another type of goal, or when no blueprint has a positive score.
  abbrev pub Fits : Option Blueprint → Type 0
  Fits none = (str_eq goal_type "project" ≡ false) ⊎ (any scores blueprints ≡ false)
  Fits (some bp) = (str_eq goal_type "project" ≡ true) × Memᴰ bp blueprints × (scores bp ≡ true)

  abbrev IsListed : Blueprint → Type 0
  IsListed bp = Memᴰ bp blueprints × (scores bp ≡ true)

  abbrev IfListed : Option Blueprint → Type 0
  IfListed none = Unit
  IfListed (some bp) = IsListed bp

  scored-IsListed : All IsListed (score_blueprints weigh goal blueprints)
  unfolding score_blueprints
  scored-IsListed =
      All-sort_into IsListed (score_of weigh goal) [] (filter scores blueprints) tt
        (filter-Mem scores blueprints)

  none_scores : score_blueprints weigh goal blueprints ≡ [] → any scores blueprints ≡ false
  unfolding score_blueprints
  none_scores h =
      any_of_filter_nil scores blueprints
        (sort_into-nil (score_of weigh goal) (filter scores blueprints) h)

  get_blueprint-IsListed :
      (id : String) (candidates : List Blueprint)
      → All IsListed candidates
      → IfListed (get_blueprint id candidates)
  unfolding get_blueprint
  get_blueprint-IsListed id [] h = tt
  get_blueprint-IsListed id (bp ∷ more) h =
      if_both IfListed (str_eq bp.id id) h.0 (get_blueprint-IsListed id more h.1)

  named-IsListed :
      (candidates : List Blueprint) (v : Option Value)
      → All IsListed candidates
      → IfListed (named weigh candidates v)
  named-IsListed candidates (some (str id)) h =
      if_both IfListed (str_eq id "") {yes = none} {no = get_blueprint id candidates} tt
        (get_blueprint-IsListed id candidates h)
  named-IsListed candidates _ h = tt

  chosen_of-IsListed :
      (candidates : List Blueprint) (v : Option Value)
      → All IsListed candidates
      → IfListed (chosen_of weigh candidates v)
  chosen_of-IsListed candidates (some (dict parsed)) h =
      named-IsListed candidates (get "blueprint_id" parsed) h
  chosen_of-IsListed candidates _ h = tt

  llm_choice-IsListed :
      (loads : String → Option Value) (candidates : List Blueprint) (answer : Option String)
      → All IsListed candidates
      → IfListed (llm_choice weigh loads candidates answer)
  unfolding llm_confirm
  llm_choice-IsListed loads candidates none h = tt
  llm_choice-IsListed loads candidates (some raw) h =
      chosen_of-IsListed candidates (parsed_answer weigh loads raw) h

  get_or-IsListed :
      (o : Option Blueprint) (bp : Blueprint) → IfListed o → IsListed bp → IsListed (get_or o bp)
  get_or-IsListed none bp h k = k
  get_or-IsListed (some chosen) bp h k = h

  pick-Fits :
      (loads : String → Option Value) (candidates : List Blueprint) (answer : Option String)
      → str_eq goal_type "project" ≡ true
      → (candidates ≡ [] → any scores blueprints ≡ false)
      → All IsListed candidates
      → Fits (pick weigh loads candidates answer)
  pick-Fits loads [] answer project nothing h = inr (nothing refl)
  pick-Fits loads (bp ∷ []) answer project nothing h = (project, h.0.0, h.0.1)
  pick-Fits loads (bp ∷ other ∷ more) answer project nothing h =
      let found =
        get_or-IsListed (llm_choice weigh loads (bp ∷ other ∷ more) answer) bp
          (llm_choice-IsListed loads (bp ∷ other ∷ more) answer h) h.0 in
      (project, found.0, found.1)

  -- Whatever the LLM answers, a blueprint is found exactly for a project of which some blueprint
  -- has a positive score, and the one that is found has one.
  pub match_blueprint-Fits :
      (loads : String → Option Value) (answer : Option String)
      → Fits (match_blueprint weigh loads blueprints goal goal_type answer)
  unfolding match_blueprint
  match_blueprint-Fits loads answer = elim (Bool-cases (str_eq goal_type "project")) [
    | inl project ↦ rw project (
        pick-Fits loads (score_blueprints weigh goal blueprints) answer project none_scores
          scored-IsListed)
    | inr other ↦ rw other (inl other)
  ]
