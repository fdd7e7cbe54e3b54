-- ===== src/Planner/Fill/Valid.antt =====
-- What the code generator leaves in a plan.
use omni_forge.Base.{
  ◌≡◌, refl, false, Option, none, some, String, str_eq, List, [], ◌∷◌, ◌++◌, ◌⊎◌, inl, inr,
  Bool-cases,
}
use omni_forge.Tasks.{Task}
use omni_forge.Planner.Files.{validate_generated_code}
use omni_forge.Planner.Build.{Runtime, text_field}
use omni_forge.Planner.Fill.{
  CodeRequest, Filled, with_code, call_codegen, needs_code, second_answer, first_answer, answered,
  code_request, fill_task, fill_code_content,
}

cons_nil : {A : Type 0} {x : String} {xs : List String} → (x ∷ xs) ≡ [] → A
cons_nil h = cc

module _ {W : Type 0} (runtime : Runtime) (complete : CodeRequest → W → Option String × W) where
  path_of : Task → String
  path_of t = text_field runtime "path" "" t.input

  -- The task is as it was, or it has got a text that is not empty and that passes the check of its
  -- file.
  abbrev pub IsFilled : Task → Task → Type 0
  IsFilled t filled =
      (filled ≡ t)
      ⊎ ((code : String) × (filled ≡ with_code code t)
          × (str_eq code "" ≡ false)
          × (validate_generated_code runtime.reader (text_field runtime "path" "" t.input) code
              ≡ none))

  -- What holds of an answer if it comes without an error.
  abbrev IsSound : Task → Filled W → Type 0
  IsSound t r = r.errors ≡ [] → IsFilled t r.task

  module _ (t : Task) where
    checked : String → Option String
    checked code = validate_generated_code runtime.reader (path_of t) code

    second_answer-IsSound :
        (code code2 : String) (detail2 : Option String) (w : W)
        → checked code2 ≡ detail2
        → IsSound t (second_answer runtime complete t (path_of t) code code2 detail2 w)
    unfolding checked path_of
    second_answer-IsSound code code2 none w e = elim (Bool-cases (str_eq code2 "")) [
      | inl nothing ↦ rw nothing (λ h. cons_nil h)
      | inr text ↦ rw text (λ h. inr (code2, refl, text, e))
    ]
    second_answer-IsSound code code2 (some detail) w e = elim (Bool-cases (str_eq code2 "")) [
      | inl nothing ↦ rw nothing (λ h. cons_nil h)
      | inr text ↦ rw text (λ h. cons_nil h)
    ]

    first_answer-IsSound :
        (request : CodeRequest) (code : String) (detail : Option String) (w : W)
        → str_eq code "" ≡ false
        → checked code ≡ detail
        → IsSound t (first_answer runtime complete t request (path_of t) code detail w)
    unfolding checked path_of
    first_answer-IsSound request code none w text e = λ h. inr (code, refl, text, e)
    first_answer-IsSound request code (some detail) w text e =
        second_answer-IsSound code _ (checked _) _ refl

    answered-IsSound :
        (request : CodeRequest) (answer : String × W)
        → IsSound t (answered runtime complete t request (path_of t) answer)
    unfolding checked path_of
    answered-IsSound request (code, w) = elim (Bool-cases (str_eq code "")) [
      | inl nothing ↦ rw nothing (λ h. cons_nil h)
      | inr text ↦ rw text (first_answer-IsSound request code (checked code) w text refl)
    ]

    fill_task-IsSound : (brief : String) (w : W) → IsSound t (fill_task runtime complete brief t w)
    unfolding fill_task path_of
    fill_task-IsSound brief w = elim (Bool-cases (needs_code runtime complete t)) [
      | inl needed ↦ rw needed (
          answered-IsSound (code_request runtime complete brief t)
            (call_codegen runtime complete (code_request runtime complete brief t) w))
      | inr other ↦ rw other (λ h. inl refl)
    ]

  -- The tasks of the plan one by one.
  abbrev pub AllFilled : List Task → List Task → Type 0
  AllFilled [] [] = Unit
  AllFilled (t ∷ ts) (u ∷ us) = IsFilled t u × AllFilled ts us
  AllFilled _ _ = ⊥

  front_nil : (xs ys : List String) → (xs ++ ys) ≡ [] → xs ≡ []
  front_nil [] ys h = refl
  front_nil (x ∷ xs) ys h = cons_nil h

  back_nil : (xs ys : List String) → (xs ++ ys) ≡ [] → ys ≡ []
  back_nil [] ys h = h
  back_nil (x ∷ xs) ys h = cons_nil h

  -- When the code generator reports no error, every task of the plan is as it was, or its content
  -- is a text that is not empty and that the syntax check of its file accepts.
  pub fill_code_content-IsFilled :
      (brief : String) (ts : List Task) (w : W)
      → (fill_code_content runtime complete brief ts w).1 ≡ []
      → AllFilled ts (fill_code_content runtime complete brief ts w).0
  unfolding fill_code_content
  fill_code_content-IsFilled brief [] w h = tt
  fill_code_content-IsFilled brief (t ∷ ts) w h =
      let first = fill_task runtime complete brief t w in
      (
        fill_task-IsSound t brief w (front_nil first.errors _ h),
        fill_code_content-IsFilled brief ts first.world (back_nil first.errors _ h),
      )
