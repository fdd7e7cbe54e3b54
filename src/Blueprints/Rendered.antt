-- ===== src/Blueprints/Rendered.antt =====
-- What a blueprint renders to.
use omni_forge.Base.{
  ◌≡◌, refl, false, String, str_eq, List, [], ◌∷◌, All, if_both, Bool-cases, inl, inr, true_false,
}
use omni_forge.Values.{Fields}
use omni_forge.Executor.Actions.{contains}
use omni_forge.Blueprints.{FileSpec, Jinja, is_wanted, render_path, render_spec, render}

-- A file that is not skipped does not exist.
abbrev pub IsAbsent : List String → FileSpec → Type 0
IsAbsent existing spec = str_eq spec.type "skip" ≡ false → contains existing spec.path ≡ false

module _ (jinja : Jinja) (existing : List String) (variables : Fields) where
  render_spec-IsAbsent :
      (spec : FileSpec) → IsAbsent existing (render_spec jinja existing variables spec)
  unfolding render_spec
  render_spec-IsAbsent spec =
      elim (Bool-cases (contains existing (render_path jinja spec.path variables))) [
        | inl there ↦ rw there (λ made. true_false made)
        | inr absent ↦ rw absent (λ made. refl)
      ]

  pub render-IsAbsent :
      (specs : List FileSpec) → All (IsAbsent existing) (render jinja existing variables specs)
  unfolding render
  render-IsAbsent [] = tt
  render-IsAbsent (spec ∷ specs) =
      let rest = render-IsAbsent specs in
      if_both (All (IsAbsent existing)) (is_wanted jinja spec.condition variables)
        (render_spec-IsAbsent spec, rest) rest
