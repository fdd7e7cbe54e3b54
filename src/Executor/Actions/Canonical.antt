-- ===== src/Executor/Actions/Canonical.antt =====
-- Translation ends: a translated action is canonical.
use omni_forge.Base.{
  false_true, ◌≡◌, refl, sym, ◌∙◌, Bool, true, false, none, String, str_eq, List, [], ◌∷◌,
  Bool-cases, inl, inr, All, ap, ◌||◌, ◌&&◌, eq_iff,
}
use omni_forge.Executor.Actions.{
  known_actions, chinese_action_map, contains, entry, or_same, translate_action,
}

-- The names that the table gives are canonical, or texts that it does not translate.
abbrev IsFixed : String → Type 0
IsFixed name = translate_action name ≡ name

abbrev all_fixed : List (String × String) → Bool
all_fixed [] = true
all_fixed ((key, value) ∷ more) = str_eq (translate_action value) value && all_fixed more

entry_all :
    (P : String → Type 0) (map : List (String × String)) (name : String)
    → All (λ e. P e.1) map
    → (entry map name ≡ none → P name)
    → P (or_same (entry map name) name)
entry_all P [] name h own = own refl
entry_all P ((key, value) ∷ more) name h own = elim (Bool-cases (str_eq key name)) [
  | inl e ↦ rw e h.0
  | inr e ↦ rw e (entry_all P more name h.1 (λ missing. own (rw e missing)))
]

IsFixed-pairs :
    (pairs : List (String × String)) → all_fixed pairs ≡ true → All (λ e. IsFixed e.1) pairs
IsFixed-pairs [] h = tt
IsFixed-pairs ((key, value) ∷ more) h = elim (Bool-cases (str_eq (translate_action value) value)) [
  | inl e ↦ ((eq_iff _ _).0 e, IsFixed-pairs more (rw e at h))
  | inr e ↦ false_true (rw e at h)
]

translate_lem :
    (action : String)
    → (str_eq action "" || contains known_actions action) ≡ false
    → translate_action action ≡ or_same (entry chinese_action_map action) action
unfolding translate_action
translate_lem action h = rw h refl

same_lem :
    (action : String)
    → (str_eq action "" || contains known_actions action) ≡ true
    → translate_action action ≡ action
unfolding translate_action
same_lem action h = rw h refl

table_fixed : all_fixed chinese_action_map ≡ true
unfolding translate_action
table_fixed = refl

-- Translating twice is translating once: every name that the table gives is left alone by it.
translate_action-idempotent :
    (action : String) → translate_action (translate_action action) ≡ translate_action action
translate_action-idempotent action =
    elim (Bool-cases (str_eq action "" || contains known_actions action)) [
      | inl e ↦ ap translate_action (same_lem action e)
      | inr e ↦
          let step = translate_lem action e in
          ap translate_action step
          ∙ entry_all IsFixed chinese_action_map action
              (IsFixed-pairs chinese_action_map table_fixed)
              (λ missing. step ∙ ap (λ o. or_same o action) missing)
          ∙ sym step
    ]
