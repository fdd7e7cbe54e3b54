-- ===== src/Workflow/Parallel/Paths.antt =====
-- The filesystem tasks that run together have different paths.
use omni_forge.Base.{
  ◌≡◌, ◌≢◌, refl, sym, ◌∙◌, Bool, true, false, Option, none, some, String, str_eq, eq_iff,
  if◌then◌else◌, List, [], ◌∷◌, ◌++◌, ◌||◌, ℕ, All, All-append, All-filter, All-take, length, ltb,
  take, filter, inl, inr, Bool-cases, get_or, enumerate, true_false, none_some, some_injective,
  subst, if_both,
}
use omni_forge.Values.{Value, Fields}
use omni_forge.Tasks.Serial.{TaskDict}
use omni_forge.Executor.Actions.{contains}
use omni_forge.Workflow.Select.{is_todo}
use omni_forge.Workflow.Parallel.{
  Candidate, writes, reads, selected, at_most_eight, candidates, round, file_access, file_round,
  select_parallel_tasks, path_of, input_dict, write_actions, action_of,
}

module _ {A : Type 0} (P : A → A → Type 0) where
  abbrev pub Pairwise : List A → Type 0
  Pairwise [] = Unit
  Pairwise (x ∷ xs) = All (P x) xs × Pairwise xs

  Pairwise-filter : (p : A → Bool) (xs : List A) → Pairwise xs → Pairwise (filter p xs)
  Pairwise-filter p [] h = tt
  Pairwise-filter p (x ∷ xs) h = elim (Bool-cases (p x)) [
    | inl e ↦ rw e (All-filter (P x) p xs h.0, Pairwise-filter p xs h.1)
    | inr e ↦ rw e (Pairwise-filter p xs h.1)
  ]

  Pairwise-take : (n : ℕ) (xs : List A) → Pairwise xs → Pairwise (take n xs)
  Pairwise-take ℕ.zero xs h = tt
  Pairwise-take (ℕ.suc n) [] h = tt
  Pairwise-take (ℕ.suc n) (x ∷ xs) h = (All-take (P x) n xs h.0, Pairwise-take n xs h.1)

  Pairwise-append :
      (xs ys : List A)
      → Pairwise xs
      → Pairwise ys
      → All (λ x. All (P x) ys) xs
      → Pairwise (xs ++ ys)
  Pairwise-append [] ys h k cross = k
  Pairwise-append (x ∷ xs) ys h k cross =
      (All-append (P x) xs ys h.0 cross.0, Pairwise-append xs ys h.1 k cross.1)

  module _ (symmetric : (x y : A) → P x y → P y x) (p q : A → Bool)
      (disjoint : (x : A) → p x ≡ true → q x ≡ false) where
    -- Before each of the others.
    in_front :
        (x : A) (ys zs : List A)
        → All (P x) ys
        → All (λ y. All (P y) zs) ys
        → All (λ y. All (P y) (x ∷ zs)) ys
    in_front x [] zs h k = tt
    in_front x (y ∷ ys) zs h k = ((symmetric x y h.0, k.0), in_front x ys zs h.1 k.1)

    skipped : (x : A) (xs : List A) → q x ≡ false → filter q (x ∷ xs) ≡ filter q xs
    skipped x xs h = rw h refl

    met : (x : A) (xs : List A) → q x ≡ true → filter q (x ∷ xs) ≡ x ∷ filter q xs
    met x xs h = rw h refl

    abbrev Rows : List A → List A → Type 0
    Rows ys zs = All (λ y. All (P y) zs) ys

    crossing : (xs : List A) → Pairwise xs → Rows (filter p xs) (filter q xs)
    crossing [] h = tt
    crossing (x ∷ xs) h = elim (Bool-cases (p x)) [
      | inl e ↦
          let other = sym (skipped x xs (disjoint x e)) in
          rw e (
            subst (All (P x)) other (All-filter (P x) q xs h.0),
            subst (Rows (filter p xs)) other (crossing xs h.1),
          )
      | inr e ↦ rw e (elim (Bool-cases (q x)) [
        | inl f ↦
            subst (Rows (filter p xs)) (sym (met x xs f))
              (in_front x (filter p xs) (filter q xs) (All-filter (P x) p xs h.0) (crossing xs h.1))
        | inr f ↦ subst (Rows (filter p xs)) (sym (skipped x xs f)) (crossing xs h.1)
      ])
    ]

module _ (text_of : Value → String) where
  abbrev accessed_by : Bool → Option Fields → Option String
  accessed_by true inp = none
  accessed_by false none = none
  accessed_by false (some inp) = some (path_of text_of inp)

  -- The path of a task that is no web search.
  abbrev pub accessed : Candidate → Option String
  accessed c = accessed_by (str_eq (get_or c.1.tool "") "search") (input_dict c.1.input)

  abbrev pub Apart : Candidate → Candidate → Type 0
  Apart c d = (p q : String) → accessed c ≡ some p → accessed d ≡ some q → p ≢ q

  Apart-symmetric : (c d : Candidate) → Apart c d → Apart d c
  Apart-symmetric c d h p q e f same = h q p f e (sym same)

  abbrev IsNew : List String → Candidate → Type 0
  IsNew seen c = (p : String) → accessed c ≡ some p → contains seen p ≡ false

  abbrev IsDistinct : List String → List Candidate → Type 0
  IsDistinct seen cs = All (IsNew seen) cs × Pairwise Apart cs

  neither : (a b : Bool) → (a || b) ≡ false → (a ≡ false) × (b ≡ false)
  neither true b h = true_false h
  neither false b h = (refl, h)

  still-IsNew :
      (path : String) (seen : List String) (cs : List Candidate)
      → All (IsNew (path ∷ seen)) cs
      → All (IsNew seen) cs
  still-IsNew path seen [] h = tt
  still-IsNew path seen (c ∷ cs) h = (
    (λ p e. (neither (str_eq path p) (contains seen p) (h.0 p e)).1),
    still-IsNew path seen cs h.1,
  )

  Apart-from :
      (c : Candidate) (path : String) (seen : List String) (cs : List Candidate)
      → accessed c ≡ some path
      → All (IsNew (path ∷ seen)) cs
      → All (Apart c) cs
  Apart-from c path seen [] own h = tt
  Apart-from c path seen (d ∷ ds) own h = (
    (λ p q e f same.
        let here : path ≡ q = some_injective (sym own ∙ e) ∙ same in
        true_false
          (sym ((eq_iff path q).1 here) ∙ (neither (str_eq path q) (contains seen q) (h.0 q f)).0)),
    Apart-from c path seen ds own h.1,
  )

  Apart-from_none : (c : Candidate) (cs : List Candidate) → accessed c ≡ none → All (Apart c) cs
  Apart-from_none c [] own = tt
  Apart-from_none c (d ∷ ds) own =
      ((λ p q e f same. none_some (sym own ∙ e)), Apart-from_none c ds own)

  module _ (e : ℕ × TaskDict) (seen : List String) (rest : List String → List Candidate)
      (others : (s : List String) → IsDistinct s (rest s)) where
    gated :
        (b c : Bool) (found : String × Bool)
        → (c ≡ false → IsDistinct seen (file_round text_of e seen (some found) rest))
        → IsDistinct seen
            (file_round text_of e seen (if b then none else if c then none else some found) rest)
    gated true c found h = others seen
    gated false true found h = others seen
    gated false false found h = h refl

    joined :
        (path : String) (is_write : Bool)
        → accessed (e.0, e.1, is_write) ≡ some path
        → contains seen path ≡ false
        → IsDistinct seen (file_round text_of e seen (some (path, is_write)) rest)
    joined path is_write own new =
        let (later, pairs) = others (path ∷ seen) in
        (
          (
            (λ p f. subst (λ s. contains seen s ≡ false) (some_injective (sym own ∙ f)) new),
            still-IsNew path seen (rest (path ∷ seen)) later,
          ),
          (Apart-from (e.0, e.1, is_write) path seen (rest (path ∷ seen)) own later, pairs),
        )

    file_round-IsDistinct :
        (inp : Option Fields)
        → str_eq (get_or e.1.tool "") "search" ≡ false
        → input_dict e.1.input ≡ inp
        → IsDistinct seen (file_round text_of e seen (file_access text_of seen e.1 inp) rest)
    file_round-IsDistinct none s i = others seen
    file_round-IsDistinct (some inp) s i =
        let own : accessed_by (str_eq (get_or e.1.tool "") "search") (input_dict e.1.input)
            ≡ some (path_of text_of inp) =
          rw (s, i) refl in
        let is_write = contains write_actions (action_of text_of e.1 inp) in
        gated _ _ _ λ guard. joined (path_of text_of inp) is_write own (neither _ _ guard).1

    round-IsDistinct : IsDistinct seen (round text_of e seen rest)
    round-IsDistinct = elim (Bool-cases (is_todo e.1)) [
      | inr n ↦ rw n (others seen)
      | inl t ↦ rw t (elim (Bool-cases (str_eq (get_or e.1.tool "") "search")) [
        | inl s ↦
            let own : accessed (e.0, e.1, false) ≡ none = rw s refl in
            let (later, pairs) = others seen in
            rw s (
              ((λ p f. none_some (sym own ∙ f)), later),
              (Apart-from_none (e.0, e.1, false) (rest seen) own, pairs),
            )
        | inr s ↦ rw s (elim (Bool-cases (str_eq (get_or e.1.tool "") "filesystem")) [
          | inl f ↦ rw f (file_round-IsDistinct _ s refl)
          | inr f ↦ rw f (others seen)
        ])
      ])
    ]

  candidates-IsDistinct :
      (es : List (ℕ × TaskDict)) (seen : List String) → IsDistinct seen (candidates text_of seen es)
  unfolding candidates
  candidates-IsDistinct [] seen = (tt, tt)
  candidates-IsDistinct (e ∷ es) seen =
      round-IsDistinct e seen (λ seen'. candidates text_of seen' es) (candidates-IsDistinct es)

  write_is_no_read : (c : Candidate) → writes text_of c ≡ true → reads text_of c ≡ false
  write_is_no_read c h = rw h refl

  selected-Pairwise :
      (top : Candidate → Bool) (cs : List Candidate)
      → Pairwise Apart cs
      → Pairwise Apart (filter top (filter (writes text_of) cs) ++ filter (reads text_of) cs)
  selected-Pairwise top cs h =
      Pairwise-append Apart (filter top (filter (writes text_of) cs)) (filter (reads text_of) cs)
        (Pairwise-filter Apart top (filter (writes text_of) cs)
          (Pairwise-filter Apart (writes text_of) cs h))
        (Pairwise-filter Apart (reads text_of) cs h)
        (All-filter (λ c. All (Apart c) (filter (reads text_of) cs)) top
          (filter (writes text_of) cs)
          (crossing Apart Apart-symmetric (writes text_of) (reads text_of) write_is_no_read cs h))

  at_most_eight-Pairwise :
      (cs : List Candidate) → Pairwise Apart cs → Pairwise Apart (at_most_eight text_of cs)
  at_most_eight-Pairwise cs h =
      if_both (Pairwise Apart) (ltb (length cs) 2) tt (Pairwise-take Apart 8 cs h)

  -- No two of the tasks that are selected to run together, web searches aside, have one path.
  pub select_parallel_tasks-Pairwise :
      (queue : List TaskDict) → Pairwise Apart (select_parallel_tasks text_of queue)
  unfolding select_parallel_tasks
  select_parallel_tasks-Pairwise queue =
      let cs = candidates text_of [] (enumerate 0 queue) in
      if_both (Pairwise Apart) (ltb (length cs) 2) tt (
        at_most_eight-Pairwise (selected text_of cs)
          (selected-Pairwise _ cs (candidates-IsDistinct (enumerate 0 queue) []).1))
