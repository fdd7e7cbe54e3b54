-- ===== src/Workflow/Parallel/Bounds.antt =====
-- How many tasks run together, and which ones.
use omni_forge.Base.{
  ◌≡◌, refl, Bool, true, false, Option, none, some, String, str_eq, if◌then◌else◌, List, [], ◌∷◌,
  ◌||◌, ℕ, ◌≤◌, arith, All, All-append, All-filter, All-take, length, ltb, take, ◌⊎◌, inl, inr,
  Bool-cases, get_or, length-take, eq_iff, enumerate, true_of_not,
}
use omni_forge.Values.{Value, Fields}
use omni_forge.Tasks.Serial.{TaskDict}
use omni_forge.Executor.Actions.{contains}
use omni_forge.Workflow.Select.{is_todo}
use omni_forge.Workflow.Parallel.{
  Candidate, writes, reads, selected, at_most_eight, choose, candidates, round, file_access,
  file_round, select_parallel_tasks, action_of, input_dict, write_actions, readonly_actions,
}

-- A task that may run beside others: a web search, or a filesystem task that reads or writes, of
-- which the candidate says which.
pub record MayJoin (text_of : Value → String) (c : Candidate) : Type 0 where
  pub todo : is_todo c.1 ≡ true
  pub kind :
      (get_or c.1.tool "" ≡ "search") × (c.2 ≡ false)
      ⊎ (inp : Fields) × (get_or c.1.tool "" ≡ "filesystem")
        × (input_dict c.1.input ≡ some inp)
        × (c.2 ≡ contains write_actions (action_of text_of c.1 inp))
        × (c.2 || contains readonly_actions (action_of text_of c.1 inp) ≡ true)

two_le : (cs : List Candidate) → ltb (length cs) 2 ≡ false → 2 ≤ length (take 8 cs)
two_le cs h = ground (arith, length-take 8 cs)

module _ (text_of : Value → String) where
  abbrev Joins : Candidate → Type 0
  Joins = MayJoin text_of

  module _ (e : ℕ × TaskDict) (seen : List String) (rest : List String → List Candidate)
      (others : (s : List String) → All Joins (rest s)) where
    -- The two guards in front of a candidate.
    gated :
        (b c : Bool) (found : String × Bool)
        → (b ≡ false → All Joins (file_round text_of e seen (some found) rest))
        → All Joins
            (file_round text_of e seen (if b then none else if c then none else some found) rest)
    gated true c found h = others seen
    gated false true found h = others seen
    gated false false found h = h refl

    file_round-MayJoin :
        (inp : Option Fields)
        → is_todo e.1 ≡ true
        → get_or e.1.tool "" ≡ "filesystem"
        → input_dict e.1.input ≡ inp
        → All Joins (file_round text_of e seen (file_access text_of seen e.1 inp) rest)
    file_round-MayJoin none t f i = others seen
    file_round-MayJoin (some inp) t f i = gated _ _ _ λ allowed.
        (record { todo = t; kind = inr (inp, f, i, refl, true_of_not _ allowed) }, others _)

    round-MayJoin : All Joins (round text_of e seen rest)
    round-MayJoin = elim (Bool-cases (is_todo e.1)) [
      | inr n ↦ rw n (others seen)
      | inl t ↦ rw t (elim (Bool-cases (str_eq (get_or e.1.tool "") "search")) [
        | inl s ↦ rw s (record { todo = t; kind = inl ((eq_iff _ _).0 s, refl) }, others seen)
        | inr s ↦ rw s (elim (Bool-cases (str_eq (get_or e.1.tool "") "filesystem")) [
          | inl f ↦ rw f (file_round-MayJoin _ t ((eq_iff _ _).0 f) refl)
          | inr f ↦ rw f (others seen)
        ])
      ])
    ]

  candidates-MayJoin :
      (es : List (ℕ × TaskDict)) (seen : List String) → All Joins (candidates text_of seen es)
  unfolding candidates
  candidates-MayJoin [] seen = tt
  candidates-MayJoin (e ∷ es) seen =
      round-MayJoin e seen (λ seen'. candidates text_of seen' es) (candidates-MayJoin es)

  -- What holds of all candidates holds of the chosen ones.
  module _ (P : Candidate → Type 0) where
    All-selected : (cs : List Candidate) → All P cs → All P (selected text_of cs)
    All-selected cs h =
        All-append P _ _ (All-filter P _ _ (All-filter P (writes text_of) cs h))
          (All-filter P (reads text_of) cs h)

    All-at_most_eight : (cs : List Candidate) → All P cs → All P (at_most_eight text_of cs)
    All-at_most_eight cs h = elim (Bool-cases (ltb (length cs) 2)) [
      | inl few ↦ rw few tt
      | inr enough ↦ rw enough (All-take P 8 cs h)
    ]

    All-choose : (cs : List Candidate) → All P cs → All P (choose text_of cs)
    All-choose cs h = elim (Bool-cases (ltb (length cs) 2)) [
      | inl few ↦ rw few tt
      | inr enough ↦ rw enough (All-at_most_eight (selected text_of cs) (All-selected cs h))
    ]

  -- Only TODO web searches and TODO filesystem tasks with an allowed action run together; a
  -- candidate counts as a write exactly when its action is a writing one.
  pub select_parallel_tasks-MayJoin :
      (queue : List TaskDict) → All (MayJoin text_of) (select_parallel_tasks text_of queue)
  unfolding select_parallel_tasks
  select_parallel_tasks-MayJoin queue =
      All-choose Joins (candidates text_of [] (enumerate 0 queue))
        (candidates-MayJoin (enumerate 0 queue) [])

  length-at_most_eight :
      (cs : List Candidate)
      → (length (at_most_eight text_of cs) ≡ 0)
        ⊎ (2 ≤ length (at_most_eight text_of cs)) × (length (at_most_eight text_of cs) ≤ 8)
  length-at_most_eight cs = elim (Bool-cases (ltb (length cs) 2)) [
    | inl few ↦ rw few (inl refl)
    | inr enough ↦ rw enough (inr (two_le cs enough, omega (arith, length-take 8 cs)))
  ]

  -- Either no task is selected, or between two and eight.
  length-select_parallel_tasks :
      (queue : List TaskDict)
      → (length (select_parallel_tasks text_of queue) ≡ 0)
        ⊎ (2 ≤ length (select_parallel_tasks text_of queue))
          × (length (select_parallel_tasks text_of queue) ≤ 8)
  unfolding select_parallel_tasks
  length-select_parallel_tasks queue =
      let cs = candidates text_of [] (enumerate 0 queue) in
      elim (Bool-cases (ltb (length cs) 2)) [
        | inl few ↦ rw few (inl refl)
        | inr enough ↦ rw enough (length-at_most_eight (selected text_of cs))
      ]
