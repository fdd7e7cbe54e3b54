-- ===== src/Workflow/Select.antt =====
-- `_find_highest_priority_todo`: the position of the task in the queue stands for the object.
use omni_forge.Base.{
  ◌≡◌, refl, Bool, true, false, Option, none, some, str_eq, List, [], ◌∷◌, ℕ, suc, get_or, filter,
  enumerate, max_by, arith, get_elem?, All, max_by_holds, max_by-le, filter-Mem, All-of_filter,
  Memᴰ, ◌+◌, any, ap, sym, ◌∙◌, filter_nil_of_any,
}
use omni_forge.Base.Int.{ℤ, pos, ◌≤ℤ◌}
use omni_forge.Tasks.Serial.{TaskDict}

-- `t.get("status", "") == "todo"`
abbrev pub is_todo : TaskDict → Bool
is_todo d = str_eq (get_or d.status "") "todo"

-- `t.get("priority", 0)`
abbrev pub priority_of : TaskDict → ℤ
priority_of d = get_or d.priority (pos 0)

abbrev placed_todo : ℕ × TaskDict → Bool
placed_todo e = is_todo e.1

abbrev placed_priority : ℕ × TaskDict → ℤ
placed_priority e = priority_of e.1

unfoldable pub find_highest_priority_todo : List TaskDict → Option (ℕ × TaskDict)
find_highest_priority_todo queue = max_by placed_priority (filter placed_todo (enumerate 0 queue))

module _ {ℓ} {A : Type ℓ} where
  -- Where a place of the enumeration stands in the list.
  get_elem?-enumerate :
      (n : ℕ) (xs : List A) (e : ℕ × A)
      → Memᴰ e (enumerate n xs)
      → (i : ℕ) × (e.0 ≡ n + i) × (get_elem? xs i ≡ some e.1)
  get_elem?-enumerate n [] e m = elim m [ ]
  get_elem?-enumerate n (x ∷ xs) e (Memᴰ.head p) =
      (0, omega (arith, ap (λ (r : ℕ × A). r.0) p), ap (λ (r : ℕ × A). some r.1) (sym p))
  get_elem?-enumerate n (x ∷ xs) e (Memᴰ.tail m) =
      let (i, here, there) = get_elem?-enumerate (suc n) xs e m in (suc i, omega arith, there)

  All-enumerate :
      (P : A → Type 0) (n : ℕ) (xs : List A) → All (λ e. P e.1) (enumerate n xs) → All P xs
  All-enumerate P n [] h = tt
  All-enumerate P n (x ∷ xs) h = (h.0, All-enumerate P (suc n) xs h.1)

  any-enumerate :
      (p : A → Bool) (n : ℕ) (xs : List A) → any (λ e. p e.1) (enumerate n xs) ≡ any p xs
  any-enumerate p n [] = refl
  any-enumerate p n (x ∷ xs) = rw (any-enumerate p (suc n) xs)

-- The chosen place holds the chosen task; the task is TODO, and no TODO task of the queue has a
-- higher priority.
pub find_highest_priority_todo-IsBest :
    (queue : List TaskDict) {i : ℕ} {d : TaskDict}
    → find_highest_priority_todo queue ≡ some (i, d)
    → (get_elem? queue i ≡ some d)
      × (is_todo d ≡ true)
      × All (λ u. is_todo u ≡ true → priority_of u ≤ℤ priority_of d) queue
unfolding find_highest_priority_todo
find_highest_priority_todo-IsBest queue {i} {d} h =
    let places = enumerate 0 queue in
    let (member, todo) =
      max_by_holds placed_priority (λ e. Memᴰ e places × (placed_todo e ≡ true))
        (filter placed_todo places) (filter-Mem placed_todo places) h in
    let (j, same, there) = get_elem?-enumerate 0 queue (i, d) member in
    let at_i : j ≡ i = omega arith in
    (
      rw at_i at there,
      todo,
      All-enumerate (λ u. is_todo u ≡ true → priority_of u ≤ℤ priority_of d) 0 queue
          (All-of_filter (λ e. placed_priority e ≤ℤ priority_of d) placed_todo places
            (max_by-le placed_priority (filter placed_todo places) h)),
    )

-- With no TODO task there is none to find.
pub find_highest_priority_todo-none :
    (queue : List TaskDict) → any is_todo queue ≡ false → find_highest_priority_todo queue ≡ none
unfolding find_highest_priority_todo
find_highest_priority_todo-none queue h =
    ap (max_by placed_priority)
      (filter_nil_of_any placed_todo (enumerate 0 queue) (any-enumerate is_todo 0 queue ∙ h))
