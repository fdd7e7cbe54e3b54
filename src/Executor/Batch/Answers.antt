-- ===== src/Executor/Batch/Answers.antt =====
-- A parallel batch answers for every task, in whatever order the thread pool runs them.
use omni_forge.Base.{
  none_some, ◌≡◌, refl, ◌∙◌, Option, none, some, List, [], ◌∷◌, ℕ, zero, suc, ◌<◌, arith, get_elem?,
  set, length, length-set, get_elem?-set_self, Memᴰ, subst, ap,
}
use omni_forge.Tasks.Serial.{TaskDict}
use omni_forge.Results.{ToolResult}
use omni_forge.Events.{Context}
use omni_forge.Registry.{ToolRegistry}
use omni_forge.Executor.{Runtime}
use omni_forge.Executor.Batch.{
  empty_slots, filled, Slots, fill, run_scheduled, execute_batch_parallel,
}

-- The schedule comes to each task.
abbrev pub Covers : List ℕ → List TaskDict → Type 0
Covers schedule ds = (i : ℕ) → i < length ds → Memᴰ i schedule

module _ {ℓ} {A : Type ℓ} where
  abbrev IsFilled : ℕ → List (Option A) → Type ℓ
  IsFilled i slots = (r : A) × (get_elem? slots i ≡ some (some r))

  set-IsFilled :
      (slots : List (Option A)) (i j : ℕ) (r : A)
      → IsFilled i slots
      → IsFilled i (set slots j (some r))
  set-IsFilled [] i j r h = h
  set-IsFilled (s ∷ slots) zero zero r h = (r, refl)
  set-IsFilled (s ∷ slots) zero (suc j) r h = h
  set-IsFilled (s ∷ slots) (suc i) zero r h = h
  set-IsFilled (s ∷ slots) (suc i) (suc j) r h = set-IsFilled slots i j r h

  get_elem?_of_lt : (xs : List A) (i : ℕ) → i < length xs → (x : A) × (get_elem? xs i ≡ some x)
  get_elem?_of_lt [] i h = elim h [ ]
  get_elem?_of_lt (x ∷ xs) zero h = (x, refl)
  get_elem?_of_lt (x ∷ xs) (suc i) h = get_elem?_of_lt xs i (omega arith)

length-empty_slots : (ds : List TaskDict) → length (empty_slots ds) ≡ length ds
length-empty_slots [] = refl
length-empty_slots (d ∷ ds) = ap suc (length-empty_slots ds)

clash :
    {A B : Type 0} (slots : List (Option B)) {r : B}
    → get_elem? (none ∷ slots) 0 ≡ some (some r)
    → A
clash slots h = cc

length-filled :
    (slots : List (Option ToolResult))
    → ((i : ℕ) → i < length slots → IsFilled i slots)
    → length (filled slots) ≡ length slots
length-filled [] h = refl
length-filled (none ∷ slots) h = clash slots (h 0 (omega arith)).1
length-filled (some r ∷ slots) h = ap suc (length-filled slots (λ i lt. h (suc i) (omega arith)))

module _ {W : Type 0} (runtime : Runtime W) (registry : ToolRegistry W) where
  abbrev filling : ℕ → Option TaskDict → Slots runtime registry → Slots runtime registry
  filling = fill runtime registry

  fill-IsFilled :
      (i j : ℕ) (o : Option TaskDict) (out : Slots runtime registry)
      → IsFilled i out.0
      → IsFilled i (filling j o out).0
  fill-IsFilled i j none out h = h
  fill-IsFilled i j (some d) out h = set-IsFilled out.0 i j _ h

  fill-length :
      (j : ℕ) (o : Option TaskDict) (out : Slots runtime registry)
      → length (filling j o out).0 ≡ length out.0
  fill-length j none out = refl
  fill-length j (some d) out = length-set out.0 j _

  -- What is filled stays so.
  run_scheduled-keeps :
      (schedule : List ℕ) (ds : List TaskDict) (i : ℕ) (out : Slots runtime registry)
      → IsFilled i out.0
      → IsFilled i (run_scheduled runtime registry schedule ds out).0
  unfolding run_scheduled
  run_scheduled-keeps [] ds i out h = h
  run_scheduled-keeps (j ∷ schedule) ds i out h =
      run_scheduled-keeps schedule ds i _ (fill-IsFilled i j (get_elem? ds j) out h)

  fill_here :
      (i : ℕ) (o : Option TaskDict) {d : TaskDict} (out : Slots runtime registry)
      → o ≡ some d
      → i < length out.0
      → IsFilled i (filling i o out).0
  fill_here i none out h lt = none_some h
  fill_here i (some d) out h lt = (_, get_elem?-set_self out.0 i _ lt)

  run_scheduled-fills :
      (schedule : List ℕ) (ds : List TaskDict) (i : ℕ) (out : Slots runtime registry)
      → Memᴰ i schedule
      → i < length ds
      → length out.0 ≡ length ds
      → IsFilled i (run_scheduled runtime registry schedule ds out).0
  unfolding run_scheduled
  run_scheduled-fills [] ds i out m lt same = elim m [ ]
  run_scheduled-fills (j ∷ schedule) ds i out (Memᴰ.head p) lt same =
      let (d, there) = get_elem?_of_lt ds i lt in
      run_scheduled-keeps schedule ds i _ (
        subst (λ k. IsFilled i (filling k (get_elem? ds k) out).0) p
          (fill_here i (get_elem? ds i) out there (omega arith)))
  run_scheduled-fills (j ∷ schedule) ds i out (Memᴰ.tail m) lt same =
      run_scheduled-fills schedule ds i _ m lt (fill-length j (get_elem? ds j) out ∙ same)

  run_scheduled-length :
      (schedule : List ℕ) (ds : List TaskDict) (out : Slots runtime registry)
      → length (run_scheduled runtime registry schedule ds out).0 ≡ length out.0
  unfolding run_scheduled
  run_scheduled-length [] ds out = refl
  run_scheduled-length (j ∷ schedule) ds out =
      run_scheduled-length schedule ds _ ∙ fill-length j (get_elem? ds j) out

  -- When the schedule comes to each task, in any order, the batch returns, with one result for each
  -- task: an exception of a task becomes a result as well.
  pub length-execute_batch_parallel :
      (schedule : List ℕ) (ds : List TaskDict) (ctx : Context) (w : W)
      → Covers schedule ds
      → length (execute_batch_parallel runtime registry schedule ds ctx w).0 ≡ length ds
  unfolding execute_batch_parallel
  length-execute_batch_parallel schedule [] ctx w covers = refl
  length-execute_batch_parallel schedule (d ∷ ds) ctx w covers =
      let start : Slots runtime registry = (empty_slots (d ∷ ds), ctx, w) in
      let same = length-empty_slots (d ∷ ds) in
      let ended = run_scheduled-length schedule (d ∷ ds) start ∙ same in
      length-filled (run_scheduled runtime registry schedule (d ∷ ds) start).0 (λ i lt.
        run_scheduled-fills schedule (d ∷ ds) i start (covers i (omega arith)) (omega arith) same)
      ∙ ended
