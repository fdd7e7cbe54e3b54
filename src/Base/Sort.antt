-- ===== src/Base/Sort.antt =====
-- Python's stable `sorted(xs, key=…, reverse=True)` by insertion.
use mathlib.Core.Path.{◌≡◌, refl, sym, ◌∙◌, ap, subst}
use mathlib.Core.Logic.{inl, inr}
use mathlib.Core.Bool.{true}
use mathlib.Core.List.{List, [], ◌∷◌, ◌++◌, append-nil, append_assoc}
use native.Mathlib.Omega.{arith}
use omni_forge.Base.Tests.{if◌then◌else◌, if_both, Bool-cases}
use omni_forge.Base.Lists.{All, filter}
use omni_forge.Base.Int.{ℤ, ◌≤ℤ◌, ltb_ℤ, eqb_ℤ, ≤ℤ_refl}

module _ {ℓ} {A : Type ℓ} (key : A → ℤ) where
  -- Insertion behind every element with the same or a greater key.
  abbrev pub insert_sorted : A → List A → List A
  insert_sorted x [] = x ∷ []
  insert_sorted x (y ∷ ys) = if ltb_ℤ (key y) (key x) then x ∷ y ∷ ys else y ∷ insert_sorted x ys

  -- The loop, with what is sorted so far.
  abbrev pub sort_into : List A → List A → List A
  sort_into sorted [] = sorted
  sort_into sorted (x ∷ xs) = sort_into (insert_sorted x sorted) xs

  abbrev pub AtMost : ℤ → List A → Type 0
  AtMost p = All (λ x. key x ≤ℤ p)

  -- The keys do not grow along the list.
  abbrev pub IsDescending : List A → Type 0
  IsDescending [] = Unit
  IsDescending (x ∷ xs) = AtMost (key x) xs × IsDescending xs

  abbrev pub with_key : ℤ → List A → List A
  with_key p = filter (λ x. eqb_ℤ (key x) p)

  AtMost-mono : (p r : ℤ) (xs : List A) → p ≤ℤ r → AtMost p xs → AtMost r xs
  AtMost-mono p r [] h a = tt
  AtMost-mono p r (x ∷ xs) h a = (omega arith, AtMost-mono p r xs h a.1)

  insert_sorted-AtMost :
      (p : ℤ) (x : A) (xs : List A) → key x ≤ℤ p → AtMost p xs → AtMost p (insert_sorted x xs)
  insert_sorted-AtMost p x [] h a = (h, tt)
  insert_sorted-AtMost p x (y ∷ ys) h a = elim (Bool-cases (ltb_ℤ (key y) (key x))) [
    | inl e ↦ rw e (h, a)
    | inr e ↦ rw e (a.0, insert_sorted-AtMost p x ys h a.1)
  ]

  insert_sorted-IsDescending :
      (x : A) (xs : List A) → IsDescending xs → IsDescending (insert_sorted x xs)
  insert_sorted-IsDescending x [] d = (tt, tt)
  insert_sorted-IsDescending x (y ∷ ys) d = elim (Bool-cases (ltb_ℤ (key y) (key x))) [
    | inl e ↦
        let le : key y ≤ℤ key x = ground arith in
        rw e ((le, AtMost-mono (key y) (key x) ys le d.0), d)
    | inr e ↦
        rw e (
          insert_sorted-AtMost (key y) x ys (ground arith) d.0,
          insert_sorted-IsDescending x ys d.1,
        )
  ]

  pub sort_into-IsDescending :
      (sorted xs : List A) → IsDescending sorted → IsDescending (sort_into sorted xs)
  sort_into-IsDescending sorted [] d = d
  sort_into-IsDescending sorted (x ∷ xs) d =
      sort_into-IsDescending (insert_sorted x sorted) xs (insert_sorted-IsDescending x sorted d)

  with_key_above : (p q : ℤ) (xs : List A) → AtMost q xs → ltb_ℤ q p ≡ true → with_key p xs ≡ []
  with_key_above p q [] a h = refl
  with_key_above p q (x ∷ xs) a h = ground (arith, with_key_above p q xs a.1 h)

  -- Among the elements of its own key the new one comes last.
  with_key-insert_sorted :
      (p : ℤ) (x : A) (xs : List A)
      → IsDescending xs
      → with_key p (insert_sorted x xs) ≡ with_key p xs ++ with_key p (x ∷ [])
  with_key-insert_sorted p x [] d = refl
  with_key-insert_sorted p x (y ∷ ys) d = elim (Bool-cases (ltb_ℤ (key y) (key x))) [
    | inl e ↦ rw e (elim (Bool-cases (eqb_ℤ (key x) p)) [
      | inl k ↦
          rw k (rw (with_key_above p (key y) (y ∷ ys) (≤ℤ_refl (key y), d.0) (ground arith)) refl)
      | inr k ↦ rw k (sym (append-nil _))
    ])
    | inr e ↦ rw e (elim (Bool-cases (eqb_ℤ (key y) p)) [
      | inl k ↦ rw k (ap (λ l. y ∷ l) (with_key-insert_sorted p x ys d.1))
      | inr k ↦ rw k (with_key-insert_sorted p x ys d.1)
    ])
  ]

  with_key-cons :
      (p : ℤ) (x : A) (xs : List A) → with_key p (x ∷ []) ++ with_key p xs ≡ with_key p (x ∷ xs)
  with_key-cons p x xs = elim (Bool-cases (eqb_ℤ (key x) p)) [ inl e ↦ rw e | inr e ↦ rw e ]

  pub with_key-sort_into :
      (p : ℤ) (sorted xs : List A)
      → IsDescending sorted
      → with_key p (sort_into sorted xs) ≡ with_key p sorted ++ with_key p xs
  with_key-sort_into p sorted [] d = sym (append-nil _)
  with_key-sort_into p sorted (x ∷ xs) d =
      with_key-sort_into p (insert_sorted x sorted) xs (insert_sorted-IsDescending x sorted d)
      ∙ rw (with_key-insert_sorted p x sorted d) (
          append_assoc (with_key p sorted) (with_key p (x ∷ [])) (with_key p xs)
          ∙ ap (λ l. with_key p sorted ++ l) (with_key-cons p x xs))

module _ {ℓ κ} {A : Type ℓ} (P : A → Type κ) (key : A → ℤ) where
  All-insert_sorted : (x : A) (xs : List A) → P x → All P xs → All P (insert_sorted key x xs)
  All-insert_sorted x [] p ps = (p, tt)
  All-insert_sorted x (y ∷ ys) p ps =
      let rest : All P (y ∷ insert_sorted key x ys) = (ps.0, All-insert_sorted x ys p ps.1) in
      let front : All P (x ∷ y ∷ ys) = (p, ps) in if_both (All P) (ltb_ℤ (key y) (key x)) front rest

  pub All-sort_into : (done xs : List A) → All P done → All P xs → All P (sort_into key done xs)
  All-sort_into done [] p ps = p
  All-sort_into done (x ∷ xs) p ps =
      All-sort_into (insert_sorted key x done) xs (All-insert_sorted x done ps.0 p) ps.1

module _ {ℓ} {A : Type ℓ} (key : A → ℤ) where
  abbrev pub IsCons : List A → Type 0
  IsCons [] = ⊥
  IsCons (x ∷ xs) = Unit

  insert_sorted-IsCons : (x : A) (xs : List A) → IsCons (insert_sorted key x xs)
  insert_sorted-IsCons x [] = tt
  insert_sorted-IsCons x (y ∷ ys) =
      if_both IsCons (ltb_ℤ (key y) (key x)) {yes = x ∷ y ∷ ys} {no = y ∷ insert_sorted key x ys} tt
        tt

  sort_into-IsCons : (done xs : List A) → IsCons done → IsCons (sort_into key done xs)
  sort_into-IsCons done [] h = h
  sort_into-IsCons done (x ∷ xs) h =
      sort_into-IsCons (insert_sorted key x done) xs (insert_sorted-IsCons x done)

  -- Only the empty list is sorted to the empty list.
  pub sort_into-nil : (xs : List A) → sort_into key [] xs ≡ [] → xs ≡ []
  sort_into-nil [] h = refl
  sort_into-nil (x ∷ xs) h = absurd (subst IsCons h (sort_into-IsCons (x ∷ []) xs tt))
