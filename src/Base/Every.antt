-- ===== src/Base/Every.antt =====
-- `All` through filters, and membership as a derivation.
use mathlib.Core.Path.{◌≡◌, refl}
use mathlib.Core.Logic.{inl, inr}
use mathlib.Core.Bool.{Bool, true, false}
use mathlib.Core.List.{List, [], ◌∷◌, Memᴰ}
use native.Mathlib.Omega.{arith}
use omni_forge.Base.Tests.{Bool-cases}
use omni_forge.Base.Lists.{All, All-filter, filter, filter_holds, any}

module _ {ℓ κ} {A : Type ℓ} where
  pub All-map {μ} :
      (P : A → Type κ) (Q : A → Type μ) (xs : List A) → ((x : A) → P x → Q x) → All P xs → All Q xs
  All-map P Q [] f h = tt
  All-map P Q (x ∷ xs) f h = (f x h.0, All-map P Q xs f h.1)

  pub All-both {μ} :
      (P : A → Type κ) (Q : A → Type μ) (xs : List A)
      → All P xs
      → All Q xs
      → All (λ x. P x × Q x) xs
  All-both P Q [] h k = tt
  All-both P Q (x ∷ xs) h k = ((h.0, k.0), All-both P Q xs h.1 k.1)

  pub All-of_filter :
      (P : A → Type κ) (p : A → Bool) (xs : List A)
      → All P (filter p xs)
      → All (λ x. p x ≡ true → P x) xs
  All-of_filter P p [] h = tt
  All-of_filter P p (x ∷ xs) h = elim (Bool-cases (p x)) [
    | inl e ↦
        let both : All P (x ∷ filter p xs) = rw e at h in
        ((λ _. both.0), All-of_filter P p xs both.1)
    | inr e ↦ ((λ k. cc), All-of_filter P p xs (rw e at h))
  ]

  pub All_mem : (P : A → Type κ) (xs : List A) {x : A} → All P xs → Memᴰ x xs → P x
  All_mem P [] h m = elim m [ ]
  All_mem P (y ∷ ys) h (Memᴰ.head e) = rw e h.0
  All_mem P (y ∷ ys) h (Memᴰ.tail m) = All_mem P ys h.1 m

module _ {ℓ} {A : Type ℓ} where
  pub All-Mem : (xs : List A) → All (λ x. Memᴰ x xs) xs
  All-Mem [] = tt
  All-Mem (x ∷ xs) = (
    Memᴰ.head refl,
    All-map (λ y. Memᴰ y xs) (λ y. Memᴰ y (x ∷ xs)) xs (λ y m. Memᴰ.tail m) (All-Mem xs),
  )

  -- What a filter keeps stands in the list and passes the test.
  pub filter-Mem : (p : A → Bool) (xs : List A) → All (λ x. Memᴰ x xs × (p x ≡ true)) (filter p xs)
  filter-Mem p xs =
      All-both (λ x. Memᴰ x xs) (λ x. p x ≡ true) (filter p xs)
        (All-filter (λ x. Memᴰ x xs) p xs (All-Mem xs)) (filter_holds p xs)

  pub filter_ext :
      (p r : A → Bool) (xs : List A) → ((x : A) → p x ≡ r x) → filter p xs ≡ filter r xs
  filter_ext p r [] h = refl
  filter_ext p r (x ∷ xs) h = rw (h x, filter_ext p r xs h)

  pub any_of_filter_nil : (p : A → Bool) (xs : List A) → filter p xs ≡ [] → any p xs ≡ false
  any_of_filter_nil p [] h = refl
  any_of_filter_nil p (x ∷ xs) h = ground (arith, any_of_filter_nil p xs)

  pub filter_nil_of_any : (p : A → Bool) (xs : List A) → any p xs ≡ false → filter p xs ≡ []
  filter_nil_of_any p [] h = refl
  filter_nil_of_any p (x ∷ xs) h = ground (arith, filter_nil_of_any p xs)
