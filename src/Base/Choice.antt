-- ===== src/Base/Choice.antt =====
-- Python's `max(xs, key=…)`: the first of the elements with the greatest key.
use mathlib.Core.Path.{◌≡◌, refl, subst}
use mathlib.Core.Bool.{true, false}
use mathlib.Core.List.{List, [], ◌∷◌}
use mathlib.Core.Option.{Option, none, some}
use native.Mathlib.Omega.{arith}
use omni_forge.Base.Tests.{if◌then◌else◌, some_injective}
use omni_forge.Base.Lists.{All}
use omni_forge.Base.Int.{ℤ, ◌≤ℤ◌, ltb_ℤ, ≤ℤ_refl, ≤ℤ_trans}

module _ {ℓ} {A : Type ℓ} (key : A → ℤ) where
  -- A later element takes the place only with a greater key.
  abbrev pub better : A → A → A
  better best x = if ltb_ℤ (key best) (key x) then x else best

  abbrev pub max_from : A → List A → A
  max_from best [] = best
  max_from best (x ∷ xs) = max_from (better best x) xs

  abbrev pub max_by : List A → Option A
  max_by [] = none
  max_by (x ∷ xs) = some (max_from x xs)

  better-le : (best x : A) → (key best ≤ℤ key (better best x)) × (key x ≤ℤ key (better best x))
  better-le best x = ground arith

  better_holds {κ} : (P : A → Type κ) (best x : A) → P best → P x → P (better best x)
  better_holds P best x p q = elim (ltb_ℤ (key best) (key x)) as (λ b. P (if b then x else best)) [
    | true ↦ q
    | false ↦ p
  ]

  -- The chosen element has the greatest key.
  max_from-le :
      (best : A) (xs : List A)
      → (key best ≤ℤ key (max_from best xs)) × All (λ x. key x ≤ℤ key (max_from best xs)) xs
  max_from-le best [] = (≤ℤ_refl (key best), tt)
  max_from-le best (x ∷ xs) =
      let (first, rest) = max_from-le (better best x) xs in
      (
        ≤ℤ_trans (key best) _ _ (better-le best x).0 first,
        (≤ℤ_trans (key x) _ _ (better-le best x).1 first, rest),
      )

  -- What holds of all the elements holds of the chosen one.
  max_from_holds {κ} :
      (P : A → Type κ) (best : A) (xs : List A) → P best → All P xs → P (max_from best xs)
  max_from_holds P best [] p ps = p
  max_from_holds P best (x ∷ xs) p ps =
      max_from_holds P (better best x) xs (better_holds P best x p ps.0) ps.1

  pub max_by-le : (xs : List A) {m : A} → max_by xs ≡ some m → All (λ x. key x ≤ℤ key m) xs
  max_by-le [] h = tt
  max_by-le (x ∷ xs) h =
      subst (λ m. All (λ y. key y ≤ℤ key m) (x ∷ xs)) (some_injective h) (max_from-le x xs)

  pub max_by_holds {κ} :
      (P : A → Type κ) (xs : List A) {m : A} → All P xs → max_by xs ≡ some m → P m
  max_by_holds P [] ps h = cc
  max_by_holds P (x ∷ xs) ps h = subst P (some_injective h) (max_from_holds P x xs ps.0 ps.1)

  pub max_by-none : (xs : List A) → max_by xs ≡ none → xs ≡ []
  max_by-none [] h = refl
  max_by-none (x ∷ xs) h = cc
