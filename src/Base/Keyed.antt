-- ===== src/Base/Keyed.antt =====
-- Lists of objects with a text for a key, of which the first with a key is the one that counts:
-- reads, and writes in the three forms that the program has. The objects stay abstract here.
use Prim.Native.String.{String}
use mathlib.Core.Path.{◌≡◌, refl, subst}
use mathlib.Core.Bool.{Bool, false}
use mathlib.Core.List.{List, [], ◌∷◌}
use mathlib.Core.Option.{Option, none, some}
use native.Mathlib.Omega.{arith}
use text.Mathlib.Text.{◌==◌ as str_eq}
use text.Mathlib.TextEquality.{eq_iff}
use mathlib.Core.Logic.{inl, inr}
use omni_forge.Base.Tests.{if◌then◌else◌, Bool-cases, some_injective}
use omni_forge.Base.Lists.{All}

abbrev pub mapped {ℓ} : {A : Type ℓ} → (A → A) → Option A → Option A
mapped f none = none
mapped f (some x) = some (f x)

module _ {ℓ} {A : Type ℓ} (key : A → String) where
  abbrev pub lookup : String → List A → Option A
  lookup k [] = none
  lookup k (x ∷ xs) = if str_eq (key x) k then some x else lookup k xs

  -- `x` takes the place of the first object of its key, if that is not final, or comes last.
  abbrev pub insert : (A → Bool) → A → List A → List A
  insert final x [] = x ∷ []
  insert final x (y ∷ ys) =
      if str_eq (key y) (key x) then (if final y then y ∷ ys else x ∷ ys) else y ∷ insert final x ys

  abbrev pub delete : String → List A → List A
  delete k [] = []
  delete k (x ∷ xs) = if str_eq (key x) k then xs else x ∷ delete k xs

  abbrev pub modify : String → (A → A) → List A → List A
  modify k f [] = []
  modify k f (x ∷ xs) = if str_eq (key x) k then f x ∷ xs else x ∷ modify k f xs

  abbrev pub IsFresh : String → List A → Type 0
  IsFresh k = All (λ x. str_eq (key x) k ≡ false)

  -- No two objects have one key.
  abbrev pub IsDistinct : List A → Type 0
  IsDistinct [] = Unit
  IsDistinct (x ∷ xs) = IsFresh (key x) xs × IsDistinct xs

  abbrev pub kept : (A → Bool) → Option A → A → A
  kept final none x = x
  kept final (some old) x = if final old then old else x

  pub lookup-insert :
      (final : A → Bool) (x : A) (k : String) (xs : List A)
      → lookup k (insert final x xs)
        ≡ (if str_eq (key x) k then some (kept final (lookup (key x) xs) x) else lookup k xs)
  lookup-insert final x k [] = refl
  lookup-insert final x k (y ∷ ys) = ground (
    arith,
    eq_iff (key x) k,
    eq_iff (key y) k,
    eq_iff (key y) (key x),
    lookup-insert final x k ys,
  )

  pub lookup-modify :
      (k : String) (f : A → A) (j : String) (xs : List A)
      → ((x : A) → key (f x) ≡ key x)
      → lookup j (modify k f xs) ≡ (if str_eq k j then mapped f (lookup k xs) else lookup j xs)
  lookup-modify k f j [] same = ground arith
  lookup-modify k f j (x ∷ xs) same = ground (
    arith,
    eq_iff k j,
    eq_iff (key x) k,
    eq_iff (key x) j,
    eq_iff (key (f x)) j,
    same x,
    lookup-modify k f j xs same,
  )

  pub lookup_fresh : (k : String) (xs : List A) → IsFresh k xs → lookup k xs ≡ none
  lookup_fresh k [] h = refl
  lookup_fresh k (x ∷ xs) h = ground (arith, lookup_fresh k xs h.1)

  pub lookup-delete :
      (k j : String) (xs : List A)
      → IsDistinct xs
      → lookup j (delete k xs) ≡ (if str_eq k j then none else lookup j xs)
  lookup-delete k j [] h = ground arith
  lookup-delete k j (x ∷ xs) h = ground (
    arith,
    eq_iff k j,
    eq_iff (key x) k,
    eq_iff (key x) j,
    lookup_fresh (key x) xs h.0,
    lookup-delete k j xs h.1,
  )

  insert-IsFresh :
      (final : A → Bool) (x : A) (k : String) (xs : List A)
      → IsFresh k xs
      → str_eq (key x) k ≡ false
      → IsFresh k (insert final x xs)
  insert-IsFresh final x k [] h e = (e, tt)
  insert-IsFresh final x k (y ∷ ys) h e = ground (arith, insert-IsFresh final x k ys h.1 e)

  pub insert-IsDistinct :
      (final : A → Bool) (x : A) (xs : List A) → IsDistinct xs → IsDistinct (insert final x xs)
  insert-IsDistinct final x [] h = (tt, tt)
  insert-IsDistinct final x (y ∷ ys) h = ground (
    arith,
    eq_iff (key y) (key x),
    eq_iff (key x) (key y),
    insert-IsFresh final x (key y) ys h.0,
    insert-IsDistinct final x ys h.1,
  )

  delete-IsFresh : (k j : String) (xs : List A) → IsFresh j xs → IsFresh j (delete k xs)
  delete-IsFresh k j [] h = tt
  delete-IsFresh k j (x ∷ xs) h = ground (arith, delete-IsFresh k j xs h.1)

  pub delete-IsDistinct : (k : String) (xs : List A) → IsDistinct xs → IsDistinct (delete k xs)
  delete-IsDistinct k [] h = tt
  delete-IsDistinct k (x ∷ xs) h =
      ground (arith, delete-IsFresh k (key x) xs h.0, delete-IsDistinct k xs h.1)

  modify-IsFresh :
      (k : String) (f : A → A) (j : String) (xs : List A)
      → ((x : A) → key (f x) ≡ key x)
      → IsFresh j xs
      → IsFresh j (modify k f xs)
  modify-IsFresh k f j [] same h = tt
  modify-IsFresh k f j (x ∷ xs) same h = ground (arith, same x, modify-IsFresh k f j xs same h.1)

  pub modify-IsDistinct :
      (k : String) (f : A → A) (xs : List A)
      → ((x : A) → key (f x) ≡ key x)
      → IsDistinct xs
      → IsDistinct (modify k f xs)
  modify-IsDistinct k f [] same h = tt
  modify-IsDistinct k f (x ∷ xs) same h =
      ground
        (arith, same x, modify-IsFresh k f (key x) xs same h.0, modify-IsDistinct k f xs same h.1)

  -- What holds of all holds of the one that is found.
  pub lookup_holds {κ} :
      (P : A → Type κ) (k : String) (xs : List A) {x : A} → All P xs → lookup k xs ≡ some x → P x
  lookup_holds P k [] h e = cc
  lookup_holds P k (y ∷ ys) h e = elim (Bool-cases (str_eq (key y) k)) [
    | inl same ↦ subst P (some_injective (rw same at e)) h.0
    | inr other ↦ lookup_holds P k ys h.1 (rw other at e)
  ]
