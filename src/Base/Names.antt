-- ===== src/Base/Names.antt =====
-- Texts in the order of their code points, which for UTF-8 is that of their bytes.
use Prim.Native.Nat.{Ordering}
use Prim.Native.String.{String, compare}
use mathlib.Core.List.{List, [], ◌∷◌}

abbrev place : Ordering → List String → List String → List String → List String
place Ordering.lt before same after = before
place Ordering.eq before same after = same
place Ordering.gt before same after = after

-- Equal names are kept.
insert_name : String → List String → List String
insert_name s [] = s ∷ []
insert_name s (t ∷ ts) = place (compare s t) (s ∷ t ∷ ts) (s ∷ t ∷ ts) (t ∷ insert_name s ts)

-- `sorted(names)`
unfoldable pub sort_names : List String → List String
unfolding insert_name
sort_names [] = []
sort_names (s ∷ ss) = insert_name s (sort_names ss)

add_name : String → List String → List String
add_name s [] = s ∷ []
add_name s (t ∷ ts) = place (compare s t) (s ∷ t ∷ ts) (t ∷ ts) (t ∷ add_name s ts)

-- `sorted(set(names))`
unfoldable pub sorted_set : List String → List String
unfolding add_name
sorted_set [] = []
sorted_set (s ∷ ss) = add_name s (sorted_set ss)
