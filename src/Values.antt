-- ===== src/Values.antt =====
-- Python's dynamic values, as far as task inputs, tool payloads and results hold them.
-- A dict is an association list in insertion order, with the operations the program uses.
use omni_forge.Base.{
  ◌≡◌, refl, Bool, true, false, not, Option, none, some, String, str_eq, eq_iff, eq_refl,
  if◌then◌else◌, arith, is_some, ◌==◌, ℕ,
}
use omni_forge.Base.Int.{ℤ, pos}

-- `seconds` is a duration, rounded to ten-thousandths of a second and counted in them. Another
-- `float` and `opaque` (an object of any other class) stand by what `str` prints of them.
mutual
  pub data Value : Type 0 where
    null : Value
    bool : Bool → Value
    int : ℤ → Value
    float : String → Value
    seconds : ℕ → Value
    str : String → Value
    list : Items → Value
    dict : Fields → Value
    opaque : String → Value

  pub data Items : Type 0 where
    nil : Items
    cons : Value → Items → Items

  pub data Fields : Type 0 where
    end : Fields
    field : String → Value → Fields → Fields

-- `d.get(key)`
unfoldable pub get : String → Fields → Option Value
get k end = none
get k (field j v d) = if str_eq j k then some v else get k d

-- `d[key] = value`: in place if the key is there, else at the end.
unfoldable pub put : String → Value → Fields → Fields
put k v end = field k v end
put k v (field j w d) = if str_eq j k then field j v d else field j w (put k v d)

-- `d.pop(key, None)`, the dict that is left
unfoldable pub without : String → Fields → Fields
without k end = end
without k (field j v d) = if str_eq j k then without k d else field j v (without k d)

-- `key in d`
unfoldable pub has_key : String → Fields → Bool
unfolding get
has_key k d = is_some (get k d)

-- `bool(value)`; a float is tested by its text, and an object of another class is true.
abbrev pub truthy : Value → Bool
truthy null = false
truthy (bool b) = b
truthy (int (pos n)) = not (n == 0)
truthy (int _) = true
truthy (float s) = not (str_eq s "0.0")
truthy (seconds n) = not (n == 0)
truthy (str s) = not (str_eq s "")
truthy (list nil) = false
truthy (list _) = true
truthy (dict end) = false
truthy (dict _) = true
truthy (opaque _) = true

-- `_safe_value`: what JSON cannot hold becomes its text.
unfoldable pub safe_value : Value → Value
safe_value (opaque s) = str s
safe_value v = v

abbrev pub IsSafe : Value → Type 0
IsSafe v = safe_value v ≡ v

pub safe_value-IsSafe : (v : Value) → IsSafe (safe_value v)
unfolding safe_value
safe_value-IsSafe null = refl
safe_value-IsSafe _ = refl

-- A read after a write, in `if` form.
pub get-put :
    (k j : String) (v : Value) (d : Fields)
    → get j (put k v d) ≡ (if str_eq k j then some v else get j d)
unfolding get put
get-put k j v end = refl
get-put k j v (field i w d) = ground (arith, eq_iff k j, eq_iff i k, eq_iff i j, get-put k j v d)

pub get-put_self : (k : String) (v : Value) (d : Fields) → get k (put k v d) ≡ some v
get-put_self k v d = simp (get-put, eq_refl)

pub get-without :
    (k j : String) (d : Fields) → get j (without k d) ≡ (if str_eq k j then none else get j d)
unfolding get without
get-without k j end = ground arith
get-without k j (field i w d) =
    ground (arith, eq_iff k j, eq_iff i k, eq_iff i j, get-without k j d)
