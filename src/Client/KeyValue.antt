-- ===== src/Client/KeyValue.antt =====
-- `struct KV` of examples/kv.cpp, the replicated map from strings to strings.
use Prim.Native.String.{String}
use text.Mathlib.Text.{◌==◌}
use text.Mathlib.TextEquality.{eq_iff}
use replob_prototype.Prelude.{
  ◌≡◌, refl, Bool-cases, inl, inr, Option, none, some, List, [], ◌∷◌, if◌then◌else◌,
}

-- `kv_`
abbrev pub Kv : Type 0
Kv = List (String × String)

-- `get`
unfoldable pub get_value : String → Kv → Option String
get_value key [] = none
get_value key ((k, v) ∷ m) = if k == key then some v else get_value key m

-- `kv_[key] = value`
unfoldable pub assign : String → String → Kv → Kv
assign key value [] = (key, value) ∷ []
assign key value ((k, v) ∷ m) =
    let rest = assign key value m in if k == key then (key, value) ∷ m else (k, v) ∷ rest

-- `kv_.erase(key)`
unfoldable pub erase_key : String → Kv → Kv
erase_key key [] = []
erase_key key ((k, v) ∷ m) = let rest = erase_key key m in if k == key then rest else (k, v) ∷ rest

-- `set`
unfoldable pub set_value : String → Option String → Kv → Kv
set_value key none m = erase_key key m
set_value key (some value) m = assign key value m

get_value-assign : (key value : String) (m : Kv) → get_value key (assign key value m) ≡ some value
unfolding get_value assign
get_value-assign key value [] = rw ((eq_iff key key).1 refl) refl
get_value-assign key value ((k, v) ∷ m) = elim (Bool-cases (k == key)) [
  | inl e ↦ rw (e, (eq_iff key key).1 refl) refl
  | inr e ↦ rw (e, e) (get_value-assign key value m)
]

get_value-erase_key : (key : String) (m : Kv) → get_value key (erase_key key m) ≡ none
unfolding get_value erase_key
get_value-erase_key key [] = refl
get_value-erase_key key ((k, v) ∷ m) = elim (Bool-cases (k == key)) [
  | inl e ↦ rw e (get_value-erase_key key m)
  | inr e ↦ rw (e, e) (get_value-erase_key key m)
]

-- A value that is set, or taken away, is what `get` then gives.
pub get_value-set_value :
    (key : String) (value : Option String) (m : Kv) → get_value key (set_value key value m) ≡ value
unfolding set_value
get_value-set_value key none m = get_value-erase_key key m
get_value-set_value key (some value) m = get_value-assign key value m
