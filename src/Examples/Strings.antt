-- ===== src/Examples/Strings.antt =====
-- C strings at concrete inputs.
use conrt.Base.{ℕ, List, [], ◌∷◌, some, Bool, ◌≡◌, refl, done, panicked}
use conrt.CStrings.{
  Heap, try_from_bytes, null_position, from, to_bytes, drop_string, eq, memory_of, c_str,
}
use conrt.CStrings.Lifetime.{Lives, try_from_bytes-Lives, from-drop_string}
use conrt.CStrings.Equality.{Tells, eq-Tells}

abbrev a_text : List ℕ
a_text = 104 ∷ 105 ∷ []

abbrev two_texts : Heap
two_texts = some (104 ∷ 105 ∷ 0 ∷ []) ∷ some (104 ∷ 0 ∷ []) ∷ []

try_from_bytes-Lives_example : Lives a_text two_texts (try_from_bytes a_text two_texts)
try_from_bytes-Lives_example = try_from_bytes-Lives a_text two_texts

null_inside : null_position (97 ∷ 0 ∷ 98 ∷ []) ≡ some 1
unfolding null_position
null_inside = refl

from-drop_string_example :
    (to_bytes (record { buf = 2 }) (from (97 ∷ 0 ∷ 98 ∷ []) two_texts).1 ≡ done (97 ∷ []))
    × (drop_string (record { buf = 2 }) (from (97 ∷ 0 ∷ 98 ∷ []) two_texts).1 ≡ panicked)
from-drop_string_example = from-drop_string (97 ∷ 0 ∷ 98 ∷ []) two_texts 1 null_inside

first_text : to_bytes (record { buf = 0 }) two_texts ≡ done a_text
unfolding to_bytes memory_of c_str
first_text = refl

second_text : to_bytes (record { buf = 1 }) two_texts ≡ done (104 ∷ [])
unfolding to_bytes memory_of c_str
second_text = refl

eq-Tells_example :
    (t : Bool) × (eq (record { buf = 0 }) (record { buf = 1 }) two_texts ≡ done t)
    × Tells a_text (104 ∷ []) t
eq-Tells_example =
    eq-Tells (record { buf = 0 }) (record { buf = 1 }) two_texts first_text second_text
