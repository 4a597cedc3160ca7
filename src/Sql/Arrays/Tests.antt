-- ===== src/Sql/Arrays/Tests.antt =====
-- Arrays of five characters.
use server.Base.{ℕ, ◌≡◌, refl, List, [], ◌∷◌, some, none, arith}
use server.Sql.Arrays.{CharArray, char_array, set_text, to_string, set_text-to_string}

abbrev garbage : List ℕ
garbage = 7 ∷ 7 ∷ 7 ∷ 7 ∷ 7 ∷ 7 ∷ []

abbrev text : List ℕ
text = 97 ∷ 98 ∷ []

abbrev longer : List ℕ
longer = 97 ∷ 98 ∷ 99 ∷ []

abbrev five : CharArray
five = record { buffer = some garbage; array_length = 5 }

set_text-to_string_example :
    (c' : CharArray) × (set_text text five ≡ some c')
    × (to_string c' ≡ some text)
    × (set_text longer c' ≡ none)
set_text-to_string_example =
    set_text-to_string text longer five garbage (record { allocated = refl; larger = omega arith })
      (omega arith) (omega arith, (omega arith, tt)) (omega arith)

new_is_empty : to_string (char_array 5) ≡ some []
unfolding to_string char_array
new_is_empty = refl
