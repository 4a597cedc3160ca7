-- ===== src/Json/Tests.antt =====
-- A library whose values are lists of numbers, all of them arrays, with the key of one character that is the
-- first number.
use server.Base.{ℕ, ◌≡◌, ◌==◌, refl, true, List, [], ◌∷◌, Option, some, none, if◌then◌else◌}
use server.Json.{Text, Library, get_values, try_get_value}

abbrev find_first : List ℕ → Text → Option (List ℕ)
find_first (x ∷ xs) (k ∷ ks) = if x == k then some xs else none
find_first [] ks = none
find_first (x ∷ xs) [] = none

abbrev singles : List ℕ → List (List ℕ)
singles [] = []
singles (x ∷ xs) = (x ∷ []) ∷ singles xs

abbrev first : List ℕ → Option ℕ
first [] = none
first (x ∷ xs) = some x

abbrev lists : Library ℕ
lists = record {
  Value = List ℕ;
  null = [];
  find = find_first;
  is_array = λ v. true;
  items = singles;
  get = first;
}

abbrev root : List ℕ
root = 7 ∷ 8 ∷ []

-- The items of an array are not read, and a key that is missing does not give the default.
unread : get_values lists 0 root ≡ none
unfolding get_values
unread = refl

missing : try_get_value lists 0 root (9 ∷ []) 5 ≡ 0
unfolding try_get_value
missing = refl
