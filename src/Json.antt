-- ===== src/Json.antt =====
-- The reading of JSON, Source/Core/Json/Json.h and Json.cpp, over the library that parses it, which is a parameter:
-- `find`, `is_array`, the items of a value, and `get` of a type T, none where it throws. `init` is the T without
-- initialiser.
mod Tests
use server.Base.{
  ℕ, ◌≡◌, ◌↔◌, refl, Bool, true, false, not, List, [], ◌∷◌, Option, some, none, if◌then◌else◌,
  arith, Bool-cases, Option-cases, inl, inr,
}

abbrev pub Text : Type 0
Text = List ℕ

pub record Library (T : Type 0) : Type 1 where
  pub Value : Type 0
  pub null : Value
  pub find : Value → Text → Option Value
  pub is_array : Value → Bool
  pub items : Value → List Value
  pub get : Value → Option T

module _ {T : Type 0} (json : Library T) (init : T) where
  open json use {Value, null, find, is_array, items, get}

  -- `operator[]` and GetSection, of sections and documents.
  unfoldable pub get_section : Value → Text → Value
  get_section root key = elim (find root key) [ none ↦ null | some v ↦ v ]

  -- `TryGetSection`
  unfoldable try_get_section : Value → Text → Option Value
  try_get_section root key = elim (find root key) [ none ↦ none | some v ↦ some v ]

  -- `GetValue`; none if it throws.
  get_value : Value → Text → Option T
  unfolding get_section
  get_value root key = get (get_section root key)

  -- `TryGetValue`
  unfoldable pub try_get_value : Value → Text → T → T
  try_get_value root key default = elim (find root key) [
    | none ↦ init
    | some v ↦ elim (get v) [ some t ↦ t | none ↦ default ]
  ]

  is_empty : List Value → Bool
  is_empty [] = true
  is_empty (v ∷ vs) = false

  -- The loop of `GetValues`; none if `get` throws.
  get_all : List Value → Option (List T)
  get_all [] = some []
  get_all (v ∷ vs) = elim (get v) [
    | none ↦ none
    | some t ↦ elim (get_all vs) [ none ↦ none | some ts ↦ some (t ∷ ts) ]
  ]

  -- `GetValues`
  unfoldable pub get_values : Value → Option (List T)
  unfolding is_empty get_all
  get_values root =
      if not (is_array root)
      then none
      else if not (is_empty (items root))
      then none
      else get_all (items root)

  get_values-items :
      (root : Value) (vs : List Value)
      → items root ≡ vs
      → is_array root ≡ true
      → get_values root ≡ (if is_empty vs then some [] else none)
  unfolding get_values
  get_values-items root [] e array = rw (get_values, array, e) refl
  get_values-items root (v ∷ vs) e array = rw (get_values, array, e) refl

  -- GetValues returns a list of no values for an array of no items, and nothing for any other value: of an array
  -- that has items, whatever they are, none is read.
  get_values_lem :
      (root : Value)
      → (is_array root ≡ true → items root ≡ [] → get_values root ≡ some [])
        × ((v : Value) (vs : List Value) → items root ≡ v ∷ vs → get_values root ≡ none)
        × (is_array root ≡ false → get_values root ≡ none)
  unfolding get_values is_empty
  get_values_lem root = (
    λ array e. get_values-items root [] e array,
    λ v vs e. elim (Bool-cases (is_array root)) [
      | inl array ↦ get_values-items root (v ∷ vs) e array
      | inr other ↦ rw (get_values, other) refl
    ],
    λ other. rw (get_values, other) refl,
  )

  -- A key that is missing gives the value without initialiser, not the default; the default is for a value of
  -- another type. A key that is there and of the type gives what is there,
  -- as GetValue does.
  try_get_value_lem :
      (root : Value) (key : Text) (default : T)
      → (find root key ≡ none → try_get_value root key default ≡ init)
        × ((v : Value)
            → find root key ≡ some v
            → get v ≡ none
            → try_get_value root key default ≡ default)
        × ((t : T) (v : Value)
            → find root key ≡ some v
            → get v ≡ some t
            → (try_get_value root key default ≡ t) × (get_value root key ≡ some t))
  unfolding try_get_value get_value
  try_get_value_lem root key default = (
    λ e. rw (e, try_get_value) refl,
    λ v e f. rw (e, try_get_value, f) refl,
    λ t v e f. (rw (e, try_get_value, f) refl, rw (get_value, get_section, e) f),
  )
