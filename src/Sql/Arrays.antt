-- ===== src/Sql/Arrays.antt =====
-- CharArray and WCharArray of Source/Core/Sql/SqlTypes.cpp, which differ in the type of a character alone. A
-- character is its code. `memcpy_s` is the Microsoft C library's: a copy of more than the destination holds
-- calls the invalid parameter handler, which ends the process, here none. What `new` leaves in memory is a
-- parameter.
mod Tests
use native.Mathlib.Nat.{min-eq_left, min-eq_right}
use server.Base.{
  ℕ, zero, suc, ◌+◌, ◌-◌, ◌≤◌, ◌<◌, ◌≡◌, ◌==◌, refl, ap, ltb, leb, Bool, true, false, List, [], ◌∷◌,
  ◌++◌, length, length-append, take, drop, Option, some, none, if◌then◌else◌, arith, min, lt→ltb,
  le→not-ltb,
}

pub record CharArray : Type 0 where
  pub buffer : Option (List ℕ)
  pub array_length : ℕ

-- `memcpy_s(destination, size, source, count)`, with all of the source.
memcpy_s : List ℕ → ℕ → List ℕ → Option (List ℕ)
memcpy_s destination size source =
    if ltb size (length source) then none else some (source ++ drop (length source) destination)

-- `buffer[i] = c`
pub put_at : ℕ → ℕ → List ℕ → List ℕ
put_at zero c [] = []
put_at zero c (x ∷ xs) = c ∷ xs
put_at (suc i) c [] = []
put_at (suc i) c (x ∷ xs) = x ∷ put_at i c xs

zeros : ℕ → List ℕ
zeros zero = []
zeros (suc n) = 0 ∷ zeros n

-- The constructors.
unfoldable pub char_array : ℕ → CharArray
unfolding zeros
char_array n = record { buffer = some (zeros (n + 1)); array_length = n }

unfoldable pub char_array_of : List ℕ → ℕ → List ℕ → Option CharArray
unfolding memcpy_s put_at
char_array_of memory n str = elim (memcpy_s memory n str) [
  | none ↦ none
  | some b ↦ some (record { buffer = some (put_at (min (length str) n) 0 b); array_length = n })
]

-- `Set`; of an array that was moved from, the pointer is null, which memcpy_s takes for no bytes only, and the
-- write of the end through it ends the process.
unfoldable pub set_text : List ℕ → CharArray → Option CharArray
unfolding memcpy_s put_at
set_text str c = elim c.buffer [
  | none ↦ none
  | some old ↦ elim (memcpy_s old c.array_length str) [
    | none ↦ none
    | some b ↦
        let n = min c.array_length (length str) in
        some (record { buffer = some (put_at n 0 b); array_length = n })
  ]
]

-- The characters before the first that ends a text; none if there is no such, or no memory.
c_string : List ℕ → Option (List ℕ)
c_string [] = none
c_string (c ∷ cs) =
    let rest = c_string cs in
    if c == 0 then some [] else elim rest [ none ↦ none | some t ↦ some (c ∷ t) ]

unfoldable pub to_string : CharArray → Option (List ℕ)
unfolding c_string
to_string c = elim c.buffer [ none ↦ none | some b ↦ c_string b ]

-- The move constructor: the new array and what is left of the old.
unfoldable move_from : CharArray → CharArray × CharArray
move_from c = (c, record { buffer = none; array_length = 0 })

-- No character of a text ends it.
abbrev HasNoEnd : List ℕ → Type 0
HasNoEnd [] = Unit {0}
HasNoEnd (c ∷ cs) = (0 < c) × HasNoEnd cs

put_at-append :
    (str rest : List ℕ) (r : ℕ) → put_at (length str) 0 (str ++ r ∷ rest) ≡ str ++ 0 ∷ rest
unfolding put_at
put_at-append [] rest r = refl
put_at-append (c ∷ cs) rest r = ap (λ l. c ∷ l) (put_at-append cs rest r)

c_string-append : (str rest : List ℕ) → HasNoEnd str → c_string (str ++ 0 ∷ rest) ≡ some str
unfolding c_string
c_string-append [] rest h = refl
c_string-append (c ∷ cs) rest h = ground (arith, c_string-append cs rest h.1)

drop-longer : (n : ℕ) (b : List ℕ) → n < length b → (c : ℕ) × (r : List ℕ) × (drop n b ≡ c ∷ r)
drop-longer n [] h = absurd (omega arith)
drop-longer zero (c ∷ b) h = (c, b, refl)
drop-longer (suc n) (c ∷ b) h = drop-longer n b (omega arith)

-- What is written into memory of at least its length and one more is read again.
copied :
    (str b : List ℕ)
    → length str < length b
    → HasNoEnd str
    → c_string (put_at (length str) 0 (str ++ drop (length str) b)) ≡ some str
copied str b h ok =
    let (c, r, e) = drop-longer (length str) b h in
    rw (e, put_at-append str r c) (c_string-append str r ok)

-- An array that was not moved from holds one character more than its length.
pub record IsArray (c : CharArray) (b : List ℕ) : Type 0 where
  pub allocated : c.buffer ≡ some b
  pub larger : c.array_length < length b

pub char_array_of-none :
    (memory str : List ℕ) (n : ℕ) → n < length str → char_array_of memory n str ≡ none
unfolding char_array_of
char_array_of-none memory str n long = rw (char_array_of, memcpy_s, lt→ltb n (length str) long) refl

pub char_array_of-some :
    (memory str : List ℕ) (n : ℕ)
    → length str ≤ n
    → char_array_of memory n str
      ≡ some (record {
        buffer = some (put_at (length str) 0 (str ++ drop (length str) memory));
        array_length = n;
      })
unfolding char_array_of
char_array_of-some memory str n fits =
    rw (char_array_of, memcpy_s, le→not-ltb n (length str) fits, min-eq_left fits) refl

-- What is read of an array is the text that it was made of: if the text is not longer than the array and has
-- no end within it. A longer text ends the process.
char_array_of-to_string :
    (memory str : List ℕ) (n : ℕ)
    → n < length memory
    → (n < length str → char_array_of memory n str ≡ none)
      × (length str ≤ n
          → HasNoEnd str
          → (c : CharArray) × (char_array_of memory n str ≡ some c)
            × (to_string c ≡ some str)
            × (c.array_length ≡ n))
unfolding char_array_of to_string
char_array_of-to_string memory str n large = (
  char_array_of-none memory str n,
  λ fits ok. (
    record {
      buffer = some (put_at (length str) 0 (str ++ drop (length str) memory));
      array_length = n;
    },
    char_array_of-some memory str n fits,
    copied str memory (omega arith) ok,
    refl,
  ),
)

set_text-some :
    (str : List ℕ) (c : CharArray) {b : List ℕ}
    → IsArray c b
    → length str ≤ c.array_length
    → set_text str c
      ≡ some (record {
        buffer = some (put_at (length str) 0 (str ++ drop (length str) b));
        array_length = length str;
      })
unfolding set_text
set_text-some str c w fits =
    rw (w.allocated, set_text, le→not-ltb c.array_length (length str) fits, min-eq_right fits) refl

set_text-none :
    (str : List ℕ) (c : CharArray) {b : List ℕ}
    → c.buffer ≡ some b
    → c.array_length < length str
    → set_text str c ≡ none
unfolding set_text
set_text-none str c e long = rw (e, set_text, lt→ltb c.array_length (length str) long) refl

-- A text that is not longer than the array and has no end within it can be set, and is read again. But a longer
-- text than that one, set after it, ends the process, whether there is memory for it or not.
pub set_text-to_string :
    (str u : List ℕ) (c : CharArray) (b : List ℕ)
    → IsArray c b
    → length str ≤ c.array_length
    → HasNoEnd str
    → length str < length u
    → (c' : CharArray) × (set_text str c ≡ some c')
      × (to_string c' ≡ some str)
      × (set_text u c' ≡ none)
unfolding to_string
set_text-to_string str u c b w fits ok long =
    let c' : CharArray = record {
      buffer = some (put_at (length str) 0 (str ++ drop (length str) b));
      array_length = length str;
    } in
    (
      c',
      set_text-some str c w fits,
      copied str b (omega (arith, w.larger)) ok,
      set_text-none u c' refl long,
    )
