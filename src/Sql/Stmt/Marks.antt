-- ===== src/Sql/Stmt/Marks.antt =====
-- The text of a call: its marks and its length.
use server.Base.{
  ℕ, zero, suc, ◌+◌, ◌-◌, ◌*◌, ◌<◌, ◌≤◌, ◌≡◌, ◌==◌, ◌↔◌, refl, leb, Bool, true, false, List, [],
  ◌∷◌, ◌++◌, length, length-append, some, none, if◌then◌else◌, arith, le→leb, ap, dec_lt, ◌∙◌,
}
use server.Sql.Params.{Stmt}
use server.Sql.Stmt.{Driver, marks, arguments, answer, call_text, execute, succeeded}

lt→not-leb : (a b : ℕ) → b < a → leb a b ≡ false
lt→not-leb a b h = ground arith

unfoldable pub count : ℕ → List ℕ → ℕ
count c [] = 0
count c (x ∷ xs) = let rest = count c xs in if x == c then rest + 1 else rest

count-append : (c : ℕ) (xs ys : List ℕ) → count c (xs ++ ys) ≡ count c xs + count c ys
unfolding count
count-append c [] ys = omega arith
count-append c (x ∷ xs) ys = ground (arith, count-append c xs ys)

count-marks : (n : ℕ) → count b'?' (marks n) ≡ n
unfolding count marks
count-marks zero = refl
count-marks (suc zero) = refl
count-marks (suc (suc n)) = omega (arith, count-marks (suc n))

length-marks : (n : ℕ) → length (marks (suc n)) ≡ 3 * n + 1
unfolding marks
length-marks zero = refl
length-marks (suc n) = omega (arith, length-marks n)

count-arguments : (n : ℕ) → count b'?' (arguments n) ≡ n
unfolding arguments count
count-arguments zero = refl
count-arguments (suc n) =
    omega (arith, count-append b'?' (marks (suc n)) (b')' ∷ []), count-marks (suc n))

length-arguments : (n : ℕ) → length (arguments n) ≡ 3 * n
unfolding arguments
length-arguments zero = refl
length-arguments (suc n) = omega (arith, length-append (marks (suc n)) (b')' ∷ []), length-marks n)

length-call_text : (name : List ℕ) (n : ℕ) → length (call_text name n) ≡ length name + 3 * n + 11
unfolding call_text
length-call_text name n = omega (
  arith,
  length-append name (arguments n ++ b'}' ∷ []),
  length-append (arguments n) (b'}' ∷ []),
  length-arguments n,
)

count-call_text : (name : List ℕ) (n : ℕ) → count b'?' (call_text name n) ≡ count b'?' name + n + 1
unfolding call_text count
count-call_text name n = omega (
  arith,
  count-append b'?' name (arguments n ++ b'}' ∷ []),
  count-append b'?' (arguments n) (b'}' ∷ []),
  count-arguments n,
)

answer_iff :
    (p e : Bool) (v : ℕ) (s : Stmt)
    → ((answer p e v s).0 ≡ true) ↔ ((p ≡ true) × (e ≡ true) × (v ≡ 0))
unfolding answer
answer_iff true true v s = ground arith
answer_iff true false v s = ground arith
answer_iff false e v s = ground arith

-- The text is prepared and executed, and the procedure returns 0.
abbrev pub Succeeds : Driver → List ℕ → ℕ → Stmt → Type 0
Succeeds driver name k s =
    (succeeded (driver.prepare (call_text name k)) ≡ true)
    × (succeeded (driver.execute (call_text name k) s.bound_params).0 ≡ true)
    × ((driver.execute (call_text name k) s.bound_params).1 ≡ 0)

execute-long :
    (driver : Driver) (name : List ℕ) (s : Stmt) (k : ℕ)
    → length s.params.items ≡ suc k
    → 500 < length name + 3 * k
    → execute driver name s ≡ none
unfolding execute
execute-long driver name s k size long =
    let e : length s.params.items - 1 ≡ k = omega arith in
    rw (e, execute, le→leb 512 (length (call_text name k)) (omega (arith, length-call_text name k)))
      refl

execute-short :
    (driver : Driver) (name : List ℕ) (s : Stmt) (k : ℕ)
    → length s.params.items ≡ suc k
    → length name + 3 * k ≤ 500
    → let ran = driver.execute (call_text name k) s.bound_params in
      execute driver name s
      ≡ some (answer (succeeded (driver.prepare (call_text name k))) (succeeded ran.0) ran.1 s)
unfolding execute
execute-short driver name s k size fits =
    let e : length s.params.items - 1 ≡ k = omega arith in
    rw
      (
        e,
        execute,
        lt→not-leb 512 (length (call_text name k)) (omega (arith, length-call_text name k)),
      )
      refl

execute_iff :
    (driver : Driver) (name : List ℕ) (s : Stmt) (k : ℕ)
    → length s.params.items ≡ suc k
    → ((execute driver name s ≡ none) ↔ (500 < length name + 3 * k))
      × (((t : Stmt) × (execute driver name s ≡ some (true, t)))
          ↔ ((length name + 3 * k ≤ 500) × Succeeds driver name k s))
execute_iff driver name s k size = elim (dec_lt 500 (length name + 3 * k)) [
  | yes long ↦
      let e = execute-long driver name s k size long in
      ((λ x. long, λ x. e), (λ x. cc (e, x.1), λ x. absurd (omega (arith, x.0))))
  | no short ↦
      let fits : length name + 3 * k ≤ 500 = omega arith in
      let e = execute-short driver name s k size fits in
      let ran = driver.execute (call_text name k) s.bound_params in
      let done = succeeded (driver.prepare (call_text name k)) in
      let r = answer done (succeeded ran.0) ran.1 s in
      let same = answer_iff done (succeeded ran.0) ran.1 s in
      (
        (λ x. cc (x, e), λ x. absurd (short x)),
        (λ x. (fits, same.0 (cc (e, x.1))), λ x. (r.1, e ∙ ap (λ b. some (b, r.1)) (same.1 x.1))),
      )
]

-- With `k` parameters besides the returned value, the text has a mark for each parameter if the name has none.
-- Execute ends the process exactly if the name's length and three times k are together more than 500. It returns
-- true exactly if they are not, the driver prepares and executes the text and the procedure returns 0.
pub execute-marks :
    (driver : Driver) (name : List ℕ) (s : Stmt) (k : ℕ)
    → length s.params.items ≡ suc k
    → count b'?' name ≡ 0
    → (count b'?' (call_text name k) ≡ length s.params.items)
      × ((execute driver name s ≡ none) ↔ (500 < length name + 3 * k))
      × (((t : Stmt) × (execute driver name s ≡ some (true, t)))
          ↔ ((length name + 3 * k ≤ 500) × Succeeds driver name k s))
execute-marks driver name s k size clean =
    let (long, ends) = execute_iff driver name s k size in
    (omega (arith, count-call_text name k), long, ends)
