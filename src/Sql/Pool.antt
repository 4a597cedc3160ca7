-- ===== src/Sql/Pool.antt =====
-- The pool of connections: Conn.cpp, Pool.cpp and Agent.cpp of Source/Core/Sql. How each attempt to connect ends
-- is a parameter, in the order of the attempts. `live` counts the driver's connection handles that were
-- allocated and not freed. The queue of idle connections is a stack, as the platform's lists are; pauses
-- between attempts are left out.
mod Tests
use native.Mathlib.Nat.{zero-add}
use server.Base.{
  ℕ, zero, suc, ◌+◌, ◌-◌, ◌<◌, ◌≡◌, refl, sym, ◌∙◌, Bool, true, false, List, [], ◌∷◌, Option, some,
  none, if◌then◌else◌, arith, ap,
}

-- `SQLAllocHandle` of the connection fails; a setting or `SQLDriverConnectW` does; `SQLAllocHandle` of the
-- statement does; none does.
pub data Attempt : Type 0 where
  no_handle refused no_statement connected : Attempt

-- `Conn`: whether its handles are not null.
pub record Conn : Type 0 where
  pub connection : Bool
  pub statement : Bool

abbrev conn : Conn
conn = record { connection = false; statement = false }

-- `Conn::Connect`, with the count of live handles. The handle that the object had before is overwritten.
connect : Attempt → Conn → ℕ → Bool × Conn × ℕ
connect no_handle c live = (false, record c { connection = false }, live)
connect refused c live = (false, record c { connection = true }, live + 1)
connect no_statement c live = (false, record { connection = true; statement = false }, live + 1)
connect connected c live = (true, record { connection = true; statement = true }, live + 1)

-- `Conn::Clear`, as in its destructor.
unfoldable pub clear : Conn → ℕ → Conn × ℕ
clear c live = (conn, if c.connection then live - 1 else live)

abbrev pub opened : Conn
opened = record { connection = true; statement = true }

abbrev max_try_count : ℕ
max_try_count = 10

pub record Pool : Type 0 where
  pub connections : List Conn
  pub live : ℕ

module _ (attempt : ℕ → Attempt) where
  -- The loop of `Dequeue`, with so many tries left, of which the next has this number; a connection that is
  -- given up is destroyed.
  try_connect : ℕ → ℕ → Conn → ℕ → Option Conn × ℕ
  unfolding connect clear
  try_connect zero i c live = (none, (clear c live).1)
  try_connect (suc n) i c live =
      let (ok, c', live') = connect (attempt i) c live in
      let rest = try_connect n (i + 1) c' live' in if ok then (some c', live') else rest

  unfoldable pub dequeue : Pool → Option Conn × Pool
  unfolding try_connect
  dequeue p = elim p.connections [
    | c ∷ rest ↦ (some c, record p { connections = rest })
    | [] ↦
        let (c, live') = try_connect max_try_count 0 conn p.live in (c, record p { live = live' })
  ]

  -- `Pool::Connect` without the environment: so many connections, the first failure ending it.
  unfoldable connect_all : ℕ → ℕ → Pool → Bool × Pool
  unfolding connect clear
  connect_all zero i p = (true, p)
  connect_all (suc n) i p =
      let (ok, c, live') = connect (attempt i) conn p.live in
      let rest = connect_all n (i + 1) (record { connections = c ∷ p.connections; live = live' }) in
      if ok then rest else (false, record p { live = (clear c live').1 })

unfoldable pub enqueue : Conn → Pool → Pool
enqueue c p = record p { connections = c ∷ p.connections }

-- An agent's destructor: what it has goes back.
release_agent : Option Conn → Pool → Pool
unfolding enqueue
release_agent none p = p
release_agent (some c) p = enqueue c p

-- `Pool::Clear`: every idle connection is cleared.
clear_all : List Conn → ℕ → ℕ
unfolding clear
clear_all [] live = live
clear_all (c ∷ cs) live = clear_all cs (clear c live).1

unfoldable clear_pool : Pool → Pool
unfolding clear_all
clear_pool p = record { connections = []; live = clear_all p.connections p.live }

abbrev pub idle : List Conn → ℕ → Pool
idle cs n = record { connections = cs; live = n }

module _ (attempt : ℕ → Attempt) where
  -- So many attempts in turn are refused.
  abbrev AllRefused : ℕ → ℕ → Type 0
  AllRefused i zero = Unit {0}
  AllRefused i (suc k) = (attempt i ≡ refused) × AllRefused (i + 1) k

  try_connect-ended :
      (i : ℕ) (c : Conn) (live : ℕ)
      → c.connection ≡ true
      → try_connect attempt zero i c (live + 1) ≡ (none, live + 0)
  unfolding try_connect
  try_connect-ended i c live held = rw held (ap (λ m. (none, m)) (omega arith))

  step-connected :
      (n i : ℕ) (c : Conn) (live : ℕ)
      → attempt i ≡ connected
      → try_connect attempt (suc n) i c live ≡ (some opened, live + 1)
  unfolding try_connect
  step-connected n i c live now = rw now refl

  step-refused :
      (n i : ℕ) (c : Conn) (live : ℕ)
      → attempt i ≡ refused
      → try_connect attempt (suc n) i c live
        ≡ try_connect attempt n (i + 1) (record c { connection = true }) (live + 1)
  unfolding try_connect
  step-refused n i c live now = rw now refl

  try_connect-connected :
      (k n i : ℕ) (c : Conn) (live : ℕ)
      → k < n
      → AllRefused i k
      → attempt (i + k) ≡ connected
      → try_connect attempt n i c live ≡ (some opened, live + k + 1)
  try_connect-connected k zero i c live h all now = elim h [ ]
  try_connect-connected zero (suc n) i c live h all now =
      let e : i + 0 ≡ i = omega arith in
      step-connected n i c live (ap attempt (sym e) ∙ now)
      ∙ ap (λ m. (some opened, m)) (omega arith)
  try_connect-connected (suc k) (suc n) i c live h all now =
      let e : i + suc k ≡ i + 1 + k = omega arith in
      step-refused n i c live all.0
      ∙ try_connect-connected k n (i + 1) (record c { connection = true }) (live + 1) (omega arith)
          all.1 (ap attempt (sym e) ∙ now)
      ∙ ap (λ m. (some opened, m)) (omega arith)

  try_connect-refused :
      (n i : ℕ) (c : Conn) (live : ℕ)
      → c.connection ≡ true
      → AllRefused i n
      → try_connect attempt n i c (live + 1) ≡ (none, live + n)
  try_connect-refused zero i c live held all = try_connect-ended i c live held
  try_connect-refused (suc n) i c live held all =
      step-refused n i c (live + 1) all.0
      ∙ try_connect-refused n (i + 1) (record c { connection = true }) (live + 1) refl all.1
      ∙ ap (λ m. (none, m)) (omega arith)

  -- Dequeue of an empty pool: if some attempts, fewer than ten, are refused and the next is not, the connection is
  -- opened, and each attempt that was refused leaves a handle that nothing frees. If all ten are refused, there
  -- is no connection, and nine handles are left. An agent that ends leaves its connection to the next, which
  -- takes it with no attempt.
  dequeue-live :
      (live : ℕ)
      → ((k : ℕ)
          → k < 10
          → AllRefused 0 k
          → attempt k ≡ connected
          → dequeue attempt (idle [] live) ≡ (some opened, idle [] (live + k + 1)))
        × (AllRefused 0 10 → dequeue attempt (idle [] live) ≡ (none, idle [] (live + 9)))
        × ((c : Conn) (cs : List Conn)
            → dequeue attempt (release_agent (some c) (idle cs live)) ≡ (some c, idle cs live))
  unfolding dequeue release_agent
  dequeue-live live = (
    λ k h all now.
        ap (λ r. (r.0, idle [] r.1))
          (try_connect-connected k 10 0 conn live h all (ap attempt (zero-add k) ∙ now)),
    λ all.
        ap (λ r. (r.0, idle [] r.1))
          (step-refused 9 0 conn live all.0 ∙ try_connect-refused 9 1 _ live refl all.1),
    λ c cs. refl,
  )
