-- ===== src/Sql/Stmt/Rows.antt =====
-- The rows that a loop over FetchResult reads.
use server.Base.{ℕ, zero, suc, ◌+◌, ◌≡◌, true, List, [], ◌∷◌}
use server.Sql.Params.{Stmt, DateTime}
use server.Sql.Stmt.{Driver, no_data, succeeded, update_on_fetch_result}

-- What is to be written for so many rows, from one on.
unfoldable pub rows_of : Driver → Stmt → ℕ → ℕ → List (List (ℕ × DateTime))
rows_of driver s n zero = []
rows_of driver s n (suc m) = update_on_fetch_result driver n s ∷ rows_of driver s (n + 1) m

-- The driver has the rows from `n` on, `m` of them, and no error.
abbrev HasRows : Driver → ℕ → ℕ → Type 0
HasRows driver n zero = driver.fetch n ≡ no_data
HasRows driver n (suc m) = (succeeded (driver.fetch n) ≡ true) × HasRows driver (n + 1) m
