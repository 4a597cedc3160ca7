-- ===== src/Sql/Stmt.antt =====
-- The execution of a stored procedure and the reading of its rows: Source/Core/Sql/Stmt.cpp. The driver is a
-- parameter: what it returns for a text and the parameters that are bound, and, at each fetch, how that ended and
-- what it wrote to the timestamps of the columns. `wcscat_s` of more than the buffer holds ends the process.
mod Marks
mod Rows
mod Tests
use server.Base.{
  ℕ, zero, suc, ◌+◌, ◌-◌, ◌*◌, ◌/◌, ◌<◌, ◌≤◌, ◌≡◌, ◌==◌, refl, ltb, leb, Bool, true, false, not,
  List, [], ◌∷◌, ◌++◌, length, Option, some, none, if◌then◌else◌,
}
use server.Sql.Params.{
  Stmt, Param, Column, BoundParam, BoundColumn, Value, timestamp_ex, scalar_value, timestamp_value,
  pointer_value, array_value, Timestamp, DateTime,
}

-- The return codes that are told apart.
pub data ReturnCode : Type 0 where
  success success_with_info no_data error : ReturnCode

-- `ret == SQL_SUCCESS || ret == SQL_SUCCESS_WITH_INFO`
unfoldable pub succeeded : ReturnCode → Bool
succeeded success = true
succeeded success_with_info = true
succeeded no_data = false
succeeded error = false

-- `SQLPrepareW`, `SQLExecute` with the value that the procedure returns, `SQLNumResultCols`, and `SQLFetch`,
-- after so many fetches before, with what it wrote to the timestamp of each parameter and column.
pub record Driver : Type 0 where
  pub prepare : List ℕ → ReturnCode
  pub execute : List ℕ → List BoundParam → ReturnCode × ℕ
  pub num_result_cols : ReturnCode × ℕ
  pub fetch : ℕ → ReturnCode
  pub param_timestamp : ℕ → ℕ → Timestamp
  pub column_timestamp : ℕ → ℕ → Timestamp

-- `?, ?, ... ?`, with `wcscat_s` and the test for the last.
marks : ℕ → List ℕ
marks zero = []
marks (suc zero) = b'?' ∷ []
marks (suc (suc n)) = b'?' ∷ b',' ∷ b' ' ∷ marks (suc n)

arguments : ℕ → List ℕ
unfolding marks
arguments zero = []
arguments (suc n) = b'(' ∷ marks (suc n) ++ b')' ∷ []

-- `{? = CALL name(?, ?)}`, of so many parameters besides the returned value.
unfoldable pub call_text : List ℕ → ℕ → List ℕ
unfolding arguments
call_text name n =
    let call = b'{' ∷ b'?' ∷ b' ' ∷ b'=' ∷ b' ' ∷ b'C' ∷ b'A' ∷ b'L' ∷ b'L' ∷ b' ' ∷ name in
    call ++ (arguments n ++ b'}' ∷ [])

abbrev buffer_size : ℕ
buffer_size = 512

-- What `Execute` returns: whether the driver prepared and executed the text, and the value of the procedure.
answer : Bool → Bool → ℕ → Stmt → Bool × Stmt
answer prepared executed value s =
    if not prepared
    then (false, s)
    else if not executed
    then (false, s)
    else (value == 0, record s { return_value = value; fetch_ready = false })

-- `Execute`: none if the text is longer than its buffer.
unfoldable pub execute : Driver → List ℕ → Stmt → Option (Bool × Stmt)
unfolding call_text succeeded answer
execute driver sp_name s =
    let text = call_text sp_name (length s.params.items - 1) in
    let (ret, value) = driver.execute text s.bound_params in
    if leb buffer_size (length text)
    then none
    else some (answer (succeeded (driver.prepare text)) (succeeded ret) value s)

-- The casts of `TimestampEx::Update`: years fit, and nanoseconds become milliseconds.
to_date_time : Timestamp → DateTime
to_date_time t = record {
  year = t.year;
  month = t.month;
  day = t.day;
  hour = t.hour;
  minute = t.minute;
  second = t.second;
  millisecond = t.fraction / 1000000;
}

-- `TimestampEx::Update`, of one entry: the time goes to the caller's memory, here a list of what was written.
update_value : Timestamp → Value → List (ℕ × DateTime)
unfolding to_date_time
update_value t (timestamp_ex p) = (p, to_date_time t) ∷ []
update_value t (scalar_value k x) = []
update_value t (timestamp_value u) = []
update_value t (pointer_value p) = []
update_value t (array_value a) = []

-- `UpdateOnFetchResult`: of the parameters after the first, then of the columns.
updates : (ℕ → Timestamp) → ℕ → List Value → List (ℕ × DateTime)
unfolding update_value
updates at i [] = []
updates at i (v ∷ vs) = update_value (at i) v ++ updates at (i + 1) vs

param_values : List Param → List Value
param_values [] = []
param_values (p ∷ ps) = p.value ∷ param_values ps

column_values : List Column → List Value
column_values [] = []
column_values (c ∷ cs) = c.value ∷ column_values cs

drop_first : List Param → List Param
drop_first [] = []
drop_first (p ∷ ps) = ps

unfoldable pub update_on_fetch_result : Driver → ℕ → Stmt → List (ℕ × DateTime)
unfolding updates param_values column_values drop_first
update_on_fetch_result driver n s =
    updates (driver.param_timestamp n) 1 (param_values (drop_first s.params.items))
    ++ updates (driver.column_timestamp n) 0 (column_values s.columns.items)

-- The fetch of one row, after `n` fetches: what is returned, the statement, and what was written to callers'
-- times.
fetch_row : Driver → ℕ → Stmt → Bool × Stmt × List (ℕ × DateTime)
unfolding update_on_fetch_result
fetch_row driver n s = elim (driver.fetch n) [
  | success ↦ (true, s, update_on_fetch_result driver n s)
  | success_with_info ↦ (true, s, update_on_fetch_result driver n s)
  | no_data ↦ (false, record s { eof = true }, [])
  | error ↦ (false, s, [])
]

-- `FetchResult`
unfoldable pub fetch_result : Driver → ℕ → Stmt → Bool × Stmt × List (ℕ × DateTime)
unfolding fetch_row succeeded
fetch_result driver n s =
    let (ret, column_count) = driver.num_result_cols in
    if s.fetch_ready
    then fetch_row driver n s
    else if not (succeeded ret)
    then (false, s, [])
    else if column_count == length s.columns.items
    then fetch_row driver n (record s { fetch_ready = true })
    else (false, s, [])

-- A round of a caller's loop: with what it fetched, and what the next rounds come to.
unfoldable pub round :
    Bool × Stmt × List (ℕ × DateTime)
    → Option (List (List (ℕ × DateTime)) × Stmt)
    → Option (List (List (ℕ × DateTime)) × Stmt)
round (true, s, written) none = none
round (true, s, written) (some (rows, t)) = some (written ∷ rows, t)
round (false, s, written) rest = some ([], s)

-- A caller's `while (stmt.FetchResult())`, after `n` fetches: what each round wrote, and the statement at the
-- end; none without fuel.
unfoldable pub fetch_loop : ℕ → Driver → ℕ → Stmt → Option (List (List (ℕ × DateTime)) × Stmt)
unfolding fetch_result round
fetch_loop zero driver n s = none
fetch_loop (suc fuel) driver n s =
    let r = fetch_result driver n s in round r (fetch_loop fuel driver (n + 1) r.1)
