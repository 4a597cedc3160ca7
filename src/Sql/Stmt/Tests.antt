-- ===== src/Sql/Stmt/Tests.antt =====
-- A statement with one parameter and a column of times, over a driver that has two rows.
use server.Base.{
  ℕ, ◌+◌, ◌*◌, ◌<◌, ◌≤◌, ◌≡◌, ◌↔◌, refl, true, false, List, [], ◌∷◌, length, some, none, ltb,
  if◌then◌else◌,
}
use server.Sql.Params.{
  Stmt, Timestamp, out_time, int64, scalar_value, c_sbigint, bigint, stored, number,
}
use server.Sql.Binding.{stmt, bind_column, bind_param_internal}
use server.Sql.Stmt.{Driver, success, no_data, call_text, execute}
use server.Sql.Stmt.Marks.{count, Succeeds, execute-marks}

abbrev noon : ℕ → Timestamp
noon day = record {
  year = 2025;
  month = 1;
  day = day;
  hour = 12;
  minute = 0;
  second = 0;
  fraction = 5000000;
}

abbrev two_rows : Driver
two_rows = record {
  prepare = λ text. success;
  execute = λ text bound. (success, 0);
  num_result_cols = (success, 1);
  fetch = λ n. if ltb n 2 then success else no_data;
  param_timestamp = λ n i. noon 1;
  column_timestamp = λ n i. noon n;
}

abbrev double_it : ℕ → ℕ
double_it n = n * 2

-- One parameter besides the returned value, and one column.
abbrev sample : Stmt
unfolding stmt bind_column bind_param_internal
sample = bind_column double_it (out_time 50) (
    bind_param_internal double_it false
      (
        record {
          value = scalar_value int64 7;
          value_type = c_sbigint;
          param_type = bigint;
          param_size = 8;
          value_ptr = stored 0 1;
          buffer_length = 0;
          str_len_or_index = number 0;
        },
        0,
      )
      (stmt double_it 9))

abbrev sp : List ℕ
sp = b's' ∷ b'p' ∷ []

execute-marks_example :
    (count b'?' (call_text sp 1) ≡ length sample.params.items)
    × ((execute two_rows sp sample ≡ none) ↔ (500 < length sp + 3 * 1))
    × (((t : Stmt) × (execute two_rows sp sample ≡ some (true, t)))
        ↔ ((length sp + 3 * 1 ≤ 500) × Succeeds two_rows sp 1 sample))
unfolding stmt bind_column bind_param_internal count
execute-marks_example = execute-marks two_rows sp sample 1 refl refl

text_of_call :
    call_text sp 2
    ≡ b'{' ∷ b'?' ∷ b' ' ∷ b'=' ∷ b' ' ∷ b'C' ∷ b'A' ∷ b'L' ∷ b'L' ∷ b' ' ∷ b's' ∷ b'p' ∷ b'('
      ∷ b'?' ∷ b',' ∷ b' ' ∷ b'?' ∷ b')' ∷ b'}' ∷ []
unfolding call_text
text_of_call = refl
