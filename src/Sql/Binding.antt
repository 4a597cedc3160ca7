-- ===== src/Sql/Binding.antt =====
-- BindInParam, BindOutParam and BindColumn of Source/Core/Sql/StmtImpl.cpp for every type, with Param::Set and
-- Column::Set. `grow` is the capacity that a full vector gets, which is the standard library's choice.
mod Calls
mod Storage
mod Tests
use server.Base.{
  ℕ, ◌+◌, ◌*◌, ◌==◌, ltb, Bool, true, false, List, [], ◌∷◌, ◌++◌, length, Option, some, none,
  if◌then◌else◌,
}
use server.Sql.Params.{
  Scalar, bool, int32, size_of, param_c_type, param_sql_type, column_c_type, CType, unset_c,
  c_type_timestamp, c_timestamp, c_binary, c_char, c_wchar, SqlType, unset_sql, type_timestamp,
  timestamp, varbinary, longvarbinary, varchar, longvarchar, wvarchar, wlongvarchar, Timestamp,
  DateTime, Array, Value, scalar_value, timestamp_value, timestamp_ex, pointer_value, array_value,
  Pointer, null, stored, memory, Indicator, ntsl, number, Param, Column, Vector, BoundParam,
  BoundColumn, Stmt, Outcome, bound, bad_variant_access, InParam, in_scalar, in_time, in_bytes,
  in_chars, in_wchars, in_moved_bytes, in_moved_chars, in_moved_wchars, OutParam, out_scalar,
  out_time, out_bytes, out_chars, out_wchars,
}
use server.Sql.Entries.{new_param, in_param, out_param, bind_target}

module _ (grow : ℕ → ℕ) where
  -- The storage of a vector when one more entry is put in; the entry is made there before it is filled in.
  unfoldable pub room : {X : Type 0} → Vector X → Vector X
  room v =
      if length v.items == v.capacity
      then record v { capacity = grow v.capacity; storage = v.storage + 1 }
      else v

  unfoldable pub emplace_back : {X : Type 0} → X → Vector X → Vector X
  unfolding room
  emplace_back x v = let v' = room v in record v' { items = v.items ++ x ∷ [] }

  -- `BindParamInternal`, of the last entry.
  unfoldable pub bind_param_internal : Bool → Param × ℕ → Stmt → Stmt
  unfolding emplace_back
  bind_param_internal output (p, digits) s =
      let v = emplace_back p s.params in
      record s {
        params = v;
        bound_params =
            s.bound_params
            ++ record {
              index = length s.params.items + 1;
              is_output = output;
              param = p;
              decimal_digits = digits;
              indicator = stored v.storage (length s.params.items);
            }
              ∷ [];
      }

  unfoldable pub bind_in_param : InParam → Stmt → Outcome
  unfolding in_param room bind_param_internal
  bind_in_param d s = elim (in_param (room s.params).storage (length s.params.items) d) [
    | none ↦ bad_variant_access (record s { params = emplace_back new_param s.params })
    | some p ↦ bound (bind_param_internal false p s)
  ]

  unfoldable pub bind_out_param : OutParam → Stmt → Stmt
  unfolding out_param room bind_param_internal
  bind_out_param d s =
      bind_param_internal true (out_param (room s.params).storage (length s.params.items) d) s

  unfoldable pub bind_column : OutParam → Stmt → Stmt
  unfolding bind_target room emplace_back
  bind_column d s =
      let c = bind_target (room s.columns).storage (length s.columns.items) d in
      let v = emplace_back c s.columns in
      record s {
        columns = v;
        bound_columns =
            s.bound_columns
            ++ record {
              index = length s.columns.items + 1;
              column = c;
              indicator = stored v.storage (length s.columns.items);
            }
              ∷ [];
      }

-- The constructor and `Reset`: the first parameter is the value that the procedure returns, at this address.
abbrev max_param_count : ℕ
max_param_count = 128

abbrev max_column_count : ℕ
max_column_count = 128

module _ (grow : ℕ → ℕ) where
  bind_return_value : ℕ → Stmt → Stmt
  unfolding bind_out_param
  bind_return_value p s = bind_out_param grow (out_scalar int32 p) s

  unfoldable pub stmt : ℕ → Stmt
  unfolding bind_return_value
  stmt p = bind_return_value p (record {
    eof = false;
    fetch_ready = false;
    return_value = 0;
    params = record { items = []; capacity = max_param_count; storage = 0 };
    columns = record { items = []; capacity = max_column_count; storage = 0 };
    bound_params = [];
    bound_columns = [];
  })

  unfoldable pub reset : ℕ → Stmt → Stmt
  unfolding bind_return_value
  reset p s = bind_return_value p (record {
    eof = false;
    fetch_ready = false;
    return_value = 0;
    params = record s.params { items = [] };
    columns = record s.columns { items = [] };
    bound_params = [];
    bound_columns = [];
  })
