-- ===== src/Sql/Entries.antt =====
-- The entries that BindInParam, BindOutParam and BindColumn of Source/Core/Sql/StmtImpl.cpp fill in for every
-- type, with Param::Set and Column::Set of Param.h and Column.h.
use server.Base.{ℕ, ◌+◌, ◌*◌, ltb, Option, some, none, if◌then◌else◌}
use server.Sql.Params.{
  bool, size_of, param_c_type, param_sql_type, column_c_type, CType, unset_c, c_type_timestamp,
  c_timestamp, c_binary, c_char, c_wchar, SqlType, unset_sql, type_timestamp, timestamp, varbinary,
  longvarbinary, varchar, longvarchar, wvarchar, wlongvarchar, Array, Value, scalar_value,
  timestamp_value, timestamp_ex, pointer_value, array_value, null, stored, memory, ntsl, number,
  Param, Column, InParam, in_scalar, in_time, in_bytes, in_chars, in_wchars, in_moved_bytes,
  in_moved_chars, in_moved_wchars, OutParam, out_scalar, out_time, out_bytes, out_chars, out_wchars,
}

abbrev max_varchar : ℕ
max_varchar = 4000

abbrev max_var_binary : ℕ
max_var_binary = 8000

-- ODBC's `SQL_TIMESTAMP_LEN`, and the size of its TIMESTAMP_STRUCT.
abbrev timestamp_len : ℕ
timestamp_len = 19

abbrev timestamp_size : ℕ
timestamp_size = 16

pub new_param : Param
new_param = record {
  value = scalar_value bool 0;
  value_type = unset_c;
  param_type = unset_sql;
  param_size = 0;
  value_ptr = null;
  buffer_length = 0;
  str_len_or_index = number 0;
}

-- An array of a caller that is bound with its terminating character; `value` is what it leaves in `_value`.
in_array : Value → CType → SqlType → SqlType → Array → Param
unfolding new_param
in_array v c short long a = record new_param {
  value = v;
  value_type = c;
  param_type = if ltb max_varchar (a.array_length + 1) then long else short;
  param_size = a.array_length + 1;
  value_ptr = memory a.address;
  str_len_or_index = ntsl;
}

-- `BindInParam` up to the call of the driver, of the entry at this position; none if `std::get` throws. The
-- decimal digits come with it.
unfoldable pub in_param : ℕ → ℕ → InParam → Option (Param × ℕ)
unfolding new_param in_array size_of param_c_type param_sql_type
in_param storage i (in_scalar k x) = some (
  record new_param {
    value = scalar_value k x;
    value_type = param_c_type k;
    param_type = param_sql_type k;
    param_size = size_of k;
    value_ptr = stored storage i;
  },
  0,
)
in_param storage i (in_time d) = some (
  record new_param {
    value = timestamp_value (record {
      year = d.year;
      month = d.month;
      day = d.day;
      hour = d.hour;
      minute = d.minute;
      second = d.second;
      fraction = d.millisecond * 1000000;
    });
    value_type = c_type_timestamp;
    param_type = type_timestamp;
    param_size = timestamp_len + 1;
    value_ptr = stored storage i;
  },
  7,
)
in_param storage i (in_bytes a) = none
in_param storage i (in_chars a) =
    some (in_array (scalar_value bool 0) c_char varchar longvarchar a, 0)
in_param storage i (in_wchars a) =
    some (in_array (scalar_value bool 0) c_wchar wvarchar wlongvarchar a, 0)
in_param storage i (in_moved_bytes a) = some (
  record new_param {
    value = array_value a;
    value_type = c_binary;
    param_type = if ltb max_var_binary a.array_length then longvarbinary else varbinary;
    param_size = a.array_length;
    value_ptr = memory a.address;
    str_len_or_index = number a.array_length;
  },
  0,
)
in_param storage i (in_moved_chars a) =
    some (in_array (array_value a) c_char varchar longvarchar a, 0)
in_param storage i (in_moved_wchars a) =
    some (in_array (array_value a) c_wchar wvarchar wlongvarchar a, 0)

-- An array of a caller that is written to.
out_array : CType → SqlType → ℕ → Array → Param
unfolding new_param
out_array c t size a = record new_param {
  value = pointer_value a.address;
  value_type = c;
  param_type = t;
  param_size = a.array_length;
  value_ptr = memory a.address;
  buffer_length = size;
  str_len_or_index = number a.array_length;
}

unfoldable pub out_param : ℕ → ℕ → OutParam → Param × ℕ
unfolding new_param out_array param_c_type param_sql_type
out_param storage i (out_scalar k p) = (
  record new_param {
    value_type = param_c_type k;
    param_type = param_sql_type k;
    value_ptr = memory p;
  },
  0,
)
out_param storage i (out_time p) = (
  record new_param {
    value = timestamp_ex p;
    value_type = c_timestamp;
    param_type = timestamp;
    param_size = timestamp_len + 1;
    value_ptr = stored storage i;
  },
  7,
)
out_param storage i (out_bytes a) = (
  out_array c_binary (if ltb max_var_binary a.array_length then longvarbinary else varbinary) 0 a,
  0,
)
out_param storage i (out_chars a) = (
  out_array c_char (if ltb max_varchar a.array_length then longvarchar else varchar)
      (a.array_length + 1) a,
  0,
)
out_param storage i (out_wchars a) = (
  out_array c_wchar (if ltb max_varchar a.array_length then wlongvarchar else wvarchar)
      (2 * (a.array_length + 1)) a,
  0,
)

-- `BindColumn` up to the call of the driver.
unfoldable pub bind_target : ℕ → ℕ → OutParam → Column
unfolding size_of column_c_type
bind_target storage i (out_scalar k p) = record {
  value = pointer_value p;
  target_type = column_c_type k;
  target_value = memory p;
  buffer_length = size_of k;
}
bind_target storage i (out_time p) = record {
  value = timestamp_ex p;
  target_type = c_timestamp;
  target_value = stored storage i;
  buffer_length = timestamp_size;
}
bind_target storage i (out_bytes a) = record {
  value = pointer_value a.address;
  target_type = c_binary;
  target_value = memory a.address;
  buffer_length = a.array_length;
}
bind_target storage i (out_chars a) = record {
  value = pointer_value a.address;
  target_type = c_char;
  target_value = memory a.address;
  buffer_length = a.array_length + 1;
}
bind_target storage i (out_wchars a) = record {
  value = pointer_value a.address;
  target_type = c_wchar;
  target_value = memory a.address;
  buffer_length = 2 * (a.array_length + 1);
}
