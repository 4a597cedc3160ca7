-- ===== src/Sql/Params.antt =====
-- The parameters and columns of a statement and how they are bound to the driver: Param.h, Column.h and
-- StmtImpl.cpp of Source/Core/Sql, with the vectors of Stmt.h. The driver keeps the addresses that it is given;
-- the address of a parameter is the position in the storage that its vector had at that time. A failure of the
-- driver is only logged there, and left out. The parameters' `DateTime` of a time is a parameter here.
use server.Base.{ℕ, Bool, List}

-- The types of numbers that are bound, with their sizes.
pub data Scalar : Type 0 where
  bool uint8 int8 uint16 int16 uint32 int32 uint64 int64 float double : Scalar

unfoldable pub size_of : Scalar → ℕ
size_of bool = 1
size_of uint8 = 1
size_of int8 = 1
size_of uint16 = 2
size_of int16 = 2
size_of uint32 = 4
size_of int32 = 4
size_of uint64 = 8
size_of int64 = 8
size_of float = 4
size_of double = 8

-- The constants of ODBC for C types and SQL types; `unset` is the number 0.
pub data CType : Type 0 where
  unset_c c_bit c_utinyint c_stinyint c_tinyint c_ushort c_sshort c_short c_ulong c_slong c_long :
      CType
  c_ubigint c_sbigint c_float c_double c_type_timestamp c_timestamp c_binary c_char c_wchar : CType

pub data SqlType : Type 0 where
  unset_sql bit tinyint smallint integer bigint real sql_double type_timestamp timestamp : SqlType
  varbinary longvarbinary varchar longvarchar wvarchar wlongvarchar : SqlType

pub record Timestamp : Type 0 where
  pub year : ℕ
  pub month : ℕ
  pub day : ℕ
  pub hour : ℕ
  pub minute : ℕ
  pub second : ℕ
  pub fraction : ℕ

pub record DateTime : Type 0 where
  pub year : ℕ
  pub month : ℕ
  pub day : ℕ
  pub hour : ℕ
  pub minute : ℕ
  pub second : ℕ
  pub millisecond : ℕ

-- A CharArray, WCharArray or ByteArray: where its memory is, and its length.
pub record Array : Type 0 where
  pub address : ℕ
  pub array_length : ℕ

-- `_value` of a parameter or a column: a new variant holds a `bool`.
pub data Value : Type 0 where
  scalar_value : Scalar → ℕ → Value
  timestamp_value : Timestamp → Value
  timestamp_ex : ℕ → Value
  pointer_value : ℕ → Value
  array_value : Array → Value

-- A pointer: null, into the `_value` of the entry with this position in this storage, or to memory of a caller.
pub data Pointer : Type 0 where
  null : Pointer
  stored : ℕ → ℕ → Pointer
  memory : ℕ → Pointer

-- `SQL_NTSL`, or a number.
pub data Indicator : Type 0 where
  ntsl : Indicator
  number : ℕ → Indicator

pub record Param : Type 0 where
  pub value : Value
  pub value_type : CType
  pub param_type : SqlType
  pub param_size : ℕ
  pub value_ptr : Pointer
  pub buffer_length : ℕ
  pub str_len_or_index : Indicator

pub record Column : Type 0 where
  pub value : Value
  pub target_type : CType
  pub target_value : Pointer
  pub buffer_length : ℕ

-- `std::vector`, whose storage is another one after it has grown.
pub record Vector (X : Type 0) : Type 0 where
  pub items : List X
  pub capacity : ℕ
  pub storage : ℕ

-- What the driver was given: the number of the parameter, whether it is an output, its description, the
-- decimal digits, and the address of `_strLenOrIndex`.
pub record BoundParam : Type 0 where
  pub index : ℕ
  pub is_output : Bool
  pub param : Param
  pub decimal_digits : ℕ
  pub indicator : Pointer

pub record BoundColumn : Type 0 where
  pub index : ℕ
  pub column : Column
  pub indicator : Pointer

-- `Stmt`, without the handle and the message of the last error.
pub record Stmt : Type 0 where
  pub eof : Bool
  pub fetch_ready : Bool
  pub return_value : ℕ
  pub params : Vector Param
  pub columns : Vector Column
  pub bound_params : List BoundParam
  pub bound_columns : List BoundColumn

-- What a call of a binding operation comes to.
pub data Outcome : Type 0 where
  bound : Stmt → Outcome
  bad_variant_access : Stmt → Outcome

-- What is bound: the value of a number, or where it goes.
pub data InParam : Type 0 where
  in_scalar : Scalar → ℕ → InParam
  in_time : DateTime → InParam
  in_bytes in_chars in_wchars : Array → InParam
  in_moved_bytes in_moved_chars in_moved_wchars : Array → InParam

pub data OutParam : Type 0 where
  out_scalar : Scalar → ℕ → OutParam
  out_time : ℕ → OutParam
  out_bytes out_chars out_wchars : Array → OutParam

unfoldable pub param_c_type : Scalar → CType
param_c_type bool = c_bit
param_c_type uint8 = c_utinyint
param_c_type int8 = c_stinyint
param_c_type uint16 = c_ushort
param_c_type int16 = c_sshort
param_c_type uint32 = c_ulong
param_c_type int32 = c_slong
param_c_type uint64 = c_ubigint
param_c_type int64 = c_sbigint
param_c_type float = c_float
param_c_type double = c_double

unfoldable pub param_sql_type : Scalar → SqlType
param_sql_type bool = bit
param_sql_type uint8 = tinyint
param_sql_type int8 = tinyint
param_sql_type uint16 = smallint
param_sql_type int16 = smallint
param_sql_type uint32 = integer
param_sql_type int32 = integer
param_sql_type uint64 = bigint
param_sql_type int64 = bigint
param_sql_type float = real
param_sql_type double = sql_double

unfoldable pub column_c_type : Scalar → CType
column_c_type bool = c_bit
column_c_type uint8 = c_tinyint
column_c_type int8 = c_tinyint
column_c_type uint16 = c_ushort
column_c_type int16 = c_short
column_c_type uint32 = c_ulong
column_c_type int32 = c_long
column_c_type uint64 = c_ubigint
column_c_type int64 = c_sbigint
column_c_type float = c_float
column_c_type double = c_double
