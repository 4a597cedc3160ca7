-- ===== src/Sql.antt =====
-- The layer over the database's driver, Source/Core/Sql: the arrays of characters, the binding of parameters
-- and columns, the execution of a stored procedure with the reading of its rows, and the pool of connections.
pub mod Arrays
pub mod Params
pub mod Entries
pub mod Binding
pub mod Stmt
pub mod Pool
