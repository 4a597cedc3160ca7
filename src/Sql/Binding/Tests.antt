-- ===== src/Sql/Binding/Tests.antt =====
-- Two parameters and a column.
use server.Base.{◌*◌, ◌≡◌, List, [], ◌∷◌, ◌++◌, arith}
use server.Sql.Params.{
  Stmt, bound, bad_variant_access, Array, in_scalar, in_bytes, in_moved_wchars, out_time, int64,
}
use server.Sql.Binding.{stmt}
use server.Sql.Binding.Calls.{Binding, input, column, bind_all, params_of, columns_of}
use server.Sql.Binding.Storage.{bind_all-IsCurrent, IsCurrent}

abbrev calls : List Binding
calls =
    input (in_scalar int64 7)
    ∷ input (in_moved_wchars (record { address = 40; array_length = 256 }))
    ∷ column (out_time 50)
    ∷ []

bind_all-IsCurrent_example :
    (s' : Stmt) × (bind_all (λ n. n * 2) calls (stmt (λ n. n * 2) 9) ≡ bound s')
    × IsCurrent s'
    × ((a : Array) (rest : List Binding)
        → (t : Stmt) × (bind_all
              (λ n. n * 2)
              (calls ++ input (in_bytes a) ∷ rest)
              (stmt (λ n. n * 2) 9)
            ≡ bad_variant_access t))
unfolding params_of columns_of
bind_all-IsCurrent_example =
    bind_all-IsCurrent (λ n. n * 2) calls 9 (tt, (tt, (tt, tt))) (omega arith) (omega arith)
