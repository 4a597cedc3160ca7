-- ===== src/Sql/Binding/Calls.antt =====
-- Calls of the three binding operations, in their order.
use server.Base.{ℕ, ◌+◌, List, [], ◌∷◌}
use server.Sql.Params.{
  Stmt, Outcome, bound, bad_variant_access, InParam, in_scalar, in_time, in_bytes, in_chars,
  in_wchars, in_moved_bytes, in_moved_chars, in_moved_wchars, OutParam,
}
use server.Sql.Binding.{bind_in_param, bind_out_param, bind_column}

-- A call of one of the three operations, and calls in turn.
pub data Binding : Type 0 where
  input : InParam → Binding
  output : OutParam → Binding
  column : OutParam → Binding

module _ (grow : ℕ → ℕ) where
  unfoldable pub bind : Binding → Stmt → Outcome
  unfolding bind_in_param bind_out_param bind_column
  bind (input d) s = bind_in_param grow d s
  bind (output d) s = bound (bind_out_param grow d s)
  bind (column d) s = bound (bind_column grow d s)

  unfoldable pub bind_all : List Binding → Stmt → Outcome
  unfolding bind
  bind_all [] s = bound s
  bind_all (b ∷ bs) s = elim (bind b s) [
    | bound s' ↦ bind_all bs s'
    | bad_variant_access s' ↦ bad_variant_access s'
  ]

unfoldable pub params_of : List Binding → ℕ
params_of [] = 0
params_of (input d ∷ bs) = params_of bs + 1
params_of (output d ∷ bs) = params_of bs + 1
params_of (column d ∷ bs) = params_of bs

unfoldable pub columns_of : List Binding → ℕ
columns_of [] = 0
columns_of (input d ∷ bs) = columns_of bs
columns_of (output d ∷ bs) = columns_of bs
columns_of (column d ∷ bs) = columns_of bs + 1

-- Not an array of bytes that is bound by reference.
abbrev pub IsNoBytes : Binding → Type 0
IsNoBytes (input (in_bytes a)) = ⊥
IsNoBytes (input (in_scalar k x)) = Unit {0}
IsNoBytes (input (in_time d)) = Unit {0}
IsNoBytes (input (in_chars a)) = Unit {0}
IsNoBytes (input (in_wchars a)) = Unit {0}
IsNoBytes (input (in_moved_bytes a)) = Unit {0}
IsNoBytes (input (in_moved_chars a)) = Unit {0}
IsNoBytes (input (in_moved_wchars a)) = Unit {0}
IsNoBytes (output d) = Unit {0}
IsNoBytes (column d) = Unit {0}
