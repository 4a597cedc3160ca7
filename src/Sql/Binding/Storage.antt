-- ===== src/Sql/Binding/Storage.antt =====
-- Where the addresses point that the driver keeps.
use server.Base.{
  ℕ, suc, ◌+◌, ◌≤◌, ◌≡◌, refl, ap, Bool, true, false, List, [], ◌∷◌, ◌++◌, length, length-append,
  arith, ne→not-==, eq→==, subst,
}
use server.Sql.Params.{
  Pointer, null, stored, memory, Param, Vector, BoundParam, BoundColumn, Stmt, Outcome, bound,
  bad_variant_access, Array, in_scalar, in_time, in_bytes, in_chars, in_wchars, in_moved_bytes,
  in_moved_chars, in_moved_wchars, OutParam, out_scalar, out_time, out_bytes, out_chars, out_wchars,
}
use server.Sql.Entries.{bind_target}
use server.Sql.Binding.{
  room, emplace_back, bind_param_internal, bind_in_param, bind_out_param, bind_column, stmt,
}
use server.Sql.Binding.Calls.{
  Binding, input, output, column, bind, bind_all, params_of, columns_of, IsNoBytes,
}

-- A pointer that entry `i`, counted from 1, may hold: to memory of a caller, or into the entry itself in the
-- present storage.
abbrev Points : ℕ → ℕ → Pointer → Type 0
Points storage i null = ⊥
Points storage i (stored a j) = (a ≡ storage) × (suc j ≡ i)
Points storage i (memory p) = Unit {0}

abbrev pub All {ℓ κ} : {X : Type ℓ} → (X → Type κ) → List X → Type κ
All P [] = Unit
All P (x ∷ xs) = P x × All P xs

abbrev IsCurrentParam : ℕ → BoundParam → Type 0
IsCurrentParam storage b =
    Points storage b.index b.param.value_ptr × Points storage b.index b.indicator

abbrev IsCurrentColumn : ℕ → BoundColumn → Type 0
IsCurrentColumn storage b =
    Points storage b.index b.column.target_value × Points storage b.index b.indicator

-- Every address that the driver has is in the present storage, in the entry of its number.
pub record IsCurrent (s : Stmt) : Type 0 where
  params_current : All (IsCurrentParam s.params.storage) s.bound_params
  columns_current : All (IsCurrentColumn s.columns.storage) s.bound_columns

All-append {ℓ κ} :
    {X : Type ℓ} (P : X → Type κ) (xs : List X) (x : X) → All P xs → P x → All P (xs ++ x ∷ [])
All-append P [] x h k = (k, tt)
All-append P (y ∷ xs) x h k = (h.0, All-append P xs x h.1 k)

All-front {ℓ κ} : {X : Type ℓ} (P : X → Type κ) (xs ys : List X) → All P (xs ++ ys) → All P xs
All-front P [] ys h = tt
All-front P (x ∷ xs) ys h = (h.0, All-front P xs ys h.1)

-- There is room for so many more entries.
abbrev Fits : {X : Type 0} → Vector X → ℕ → Type 0
Fits v n = length v.items + n ≤ v.capacity

bind_target-Points : (st i : ℕ) (d : OutParam) → Points st (i + 1) (bind_target st i d).target_value
unfolding bind_target
bind_target-Points st i (out_scalar k p) = tt
bind_target-Points st i (out_time p) = (refl, omega arith)
bind_target-Points st i (out_bytes a) = tt
bind_target-Points st i (out_chars a) = tt
bind_target-Points st i (out_wchars a) = tt

module _ (grow : ℕ → ℕ) where
  room-Fits : {X : Type 0} (v : Vector X) (n : ℕ) → Fits v (n + 1) → room grow v ≡ v
  unfolding room
  room-Fits v n h = rw (ne→not-== (length v.items) v.capacity (λ e. omega arith)) refl

  -- What a call keeps: the addresses, and the room for the calls that are still to come.
  abbrev Keeps : ℕ → ℕ → Stmt → Type 0
  Keeps n m s = IsCurrent s × Fits s.params n × Fits s.columns m

  bind_param_internal-Keeps :
      (out : Bool) (p : Param × ℕ) (s : Stmt) (n m : ℕ)
      → Keeps (n + 1) m s
      → Points s.params.storage (length s.params.items + 1) p.0.value_ptr
      → Keeps n m (bind_param_internal grow out p s)
  unfolding bind_param_internal emplace_back
  bind_param_internal-Keeps out p s n m (now, ps, cs) at = rw (room-Fits s.params n ps) (
    record {
      params_current = All-append _ s.bound_params _ now.params_current (at, (refl, omega arith));
      columns_current = now.columns_current;
    },
    omega (arith, length-append s.params.items (p.0 ∷ [])),
    cs,
  )

  bind_column-Keeps :
      (d : OutParam) (s : Stmt) (n m : ℕ) → Keeps n (m + 1) s → Keeps n m (bind_column grow d s)
  unfolding bind_column emplace_back
  bind_column-Keeps d s n m (now, ps, cs) = rw (room-Fits s.columns m cs) (
    record {
      params_current = now.params_current;
      columns_current =
          All-append _ s.bound_columns _ now.columns_current
            (bind_target-Points s.columns.storage (length s.columns.items) d, (refl, omega arith));
    },
    ps,
    omega (
      arith,
      length-append s.columns.items (bind_target s.columns.storage (length s.columns.items) d ∷ []),
    ),
  )

  -- The address of the entry that is made now.
  entry-Points :
      (v : Vector Param) (n : ℕ)
      → Fits v (n + 1)
      → Points v.storage (length v.items + 1) (stored (room grow v).storage (length v.items))
  entry-Points v n h = (ap (λ w. w.storage) (room-Fits v n h), omega arith)

  bind_out_param-Keeps :
      (d : OutParam) (s : Stmt) (n m : ℕ) → Keeps (n + 1) m s → Keeps n m (bind_out_param grow d s)
  unfolding bind_out_param
  bind_out_param-Keeps (out_scalar k p) s n m h = bind_param_internal-Keeps true _ s n m h tt
  bind_out_param-Keeps (out_time p) s n m h =
      bind_param_internal-Keeps true _ s n m h (entry-Points s.params n h.1)
  bind_out_param-Keeps (out_bytes a) s n m h = bind_param_internal-Keeps true _ s n m h tt
  bind_out_param-Keeps (out_chars a) s n m h = bind_param_internal-Keeps true _ s n m h tt
  bind_out_param-Keeps (out_wchars a) s n m h = bind_param_internal-Keeps true _ s n m h tt

  abbrev Ends : ℕ → ℕ → Outcome → Type 0
  Ends n m (bound s) = Keeps n m s
  Ends n m (bad_variant_access s) = ⊥

  bind-Ends :
      (b : Binding) (bs : List Binding) (s : Stmt)
      → IsNoBytes b
      → Keeps (params_of (b ∷ bs)) (columns_of (b ∷ bs)) s
      → Ends (params_of bs) (columns_of bs) (bind grow b s)
  unfolding bind bind_in_param params_of columns_of
  bind-Ends (input (in_scalar k x)) bs s ok h =
      bind_param_internal-Keeps false _ s _ _ h (entry-Points s.params _ h.1)
  bind-Ends (input (in_time d)) bs s ok h =
      bind_param_internal-Keeps false _ s _ _ h (entry-Points s.params _ h.1)
  bind-Ends (input (in_bytes a)) bs s ok h = absurd ok
  bind-Ends (input (in_chars a)) bs s ok h = bind_param_internal-Keeps false _ s _ _ h tt
  bind-Ends (input (in_wchars a)) bs s ok h = bind_param_internal-Keeps false _ s _ _ h tt
  bind-Ends (input (in_moved_bytes a)) bs s ok h = bind_param_internal-Keeps false _ s _ _ h tt
  bind-Ends (input (in_moved_chars a)) bs s ok h = bind_param_internal-Keeps false _ s _ _ h tt
  bind-Ends (input (in_moved_wchars a)) bs s ok h = bind_param_internal-Keeps false _ s _ _ h tt
  bind-Ends (output d) bs s ok h = bind_out_param-Keeps d s _ _ h
  bind-Ends (column d) bs s ok h = bind_column-Keeps d s _ _ h

  bind_all-Keeps :
      (bs : List Binding) (s : Stmt)
      → All IsNoBytes bs
      → Keeps (params_of bs) (columns_of bs) s
      → (s' : Stmt) × (bind_all grow bs s ≡ bound s') × IsCurrent s'
  unfolding bind_all params_of columns_of
  bind_all-Keeps [] s ok h = (s, refl, h.0)
  bind_all-Keeps (b ∷ bs) s ok h =
      elim (bind grow b s)
          as (λ o.
            Ends (params_of bs) (columns_of bs) o
            → (s' : Stmt) × (elim o [
              | bound s'' ↦ bind_all grow bs s''
              | bad_variant_access s'' ↦ bad_variant_access s''
            ]
                ≡ bound s')
              × IsCurrent s') [
                | bound s'' ↦ λ k. bind_all-Keeps bs s'' ok.1 k
                | bad_variant_access s'' ↦ λ k. absurd k
              ]
        (bind-Ends b bs s ok.0 h)

  stmt-IsCurrent : (p : ℕ) → IsCurrent (stmt grow p)
  unfolding stmt bind_out_param bind_param_internal emplace_back
  stmt-IsCurrent p = record { params_current = ((tt, (refl, refl)), tt); columns_current = tt }

  bind_all-append :
      (bs cs : List Binding) (s s' : Stmt)
      → bind_all grow bs s ≡ bound s'
      → bind_all grow (bs ++ cs) s ≡ bind_all grow cs s'
  unfolding bind_all
  bind_all-append [] cs s s' e = cc e
  bind_all-append (b ∷ bs) cs s s' e =
      elim (bind grow b s)
          as (λ o.
            (elim o [ bound t ↦ bind_all grow bs t | bad_variant_access t ↦ bad_variant_access t ])
              ≡ bound s'
            → (elim o [
              | bound t ↦ bind_all grow (bs ++ cs) t
              | bad_variant_access t ↦ bad_variant_access t
            ])
              ≡ bind_all grow cs s') [
                | bound t ↦ λ q. bind_all-append bs cs t s' q
                | bad_variant_access t ↦ λ q. cc q
              ]
        e

  -- If no more than 127 parameters and 128 columns are bound to a new statement, and no array of bytes by
  -- reference, then all are bound, and every address that the driver was given is one of a caller's memory or
  -- points into the entry of its number where the vector is now. Binding an array of bytes by reference next
  -- throws bad_variant_access, whatever would follow.
  pub bind_all-IsCurrent :
      (bs : List Binding) (p : ℕ)
      → All IsNoBytes bs
      → params_of bs ≤ 127
      → columns_of bs ≤ 128
      → (s' : Stmt) × (bind_all grow bs (stmt grow p) ≡ bound s')
        × IsCurrent s'
        × ((a : Array) (rest : List Binding)
            → (t : Stmt) × (bind_all grow (bs ++ input (in_bytes a) ∷ rest) (stmt grow p)
                ≡ bad_variant_access t))
  unfolding stmt bind_out_param bind_param_internal emplace_back bind bind_in_param bind_all
  bind_all-IsCurrent bs p ok ps cs =
      let (s', done, now) =
        bind_all-Keeps bs (stmt grow p) ok (stmt-IsCurrent p, omega arith, omega arith) in
      (
        s',
        done,
        now,
        λ a rest. (_, bind_all-append bs (input (in_bytes a) ∷ rest) (stmt grow p) s' done),
      )

  room-full :
      {X : Type 0} (v : Vector X)
      → length v.items ≡ v.capacity
      → (room grow v).storage ≡ v.storage + 1
  unfolding room
  room-full v full = rw (room, eq→== (length v.items) v.capacity full) refl

  -- One parameter more than there is room for moves the vector: the address in it that the driver has of the
  -- first parameter, the value that is returned, is no longer current.
  bind_out_param-full :
      (d : OutParam) (s : Stmt) (b : BoundParam) (bs : List BoundParam) (j : ℕ)
      → s.bound_params ≡ b ∷ bs
      → b.indicator ≡ stored s.params.storage j
      → length s.params.items ≡ s.params.capacity
      → ¬ IsCurrent (bind_out_param grow d s)
  unfolding bind_out_param bind_param_internal emplace_back
  bind_out_param-full d s b bs j first at full now =
      let st = (room grow s.params).storage in
      let h : All (IsCurrentParam st) (b ∷ bs) =
        subst (All (IsCurrentParam st)) first
          (All-front (IsCurrentParam st) s.bound_params _ now.params_current) in
      let k : Points st b.index (stored s.params.storage j) = subst (Points st b.index) at h.0.1 in
      absurd (omega (arith, k.0, room-full s.params full))
