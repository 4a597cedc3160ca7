-- ===== src/System/Timer/Wheel.antt =====
-- What a flush of the timers runs.
use server.Base.{
  ℕ, zero, suc, ◌+◌, ◌-◌, ◌%◌, ◌≤◌, ◌<◌, ◌≡◌, ◌≢◌, refl, sym, ap, ap₂, ◌∙◌, List, [], ◌∷◌, ◌++◌,
  some, length, arith, eq→==, ne→not-==, le→not-ltb, lt→ltb, ℕ_discrete, dec_lt, le→leb,
}
use server.System.Timer.{
  TimerContext, ReserveItem, short_term_queue_length, set_queue, enqueue, reserve_at, reserve_all,
  drain, flush_queues, flush, flush_count, hotload,
}

-- The queue of an index from the base, when the base is at the index `k`.
abbrev pub slot : ℕ → ℕ → ℕ
slot k d = (d + k) % short_term_queue_length

-- The items of `n` queues from an index on.
unfoldable pub due : ℕ → ℕ → ℕ → TimerContext → List ReserveItem
due k zero d t = []
due k (suc n) d t = t.shorterm_queues (slot k d) ++ due k n (d + 1) t

-- The index and the base are the same, and the queues between two indexes.
pub record Beyond (k from n : ℕ) (t u : TimerContext) : Type 0 where
  pub index : u.tick_index ≡ t.tick_index
  pub base : u.tick_base ≡ t.tick_base
  pub same :
      (d : ℕ) → from ≤ d → d < n → u.shorterm_queues (slot k d) ≡ t.shorterm_queues (slot k d)

Beyond-trans :
    {k m n : ℕ} {t u v : TimerContext} → Beyond k m n t u → Beyond k m n u v → Beyond k m n t v
Beyond-trans a b = record {
  index = b.index ∙ a.index;
  base = b.base ∙ a.base;
  same = λ d g l. b.same d g l ∙ a.same d g l;
}

Beyond-less : {k m n p : ℕ} {t u : TimerContext} → m ≤ p → Beyond k m n t u → Beyond k p n t u
Beyond-less h a = record {
  index = a.index;
  base = a.base;
  same = λ d g l. a.same d (omega (arith, h, g)) l;
}

reserve_at-Beyond :
    (k n now : ℕ) (item : ReserveItem) (t : TimerContext)
    → t.tick_index ≡ k
    → n ≤ now - t.tick_base
    → now ≤ item.target_tick
    → Beyond k 0 n t (reserve_at item t)
unfolding reserve_at enqueue
reserve_at-Beyond k n now item t e h late =
    elim (dec_lt (item.target_tick - t.tick_base) short_term_queue_length) [
      | no far ↦
          rw (le→leb short_term_queue_length (item.target_tick - t.tick_base) (omega (arith, far)))
            (record { index = refl; base = refl; same = λ d g l. refl })
      | yes near ↦ record {
        index = ground (arith, near);
        base = ground (arith, near);
        same = λ d g l.
            let apart : slot k d
                ≢ (item.target_tick - t.tick_base + t.tick_index) % short_term_queue_length =
              omega (arith, l, near, h, e, late) in
            ground (arith, near, apart);
      }
    ]

-- All items of a list are for a tick at least.
abbrev pub AllFrom : ℕ → List ReserveItem → Type 0
AllFrom b [] = Unit {0}
AllFrom b (x ∷ xs) = (b ≤ x.target_tick) × AllFrom b xs

reserve_all-Beyond :
    (k n now : ℕ) (rs : List ReserveItem) (t : TimerContext)
    → t.tick_index ≡ k
    → n ≤ now - t.tick_base
    → AllFrom now rs
    → Beyond k 0 n t (reserve_all rs t)
unfolding reserve_all
reserve_all-Beyond k n now [] t e h late = record {
  index = refl;
  base = refl;
  same = λ d g l. refl;
}
reserve_all-Beyond k n now (r ∷ rs) t e h late =
    let b = reserve_at-Beyond k n now r t e h late.0 in
    Beyond-trans b (
      reserve_all-Beyond k n now rs (reserve_at r t) (b.index ∙ e) (omega (arith, h, b.base))
        late.1)

module _ (run : ℕ → List ReserveItem) where
  -- A queue among those that are flushed: its items are executed in order, and the queues of the flush
  -- that are left stay as they are, since what the functions reserve comes behind them.
  drain-Beyond :
      (k n c now fuel : ℕ) (items : List ReserveItem) (t : TimerContext)
      → ((f : ℕ) → AllFrom now (run f))
      → t.tick_index ≡ k
      → n ≤ now - t.tick_base
      → n ≤ short_term_queue_length
      → c < n
      → t.shorterm_queues (slot k c) ≡ items
      → length items < fuel
      → (u : TimerContext) × (drain run fuel (slot k c) t ≡ some (items, u))
        × Beyond k (c + 1) n t u
  unfolding drain
  drain-Beyond k n c now zero items t all e late small l q few = absurd (omega (arith, few))
  drain-Beyond k n c now (suc fuel) [] t all e late small l q few =
      (t, rw (q, drain) refl, record { index = refl; base = refl; same = λ d g h. refl })
  drain-Beyond k n c now (suc fuel) (item ∷ items) t all e late small l q few =
      let t' : TimerContext = record t {
        shorterm_queues = set_queue (slot k c) items t.shorterm_queues;
      } in
      let b = reserve_all-Beyond k n now (run item.func) t' e late (all item.func) in
      let t'' : TimerContext = reserve_all (run item.func) t' in
      let left : t'.shorterm_queues (slot k c) ≡ items =
        rw (eq→== (slot k c) (slot k c) refl) refl in
      let (u, r, w) =
        drain-Beyond k n c now fuel items t'' all (b.index ∙ e) (omega (arith, late, b.base)) small
          l (b.same c (omega arith) l ∙ left) (omega (arith, few)) in
      let taken : Beyond k (c + 1) n t t' = record {
        index = refl;
        base = refl;
        same = λ d g h. rw (ne→not-== (slot k d) (slot k c) (omega (arith, g, h, small))) refl;
      } in
      (u, rw (q, drain, r) refl, Beyond-trans taken (Beyond-trans (Beyond-less (omega arith) b) w))

  due-Beyond :
      (k n m : ℕ) (j c : ℕ) {t u : TimerContext}
      → Beyond k m n t u
      → m ≤ c
      → c + j ≤ n
      → due k j c u ≡ due k j c t
  unfolding due
  due-Beyond k n m zero c b g h = refl
  due-Beyond k n m (suc j) c {t} {u} b g h =
      ap₂ (λ x y. x ++ y) (b.same c g (omega (arith, h)))
        (due-Beyond k n m j (c + 1) {t = t} {u = u} b (omega (arith, g)) (omega (arith, h)))

  flush_queues-due :
      (k n now fuel j c : ℕ) (t : TimerContext)
      → ((f : ℕ) → AllFrom now (run f))
      → t.tick_index ≡ k
      → n ≤ now - t.tick_base
      → n ≤ short_term_queue_length
      → c + j ≡ n
      → ((d : ℕ) → c ≤ d → d < n → length (t.shorterm_queues (slot k d)) < fuel)
      → (u : TimerContext) × (flush_queues run fuel j (slot k c) t ≡ some (due k j c t, u))
        × (u.tick_index ≡ t.tick_index)
        × (u.tick_base ≡ t.tick_base)
  unfolding flush_queues due
  flush_queues-due k n now fuel zero c t all e late small l few = (t, refl, refl, refl)
  flush_queues-due k n now fuel (suc j) c t all e late small l few =
      let (t', r, b) =
        drain-Beyond k n c now fuel (t.shorterm_queues (slot k c)) t all e late small
          (omega (arith, l)) refl (few c (omega arith) (omega (arith, l))) in
      let (u, s, i, a) =
        flush_queues-due k n now fuel j (c + 1) t' all (b.index ∙ e) (omega (arith, late, b.base))
          small (omega (arith, l))
          (λ d g h. omega (arith, ap length (b.same d g h), few d (omega (arith, g)) h)) in
      let next : (slot k c + 1) % short_term_queue_length ≡ slot k (c + 1) = omega arith in
      (
        u,
        rw (r, flush_queues, next, s)
            (ap (λ l. some (t.shorterm_queues (slot k c) ++ l, u))
              (due-Beyond k n (c + 1) j (c + 1) b (omega arith) (omega (arith, l)))),
        i ∙ b.index,
        a ∙ b.base,
      )

  hotload-base : (xs : List ReserveItem) (t : TimerContext) → (hotload xs t).tick_base ≡ t.tick_base
  unfolding hotload enqueue
  hotload-base [] t = refl
  hotload-base (x ∷ xs) t = elim (dec_lt t.tick_base x.target_tick) [
    | yes later ↦ rw (lt→ltb t.tick_base x.target_tick later) refl
    | no now ↦
        rw (le→not-ltb t.tick_base x.target_tick (omega (arith, now)))
          (hotload-base xs (enqueue (x.target_tick - t.tick_base) x t))
  ]

  -- If the functions that are executed reserve nothing for a tick before that of the flush, and the index is
  -- one of the ring, the flush ends, with fuel above the length of each queue that it goes through. It executes the items of one queue for each millisecond that
  -- has passed, 1000 at most, in the order of the queues and in that of each queue, and moves the base on
  -- by as much.
  pub flush-due :
      (now fuel : ℕ) (t : TimerContext)
      → ((f : ℕ) → AllFrom now (run f))
      → t.tick_index < short_term_queue_length
      → ((d : ℕ) → d < flush_count now t → length (t.shorterm_queues (slot t.tick_index d)) < fuel)
      → (t' : TimerContext) × (flush run fuel now t
          ≡ some (due t.tick_index (flush_count now t) 0 t, t'))
        × (t'.tick_base ≡ t.tick_base + flush_count now t)
  unfolding flush due
  flush-due now fuel t all inside few = elim (ℕ_discrete (flush_count now t) 0) [
    | yes none_passed ↦ (
      t,
      rw (eq→== (flush_count now t) 0 none_passed, flush)
          (ap (λ n. some (due t.tick_index n 0 t, t)) (sym none_passed)),
      omega (arith, none_passed),
    )
    | no some_passed ↦
        let n = flush_count now t in
        let (u, s, i, b) =
          flush_queues-due t.tick_index n now fuel n 0 t all refl (omega arith) (omega arith)
            (omega arith) (λ d g h. few d h) in
        let first : slot t.tick_index 0 ≡ t.tick_index = omega (arith, inside) in
        let s' : flush_queues run fuel n t.tick_index t ≡ some (due t.tick_index n 0 t, u) =
          rw first at s in
        let d : TimerContext = record u {
          tick_index = (t.tick_index + n) % short_term_queue_length;
          tick_base = t.tick_base + n;
        } in
        (
          hotload u.longterm_queue d,
          rw (ne→not-== n 0 some_passed, flush, s') refl,
          hotload-base u.longterm_queue d,
        )
  ]
