-- ===== src/System/Timer/Punctual.antt =====
-- No timer runs early.
use server.Base.{
  ℕ, zero, suc, ◌+◌, ◌-◌, ◌%◌, ◌≤◌, ◌<◌, ◌≡◌, refl, sym, ap, ap₂, ◌∙◌, subst, List, [], ◌∷◌, ◌++◌,
  some, length, arith, eq→==, ne→not-==, le→not-ltb, lt→ltb, ℕ_discrete, dec_lt, le→leb,
  Option-cases, inl, inr, some-injective,
}
use server.System.Timer.{
  TimerContext, ReserveItem, short_term_queue_length, set_queue, enqueue, reserve_at, reserve_all,
  drain, flush_queues, flush, flush_count, hotload,
}
use server.System.Timer.Wheel.{AllFrom, slot, due, flush-due}

-- All items of a list are for a tick at most.
abbrev pub AllBy : ℕ → List ReserveItem → Type 0
AllBy b [] = Unit
AllBy b (x ∷ xs) = (x.target_tick ≤ b) × AllBy b xs

AllBy-less : (b c : ℕ) (xs : List ReserveItem) → b ≤ c → AllBy b xs → AllBy c xs
AllBy-less b c [] h v = tt
AllBy-less b c (x ∷ xs) h v = (omega (arith, h, v.0), AllBy-less b c xs h v.1)

AllBy-append : (b : ℕ) (xs ys : List ReserveItem) → AllBy b xs → AllBy b ys → AllBy b (xs ++ ys)
AllBy-append b [] ys v w = w
AllBy-append b (x ∷ xs) ys v w = (v.0, AllBy-append b xs ys v.1 w)

-- The items in a queue are for the tick that the queue stands for, or earlier.
pub record IsPunctual (t : TimerContext) : Type 0 where
  pub inside : t.tick_index < short_term_queue_length
  pub by :
      (d : ℕ)
      → d < short_term_queue_length
      → AllBy (t.tick_base + d) (t.shorterm_queues (slot t.tick_index d))

enqueue-IsPunctual :
    (d : ℕ) (item : ReserveItem) (t : TimerContext)
    → IsPunctual t
    → d < short_term_queue_length
    → item.target_tick ≤ t.tick_base + d
    → IsPunctual (enqueue d item t)
unfolding enqueue
enqueue-IsPunctual d item t v h le = record {
  inside = v.inside;
  by = λ e l. elim (ℕ_discrete e d) [
    | yes p ↦ rw (eq→== (slot t.tick_index e) (slot t.tick_index d) (ap (slot t.tick_index) p)) (
        AllBy-append (t.tick_base + e) _ _
          (subst (λ x. AllBy (t.tick_base + x) (t.shorterm_queues (slot t.tick_index d))) (sym p)
            (v.by d h))
          (omega (arith, le, p), tt))
    | no p ↦
        rw (ne→not-== (slot t.tick_index e) (slot t.tick_index d) (omega (arith, p, l, h)))
          (v.by e l)
  ];
}

reserve_at-near :
    (item : ReserveItem) (t : TimerContext)
    → item.target_tick - t.tick_base < short_term_queue_length
    → reserve_at item t ≡ enqueue (item.target_tick - t.tick_base) item t
unfolding reserve_at enqueue
reserve_at-near item t near = ground (arith, near)

-- The index and the base stay, and no queue gets an item that is late for it.
abbrev Keeps : TimerContext → TimerContext → Type 0
Keeps t u = IsPunctual u × (u.tick_index ≡ t.tick_index) × (u.tick_base ≡ t.tick_base)

reserve_at-Keeps :
    (item : ReserveItem) (t : TimerContext) → IsPunctual t → Keeps t (reserve_at item t)
unfolding reserve_at enqueue
reserve_at-Keeps item t v = elim (dec_lt (item.target_tick - t.tick_base) short_term_queue_length) [
  | no far ↦
      rw (le→leb short_term_queue_length (item.target_tick - t.tick_base) (omega (arith, far)))
        (record { inside = v.inside; by = v.by }, refl, refl)
  | yes near ↦
      subst (Keeps t) (sym (reserve_at-near item t near)) (
        enqueue-IsPunctual (item.target_tick - t.tick_base) item t v near (omega arith),
        refl,
        refl,
      )
]

reserve_all-Keeps :
    (rs : List ReserveItem) (t : TimerContext) → IsPunctual t → Keeps t (reserve_all rs t)
unfolding reserve_all
reserve_all-Keeps [] t v = (v, refl, refl)
reserve_all-Keeps (r ∷ rs) t v =
    let (w, i, b) = reserve_at-Keeps r t v in
    let (x, j, c) = reserve_all-Keeps rs (reserve_at r t) w in (x, j ∙ i, c ∙ b)

dequeue-IsPunctual :
    (i : ℕ) (item : ReserveItem) (items : List ReserveItem) (t : TimerContext)
    → IsPunctual t
    → t.shorterm_queues i ≡ item ∷ items
    → IsPunctual (record t { shorterm_queues = set_queue i items t.shorterm_queues })
dequeue-IsPunctual i item items t v q = record {
  inside = v.inside;
  by = λ d l. elim (ℕ_discrete (slot t.tick_index d) i) [
    | yes p ↦
        let w : AllBy (t.tick_base + d) (item ∷ items) =
          subst (AllBy (t.tick_base + d)) (ap t.shorterm_queues p ∙ q) (v.by d l) in
        rw (eq→== (slot t.tick_index d) i p) w.1
    | no p ↦ rw (ne→not-== (slot t.tick_index d) i p) (v.by d l)
  ];
}

hotload-IsPunctual :
    (xs : List ReserveItem) (t : TimerContext) → IsPunctual t → IsPunctual (hotload xs t)
unfolding hotload
hotload-IsPunctual [] t v = record { inside = v.inside; by = v.by }
hotload-IsPunctual (x ∷ xs) t v = elim (dec_lt t.tick_base x.target_tick) [
  | yes later ↦
      rw (lt→ltb t.tick_base x.target_tick later) (record { inside = v.inside; by = v.by })
  | no now ↦ rw (le→not-ltb t.tick_base x.target_tick (omega (arith, now))) (
      hotload-IsPunctual xs (enqueue (x.target_tick - t.tick_base) x t)
        (enqueue-IsPunctual (x.target_tick - t.tick_base) x t v (omega (arith, now)) (omega arith)))
]

-- The base moves on, over queues in which items may be left.
advance-IsPunctual :
    (n : ℕ) (t : TimerContext)
    → IsPunctual t
    → IsPunctual (record t {
      tick_index = (t.tick_index + n) % short_term_queue_length;
      tick_base = t.tick_base + n;
    })
advance-IsPunctual n t v = record {
  inside = omega arith;
  by = λ d l.
      let e : ℕ = (d + n) % short_term_queue_length in
      let here : slot t.tick_index e ≡ slot ((t.tick_index + n) % short_term_queue_length) d =
        omega arith in
      subst (λ i. AllBy (t.tick_base + n + d) (t.shorterm_queues i)) here
        (AllBy-less (t.tick_base + e) (t.tick_base + n + d) _ (omega arith) (v.by e (omega arith)));
}

due-AllBy :
    (b k n d : ℕ) (t : TimerContext)
    → ((e : ℕ) → d ≤ e → e < d + n → AllBy b (t.shorterm_queues (slot k e)))
    → AllBy b (due k n d t)
unfolding due
due-AllBy b k zero d t v = tt
due-AllBy b k (suc n) d t v =
    AllBy-append b (t.shorterm_queues (slot k d)) (due k n (d + 1) t)
      (v d (omega arith) (omega arith))
      (due-AllBy b k n (d + 1) t (λ e g h. v e (omega (arith, g)) (omega (arith, h))))

module _ (run : ℕ → List ReserveItem) where
  drain-Keeps :
      (fuel i : ℕ) (items : List ReserveItem) (t : TimerContext) {log : List ReserveItem}
      {u : TimerContext}
      → IsPunctual t
      → t.shorterm_queues i ≡ items
      → drain run fuel i t ≡ some (log, u)
      → Keeps t u
  unfolding drain
  drain-Keeps zero i items t v q e = cc e
  drain-Keeps (suc fuel) i [] t {log} {u} v q e =
      let same : t ≡ u = ap (λ r. r.1) (some-injective ([], t) (log, u) (rw (q, drain) at e)) in
      subst (Keeps t) same (v, refl, refl)
  drain-Keeps (suc fuel) i (item ∷ items) t {log} {u} v q e =
      let t' : TimerContext = record t { shorterm_queues = set_queue i items t.shorterm_queues } in
      let (w, k, b) =
        reserve_all-Keeps (run item.func) t' (dequeue-IsPunctual i item items t v q) in
      let t'' : TimerContext = reserve_all (run item.func) t' in
      elim (Option-cases (drain run fuel i t'')) [
        | inl stuck ↦ cc (rw (q, stuck, drain) at e)
        | inr (r, drained) ↦
            let same : r.1 ≡ u =
              ap (λ x. x.1)
                (some-injective (item ∷ r.0, r.1) (log, u) (rw (q, drained, drain) at e)) in
            let (x, l, c) = drain-Keeps fuel i (t''.shorterm_queues i) t'' w refl drained in
            subst (Keeps t) same (x, l ∙ k, c ∙ b)
      ]

  flush_queues-Keeps :
      (fuel n i : ℕ) (t : TimerContext) {log : List ReserveItem} {u : TimerContext}
      → IsPunctual t
      → flush_queues run fuel n i t ≡ some (log, u)
      → Keeps t u
  unfolding flush_queues
  flush_queues-Keeps fuel zero i t {log} {u} v e =
      subst (Keeps t) (ap (λ r. r.1) (some-injective ([], t) (log, u) e)) (v, refl, refl)
  flush_queues-Keeps fuel (suc n) i t {log} {u} v e = elim (Option-cases (drain run fuel i t)) [
    | inl stuck ↦ cc (rw (stuck, flush_queues) at e)
    | inr (r, drained) ↦
        let (w, k, b) = drain-Keeps fuel i (t.shorterm_queues i) t v refl drained in
        elim (Option-cases (flush_queues run fuel n ((i + 1) % short_term_queue_length) r.1)) [
          | inl stuck ↦ cc (rw (drained, stuck, flush_queues) at e)
          | inr (s, flushed) ↦
              let same : s.1 ≡ u =
                ap (λ x. x.1)
                  (some-injective (r.0 ++ s.0, s.1) (log, u)
                    (rw (drained, flushed, flush_queues) at e)) in
              let (x, l, c) =
                flush_queues-Keeps fuel n ((i + 1) % short_term_queue_length) r.1 w flushed in
              subst (Keeps t) same (x, l ∙ k, c ∙ b)
        ]
  ]

  flush-keeps :
      (fuel now : ℕ) (t : TimerContext) {log : List ReserveItem} {u : TimerContext}
      → IsPunctual t
      → flush run fuel now t ≡ some (log, u)
      → IsPunctual u
  unfolding flush
  flush-keeps fuel now t {log} {u} v e = elim (ℕ_discrete (flush_count now t) 0) [
    | yes none_passed ↦
        subst IsPunctual
          (ap (λ r. r.1)
            (some-injective ([], t) (log, u)
              (rw (eq→== (flush_count now t) 0 none_passed, flush) at e)))
          v
    | no some_passed ↦
        let n = flush_count now t in
        elim (Option-cases (flush_queues run fuel n t.tick_index t)) [
          | inl stuck ↦ cc (rw (ne→not-== n 0 some_passed, stuck, flush) at e)
          | inr (r, flushed) ↦
              let (w, k, b) = flush_queues-Keeps fuel n t.tick_index t v flushed in
              let d : TimerContext = record r.1 {
                tick_index = (t.tick_index + n) % short_term_queue_length;
                tick_base = t.tick_base + n;
              } in
              let moved : IsPunctual d =
                subst
                  (λ (x : ℕ × ℕ). IsPunctual (record r.1 {
                    tick_index = (x.0 + n) % short_term_queue_length;
                    tick_base = x.1 + n;
                  }))
                  (ap₂ (λ x y. (x, y)) k b) (advance-IsPunctual n r.1 w) in
              let same : hotload (r.1).longterm_queue d ≡ u =
                ap (λ x. x.1)
                  (some-injective (r.0, hotload (r.1).longterm_queue d) (log, u)
                    (rw (ne→not-== n 0 some_passed, flushed, flush) at e)) in
              subst IsPunctual same (hotload-IsPunctual (r.1).longterm_queue d moved)
        ]
  ]

  -- If the functions that are executed reserve nothing for a tick before that of the flush, the index is one
  -- of the ring, and every item in a queue is in one of its tick or of a later one, then the flush ends, with
  -- fuel above the length of each queue that it goes through, executes no item before its tick, and leaves
  -- every item that is still in a queue in one of its tick or of a later one.
  pub flush-IsPunctual :
      (now fuel : ℕ) (t : TimerContext)
      → ((f : ℕ) → AllFrom now (run f))
      → IsPunctual t
      → ((d : ℕ) → d < flush_count now t → length (t.shorterm_queues (slot t.tick_index d)) < fuel)
      → (log : List ReserveItem) × (t' : TimerContext) × (flush run fuel now t ≡ some (log, t'))
        × AllBy now log
        × IsPunctual t'
  flush-IsPunctual now fuel t all v few =
      let (t', e, b) = flush-due run now fuel t all v.inside few in
      (
        _,
        t',
        e,
        due-AllBy now t.tick_index (flush_count now t) 0 t (λ d g h.
            AllBy-less (t.tick_base + d) now _ (omega (arith, h)) (v.by d (omega (arith, h)))),
        flush-keeps fuel now t v e,
      )
