-- ===== src/System/Timer/Tests.antt =====
-- Two items in the first queue; the first of them reserves a third when it is executed.
use server.Base.{
  ℕ, ◌+◌, ◌<◌, ◌≡◌, List, [], ◌∷◌, some, arith, length, ℕ_discrete, eq→==, ne→not-==, ◌==◌,
  if◌then◌else◌,
}
use server.System.Timer.{TimerContext, ReserveItem, flush, flush_count}
use server.System.Timer.Wheel.{AllFrom, due, slot, flush-due}
use server.System.Timer.Punctual.{AllBy, IsPunctual, flush-IsPunctual}

abbrev functions : ℕ → List ReserveItem
functions f = if f == 1 then record { target_tick = 102; func = 3 } ∷ [] else []

not_before : (f : ℕ) → AllFrom 102 (functions f)
not_before f = elim (ℕ_discrete f 1) [
  | yes p ↦ rw (eq→== f 1 p) (omega arith, tt)
  | no p ↦ rw (ne→not-== f 1 p) tt
]

abbrev timers : TimerContext
timers = record {
  tick_index = 0;
  tick_base = 100;
  shorterm_queues = λ i.
      if i == 0
      then record { target_tick = 100; func = 1 } ∷ record { target_tick = 100; func = 2 } ∷ []
      else [];
  longterm_queue = [];
}

few : (d : ℕ) → d < flush_count 102 timers → length (timers.shorterm_queues (slot 0 d)) < 3
few d l = ground arith

flush-due_example :
    (t' : TimerContext) × (flush functions 3 102 timers
      ≡ some (due 0 (flush_count 102 timers) 0 timers, t'))
    × (t'.tick_base ≡ timers.tick_base + flush_count 102 timers)
flush-due_example = flush-due functions 102 3 timers not_before (omega arith) few

timers-IsPunctual : IsPunctual timers
timers-IsPunctual = record {
  inside = omega arith;
  by = λ d l. elim (ℕ_discrete (slot 0 d) 0) [
    | yes p ↦ rw (eq→== (slot 0 d) 0 p) (omega arith, (omega arith, tt))
    | no p ↦ rw (ne→not-== (slot 0 d) 0 p) tt
  ];
}

flush-IsPunctual_example :
    (log : List ReserveItem) × (t' : TimerContext) × (flush functions 3 102 timers ≡ some (log, t'))
    × AllBy 102 log
    × IsPunctual t'
flush-IsPunctual_example = flush-IsPunctual functions 102 3 timers not_before timers-IsPunctual few
