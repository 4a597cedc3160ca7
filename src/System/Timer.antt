-- ===== src/System/Timer.antt =====
-- The timers of a context: Source/Core/System/TimerContext.cpp. Ticks are milliseconds, of a clock that
-- does not go back. `run f` lists what the function `f` reserves when it is executed, by ReserveAt or by
-- Reserve with the clock as it is then: each item's tick, which may be any, and its function.
pub mod Wheel
pub mod Punctual
mod Tests
use server.Base.{
  ℕ, zero, suc, ◌+◌, ◌-◌, ◌%◌, List, [], ◌∷◌, ◌++◌, Option, some, none, min, ltb, leb, ◌==◌,
  if◌then◌else◌,
}

-- `kShortTermQueueLength` and `kMaxFlushCount`
abbrev pub short_term_queue_length : ℕ
short_term_queue_length = 300000

abbrev max_flush_count : ℕ
max_flush_count = 1000

-- `ReserveItem` and `ReserveItemNode`
pub record ReserveItem : Type 0 where
  pub target_tick : ℕ
  pub func : ℕ

-- `shorterm_queues_` by index; `longterm_queue_` with its top first.
pub record TimerContext : Type 0 where
  pub tick_index : ℕ
  pub tick_base : ℕ
  pub shorterm_queues : ℕ → List ReserveItem
  pub longterm_queue : List ReserveItem

abbrev pub set_queue : ℕ → List ReserveItem → (ℕ → List ReserveItem) → ℕ → List ReserveItem
set_queue i items queues j = if j == i then items else queues j

push_longterm : ReserveItem → List ReserveItem → List ReserveItem
push_longterm item [] = item ∷ []
push_longterm item (x ∷ xs) =
    let rest = push_longterm item xs in
    if leb x.target_tick item.target_tick then x ∷ rest else item ∷ x ∷ xs

-- `Enqueue`, into the queue of an index from the base.
pub enqueue : ℕ → ReserveItem → TimerContext → TimerContext
enqueue index item t =
    let i = (index + t.tick_index) % short_term_queue_length in
    record t { shorterm_queues = set_queue i (t.shorterm_queues i ++ item ∷ []) t.shorterm_queues }

-- `ReserveAt`; the subtraction stops at zero, as the maximum with zero does.
pub reserve_at : ReserveItem → TimerContext → TimerContext
unfolding push_longterm enqueue
reserve_at item t =
    let index = item.target_tick - t.tick_base in
    if leb short_term_queue_length index
    then record t { longterm_queue = push_longterm item t.longterm_queue }
    else enqueue index item t

-- `Reserve`, at the tick `now`.
unfoldable reserve : ℕ → ℕ → ℕ → TimerContext → TimerContext
unfolding reserve_at
reserve now milliseconds f t = reserve_at (record { target_tick = now + milliseconds; func = f }) t

pub reserve_all : List ReserveItem → TimerContext → TimerContext
unfolding reserve_at
reserve_all [] t = t
reserve_all (r ∷ rs) t = reserve_all rs (reserve_at r t)

-- `HotloadFromLongTermQueue`, over the long-term queue: an item that is due goes into the first queue.
pub hotload : List ReserveItem → TimerContext → TimerContext
unfolding enqueue
hotload [] t = record t { longterm_queue = [] }
hotload (x ∷ xs) t =
    if ltb t.tick_base x.target_tick
    then record t { longterm_queue = x ∷ xs }
    else hotload xs (enqueue (x.target_tick - t.tick_base) x t)

-- How many queues a flush at a tick goes through.
abbrev pub flush_count : ℕ → TimerContext → ℕ
flush_count now t = min max_flush_count (now - t.tick_base)

module _ (run : ℕ → List ReserveItem) where
  -- `while (auto item = queue.Dequeue())`: the items that are executed, and the timers after them.
  -- `none` means that the fuel ran out.
  pub drain : ℕ → ℕ → TimerContext → Option (List ReserveItem × TimerContext)
  unfolding reserve_all
  drain zero i t = none
  drain (suc fuel) i t = elim (t.shorterm_queues i) [
    | [] ↦ some ([], t)
    | item ∷ items ↦
        elim (drain fuel i (
          reserve_all (run item.func)
            (record t { shorterm_queues = set_queue i items t.shorterm_queues }))) [
              | none ↦ none
              | some (log, t') ↦ some (item ∷ log, t')
            ]
  ]

  -- The `for` loop of `Flush`, for as many queues as are left.
  pub flush_queues : ℕ → ℕ → ℕ → TimerContext → Option (List ReserveItem × TimerContext)
  unfolding drain
  flush_queues fuel zero i t = some ([], t)
  flush_queues fuel (suc n) i t = elim (drain fuel i t) [
    | none ↦ none
    | some (log, t') ↦ elim (flush_queues fuel n ((i + 1) % short_term_queue_length) t') [
      | none ↦ none
      | some (logs, t'') ↦ some (log ++ logs, t'')
    ]
  ]

  -- `Flush`
  pub flush : ℕ → ℕ → TimerContext → Option (List ReserveItem × TimerContext)
  unfolding flush_queues hotload
  flush fuel now t =
      let n = flush_count now t in
      if n == 0 then some ([], t) else elim (flush_queues fuel n t.tick_index t) [
        | none ↦ none
        | some (log, t') ↦ some (
          log,
          hotload t'.longterm_queue (record t' {
            tick_index = (t.tick_index + n) % short_term_queue_length;
            tick_base = t.tick_base + n;
          }),
        )
      ]
