-- ===== src/System/Dispatch.antt =====
-- The scheduling of actors: Push and TryPop of a channel (Source/Core/System/Channel.cpp), the
-- workers' loop (run_for of ExecutionContext.cpp), and the channels a dispatcher hands out
-- (Dispatcher.cpp). The queue and its counter are those of Source/Core/Container/MPSC.h; what two threads do
-- there is ordered as if their memory were one, and the steps of the ready list are atomic.
pub mod Wakeup
pub mod Sharing
mod Tests
use server.Base.{
  Bool, true, false, ℕ, zero, suc, ◌+◌, ◌-◌, ◌*◌, ◌%◌, ◌≡◌, ◌≢◌, List, [], ◌∷◌, ◌++◌, Option,
  get_elem?, length, replicate, max,
}
use server.Network.Packet.{size_mod}

-- A node of the queue: its message, and whether the node in front of it points to it.
pub record Node : Type 0 where
  pub message : ℕ
  pub linked : Bool

-- One channel. `messages` waits in the queue; `posted` and `popped` are all that went in and came out.
-- The rest counts threads by where they stand: in Push between the queue's Push and
-- IncreaseNodeCount, and before Schedule; in run_for before a TryPop, in TryPop before `fetch_sub`,
-- and in a message's Execute. `ready` counts the channel's entries in `ready_channels_`. In the queue's
-- Push, between the exchange and the store of `next`, are as many threads as nodes are not linked.
pub record Channel : Type 0 where
  pub messages : List Node
  pub count : ℕ
  pub posted : List ℕ
  pub popped : List ℕ
  pub uncounted : ℕ
  pub to_schedule : ℕ
  pub ready : ℕ
  pub workers : ℕ
  pub taken : ℕ
  pub executing : ℕ

pub empty_channel : Channel
empty_channel = record {
  messages = [];
  count = 0;
  posted = [];
  popped = [];
  uncounted = 0;
  to_schedule = 0;
  ready = 0;
  workers = 0;
  taken = 0;
  executing = 0;
}

-- `TryPop` returns false: the node in front is not linked, or there is none.
abbrev pub IsStopped : List Node → Type 0
IsStopped [] = Unit {0}
IsStopped (n ∷ ns) = n.linked ≡ false

-- A step of one thread.
pub data Step (c : Channel) : Channel → Type 0 where
  -- `Channel::Push`: `message_queue_.Push`, the exchange of `_head` and the store of `next`
  exchange :
      (m : ℕ)
      → Step c (record c {
        messages = c.messages ++ record { message = m; linked = false } ∷ [];
        posted = c.posted ++ m ∷ [];
      })
  link :
      (before after : List Node) (m : ℕ)
      → c.messages ≡ before ++ (record { message = m; linked = false } ∷ after)
      → Step c (record c {
        messages = before ++ (record { message = m; linked = true } ∷ after);
        uncounted = c.uncounted + 1;
      })
  -- `IncreaseNodeCount(1) == 0`, and not
  count_first :
      {u : ℕ}
      → c.uncounted ≡ suc u
      → c.count ≡ 0
      → Step c (record c {
        count = (c.count + 1) % size_mod;
        uncounted = u;
        to_schedule = c.to_schedule + 1;
      })
  count_more :
      {u : ℕ}
      → c.uncounted ≡ suc u
      → c.count ≢ 0
      → Step c (record c { count = (c.count + 1) % size_mod; uncounted = u })
  -- `Dispatcher::Schedule`
  schedule :
      {s : ℕ} → c.to_schedule ≡ suc s → Step c (record c { to_schedule = s; ready = c.ready + 1 })
  -- `run_for`: `Dispatcher::TryPop` and BeginContext
  acquire : {r : ℕ} → c.ready ≡ suc r → Step c (record c { ready = r; workers = c.workers + 1 })
  -- `MPSCQueue::TryPop`: the message is taken off, and then off the count
  take :
      {w m : ℕ} {ms : List Node}
      → c.workers ≡ suc w
      → c.messages ≡ record { message = m; linked = true } ∷ ms
      → Step c (record c {
        workers = w;
        messages = ms;
        popped = c.popped ++ m ∷ [];
        taken = c.taken + 1;
      })
  uncount :
      {t : ℕ}
      → c.taken ≡ suc t
      → Step c (record c {
        taken = t;
        count = (c.count + size_mod - 1) % size_mod;
        executing = c.executing + 1;
      })
  -- `message->Execute()` returns
  execute :
      {e : ℕ} → c.executing ≡ suc e → Step c (record c { executing = e; workers = c.workers + 1 })
  -- `TryPop` returns false, and EndContext
  leave : {w : ℕ} → c.workers ≡ suc w → IsStopped c.messages → Step c (record c { workers = w })

pub data Steps (c : Channel) : Channel → Type 0 where
  start : Steps c c
  step : {d e : Channel} → Steps c d → Step d e → Steps c e

-- `Dispatcher`: a channel is named by the State that it points to.
pub record Dispatcher : Type 0 where
  pub counter : ℕ
  pub channels : List ℕ

pub max_channels_per_thread : ℕ
max_channels_per_thread = 128

-- The constructor: `assign` copies the one channel that it is given, whose State is `state`.
pub dispatcher : ℕ → ℕ → Dispatcher
unfolding max_channels_per_thread
dispatcher thread_pool_count state = record {
  counter = 0;
  channels = replicate (max_channels_per_thread * max 1 thread_pool_count) state;
}

-- `CreateChannel`; `none` stands for an index out of range.
pub create_channel : Dispatcher → Option ℕ × Dispatcher
create_channel d = (
  get_elem? d.channels (d.counter % length d.channels),
  record d { counter = (d.counter + 1) % size_mod },
)

pub create_channels : ℕ → Dispatcher → Dispatcher
create_channels zero d = d
create_channels (suc k) d = create_channels k (create_channel d).1
