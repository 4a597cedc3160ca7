-- ===== src/System/Dispatch/Tests.antt =====
-- A channel with one message, a worker that executes it, and two messages that are posted to no worker.
use server.Base.{suc, ◌+◌, ◌≡◌, refl, [], ◌∷◌, true, arith}
use server.System.Dispatch.{
  Channel, empty_channel, Steps, exchange, link, count_first, schedule, acquire, take, uncount,
  start, step,
}
use server.System.Dispatch.Wakeup.{lost_wakeup, attended, both_wait, IsIdle}
use server.System.Dispatch.Sharing.{second_worker}

abbrev one_waits : Channel
one_waits = record empty_channel {
  messages = record { message = 5; linked = true } ∷ [];
  posted = 5 ∷ [];
  count = 1;
  ready = 1;
}

abbrev one_runs : Channel
one_runs = record empty_channel { posted = 5 ∷ []; popped = 5 ∷ []; executing = 1 }

waits : Steps empty_channel one_waits
unfolding empty_channel
waits =
    step (step (step (step start (exchange 5)) (link [] [] 5 refl)) (count_first {u = 0} refl refl))
      (schedule {s = 0} refl)

runs : Steps empty_channel one_runs
unfolding empty_channel
runs =
    step (step (step waits (acquire {r = 0} refl)) (take {w = 0} {m = 5} {ms = []} refl refl))
      (uncount {t = 0} refl)

empty_channel-IsIdle : IsIdle empty_channel
unfolding empty_channel
empty_channel-IsIdle = record { empty = refl; nobody = refl; settled = refl }

lost_wakeup_example :
    Steps empty_channel (both_wait 1 2 empty_channel)
    × (attended (both_wait 1 2 empty_channel) ≡ 0)
    × ((both_wait 1 2 empty_channel).popped ≡ empty_channel.popped)
unfolding empty_channel
lost_wakeup_example = lost_wakeup 1 2 start empty_channel-IsIdle start (omega arith)

second_worker_example :
    (d : Channel) × Steps one_runs d
    × (d.executing ≡ suc 0)
    × (d.workers ≡ one_runs.workers + 1)
    × (d.messages ≡ record { message = 6; linked = true } ∷ [])
unfolding empty_channel
second_worker_example = second_worker 6 runs refl refl refl refl
