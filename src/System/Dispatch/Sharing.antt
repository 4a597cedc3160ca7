-- ===== src/System/Dispatch/Sharing.antt =====
-- Two workers run one channel, and all channels are one.
use server.Base.{
  true, false, ℕ, zero, suc, ◌+◌, ◌*◌, ◌%◌, ◌<◌, ◌≡◌, refl, ap, [], ◌∷◌, ◌++◌, length, arith, max,
  some, get_elem?, replicate, length-replicate,
}
use native.Mathlib.Nat.{mod-lt}
use server.System.Dispatch.{
  Node, Channel, empty_channel, Steps, exchange, link, count_first, schedule, acquire, start, step,
  Dispatcher, dispatcher, create_channel, create_channels, max_channels_per_thread,
}
use server.System.Dispatch.Wakeup.{reachable-IsCounted, unlinked}

-- While a worker executes the last message of a channel, a Post puts the channel into the ready list
-- once more, and another worker enters its loop.
pub second_worker :
    {c : Channel} {w : ℕ} (m : ℕ)
    → Steps empty_channel c
    → c.executing ≡ suc w
    → c.messages ≡ []
    → c.taken ≡ 0
    → c.uncounted ≡ 0
    → (d : Channel) × Steps c d
      × (d.executing ≡ suc w)
      × (d.workers ≡ c.workers + 1)
      × (d.messages ≡ record { message = m; linked = true } ∷ [])
unfolding unlinked
second_worker {c} m r running drained taken settled =
    let i = reachable-IsCounted r in
    let zero_count : c.count ≡ 0 =
      omega (arith, i.counted, i.bounded, ap length drained, ap unlinked drained, taken, settled) in
    let sent : Node = record { message = m; linked = false } in
    let alone : c.messages ++ sent ∷ [] ≡ sent ∷ [] = ap (λ l. l ++ sent ∷ []) drained in
    (
      _,
      step
          (step
            (step (step (step start (exchange m)) (link [] [] m alone))
              (count_first {u = c.uncounted} (omega (arith, settled)) zero_count))
            (schedule {s = c.to_schedule} (omega arith)))
          (acquire {r = c.ready} (omega arith)),
      running,
      refl,
      refl,
    )

get_elem?-replicate : {A : Type 0} (n i : ℕ) (a : A) → i < n → get_elem? (replicate n a) i ≡ some a
get_elem?-replicate zero i a h = absurd (omega arith)
get_elem?-replicate (suc n) zero a h = refl
get_elem?-replicate (suc n) (suc i) a h = get_elem?-replicate n i a (omega arith)

create_channels-channels : (k : ℕ) (d : Dispatcher) → (create_channels k d).channels ≡ d.channels
unfolding create_channels create_channel
create_channels-channels zero d = refl
create_channels-channels (suc k) d = create_channels-channels k (create_channel d).1

-- Every channel that a dispatcher ever creates has the one State that its constructor made.
create_channel-dispatcher :
    (threads state k : ℕ)
    → (create_channel (create_channels k (dispatcher threads state))).0 ≡ some state
unfolding create_channel dispatcher max_channels_per_thread
create_channel-dispatcher threads state k =
    let d : Dispatcher = create_channels k (dispatcher threads state) in
    let n : ℕ = max_channels_per_thread * max 1 threads in
    let same : d.channels ≡ replicate n state =
      create_channels-channels k (dispatcher threads state) in
    rw same (
      get_elem?-replicate n (d.counter % length (replicate n state)) state
        (rw (length-replicate n state) (mod-lt d.counter {m = n} (omega arith))))
