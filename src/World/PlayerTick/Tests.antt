-- ===== src/World/PlayerTick/Tests.antt =====
-- Two sessions begin, one of them twice, and one ends.
use server.Base.{ℕ, suc, ◌≡◌, refl, arith, List, [], ◌∷◌, some, none}
use server.World.PlayerTick.{
  Post, begin_tick, end_tick, IsTicking, player_tick, receive_all, receive_all-wanted, times,
  wanted,
}

abbrev posts : List Post
posts =
    begin_tick (some 4)
    ∷ begin_tick (some 7)
    ∷ begin_tick (some 4)
    ∷ begin_tick none
    ∷ end_tick (some 4)
    ∷ []

player_tick-IsTicking : IsTicking suc player_tick
unfolding IsTicking player_tick times
player_tick-IsTicking s = refl

receive_all-wanted_example :
    IsTicking suc (receive_all suc posts player_tick)
    × ((s : ℕ)
        → times s (receive_all suc posts player_tick).world_sessions
          ≡ wanted posts s (times s player_tick.world_sessions))
receive_all-wanted_example =
    receive_all-wanted suc (λ s a e. omega (arith, e)) posts player_tick player_tick-IsTicking

posts_left : (receive_all suc posts player_tick).world_sessions ≡ 7 ∷ []
unfolding receive_all player_tick
posts_left = refl
