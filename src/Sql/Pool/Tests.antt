-- ===== src/Sql/Pool/Tests.antt =====
-- A server that refuses the first two attempts.
use server.Base.{ℕ, ◌≡◌, refl, [], some, ltb, if◌then◌else◌}
use server.Sql.Pool.{Attempt, refused, connected, opened, idle, dequeue}

abbrev third : ℕ → Attempt
third i = if ltb i 2 then refused else connected

two_left : dequeue third (idle [] 0) ≡ (some opened, idle [] 3)
unfolding dequeue
two_left = refl
