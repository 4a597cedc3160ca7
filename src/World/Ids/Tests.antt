-- ===== src/World/Ids/Tests.antt =====
-- Ids of server 3, one millisecond and one count apart.
use server.Base.{ℕ, ◌%◌, ◌^◌, ◌<◌, ◌≡◌, ◌↔◌, arith}
use server.World.Ids.{issue, issue_bounds}

issue_bounds_example :
    let id = (issue 3 1000 7).0 in
    let id' = (issue 3 1001 8).0 in
    (id < 2 ^ 55)
    × ((id ≡ id')
        ↔ ((◌≡◌ {A = ℕ} 3 3) × (1000 % 2 ^ 24 ≡ 1001 % 2 ^ 24) × (7 % 2 ^ 16 ≡ 8 % 2 ^ 16)))
issue_bounds_example = issue_bounds 3 3 1000 1001 7 8 (omega arith) (omega arith)
