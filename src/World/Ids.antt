-- ===== src/World/Ids.antt =====
-- The ids of objects and of sections: Source/Server/Model/UniqueId.cpp and UniqueId.h, and `Section::Id` of
-- Source/Server/Section/Section.h. A server's number is not negative. The parts of an id are in bits of their
-- own, so that `|` is a sum. `Persistent`'s union is little-endian.
mod Tests
use server.Base.{ℕ, ◌+◌, ◌*◌, ◌/◌, ◌%◌, ◌^◌, ◌<◌, ◌≡◌, ◌≢◌, ◌↔◌, arith, refl, ap, ◌⊎◌, inl, inr}

-- `fetch_add` of a 32-bit counter: what it returns, and the counter.
fetch_add : ℕ → ℕ × ℕ
fetch_add counter = (counter, (counter + 1) % 2 ^ 32)

-- `UniqueId::Internal`
pub internal : ℕ → ℕ → ℕ → ℕ
internal server_id timestamp auto_increment =
    server_id * 2 ^ 40 + timestamp * 2 ^ 16 + auto_increment

-- `UniqueId::Issue`, at a time in milliseconds: the id, and the counter.
pub issue : ℕ → ℕ → ℕ → ℕ × ℕ
unfolding fetch_add internal
issue server_id milliseconds counter =
    let (n, counter') = fetch_add counter in
    (internal server_id (milliseconds % 2 ^ 32 % 2 ^ 24) (n % 2 ^ 16), counter')

-- `Section::Id`, as a 64-bit number, and `Persistent`. A map's number is a 32-bit pattern.
pub section_id : ℕ → ℕ → ℕ
section_id map_uid auto_increment = map_uid + auto_increment * 2 ^ 32

unfoldable pub persistent : ℕ → ℕ
unfolding section_id
persistent map_uid = section_id map_uid 0

-- With a server's number below 2^15 an id is below 2^55, and is never that of another server. Two ids of one
-- server are equal exactly if their times are a multiple of 2^24 milliseconds apart and their counts a
-- multiple of 2^16.
pub issue_bounds :
    (server server' time time' counter counter' : ℕ)
    → server < 2 ^ 15
    → server' < 2 ^ 15
    → let id = (issue server time counter).0 in
      let id' = (issue server' time' counter').0 in
      (id < 2 ^ 55)
      × ((id ≡ id') ↔ (
          (server ≡ server')
          × (time % 2 ^ 24 ≡ time' % 2 ^ 24)
          × (counter % 2 ^ 16 ≡ counter' % 2 ^ 16)))
unfolding issue
issue_bounds server server' time time' counter counter' h h' =
    (omega arith, (λ e. (omega arith, omega arith, omega arith), λ (a, b, c). omega arith))
