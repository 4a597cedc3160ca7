-- ===== src/World/SpawnSystem/Client.antt =====
-- The player's character and its session: `set_client` of Source/Server/GameObject/Pc.cpp.
use server.Base.{ℕ, ◌≡◌, ◌≢◌, Option, some, none, arith, []}
use server.World.SpawnSystem.{Pc, SpawnSystem, spawn_pc, find_pc}

-- `WorldSession`, as a player's character reads it.
pub record Client : Type 0 where
  pub handle : ℕ
  pub character_id : ℕ
  pub server_id : ℕ
  pub session_id : ℕ

-- `std::move` of a `shared_ptr`: what is moved, and what is left in the variable.
pub move : Option Client → Option Client × Option Client
move c = (c, none)

read_ids : Option Client → Pc → Pc
read_ids none p = record p { character_id = 0; server_id = 0; session_id = 0 }
read_ids (some c) p = record p {
  character_id = c.character_id;
  server_id = c.server_id;
  session_id = c.session_id;
}

set_pointer : Option Client → Pc → Pc
set_pointer none p = record p { client = none }
set_pointer (some c) p = record p { client = some c.handle }

-- The parameter is tested after it has been moved from.
pub set_client : Option Client → Pc → Pc
unfolding move read_ids set_pointer
set_client client p = let (moved, client') = move client in read_ids client' (set_pointer moved p)

-- Whatever sessions two players' characters are given, once one of them has spawned in a section that had
-- none, the other changes nothing there: no client is told of it. And the one is found under no id but 0.
spawn_pc-set_client :
    (a b : Option Client) (p q : Pc) (s : SpawnSystem) (id : ℕ)
    → s.pcs ≡ []
    → id ≢ 0
    → let s' = (spawn_pc (set_client a p) s).1 in
      ((spawn_pc (set_client b q) s').1 ≡ s')
      × (find_pc 0 s' ≡ some (set_client a p))
      × (find_pc id s' ≡ none)
unfolding spawn_pc set_client find_pc
spawn_pc-set_client a b p q s id e ne = (ground arith, ground arith, ground arith)
