-- ===== src/World.antt =====
-- The world server of Source/Server.
pub mod Section
pub mod PlayerRepository
pub mod SpawnSystem
pub mod CollisionSystem
pub mod Session
pub mod SectionRepository
pub mod Ids
pub mod PlayerTick
pub mod LobbyGrpc
