-- ===== src/Container.antt =====
-- The containers of Source/Core/Container.
pub mod LruCache
