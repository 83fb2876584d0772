-- ===== src/World.antt =====
-- The world and its map workers (server/world).
pub mod Transfer
