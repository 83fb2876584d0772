-- ===== src/Network.antt =====
-- The connections of players (server/network).
pub mod Router
