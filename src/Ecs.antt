-- ===== src/Ecs.antt =====
-- The entity component system (server/ecs).
pub mod Entity
pub mod Store
pub mod Components
pub mod Registry
pub mod Accumulator
pub mod Commands
