-- ===== src/Game.antt =====
-- The game systems (server/game).
pub mod State
pub mod Items
pub mod Trade
pub mod Decimal
pub mod MonsterFsm
pub mod Party
pub mod Progression
pub mod Death
pub mod Effects
pub mod Attack
