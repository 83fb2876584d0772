-- ===== src/Peakgo.antt =====
-- The packages of the server core (server/peakgo).
pub mod Timer
pub mod Fsm
pub mod RateLimit
pub mod Breaker
pub mod Codec
pub mod Anticheat
pub mod Threat
pub mod SkillData
pub mod Rng
pub mod Loot
pub mod Combat
pub mod Netio
