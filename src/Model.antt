-- ===== src/Model.antt =====
-- ippop/api/model: users and nodes in Redis.
pub mod StructMap
pub mod Redis
pub mod Records
pub mod Store
pub mod Bind
pub mod MemoryRedis
pub mod Samples
