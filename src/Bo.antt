-- ===== src/Bo.antt =====
-- src/tbm_bufmgr.c: buffer objects, their locks, their user data and their references.
pub mod State
pub mod UserData
pub mod Lock
pub mod Life
pub mod Alloc
pub mod Init
pub mod Balance
pub mod Farewell
pub mod Kept
pub mod Steps
pub mod Reach
pub mod Import
pub mod InitCount
pub mod Once
pub mod Private
pub mod Keys
pub mod KeyOps
pub mod KeyRuns
pub mod Examples
mod ListExamples
