-- ===== src/Tests.antt =====
-- The tests: each property at a concrete input.
mod Gate
mod Game
mod Tools
mod Cards
mod Http
mod Values
mod Html
mod Redis
mod Table
mod Lock
mod Animate
mod Endian
mod Rand
mod Errors
mod Mongo
mod Log
mod Weight
mod Guards
