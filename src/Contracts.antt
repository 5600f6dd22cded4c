-- ===== src/Contracts.antt =====
-- contracts/: the data that the components exchange, and what the schemas check of it. A value of
-- a record below has the shape that its schema describes; `Raw` is what arrives from outside. Zod
-- itself (shape tests, dropped keys, error texts) is not modelled. A time is in milliseconds.
pub mod Identifiers
pub mod Task
pub mod State
pub mod Result
pub mod Review
pub mod Supervisor
