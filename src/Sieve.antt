-- ===== src/Sieve.antt =====
-- backend/src/sieve/generator.rs: the Sieve script that a user's filter rules and out-of-office
-- responder become. Scripts are texts, written with the source's literals.
pub mod Quoting
pub mod Rules
pub mod Vacation
pub mod Dropped
pub mod Literal
pub mod Interval
mod Tests
