-- ===== src/Bashkit.antt =====
-- native/condukt_bashkit/src/lib.rs: the session of the virtual sandbox. `Bashkit/Session` has
-- its operations, and the other children what these use. The crate `bashkit` is a parameter.
pub mod Text
pub mod Pattern
pub mod Grep
pub mod Edit
pub mod Reply
pub mod Script
pub mod Session
mod Tests
