-- ===== src/Acl.antt =====
-- acl.py and acl_handlers.py: access rules, their conditions, and the decision.
pub mod Values
pub mod Rules
pub mod Handlers
pub mod Conditions
pub mod Check
pub mod Information
pub mod Resolving
pub mod FailSafe
pub mod Store
pub mod Decision
pub mod Allowing
pub mod Shape
pub mod Doors
pub mod BothWays
mod Tests
