-- ===== src/Runtime.antt =====
-- What the operations of internal/eks run on: the tester's own state, the services that it calls
-- (the clients of internal/eks/tester.go's `embedded`), the clock, and the file of the last sync.
-- A method is an action of `M`: what it wrote before an error stays written.
pub mod Outside
pub mod Action
pub mod Poll
pub mod Good
pub mod Keeps
pub mod Always
pub mod Triple
pub mod Stage
pub mod Words
pub mod Time
pub mod Chain
