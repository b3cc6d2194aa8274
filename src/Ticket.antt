-- ===== src/Ticket.antt =====
-- internal/service: tickets.
pub mod StateMachine
pub mod Desk
pub mod Lifecycle
pub mod Edits
pub mod Requests
pub mod History
