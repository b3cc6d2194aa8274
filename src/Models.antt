-- ===== src/Models.antt =====
-- internal/models/models.go: the rows of the database, by subject.
pub mod Roles
pub mod Tickets
pub mod Knowledge
pub mod Automation
