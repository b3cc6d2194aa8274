-- ===== src/Tests.antt =====
-- Runs of the program on small inputs, on tables that are kept in memory.
mod Settings
mod Pages
mod Feeds
mod Sessions
mod Fixtures
mod Tickets
mod Access
mod Workers
mod Engine
mod Panel
mod Articles
mod Watching
