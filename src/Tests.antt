-- ===== src/Tests.antt =====
-- Each theorem of the results list at a concrete input, and runs of the definitions.
mod Fills
mod Reports
mod Hooks
mod Runners
mod Guards
mod Buses
mod Feeds
mod Logs
mod Papers
mod Gate
mod Books
mod Orders
mod Polls
mod Crashes
mod Syncs
mod Retries
