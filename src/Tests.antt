-- ===== src/Tests.antt =====
-- Runs at small inputs, and an instance of each theorem at one of them.
mod Transfer
mod Loads
mod Requests
mod Deltas
mod Checklists
mod Crawls
mod Landings
mod FolderMaps
mod Sessions
mod Jobs
mod Tables
