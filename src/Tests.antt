-- ===== src/Tests.antt =====
-- The theorems at concrete inputs, and small runs of the models.
mod Breakers
mod Clients
mod Signals
mod Actions
mod Merges
mod Runs
mod Sessions
mod Agents
mod Likes
mod Tasks
mod Monitors
mod Waterfall
mod Scores
mod Imports
